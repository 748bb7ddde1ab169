-- ===== src/Write/Guard/Granted.antt =====
-- write/guard.go, `Authorize` as a whole: a write that is let go, and what every answer leaves alone.
use eve_online_mcp.Prelude.{
  ℕ, ◌≡◌, refl, sym, ◌∙◌, ap, subst, inl, inr, String, Bool, true, false, none, some, Bool-cases,
  str_eq,
}
use eve_online_mcp.Domain.{Error, mail_hold_abandoned}
use eve_online_mcp.Store.{World, Result, ok, err}
use eve_online_mcp.Repo.Confirms
use eve_online_mcp.Write.Policy.{cap_mail_send}
use eve_online_mcp.Write.Summary.{Args}
use eve_online_mcp.Write.Guard.Monad.{Guard, lift, g_pure, g_raise, ◌>>=◌}
use eve_online_mcp.Write.Guard.{
  gate_mail_cap, confirm_of, preview_of, conclude, decide, confirm_write, preview_write,
  consume_confirm, authorize, authorize_gated, check_capability, check_scope, drop_hold, Authz,
  Decision,
}
use eve_online_mcp.Write.Guard.Frames.{
  put-Inert, g_resume-ok, consume_confirm-Quiet, check_capability-Quiet, check_scope-Quiet,
  drop_hold-Mild, drop_hold-idle, Mild-of_Quiet, lift-Quiet, Keeps, Mild, Quiet, Mild-Frame,
  Quiet-Frame, bind-Keeps,
}
use eve_online_mcp.Write.Guard.Cap.{gate_mail_cap-Mild, Gated, gate_mail_cap-Gated}

pub conclude-ok :
    (r : Result (Unit {0})) (s : Guard × World) → (conclude r s).0 ≡ ok none → (conclude r s).1 ≡ s
unfolding conclude drop_hold
conclude-ok (ok _) s e = refl
conclude-ok (err x) s e = cc

pub conclude-done :
    (r : Result (Unit {0})) (s : Guard × World) → (conclude r s).0 ≡ ok none → r ≡ ok tt
unfolding conclude drop_hold
conclude-done (ok _) s e = refl
conclude-done (err x) s e = cc

confirm_write-Quiet :
    (in_ : Authz) (d : String) (s : Guard × World)
    → (confirm_write in_ d s).0 ≡ ok none
    → Quiet s (confirm_write in_ d s).1
unfolding confirm_write
confirm_write-Quiet in_ d s e =
    let r = consume_confirm in_.tool d in_.token s in
    subst (Quiet s) (sym (conclude-ok r.0 r.1 e)) (consume_confirm-Quiet in_.tool d in_.token s)

pub preview_write-ne-none :
    (fresh : String) (in_ : Authz) (d : String) (s : Guard × World)
    → (preview_write fresh in_ d s).0 ≡ ok none
    → ⊥
unfolding preview_write
preview_write-ne-none fresh in_ d (g, w) e =
    let (a, put, rest) =
      g_resume-ok (lift (Confirms.put (confirm_of fresh g w.now in_ d)) (g, w))
        (λ _. g_pure (some (preview_of fresh in_))) e in
    cc (e)

-- A write is let go at its end only by a token, and then the guard keeps its hold.
pub decide-Quiet :
    (fresh : String) (in_ : Authz) (r : Result String) (s : Guard × World)
    → (decide fresh in_ r s).0 ≡ ok none
    → (str_eq in_.token "" ≡ false) × Quiet s (decide fresh in_ r s).1
unfolding decide drop_hold
decide-Quiet fresh in_ (err x) s e = absurd (cc)
decide-Quiet fresh in_ (ok d) s e = elim (Bool-cases (str_eq in_.token "")) [
  | inl blank ↦ absurd (preview_write-ne-none fresh in_ d s (rw blank at e))
  | inr given ↦ (given, rw given (confirm_write-Quiet in_ d s (rw given at e)))
]

-- A write that is let go: the log is as it was, and a mail has a hold that is ready.
pub record Granted (in_ : Authz) (s t : Guard × World) : Type 0 where
  pub mild : Mild s t
  pub gated : Gated (str_eq in_.capability cap_mail_send) s.0.character_id t

Gated-of_Quiet : (b : Bool) (c : ℕ) {s t : Guard × World} → Quiet s t → Gated b c s → Gated b c t
Gated-of_Quiet true c q (h, held, ready) = (
  h,
  ap (λ g. g.mail_hold) q.guard ∙ held,
  record {
    own = ready.own;
    fresh = ready.fresh;
    room = rw (q.logged.log) (ready.room);
    timed = ready.timed ∙ sym q.logged.clock;
  },
)
Gated-of_Quiet false c q idle = ap (λ g. g.mail_hold) q.guard ∙ idle

module _ (digest : Args → Result String) where
  -- An authorisation outside a transaction that lets a write go ahead has written no audit row. Its
  -- guard holds a place of its character in the hour, with room for one mail more, if the
  -- capability is that of sending mail, and else it holds none.
  pub authorize-Granted :
      (fresh : String) (in_ : Authz) (g : Guard) (w : World)
      → w.in_tx ≡ false
      → (authorize digest fresh in_ (g, w)).0 ≡ ok none
      → Granted in_ (g, w) (authorize digest fresh in_ (g, w)).1
  unfolding authorize authorize_gated
  authorize-Granted fresh in_ g w out e =
      let k3 = λ (_ : Unit {0}). authorize_gated digest fresh in_ in
      let k2 = λ (_ : Unit {0}). gate_mail_cap in_ >>= k3 in
      let k1 = λ (_ : Unit {0}). check_scope in_.capability in_.scopes >>= k2 in
      let k0 = λ (_ : Unit {0}). check_capability in_.capability >>= k1 in
      let r0 = drop_hold mail_hold_abandoned (g, w) in
      let (_, _, e0) = g_resume-ok r0 k0 e in
      let r1 = check_capability in_.capability r0.1 in
      let (_, _, e1) = g_resume-ok r1 k1 (ap (λ r. r.0) (sym e0) ∙ e) in
      let r2 = check_scope in_.capability in_.scopes r1.1 in
      let (_, _, e2) = g_resume-ok r2 k2 (ap (λ r. r.0) (sym (e0 ∙ e1)) ∙ e) in
      let r3 = gate_mail_cap in_ r2.1 in
      let (_, ok3, e3) = g_resume-ok r3 k3 (ap (λ r. r.0) (sym (e0 ∙ e1 ∙ e2)) ∙ e) in
      let path = e0 ∙ e1 ∙ e2 ∙ e3 in
      let (given, quiet) =
        decide-Quiet fresh in_ (digest in_.args) r3.1 (ap (λ r. r.0) (sym path) ∙ e) in
      let m0 = drop_hold-Mild mail_hold_abandoned (g, w) in
      let q1 = check_capability-Quiet in_.capability r0.1 in
      let q2 = Quiet-Frame.join _ _ _ q1 (check_scope-Quiet in_.capability in_.scopes r1.1) in
      let m2 = Mild-Frame.join _ _ _ m0 (Mild-of_Quiet q2) in
      let m3 = Mild-Frame.join _ _ _ m2 (gate_mail_cap-Mild in_ r2.1) in
      let gated =
        gate_mail_cap-Gated in_ r2.1.0 r2.1.1 (m2.logged.tx ∙ out)
          (ap (λ x. x.mail_hold) q2.guard ∙ drop_hold-idle mail_hold_abandoned (g, w)) given ok3 in
      subst (Granted in_ (g, w)) (ap (λ r. r.1) (sym path)) (record {
        mild = Mild-Frame.join _ _ _ m3 (Mild-of_Quiet quiet);
        gated =
            Gated-of_Quiet (str_eq in_.capability cap_mail_send) g.character_id quiet
              (subst (λ c. Gated (str_eq in_.capability cap_mail_send) c r3.1) m2.owner gated);
      })

drop_then-Mild :
    (e x : Error) → Keeps Mild (drop_hold e >>= λ (_ : Unit {0}). g_raise {A = Decision} x)
drop_then-Mild e x =
    bind-Keeps Mild-Frame (drop_hold e) (λ _. g_raise {A = Decision} x) (drop_hold-Mild e)
      (λ _ s. Mild-Frame.stay s)

conclude-Mild : (r : Result (Unit {0})) → Keeps Mild (conclude r)
unfolding conclude
conclude-Mild (ok _) = λ s. Mild-Frame.stay s
conclude-Mild (err e) = drop_then-Mild e e

preview_write-Mild :
    (fresh : String) (in_ : Authz) (d : String) → Keeps Mild (preview_write fresh in_ d)
unfolding preview_write
preview_write-Mild fresh in_ d (g, w) =
    bind-Keeps Mild-Frame (lift (Confirms.put (confirm_of fresh g w.now in_ d)))
      (λ _. g_pure (some (preview_of fresh in_)))
      (λ s.
        Mild-of_Quiet (lift-Quiet (Confirms.put (confirm_of fresh g w.now in_ d)) (put-Inert _) s))
      (λ _ s. Mild-Frame.stay s) (g, w)

decide-Mild : (fresh : String) (in_ : Authz) (r : Result String) → Keeps Mild (decide fresh in_ r)
unfolding decide confirm_write
decide-Mild fresh in_ (err x) = drop_then-Mild x x
decide-Mild fresh in_ (ok d) = λ s. elim (Bool-cases (str_eq in_.token "")) [
  | inl blank ↦ rw blank (preview_write-Mild fresh in_ d s)
  | inr given ↦
      let r = consume_confirm in_.tool d in_.token s in
      rw given (
        Mild-Frame.join s r.1 _ (Mild-of_Quiet (consume_confirm-Quiet in_.tool d in_.token s))
          (conclude-Mild r.0 r.1))
]

module _ (digest : Args → Result String) where
  -- Whatever it answers, an authorisation writes no audit row.
  pub authorize-Mild : (fresh : String) (in_ : Authz) → Keeps Mild (authorize digest fresh in_)
  unfolding authorize authorize_gated
  authorize-Mild fresh in_ =
      let k3 = λ (_ : Unit {0}). authorize_gated digest fresh in_ in
      let k2 = λ (_ : Unit {0}). gate_mail_cap in_ >>= k3 in
      let k1 = λ (_ : Unit {0}). check_scope in_.capability in_.scopes >>= k2 in
      let k0 = λ (_ : Unit {0}). check_capability in_.capability >>= k1 in
      bind-Keeps Mild-Frame (drop_hold mail_hold_abandoned) k0 (drop_hold-Mild mail_hold_abandoned)
        (λ _.
          bind-Keeps Mild-Frame (check_capability in_.capability) k1
            (λ s. Mild-of_Quiet (check_capability-Quiet in_.capability s))
            (λ _.
              bind-Keeps Mild-Frame (check_scope in_.capability in_.scopes) k2
                (λ s. Mild-of_Quiet (check_scope-Quiet in_.capability in_.scopes s))
                (λ _.
                  bind-Keeps Mild-Frame (gate_mail_cap in_) k3 (gate_mail_cap-Mild in_)
                    (λ _. decide-Mild fresh in_ (digest in_.args)))))
