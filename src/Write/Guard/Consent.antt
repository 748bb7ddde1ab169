-- ===== src/Write/Guard/Consent.antt =====
-- The confirm cycle of write/guard.go: what a confirmed write has behind it, and what it uses up.
use eve_online_mcp.Prelude.{
  ℕ, ◌+◌, ◌≤◌, ◌≡◌, ◌≢◌, refl, sym, ◌∙◌, ap, subst, inl, inr, String, Bool, none, some, arith,
  Bool-cases, str_eq, find?, find?-remove_if, remove_if, eq_iff,
}
use eve_online_mcp.Domain.{Confirm, mail_hold_abandoned}
use eve_online_mcp.Store.{Db, World, Result, ok, err, sql}
use eve_online_mcp.Repo.Confirms
use eve_online_mcp.Repo.Confirms.{has_token}
use eve_online_mcp.Write.Policy.{confirm_ttl}
use eve_online_mcp.Write.Summary.{Args}
use eve_online_mcp.Write.Guard.Monad.{Guard, lift, g_raise, ◌>>=◌}
use eve_online_mcp.Write.Guard.{
  Authz, authorize, authorize_gated, decide, confirm_write, drop_hold, check_capability,
  check_scope, gate_mail_cap, verdict, Verdict, pass, refuse, discard, enforce, judge_confirm,
  found_confirm, pending_confirm, consume_confirm,
}
use eve_online_mcp.Write.Guard.Frames.{g_resume-ok}
use eve_online_mcp.Write.Guard.Still.{
  Still, Still-Frame, drop_hold-Still, check_capability-Still, check_scope-Still,
  gate_mail_cap-Still,
}
use eve_online_mcp.Write.Guard.Granted.{conclude-ok, conclude-done, preview_write-ne-none}

-- The row that stands behind a yes: of this session, this tool and these arguments, and in time.
pub record Consents (g : Guard) (now : ℕ) (tool digest : String) (c : Confirm) : Type 0 where
  pub session : c.session_id ≡ g.session_id
  pub in_time : now ≤ c.created_at + confirm_ttl
  pub same_tool : c.tool ≡ tool
  pub same_args : c.args_digest ≡ digest

pub verdict-Consents :
    (g : Guard) (now : ℕ) (c : Confirm) (tool digest : String)
    → verdict g now c tool digest ≡ pass
    → Consents g now tool digest c
unfolding verdict
verdict-Consents g now c tool digest e =
    ground (arith, eq_iff c.tool tool, eq_iff c.args_digest digest)

get-ok :
    (token : String) (w : World) (c : Confirm)
    → (Confirms.get token w).0 ≡ ok c
    → (find? (has_token token) w.db.confirms ≡ some c)
      × ((Confirms.get token w).1.db ≡ w.db)
      × ((Confirms.get token w).1.now ≡ w.now)
unfolding Confirms.get Confirms.get_sql sql
get-ok token w c e = ground arith

delete-ok :
    (token : String) (w : World)
    → (Confirms.delete token w).0 ≡ ok tt
    → (Confirms.delete token w).1.db
      ≡ record (w.db) { confirms = remove_if (has_token token) w.db.confirms }
unfolding Confirms.delete Confirms.delete_sql sql
delete-ok token w e = ground arith

found_confirm-ok :
    (r : Result Confirm) (s : Guard × World) (c : Confirm)
    → (found_confirm r s).0 ≡ ok c
    → (r ≡ ok c) × ((found_confirm r s).1 ≡ s)
unfolding found_confirm
found_confirm-ok (ok d) s c e = (e, refl)
found_confirm-ok (err x) s c e = cc

enforce-ok :
    (token : String) (v : Verdict) (g : Guard) (w : World)
    → (enforce token v (g, w)).0 ≡ ok tt
    → (v ≡ pass)
      × ((Confirms.delete token w).0 ≡ ok tt)
      × ((enforce token v (g, w)).1 ≡ (g, (Confirms.delete token w).1))
unfolding enforce
enforce-ok token pass g w e = (refl, e, refl)
enforce-ok token (refuse x) g w e = cc
enforce-ok token (discard x) g w e =
    let (_, _, p) =
      g_resume-ok (lift (Confirms.delete token) (g, w)) (λ _. g_raise {A = Unit {0}} x) e in
    cc (e)

-- A token that is consumed was the session's own consent, in time, to this tool with these
-- arguments; its row is deleted and no other is touched.
pub record Consumed (g : Guard) (tool digest token : String) (w w' : World) : Type 0 where
  pub row : Confirm
  pub found : find? (has_token token) w.db.confirms ≡ some row
  pub consents : Consents g w.now tool digest row
  pub rows : w'.db ≡ record (w.db) { confirms = remove_if (has_token token) w.db.confirms }

pub consume_confirm-Consumed :
    (tool digest token : String) (g : Guard) (w : World)
    → (consume_confirm tool digest token (g, w)).0 ≡ ok tt
    → Consumed g tool digest token w (consume_confirm tool digest token (g, w)).1.1
unfolding consume_confirm pending_confirm judge_confirm
consume_confirm-Consumed tool digest token g w e =
    let r0 = pending_confirm token (g, w) in
    let (c, got, p0) = g_resume-ok r0 (judge_confirm tool digest token) e in
    let m = Confirms.get token w in
    let (seen, same) = found_confirm-ok m.0 (g, m.1) c got in
    let (hit, rows, clock) = get-ok token w c seen in
    let path = p0 ∙ ap (judge_confirm tool digest token c) same in
    let (passed, gone, p1) =
      enforce-ok token (verdict g m.1.now c tool digest) g m.1 (ap (λ r. r.0) (sym path) ∙ e) in
    let after = ap (λ r. r.1.1.db) path ∙ ap (λ s. s.1.db) p1 ∙ delete-ok token m.1 gone in
    record {
      row = c;
      found = hit;
      consents =
          verdict-Consents g w.now c tool digest
            (subst (λ t. verdict g t c tool digest ≡ pass) clock passed);
      rows =
          after
          ∙ ap (λ (d : Db). record d { confirms = remove_if (has_token token) d.confirms }) rows;
    }

module _ (digest : Args → Result String) where
  -- A write that is let go: the digest of its arguments was taken, and its token was consumed.
  pub record Confirmed (in_ : Authz) (g : Guard) (w w' : World) : Type 0 where
    pub args_digest : String
    pub digested : digest in_.args ≡ ok args_digest
    pub consumed : Consumed g in_.tool args_digest in_.token w w'

  confirm_write-Consumed :
      (in_ : Authz) (d : String) (g : Guard) (w : World)
      → (confirm_write in_ d (g, w)).0 ≡ ok none
      → Consumed g in_.tool d in_.token w (confirm_write in_ d (g, w)).1.1
  unfolding confirm_write
  confirm_write-Consumed in_ d g w e =
      let r = consume_confirm in_.tool d in_.token (g, w) in
      subst (λ s. Consumed g in_.tool d in_.token w s.1) (sym (conclude-ok r.0 r.1 e))
        (consume_confirm-Consumed in_.tool d in_.token g w (conclude-done r.0 r.1 e))

  decide-Confirmed :
      (fresh : String) (in_ : Authz) (r : Result String) (g : Guard) (w : World)
      → digest in_.args ≡ r
      → (decide fresh in_ r (g, w)).0 ≡ ok none
      → Confirmed in_ g w (decide fresh in_ r (g, w)).1.1
  unfolding decide drop_hold
  decide-Confirmed fresh in_ (err x) g w dr e = absurd (cc)
  decide-Confirmed fresh in_ (ok d) g w dr e = elim (Bool-cases (str_eq in_.token "")) [
    | inl blank ↦ absurd (preview_write-ne-none fresh in_ d (g, w) (rw blank at e))
    | inr given ↦ record {
      args_digest = d;
      digested = dr;
      consumed = rw given (confirm_write-Consumed in_ d g w (rw given at e));
    }
  ]

  Consumed-of_Still :
      {tool d token : String} {s t : Guard × World} {w' : World}
      → Still s t
      → Consumed t.0 tool d token t.1 w'
      → Consumed s.0 tool d token s.1 w'
  Consumed-of_Still {tool} {d} {token} {s} {t} {w'} p q = record {
    row = q.row;
    found = ap (λ (x : Db). find? (has_token token) x.confirms) (sym p.same.rows) ∙ q.found;
    consents = record {
      session = q.consents.session ∙ p.session;
      in_time = subst (λ n. n ≤ q.row.created_at + confirm_ttl) p.same.clock q.consents.in_time;
      same_tool = q.consents.same_tool;
      same_args = q.consents.same_args;
    };
    rows =
        q.rows
        ∙ ap (λ (x : Db). record x { confirms = remove_if (has_token token) x.confirms })
            p.same.rows;
  }

  -- A write goes ahead only on a consent of its own session, not older than 300 seconds, to the
  -- same tool with arguments of the same digest; the consent's token is deleted, and nothing else
  -- in the database changes.
  pub authorize-Confirmed :
      (fresh : String) (in_ : Authz) (g : Guard) (w : World)
      → (authorize digest fresh in_ (g, w)).0 ≡ ok none
      → Confirmed in_ g w (authorize digest fresh in_ (g, w)).1.1
  unfolding authorize authorize_gated
  authorize-Confirmed fresh in_ g w e =
      let k3 = λ (_ : Unit {0}). authorize_gated digest fresh in_ in
      let k2 = λ (_ : Unit {0}). gate_mail_cap in_ >>= k3 in
      let k1 = λ (_ : Unit {0}). check_scope in_.capability in_.scopes >>= k2 in
      let k0 = λ (_ : Unit {0}). check_capability in_.capability >>= k1 in
      let r0 = drop_hold mail_hold_abandoned (g, w) in
      let (_, _, e0) = g_resume-ok r0 k0 e in
      let r1 = check_capability in_.capability r0.1 in
      let (_, _, e1) = g_resume-ok r1 k1 (ap (λ r. r.0) (sym e0) ∙ e) in
      let r2 = check_scope in_.capability in_.scopes r1.1 in
      let (_, _, e2) = g_resume-ok r2 k2 (ap (λ r. r.0) (sym (e0 ∙ e1)) ∙ e) in
      let r3 = gate_mail_cap in_ r2.1 in
      let (_, ok3, e3) = g_resume-ok r3 k3 (ap (λ r. r.0) (sym (e0 ∙ e1 ∙ e2)) ∙ e) in
      let path = e0 ∙ e1 ∙ e2 ∙ e3 in
      let p0 = drop_hold-Still mail_hold_abandoned (g, w) in
      let p1 = Still-Frame.join _ _ _ p0 (check_capability-Still in_.capability r0.1) in
      let p2 = Still-Frame.join _ _ _ p1 (check_scope-Still in_.capability in_.scopes r1.1) in
      let p3 = Still-Frame.join _ _ _ p2 (gate_mail_cap-Still in_ r2.1) in
      let done =
        decide-Confirmed fresh in_ (digest in_.args) r3.1.0 r3.1.1 refl
          (ap (λ r. r.0) (sym path) ∙ e) in
      record {
        args_digest = done.args_digest;
        digested = done.digested;
        consumed =
            subst (λ s. Consumed g in_.tool done.args_digest in_.token w s.1)
              (ap (λ r. r.1) (sym path)) (Consumed-of_Still p3 done.consumed);
      }

  -- A consent is spent once: right after a write went ahead on a token, a request with the same
  -- token does not go ahead, of whatever tool, arguments and session, at whatever time, and
  -- whether or not the database fails.
  pub single_use :
      (fresh fresh' : String) (in_ later : Authz) (g g' : Guard) (w : World) (t : ℕ) (f : ℕ → Bool)
      → later.token ≡ in_.token
      → (authorize digest fresh in_ (g, w)).0 ≡ ok none
      → (authorize digest fresh' later
          (g', record ((authorize digest fresh in_ (g, w)).1.1) { now = t; fault = f })).0
        ≢ ok none
  single_use fresh fresh' in_ later g g' w t f same e again =
      let first = (authorize-Confirmed fresh in_ g w e).consumed in
      let second = (authorize-Confirmed fresh' later g' _ again).consumed in
      let gone = find?-remove_if (has_token in_.token) w.db.confirms in
      let hit =
        subst
          (λ s.
            find? (has_token s) (authorize digest fresh in_ (g, w)).1.1.db.confirms
            ≡ some second.row)
          same second.found in
      cc (gone, hit, ap (λ (d : Db). find? (has_token in_.token) d.confirms) first.rows)
