-- ===== src/Write/Guard/Still.antt =====
-- The tests of `Authorize` before the confirm cycle leave every row as it was.
use eve_online_mcp.Prelude.{
  ℕ, suc, ◌≡◌, refl, ◌∙◌, String, true, Option, none, some, List, [], ◌∷◌, arith, Bool-cases, inl,
  inr, str_eq, leb,
}
use eve_online_mcp.Domain.{Error}
use eve_online_mcp.Store.{World, M, sql, within_tx}
use eve_online_mcp.Repo.Mutations
use eve_online_mcp.Repo.Mutations.{MailCapHold}
use eve_online_mcp.Write.Policy.{Capability, capability, not_granted, cap_mail_send, mail_cap}
use eve_online_mcp.Write.Guard.Monad.{Guard, lift, attempt}
use eve_online_mcp.Write.Guard.{
  Authz, known, none_missing, needed_scopes, release_held, release_mail_hold, drop_hold,
  check_capability, check_scope, mail_cap_blocked, judge_count, check_mail_cap, admit_hold,
  hold_mail_cap, gate_mail_cap,
}
use eve_online_mcp.Write.Guard.Frames.{Frame, Keeps, bind-Keeps}

pub record SameDb (w w' : World) : Type 0 where
  pub rows : w'.db ≡ w.db
  pub clock : w'.now ≡ w.now

-- The rows, the clock and the session of the guard.
pub record Still (s t : Guard × World) : Type 0 where
  pub same : SameDb s.1 t.1
  pub session : t.0.session_id ≡ s.0.session_id

pub Still-Frame : Frame Still
Still-Frame = record {
  stay = λ s. record { same = record { rows = refl; clock = refl }; session = refl };
  join = λ s t u p q. record {
    same = record { rows = q.same.rows ∙ p.same.rows; clock = q.same.clock ∙ p.same.clock };
    session = q.session ∙ p.session;
  };
}

lift-Still : {A : Type 0} (m : M A) → ((w : World) → SameDb w (m w).1) → Keeps Still (lift m)
lift-Still m h (g, w) = record { same = h w; session = refl }

roll_back-SameDb :
    (e : Error) (h : MailCapHold) (w : World) → SameDb w (Mutations.release_hold (some e) h w).1
unfolding Mutations.release_hold sql
roll_back-SameDb e h w = ground arith

count_mail_cap-SameDb : (c : ℕ) (w : World) → SameDb w (Mutations.count_mail_cap c w).1
unfolding Mutations.count_mail_cap Mutations.with_mail_cap Mutations.count_mail_cap_sql within_tx
    sql
count_mail_cap-SameDb c w = ground arith

hold_mail_cap-SameDb : (c : ℕ) (w : World) → SameDb w (Mutations.hold_mail_cap c w).1
unfolding Mutations.hold_mail_cap Mutations.open_hold sql
hold_mail_cap-SameDb c w = ground (
  arith,
  count_mail_cap-SameDb c w,
  count_mail_cap-SameDb c (record w { calls = suc w.calls; in_tx = true }),
)

release_held-Still : (e : Error) (h : Option MailCapHold) → Keeps Still (release_held (some e) h)
unfolding release_held
release_held-Still e none s = Still-Frame.stay s
release_held-Still e (some h) (g, w) = record { same = roll_back-SameDb e h w; session = refl }

pub drop_hold-Still : (e : Error) → Keeps Still (drop_hold e)
unfolding drop_hold release_mail_hold
drop_hold-Still e (g, w) =
    let p = release_held-Still e g.mail_hold (g, w) in record { same = p.same; session = p.session }

mail_cap_blocked-Still : Keeps Still (mail_cap_blocked {A = Unit {0}})
unfolding mail_cap_blocked
mail_cap_blocked-Still (g, w) = record {
  same = record { rows = refl; clock = refl };
  session = refl;
}

admit_hold-Still : (h : MailCapHold) → Keeps Still (admit_hold h)
unfolding admit_hold
admit_hold-Still h (g, w) = elim (Bool-cases (leb mail_cap h.count)) [
  | inl full ↦ rw full (
      bind-Keeps Still-Frame (attempt (lift (Mutations.release_hold (some Error.mail_cap) h)))
        (λ _. mail_cap_blocked {A = Unit {0}})
        (lift-Still (Mutations.release_hold (some Error.mail_cap) h)
          (roll_back-SameDb Error.mail_cap h))
        (λ _. mail_cap_blocked-Still) (g, w))
  | inr room ↦ rw room (record { same = record { rows = refl; clock = refl }; session = refl })
]

judge_count-Still : (n : ℕ) → Keeps Still (judge_count n)
unfolding judge_count
judge_count-Still n s = elim (Bool-cases (leb mail_cap n)) [
  | inl full ↦ rw full (mail_cap_blocked-Still s)
  | inr room ↦ rw room (Still-Frame.stay s)
]

pub gate_mail_cap-Still : (in_ : Authz) → Keeps Still (gate_mail_cap in_)
unfolding gate_mail_cap hold_mail_cap check_mail_cap
gate_mail_cap-Still in_ (g, w) = elim (Bool-cases (str_eq in_.capability cap_mail_send)) [
  | inr other ↦ rw other (Still-Frame.stay (g, w))
  | inl mail ↦ elim (Bool-cases (str_eq in_.token "")) [
    | inl blank ↦
        rw (mail, blank)
          (bind-Keeps Still-Frame (lift (Mutations.count_mail_cap g.character_id)) judge_count
            (lift-Still (Mutations.count_mail_cap g.character_id)
              (count_mail_cap-SameDb g.character_id))
            judge_count-Still (g, w))
    | inr given ↦
        rw (mail, given)
          (bind-Keeps Still-Frame (lift (Mutations.hold_mail_cap g.character_id)) admit_hold
            (lift-Still (Mutations.hold_mail_cap g.character_id)
              (hold_mail_cap-SameDb g.character_id))
            admit_hold-Still (g, w))
  ]
]

known-Still : (c : Option Capability) → Keeps Still (known c)
unfolding known
known-Still none s = Still-Frame.stay s
known-Still (some c) s = Still-Frame.stay s

pub check_capability-Still : (name : String) → Keeps Still (check_capability name)
unfolding check_capability
check_capability-Still name = known-Still (capability name)

none_missing-Still : (missing : List String) → Keeps Still (none_missing missing)
unfolding none_missing
none_missing-Still [] s = Still-Frame.stay s
none_missing-Still (x ∷ missing) s = Still-Frame.stay s

pub check_scope-Still :
    (name : String) (granted : List String) → Keeps Still (check_scope name granted)
unfolding check_scope
check_scope-Still name granted = none_missing-Still (not_granted granted (needed_scopes name))
