-- ===== src/Write/Guard/Cap.antt =====
-- The mail cap of write/guard.go: what a hold promises, and what a whole call keeps.
use eve_online_mcp.Prelude.{
  ℕ, suc, ◌<◌, ◌≡◌, refl, sym, ◌∙◌, ap, subst, inl, inr, Bool, true, false, none, some, [], arith,
  Bool-cases, str_eq, leb, count,
}
use eve_online_mcp.Domain.{Error}
use eve_online_mcp.Store.{World, ok, sql, within_tx}
use eve_online_mcp.Store.Laws.{SameLog-refl, Inert}
use eve_online_mcp.Repo.Mutations
use eve_online_mcp.Repo.Mutations.{MailCapHold, in_last_hour, is_mail_since, is_sent_mail, row_of}
use eve_online_mcp.Write.Policy.{cap_mail_send, mail_cap}
use eve_online_mcp.Write.Guard.Monad.{Guard, lift, attempt}
use eve_online_mcp.Write.Guard.{
  hold_mail_cap, gate_mail_cap, judge_count, admit_hold, mail_cap_blocked, Authz, check_mail_cap,
}
use eve_online_mcp.Write.Guard.Frames.{
  g_resume-ok, Mild-of_Quiet, lift-Quiet, roll_back-Inert, Keeps, Mild, Quiet, Mild-Frame,
  Quiet-Frame, bind-Keeps, count_mail_cap-Inert, mail_cap_blocked-Quiet,
}

-- A count that is answered is the count of the rows, at the clock of the call.
pub count_mail_cap-ok :
    (c n : ℕ) (w : World)
    → (Mutations.count_mail_cap c w).0 ≡ ok n
    → n ≡ count (in_last_hour c w.now) w.db.mutations
unfolding Mutations.count_mail_cap Mutations.with_mail_cap Mutations.count_mail_cap_sql within_tx
    sql
count_mail_cap-ok c n w e = ground arith

open_hold-ok :
    (c n : ℕ) (w : World)
    → (Mutations.open_hold c w).0 ≡ ok n
    → n ≡ count (in_last_hour c w.now) w.db.mutations
unfolding Mutations.open_hold sql
open_hold-ok c n w e =
    ground (arith, count_mail_cap-ok c n (record w { calls = suc w.calls; in_tx = true }))

open_hold-Inert : (c : ℕ) → Inert (Mutations.open_hold c)
unfolding Mutations.open_hold sql
open_hold-Inert c w =
    ground (arith, count_mail_cap-Inert c (record w { calls = suc w.calls; in_tx = true }))

-- A hold that is opened outside a transaction.
hold_mail_cap-ok :
    (c : ℕ) (h : MailCapHold) (w : World)
    → w.in_tx ≡ false
    → (Mutations.hold_mail_cap c w).0 ≡ ok h
    → (h.joined ≡ false)
      × (h.pending ≡ [])
      × (h.count ≡ count (in_last_hour c h.began) w.db.mutations)
      × (h.began ≡ w.now)
unfolding Mutations.hold_mail_cap
hold_mail_cap-ok c h w out e = ground (arith, open_hold-ok c h.count w, open_hold-Inert c w)

-- What stands behind a mail that the guard lets go: an open hold with nothing in it, and room in
-- the hour before it, on the clock as it is.
pub record Ready (c : ℕ) (h : MailCapHold) (w : World) : Type 0 where
  pub own : h.joined ≡ false
  pub fresh : h.pending ≡ []
  pub room : count (in_last_hour c h.began) w.db.mutations < mail_cap
  pub timed : h.began ≡ w.now

pub hold_mail_cap-Inert : (c : ℕ) → Inert (Mutations.hold_mail_cap c)
unfolding Mutations.hold_mail_cap
hold_mail_cap-Inert c w = ground (arith, count_mail_cap-Inert c w, open_hold-Inert c w)

admit_hold-ok :
    (h : MailCapHold) (g : Guard) (w : World)
    → (admit_hold h (g, w)).0 ≡ ok tt
    → (h.count < mail_cap) × ((admit_hold h (g, w)).1 ≡ (record g { mail_hold = some h }, w))
unfolding admit_hold mail_cap_blocked
admit_hold-ok h g w e = elim (Bool-cases (leb mail_cap h.count)) [
  | inl full ↦ absurd (ground arith)
  | inr room ↦ (ground arith, rw (room, admit_hold))
]

-- The state after a step that was let go, whatever way it was computed.
abbrev pub HeldBy : ℕ → Guard × World → Type 0
HeldBy c (g, w) = (h : MailCapHold) × (g.mail_hold ≡ some h) × Ready c h w

pub hold_mail_cap-Ready :
    (g : Guard) (w : World)
    → w.in_tx ≡ false
    → (hold_mail_cap (g, w)).0 ≡ ok tt
    → HeldBy g.character_id (hold_mail_cap (g, w)).1
unfolding hold_mail_cap
hold_mail_cap-Ready g w out e =
    let opened = lift (Mutations.hold_mail_cap g.character_id) (g, w) in
    let (h, found, rest) = g_resume-ok opened admit_hold e in
    let (below, after) = admit_hold-ok h g opened.1.1 (ap (λ r. r.0) (sym rest) ∙ e) in
    let (own, fresh, counted, timed) = hold_mail_cap-ok g.character_id h w out found in
    let logged = hold_mail_cap-Inert g.character_id w in
    subst (HeldBy g.character_id) (sym (ap (λ r. r.1) rest ∙ after)) (
      h,
      refl,
      record {
        own = own;
        fresh = fresh;
        room = rw (logged.log) (omega arith);
        timed = timed ∙ sym logged.clock;
      },
    )

admit_hold-Mild : (h : MailCapHold) → Keeps Mild (admit_hold h)
unfolding admit_hold
admit_hold-Mild h (g, w) = elim (Bool-cases (leb mail_cap h.count)) [
  | inl full ↦ rw full (
      bind-Keeps Mild-Frame (attempt (lift (Mutations.release_hold (some Error.mail_cap) h)))
        (λ _. mail_cap_blocked {A = Unit {0}})
        (λ s. Mild-of_Quiet (
          lift-Quiet (Mutations.release_hold (some Error.mail_cap) h)
            (roll_back-Inert Error.mail_cap h) s))
        (λ _ s. Mild-of_Quiet (mail_cap_blocked-Quiet s)) (g, w))
  | inr room ↦ rw room (record { logged = SameLog-refl w; owner = refl; session = refl })
]

hold_mail_cap-Mild : Keeps Mild hold_mail_cap
unfolding hold_mail_cap
hold_mail_cap-Mild (g, w) =
    bind-Keeps Mild-Frame (lift (Mutations.hold_mail_cap g.character_id)) admit_hold
      (λ s. Mild-of_Quiet (
        lift-Quiet (Mutations.hold_mail_cap g.character_id) (hold_mail_cap-Inert g.character_id) s))
      admit_hold-Mild (g, w)

judge_count-Quiet : (n : ℕ) → Keeps Quiet (judge_count n)
unfolding judge_count
judge_count-Quiet n s = elim (Bool-cases (leb mail_cap n)) [
  | inl full ↦ rw full (mail_cap_blocked-Quiet s)
  | inr room ↦ rw room (Quiet-Frame.stay s)
]

check_mail_cap-Quiet : Keeps Quiet check_mail_cap
unfolding check_mail_cap
check_mail_cap-Quiet (g, w) =
    bind-Keeps Quiet-Frame (lift (Mutations.count_mail_cap g.character_id)) judge_count
      (lift-Quiet (Mutations.count_mail_cap g.character_id) (count_mail_cap-Inert g.character_id))
      judge_count-Quiet (g, w)

pub gate_mail_cap-Mild : (in_ : Authz) → Keeps Mild (gate_mail_cap in_)
unfolding gate_mail_cap
gate_mail_cap-Mild in_ s =
    let a = hold_mail_cap-Mild s in
    let b = Mild-of_Quiet (check_mail_cap-Quiet s) in
    let stay = Mild-Frame.stay s in
    elim (Bool-cases (str_eq in_.capability cap_mail_send)) [
      | inr other ↦ rw other stay
      | inl mail ↦ elim (Bool-cases (str_eq in_.token "")) [
        | inl none_given ↦ rw (mail, none_given) b
        | inr given ↦ rw (mail, given) a
      ]
    ]

-- With a token, the gate of a mail leaves a hold that is ready; of any other write it leaves none.
abbrev pub Gated : Bool → ℕ → Guard × World → Type 0
Gated true c s = HeldBy c s
Gated false c (g, w) = g.mail_hold ≡ none

pub gate_mail_cap-Gated :
    (in_ : Authz) (g : Guard) (w : World)
    → w.in_tx ≡ false
    → g.mail_hold ≡ none
    → str_eq in_.token "" ≡ false
    → (gate_mail_cap in_ (g, w)).0 ≡ ok tt
    → Gated (str_eq in_.capability cap_mail_send) g.character_id (gate_mail_cap in_ (g, w)).1
unfolding gate_mail_cap
gate_mail_cap-Gated in_ g w out idle given e =
    elim (Bool-cases (str_eq in_.capability cap_mail_send)) [
      | inr other ↦ rw other idle
      | inl mail ↦ rw (mail, given) (hold_mail_cap-Ready g w out (rw (mail, given) at e))
    ]
