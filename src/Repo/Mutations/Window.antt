-- ===== src/Repo/Mutations/Window.antt =====
-- The rolling hour of internal/domain/mutation/pgx/repo.go, over the rows in the order in which
-- they were written.
use eve_online_mcp.Prelude.{
  ℕ, ◌+◌, ◌≤◌, ◌<◌, ◌≡◌, Bool, true, ◌&&◌, List, [], ◌∷◌, arith, leb, not, count, count_mono,
  remove_if, count-filter-le, Bool-cases, inl, inr,
}
use eve_online_mcp.Domain.{hour, MutationRow}
use eve_online_mcp.Repo.Mutations.{is_mail_since, in_last_hour}

-- Each mail was written when fewer than `cap` mails stood in the hour before it.
abbrev pub Capped : ℕ → ℕ → List MutationRow → Type 0
Capped cap c [] = Unit {0}
Capped cap c (r ∷ rows) =
    (is_mail_since c 0 r ≡ true → count (in_last_hour c r.created_at) rows < cap)
    × Capped cap c rows

-- A mail of the character in the hour that begins at `start`, both ends included.
unfoldable pub in_hour_from : ℕ → ℕ → MutationRow → Bool
in_hour_from c start r = is_mail_since c start r && leb r.created_at (start + hour)

in_hour_from-in_last_hour :
    (c start t : ℕ) (r : MutationRow)
    → t ≤ start + hour
    → in_hour_from c start r ≡ true
    → in_last_hour c t r ≡ true
unfolding in_hour_from in_last_hour is_mail_since
in_hour_from-in_last_hour c start t r h p = ground arith

is_mail_of_in_hour :
    (c start : ℕ) (r : MutationRow)
    → in_hour_from c start r ≡ true
    → (is_mail_since c 0 r ≡ true) × (r.created_at ≤ start + hour)
unfolding in_hour_from is_mail_since
is_mail_of_in_hour c start r p = ground arith

-- In whatever order the rows were written, no hour holds more than `cap` mails.
pub count-in_hour_from-le :
    (cap c start : ℕ) (rows : List MutationRow)
    → Capped cap c rows
    → count (in_hour_from c start) rows ≤ cap
count-in_hour_from-le cap c start [] h = omega arith
count-in_hour_from-le cap c start (r ∷ rows) h = elim (Bool-cases (in_hour_from c start r)) [
  | inl hit ↦
      let (mail, early) = is_mail_of_in_hour c start r hit in
      let below =
        count_mono (in_hour_from c start) (in_last_hour c r.created_at)
          (λ q p. in_hour_from-in_last_hour c start r.created_at q early p) rows in
      let room = h.0 mail in rw hit (omega arith)
  | inr miss ↦ rw miss (count-in_hour_from-le cap c start rows h.1)
]

-- A row that is no mail of the character, or one for which there is room, may be added.
pub Capped-cons :
    (cap c : ℕ) (r : MutationRow) (rows : List MutationRow)
    → (is_mail_since c 0 r ≡ true → count (in_last_hour c r.created_at) rows < cap)
    → Capped cap c rows
    → Capped cap c (r ∷ rows)
Capped-cons cap c r rows room h = (room, h)

-- Rows may be deleted.
pub Capped-remove_if :
    (cap c : ℕ) (p : MutationRow → Bool) (rows : List MutationRow)
    → Capped cap c rows
    → Capped cap c (remove_if p rows)
Capped-remove_if cap c p [] h = tt
Capped-remove_if cap c p (r ∷ rows) h = elim (Bool-cases (p r)) [
  | inl gone ↦ rw gone (Capped-remove_if cap c p rows h.1)
  | inr kept ↦ rw kept (
    (λ mail.
        let room = h.0 mail in
        let fewer = count-filter-le (in_last_hour c r.created_at) (λ x. not (p x)) rows in
        omega arith),
    Capped-remove_if cap c p rows h.1,
  )
]
