-- ===== src/Grant/Spent.antt =====
-- internal/usecase/session/grant.go, `Redeem`: what its rows say of the character's sessions and
-- of a second use of the code.
use eve_online_mcp.Prelude.{
  ap, ◌∙◌, ℕ, suc, ◌≡◌, refl, true, false, none, some, List, [], ◌∷◌, map, arith, inl, inr, find?,
  find?-remove_if, count, ◌==◌, ◌⊎◌, ◌+◌,
}
use eve_online_mcp.Domain.{Error, SessionRow}
use eve_online_mcp.Store.{World, Result, ok, err}
use eve_online_mcp.Store.Laws.{within_tx-failed}
use eve_online_mcp.Repo.Sessions.{lifetime, new_row, close_row, is_open_for, is_live}
use eve_online_mcp.Repo.Codes.{has_value}
use eve_online_mcp.Grant.{ParkedGrant, Exchanged, session_of, redeem_rows, redeem}
use eve_online_mcp.Grant.Redeem.{redeem-Redeemed, redeem_rows-ok}

-- Closing the rows that are open leaves none open.
pub count-close_row :
    (c now : ℕ) (rows : List SessionRow)
    → count (is_open_for c) (map (close_row (is_open_for c) now) rows) ≡ 0
unfolding close_row
count-close_row c now [] = refl
count-close_row c now (s ∷ rows) = ground (arith, count-close_row c now rows)

-- Other characters' rows are open or closed as before.
pub count-close_row-other :
    (c other now : ℕ) (rows : List SessionRow)
    → (c == other) ≡ false
    → count (is_open_for other) (map (close_row (is_open_for c) now) rows)
      ≡ count (is_open_for other) rows
unfolding close_row
count-close_row-other c other now [] h = refl
count-close_row-other c other now (s ∷ rows) h =
    ground (arith, count-close_row-other c other now rows h)

-- The row that is made is open and lives on.
new_row-is_live :
    (p : ParkedGrant) (id now : ℕ)
    → (is_open_for p.character_id (new_row id now (session_of p)) ≡ true)
      × (is_live id now (new_row id now (session_of p)) ≡ true)
unfolding new_row
new_row-is_live p id now = (ground arith, ground arith)

one_row :
    (p : ParkedGrant) (id now : ℕ) (row : SessionRow) (rows : List SessionRow)
    (old : List SessionRow)
    → row ≡ new_row id now (session_of p)
    → rows ≡ row ∷ map (close_row (is_open_for p.character_id) now) old
    → (count (is_open_for p.character_id) rows ≡ 1)
      × ((find? (is_live row.id now) rows ≡ some row) × (row.valid_til ≡ now + lifetime))
unfolding new_row
one_row p id now row rows old h g = (
  ground (arith, count-close_row p.character_id now old, new_row-is_live p id now, h, g),
  (ground (arith, h, g, new_row-is_live p id now), ground (arith, h)),
)

-- After a call of `Redeem` outside a transaction that answered, the character has exactly one open
-- session, the one of the answer, which can be used at once and ends thirty days from now.
pub one_session :
    (p : ParkedGrant) (out : Exchanged) (w w' : World)
    → w.in_tx ≡ false
    → redeem p w ≡ (ok out, w')
    → (count (is_open_for p.character_id) w'.db.sessions ≡ 1)
      × ((find? (is_live out.session.id w.now) w'.db.sessions ≡ some out.session)
          × (out.session.valid_til ≡ w.now + lifetime))
one_session p out w w' outside h =
    let done = redeem-Redeemed p out w w' outside h in
    one_row p w.db.next_session w.now out.session w'.db.sessions w.db.sessions done.created
      done.sessions

-- The answer is an error, and no row is changed.
pub record Refused {A : Type 0} (w : World) (r : Result A × World) : Type 0 where
  pub error : Error
  pub failed : r.0 ≡ err error
  pub rows : r.1.db ≡ w.db

abbrev Result-cases :
    {A : Type 0} (r : Result A × World)
    → ((a : A) × ((w : World) × (r ≡ (ok a, w)))) ⊎ ((e : Error) × (r.0 ≡ err e))
Result-cases (ok a, w) = inl (a, (w, refl))
Result-cases (err e, w) = inr (e, refl)

-- A code that is not in the table is refused.
pub redeem-Refused :
    (p : ParkedGrant) (w : World)
    → w.in_tx ≡ false
    → find? (has_value p.code) w.db.codes ≡ none
    → Refused w (redeem p w)
unfolding redeem
redeem-Refused p w outside gone = elim (Result-cases (redeem p w)) [
  | inl (out, (w', h)) ↦ ground (arith, (redeem-Redeemed p out w w' outside h).stood.1.0)
  | inr (e, h) ↦ record {
    error = e;
    failed = h;
    rows = elim (within_tx-failed (redeem_rows p) w e outside h) [
      | inl same ↦ same
      | inr (out, (v, (run, _))) ↦ ground (
        arith,
        (redeem_rows-ok p out (record w { calls = suc w.calls; in_tx = true }) v run).stood.1.0,
        gone,
      )
    ];
  }
]

-- A code is spent once: after a call outside a transaction that answered, a second one with the
-- same code, on the codes that the first has left, is refused, whatever else it asks for, whatever
-- has happened to the other tables, and whether or not the database fails.
pub redeem_twice :
    (p q : ParkedGrant) (out : Exchanged) (w w' v : World)
    → w.in_tx ≡ false
    → redeem p w ≡ (ok out, w')
    → q.code ≡ p.code
    → v.in_tx ≡ false
    → v.db.codes ≡ w'.db.codes
    → Refused v (redeem q v)
redeem_twice p q out w w' v outside h same idle kept = redeem-Refused q v idle (
    ap (λ c. find? (has_value c) v.db.codes) same
    ∙ ap (find? (has_value p.code)) (kept ∙ (redeem-Redeemed p out w w' outside h).codes)
    ∙ find?-remove_if (has_value p.code) w.db.codes)
