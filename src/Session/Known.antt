-- ===== src/Session/Known.antt =====
-- internal/usecase/session/session.go, `Character` and `ResolveCorporation`: what stands behind an
-- answer.
use eve_online_mcp.Prelude.{
  ℕ, ◌≡◌, refl, sym, ap, ◌∙◌, String, true, ◌||◌, some, List, [], ◌∷◌, arith, find?, contains,
  Bool-cases, inl, inr, ==_iff, ◌==◌,
}
use eve_online_mcp.Domain.{SessionRow, Character, CharacterToken}
use eve_online_mcp.Store.{World, Result, ok, err, pure, ◌>>◌}
use eve_online_mcp.Repo.Sessions
use eve_online_mcp.Repo.Sessions.{is_live}
use eve_online_mcp.Repo.Characters
use eve_online_mcp.Repo.Reads.{live_by_id-ok, get-ok}
use eve_online_mcp.Write.Policy.{missing_scopes, requested_scopes}
use eve_online_mcp.Write.Policy.Scopes.{missing_scopes-nil_iff}
use eve_online_mcp.Grant.{revoke_if_scopes_fall_short}
use eve_online_mcp.Session.{token_of, with_ident, with_row, character}

-- A live session of the character, with every scope, and the character's own row.
pub record Known (id session : ℕ) (a : CharacterToken) (w w' : World) : Type 0 where
  pub row : SessionRow
  pub ident : Character
  pub live : find? (is_live session w.now) w.db.sessions ≡ some row
  pub owner : row.character_id ≡ id
  pub stands : find? (λ c. c.id == id) w.db.characters ≡ some ident
  pub alive : Characters.live ident ≡ true
  pub granted : (s : String) → contains requested_scopes s ≡ true → contains row.scopes s ≡ true
  pub answer : a ≡ token_of row ident
  pub rows : w'.db ≡ w.db

complete-ok :
    (missing granted : List String) (session : ℕ) (t a : CharacterToken) (w w' : World)
    → missing_scopes granted ≡ missing
    → (revoke_if_scopes_fall_short session granted >> pure t) w ≡ (ok a, w')
    → (missing ≡ []) × ((a ≡ t) × (w' ≡ w))
unfolding revoke_if_scopes_fall_short
complete-ok [] granted session t a w w' e h = (refl, (ground (arith, e, h), ground (arith, e, h)))
complete-ok (s ∷ missing) granted session t a w w' e h = ground (arith, e, h)

with_ident-ok :
    (session : ℕ) (row : SessionRow) (ident : Character) (a : CharacterToken) (w w' : World)
    → with_ident session row (ok ident, w) ≡ (ok a, w')
    → (Characters.live ident ≡ true)
      × ((missing_scopes row.scopes ≡ []) × ((a ≡ token_of row ident) × (w' ≡ w)))
unfolding with_ident
with_ident-ok session row ident a w w' h = elim (Bool-cases (Characters.live ident)) [
  | inl alive ↦ (
    alive,
    complete-ok (missing_scopes row.scopes) row.scopes session (token_of row ident) a w w' refl
        (rw alive at h),
  )
  | inr gone ↦ ground (arith, h, gone)
]

Known-with :
    (id session : ℕ) (row : SessionRow) (r : Result Character × World) (a : CharacterToken)
    (w v w' : World)
    → find? (is_live session w.now) w.db.sessions ≡ some row
    → row.character_id ≡ id
    → v.db ≡ w.db
    → Characters.get id v ≡ r
    → with_ident session row r ≡ (ok a, w')
    → Known id session a w w'
unfolding with_ident
Known-with id session row (err e, u) a w v w' live owner same got h = ground (arith, h)
Known-with id session row (ok ident, u) a w v w' live owner same got h =
    let (stands, (rows, clock)) = get-ok id ident v u got in
    let (alive, (complete, (answer, end))) = with_ident-ok session row ident a u w' h in
    record {
      row = row;
      ident = ident;
      live = live;
      owner = owner;
      stands = ap (λ d. find? (λ c. c.id == id) d.characters) (sym same) ∙ stands;
      alive = alive;
      granted = (missing_scopes-nil_iff row.scopes).0 complete;
      answer = answer;
      rows = ap (λ (x : World). x.db) end ∙ rows ∙ same;
    }

with_row-Known :
    (id session : ℕ) (r : Result SessionRow × World) (a : CharacterToken) (w w' : World)
    → Sessions.live_by_id session w ≡ r
    → with_row id session r ≡ (ok a, w')
    → Known id session a w w'
unfolding with_row
with_row-Known id session (err e, v) a w w' got h = ground (arith, h)
with_row-Known id session (ok row, v) a w w' got h = elim (Bool-cases (row.character_id == id)) [
  | inl own ↦
      let (live, same) = live_by_id-ok session row w v got in
      Known-with id session row (Characters.get id v) a w v w' live
        ((==_iff row.character_id id).0 own) same refl (rw own at h)
  | inr other ↦ ground (arith, h, other)
]

-- `Character` answers only for a live session of the character that holds every requested scope,
-- with the token of that session and of the character's row, which is not deleted, and then no row
-- has changed.
pub character-Known :
    (id session : ℕ) (a : CharacterToken) (w w' : World)
    → character id session w ≡ (ok a, w')
    → Known id session a w w'
unfolding character
character-Known id session a w w' h = elim (Bool-cases ((id == 0) || (session == 0))) [
  | inl unset ↦ ground (arith, h, unset)
  | inr given ↦
      with_row-Known id session (Sessions.live_by_id session w) a w w' refl (rw given at h)
]
