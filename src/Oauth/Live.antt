-- ===== src/Oauth/Live.antt =====
-- internal/usecase/oauth/protect.go: what stands behind a request that is let in and behind
-- refreshed tokens.
use eve_online_mcp.Prelude.{
  ℕ, ◌≡◌, refl, String, true, some, List, [], ◌∷◌, arith, find?, contains, Bool-cases, inl, inr, ap,
  ◌∙◌, ==_iff, ◌==◌,
}
use eve_online_mcp.Domain.{SessionRow}
use eve_online_mcp.Store.{World, Result, ok, err}
use eve_online_mcp.Repo.Sessions
use eve_online_mcp.Repo.Reads.{live_by_id-ok}
use eve_online_mcp.Repo.Sessions.{is_live}
use eve_online_mcp.Write.Policy.{missing_scopes, requested_scopes}
use eve_online_mcp.Write.Policy.Scopes.{missing_scopes-nil_iff}
use eve_online_mcp.Oauth.{
  Issued, tokens, refreshed, refresh_grant, judge_scopes, judge_live, require_live,
}

-- A session of this character that is not revoked and not past its time.
pub record LiveSession (ref : Issued) (w : World) : Type 0 where
  pub row : SessionRow
  pub live : find? (is_live ref.session_id w.now) w.db.sessions ≡ some row
  pub owner : row.character_id ≡ ref.character_id

judge_scopes-ok :
    (ref : Issued) (missing : List String) (w w' : World)
    → judge_scopes ref missing w ≡ (ok tt, w')
    → (missing ≡ []) × (w' ≡ w)
unfolding judge_scopes
judge_scopes-ok ref [] w w' h = (refl, ground arith)
judge_scopes-ok ref (s ∷ missing) w w' h = ground arith

judge_live-ok :
    (ref : Issued) (row : SessionRow) (w w' : World)
    → judge_live ref (ok row, w) ≡ (ok tt, w')
    → (row.character_id ≡ ref.character_id) × ((missing_scopes row.scopes ≡ []) × (w' ≡ w))
unfolding judge_live
judge_live-ok ref row w w' h = elim (Bool-cases (row.character_id == ref.character_id)) [
  | inl own ↦ (
    (==_iff row.character_id ref.character_id).0 own,
    judge_scopes-ok ref (missing_scopes row.scopes) w w' (ground (arith, h, own)),
  )
  | inr other ↦ ground (arith, h, other)
]

-- What lets a request in, and what it leaves.
pub record Entitled (ref : Issued) (w w' : World) : Type 0 where
  pub session : LiveSession ref w
  pub granted :
      (s : String) → contains requested_scopes s ≡ true → contains session.row.scopes s ≡ true
  pub rows : w'.db ≡ w.db

Entitled-with :
    (ref : Issued) (w w' : World) (r : Result SessionRow × World)
    → Sessions.live_by_id ref.session_id w ≡ r
    → judge_live ref r ≡ (ok tt, w')
    → Entitled ref w w'
unfolding judge_live
Entitled-with ref w w' (ok row, v) e h =
    let (live, same) = live_by_id-ok ref.session_id row w v e in
    let (own, (complete, end)) = judge_live-ok ref row v w' h in
    record {
      session = record { row = row; live = live; owner = own };
      granted = (missing_scopes-nil_iff row.scopes).0 complete;
      rows = ap (λ (x : World). x.db) end ∙ same;
    }
Entitled-with ref w w' (err x, v) e h = ground arith

-- `requireLive` lets a request in only with a live session of its character that was granted every
-- scope that a sign-in asks for, and then changes no row.
pub require_live-Entitled :
    (ref : Issued) (w w' : World) → require_live ref w ≡ (ok tt, w') → Entitled ref w w'
unfolding require_live
require_live-Entitled ref w w' h =
    Entitled-with ref w w' (Sessions.live_by_id ref.session_id w) refl h

refreshed_with :
    (ref : Issued) (w w' : World) (character session valid_til : ℕ) (r : Result SessionRow × World)
    → Sessions.live_by_id ref.session_id w ≡ r
    → refreshed ref r ≡ (tokens character session valid_til, w')
    → (s : LiveSession ref w) × ((character ≡ ref.character_id)
        × ((session ≡ ref.session_id) × (valid_til ≡ s.row.valid_til)))
unfolding refreshed
refreshed_with ref w w' character session valid_til (ok row, v) e h =
    elim (Bool-cases (row.character_id == ref.character_id)) [
      | inl own ↦ (
        record {
          row = row;
          live = (live_by_id-ok ref.session_id row w v e).0;
          owner = (==_iff row.character_id ref.character_id).0 own;
        },
        (ground (arith, h, own), (ground (arith, h, own), ground (arith, h, own))),
      )
      | inr other ↦ ground (arith, h, other)
    ]
refreshed_with ref w w' character session valid_til (err x, v) e h = ground arith

-- Tokens are refreshed only for a live session of the character that the refresh token names, and
-- they end when the session does.
pub refresh_grant-live :
    (ref : Issued) (w w' : World) (character session valid_til : ℕ)
    → refresh_grant (some ref) w ≡ (tokens character session valid_til, w')
    → (s : LiveSession ref w) × ((character ≡ ref.character_id)
        × ((session ≡ ref.session_id) × (valid_til ≡ s.row.valid_til)))
unfolding refresh_grant
refresh_grant-live ref w w' character session valid_til h =
    refreshed_with ref w w' character session valid_til (Sessions.live_by_id ref.session_id w) refl
      h
