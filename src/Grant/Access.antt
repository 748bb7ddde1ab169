-- ===== src/Grant/Access.antt =====
-- internal/usecase/session/grant.go, `grantState` and `eveAccess`: the token that ESI takes, from
-- memory while it lasts, else from CCP under the lock of the session's row.
pub mod Saved
use eve_online_mcp.Prelude.{
  ℕ, ◌+◌, ◌*◌, String, Bool, true, false, not, ◌&&◌, if◌then◌else◌, ltb, str_eq,
}
use eve_online_mcp.Domain.{second, Error, CharacterToken, GrantState, SessionRow, invalid_grant}
use eve_online_mcp.Store.{World, Result, ok, err, M, pure, raise, ◌>>=◌, ◌>>◌}
use eve_online_mcp.Repo.Sessions.{deref, live_by_id, revoke, lock_for_refresh}
use eve_online_mcp.Grant.{discard}

abbrev pub refresh_margin : ℕ
refresh_margin = 60 * second

-- The access token, or no text at all from a minute before it ends.
unfoldable pub live : ℕ → GrantState → String
live now g =
    if str_eq g.access "" then "" else if ltb g.expiry (now + refresh_margin) then "" else g.access

abbrev pub has_live : World → Bool
has_live w = not (str_eq (live w.now w.grant) "")

abbrev pub set : CharacterToken → GrantState
set tok = record {
  refresh = tok.refresh_token;
  access = tok.access_token;
  expiry = tok.access_expires_at;
}

-- The token to expect in the row; a row that cannot be read leaves none.
unfoldable pub expect : Result SessionRow × World → Result String × World
expect (ok row, w) = (ok (deref row.refresh_token), w)
expect (err e, w) = (ok "", w)

unfoldable pub expected : ℕ → M String
unfolding expect
expected session w =
    if str_eq w.grant.refresh "" then expect (live_by_id session w) else (ok w.grant.refresh, w)

-- Another process has refreshed the row.
abbrev pub has_moved : String → String → Bool
has_moved want row = not (str_eq want "") && not (str_eq row want)

-- `errors.Is(err, sso.ErrInvalidGrant)`
unfoldable pub is_invalid_grant : Error → Bool
is_invalid_grant e = elim e [ invalid_grant ↦ true | _ ↦ false ]

-- `sso n token` is what CCP answers to the n-th question, with this refresh token.
module _ (sso : ℕ → String → Result CharacterToken) where
  unfoldable pub keep : Result CharacterToken → M String
  keep (ok tok) w = (ok tok.refresh_token, record w { grant = set tok })
  keep (err e) w = (err e, w)

  unfoldable pub ask : String → M String
  unfolding keep
  ask row w = keep (sso w.tokens_asked row) (record w { tokens_asked = w.tokens_asked + 1 })

  -- What runs under the lock: it answers the token that the row is to hold.
  unfoldable pub refresh_row : String → String → M String
  unfolding ask
  refresh_row want row w =
      let adopted = record w { grant = record w.grant { refresh = row } } in
      if has_moved want row
      then (if has_live adopted then (ok row, adopted) else ask row adopted)
      else ask row w

  -- The session is revoked when CCP no longer knows the grant; what that answers is only logged.
  unfoldable pub conclude : ℕ → Result (Unit {0}) → M String
  unfolding is_invalid_grant
  conclude session (ok _) w = (ok w.grant.access, w)
  conclude session (err e) w =
      if is_invalid_grant e then (discard (revoke session) >> raise e) w else raise e w

  unfoldable pub locked_access : ℕ → String → M String
  unfolding refresh_row conclude
  locked_access session want w =
      let (r, w') = lock_for_refresh session (refresh_row want) w in conclude session r w'

  -- The variable `access` of the source is what the grant holds when the function has answered.
  unfoldable pub eve_access : ℕ → M String
  unfolding expected locked_access
  eve_access session w =
      if has_live w
      then (ok (live w.now w.grant), w)
      else (expected session >>= locked_access session) w
