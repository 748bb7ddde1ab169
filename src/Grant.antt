-- ===== src/Grant.antt =====
-- internal/usecase/session/grant.go: a parked grant is exchanged for a session, a session is
-- ended, and the token that ESI takes is kept fresh.
pub mod Redeem
pub mod Access
pub mod Answers
pub mod Spent
use eve_online_mcp.Prelude.{
  ℕ, ◌+◌, ◌-◌, String, Bool, true, false, Option, none, some, List, [], ◌∷◌, if◌then◌else◌, ltb,
  str_eq,
}
use eve_online_mcp.Domain.{second, Error, SessionRow, Revoked, missing_scope}
use eve_online_mcp.Store.{
  World, Result, ok, err, M, within_tx, pure, raise, revoke_at_ccp, ◌>>=◌, ◌>>◌,
}
use eve_online_mcp.Repo.Sessions.{
  NewSession, create, revoke_all_for_character, revoke, live_by_id, lock_for_refresh,
  lock_character,
}
use eve_online_mcp.Repo.Codes.{take_code}
use eve_online_mcp.Repo.Characters
use eve_online_mcp.Write.Policy.{missing_scopes}

pub record ParkedGrant : Type 0 where
  pub code : String
  pub character_id : ℕ
  pub refresh_token : String
  pub scopes : List String
  pub mcp_client_id : String
  pub client_name : String
  pub ip : String

pub record Exchanged : Type 0 where
  pub session : SessionRow
  pub revoked : Revoked

pub record LoggedOut : Type 0 where
  pub character_id : ℕ
  pub character_name : String

abbrev pub session_of : ParkedGrant → NewSession
session_of p = record {
  character_id = p.character_id;
  refresh_token = p.refresh_token;
  scopes = p.scopes;
  mcp_client_id = p.mcp_client_id;
  client_name = p.client_name;
  ip = p.ip;
}

-- The function that `Redeem` runs in a transaction.
unfoldable pub redeem_rows : ParkedGrant → M Exchanged
redeem_rows p = do
  lock_character p.character_id
  taken ← take_code p.code
  revoked ← revoke_all_for_character p.character_id
  created ← create (session_of p)
  pure (record { session = created; revoked = revoked })

unfoldable pub redeem : ParkedGrant → M Exchanged
unfolding redeem_rows
redeem p = within_tx (redeem_rows p)

pub logout_rows : ℕ → ℕ → M Revoked
logout_rows character session = do
  lock_character character
  revoked ← revoke session
  Characters.delete character
  pure revoked

pub logout : ℕ → ℕ → M LoggedOut
unfolding logout_rows
logout character session = do
  row ← Characters.get character
  revoked ← within_tx (logout_rows character session)
  revoke_at_ccp revoked.tokens
  pure (record { character_id = row.id; character_name = row.name })

abbrev pub discard : {A : Type 0} → M A → M (Unit {0})
discard m w = let (r, w') = m w in (ok tt, w')

-- `revokeIfScopesFallShort`: what the revocation answers is only logged.
unfoldable pub revoke_if_scopes_fall_short : ℕ → List String → M (Unit {0})
revoke_if_scopes_fall_short session granted = elim (missing_scopes granted) [
  | [] ↦ pure tt
  | _ ∷ _ ↦ discard (revoke session) >> raise missing_scope
]
