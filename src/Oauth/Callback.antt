-- ===== src/Oauth/Callback.antt =====
-- internal/usecase/oauth/callback.go: the player comes back from CCP's sign-on, and the grant is
-- parked under a code for the client.
pub mod Parked
pub mod Kept
pub mod Steps
use eve_online_mcp.Prelude.{
  ℕ, ◌+◌, ◌*◌, String, Bool, true, false, Option, none, some, List, [], ◌∷◌, if◌then◌else◌, str_eq,
}
use eve_online_mcp.Domain.{
  minute, Error, Login, CharacterToken, Character, Code, Revoked, login_not_found,
  character_not_found, invalid_grant,
}
use eve_online_mcp.Store.{World, Result, ok, err, M, revoke_at_ccp}
use eve_online_mcp.Repo.Logins
use eve_online_mcp.Repo.Codes
use eve_online_mcp.Repo.Characters
use eve_online_mcp.Repo.Sessions.{revoke_all_for_character}
use eve_online_mcp.Write.Policy.{missing_scopes}

abbrev pub code_ttl : ℕ
code_ttl = 2 * minute

-- The redirect of the client with the query that is added to it; an empty state is left out.
pub record Location : Type 0 where
  pub redirect_uri : String
  pub code : String
  pub state : String

pub data Failure : Type 0 where
  unknown_login unavailable client_mismatch login_refused bad_redirect : Failure
  short_grant : List String → Failure

pub data Callback : Type 0 where
  authorized : Location → Callback
  refused : Failure → Callback

unfoldable pub is_invalid_grant : Error → Bool
is_invalid_grant e = elim e [ invalid_grant ↦ true | _ ↦ false ]

unfoldable pub classify_sso : Error → Failure
unfolding is_invalid_grant
classify_sso e = if is_invalid_grant e then client_mismatch else login_refused

unfoldable pub is_no_login : Error → Bool
is_no_login e = elim e [ login_not_found ↦ true | _ ↦ false ]

unfoldable pub is_no_character : Error → Bool
is_no_character e = elim e [ character_not_found ↦ true | _ ↦ false ]

-- A step that may fail: nothing, or the failure.
abbrev pub Step : Type 0
Step = World → Option Failure × World

-- The sessions of a former owner are revoked, here and at CCP.
unfoldable pub evicted : Result Revoked × World → Option Failure × World
evicted (ok revoked, w) = (none, (revoke_at_ccp revoked.tokens w).1)
evicted (err e, w) = (some unavailable, w)

unfoldable pub owner_known : CharacterToken → Result Character × World → Option Failure × World
unfolding evicted is_no_character
owner_known token (ok existing, w) =
    if str_eq existing.owner_hash token.owner_hash
    then (none, w)
    else evicted (revoke_all_for_character token.character_id w)
owner_known token (err e, w) = if is_no_character e then (none, w) else (some unavailable, w)

unfoldable pub revoke_on_owner_hash_change : CharacterToken → Step
unfolding owner_known
revoke_on_owner_hash_change token w = owner_known token (Characters.get token.character_id w)

abbrev pub character_of : CharacterToken → Character
character_of token = record {
  id = token.character_id;
  name = token.character_name;
  owner_hash = token.owner_hash;
  created_at = 0;
  deleted_at = none;
}

abbrev pub code_of : Login → CharacterToken → String → ℕ → Code
code_of p token fresh now = record {
  value = fresh;
  character_id = token.character_id;
  refresh_token = token.refresh_token;
  scopes = token.scopes;
  mcp_client_id = p.mcp_client_id;
  redirect_uri = p.redirect_uri;
  code_challenge = p.code_challenge;
  expires_at = now + code_ttl;
}

abbrev pub location_of : Login → String → Location
location_of p fresh = record { redirect_uri = p.redirect_uri; code = fresh; state = p.mcp_state }

-- `exchange` is CCP's answer to a code and a verifier, `parses` the test of `url.Parse`, and `fresh`
-- the random code.
module _ (exchange : String → String → Result CharacterToken) (parses : String → Bool)
    (fresh : String) where
  unfoldable pub parked : Login → Result (Unit {0}) × World → Callback × World
  parked p (ok _, w) =
      if parses p.redirect_uri
      then (authorized (location_of p fresh), w)
      else (refused bad_redirect, w)
  parked p (err e, w) = (refused unavailable, w)

  unfoldable pub upserted : Login → CharacterToken → Result (Unit {0}) × World → Callback × World
  unfolding parked
  upserted p token (ok _, w) = parked p (Codes.put (code_of p token fresh w.now) w)
  upserted p token (err e, w) = (refused unavailable, w)

  unfoldable pub owner_checked : Login → CharacterToken → Option Failure × World → Callback × World
  unfolding upserted
  owner_checked p token (none, w) = upserted p token (Characters.upsert (character_of token) w)
  owner_checked p token (some f, w) = (refused f, w)

  -- The argument is what the token's scopes miss.
  unfoldable pub finish_mcp : Login → CharacterToken → List String → World → Callback × World
  unfolding owner_checked revoke_on_owner_hash_change
  finish_mcp p token [] w = owner_checked p token (revoke_on_owner_hash_change token w)
  finish_mcp p token (s ∷ missing) w = (refused (short_grant (s ∷ missing)), w)

  unfoldable pub exchanged_token : Login → Result CharacterToken → World → Callback × World
  unfolding finish_mcp classify_sso
  exchanged_token p (ok token) w = finish_mcp p token (missing_scopes token.scopes) w
  exchanged_token p (err e) w = (refused (classify_sso e), w)

  unfoldable pub login_taken : String → Result Login × World → Callback × World
  unfolding exchanged_token is_no_login
  login_taken code (ok p, w) = exchanged_token p (exchange code p.pkce_verifier) w
  login_taken code (err e, w) = (refused (if is_no_login e then unknown_login else unavailable), w)

  unfoldable pub complete_callback : String → String → World → Callback × World
  unfolding login_taken
  complete_callback code state w = login_taken code (Logins.take state w)
