-- ===== src/Tests/Tokens.antt =====
-- Runs of the sign-in's end and of the refresh of a token: internal/usecase/oauth/callback.go and
-- internal/usecase/session/grant.go.
use eve_online_mcp.Prelude.{ℕ, ◌≡◌, refl, String, Bool, true, false, Option, some, List, ◌∷◌, []}
use eve_online_mcp.Domain.{CharacterToken, Login}
use eve_online_mcp.Store.{World, Result, ok}
use eve_online_mcp.Write.Policy.{requested_scopes}
use eve_online_mcp.Grant.Access.{eve_access}
use eve_online_mcp.Grant.Access.Saved.{Kept, eve_access-Kept}
use eve_online_mcp.Oauth.Callback.{Location, authorized, complete_callback}
use eve_online_mcp.Oauth.Callback.Parked.{Parked, complete_callback-Parked}
use eve_online_mcp.Oauth.Authorize.{Url, AuthorizeRequest, PreparedLogin}
use eve_online_mcp.Oauth.Authorize.Allowed.{
  Visit, authorizes, comes_back, visits, SentTo, visits-SentTo,
}
use eve_online_mcp.Tests.Samples.{calm, sample_db}

abbrev answer : CharacterToken
answer = record {
  character_id = 90;
  character_name = "Pilot";
  refresh_token = "rotated";
  scopes = requested_scopes;
  owner_hash = "sold";
  access_token = "access";
  access_expires_at = 1200000000000;
}

abbrev sso : ℕ → String → Result CharacterToken
sso n token = ok answer

access_runs : eve_access sso 7 calm ≡ (ok "access", (eve_access sso 7 calm).1)
unfolding eve_access eve_online_mcp.Grant.Access.live eve_online_mcp.Repo.Sessions.live_by_id
    eve_online_mcp.Store.sql eve_online_mcp.Repo.Sessions.live_by_id_sql
    eve_online_mcp.Repo.Sessions.lock_for_refresh eve_online_mcp.Store.within_tx
    eve_online_mcp.Repo.Sessions.refresh_locked eve_online_mcp.Repo.Sessions.reread_sql
    eve_online_mcp.Repo.Sessions.write_refresh_sql
access_runs = refl

eve_access-Kept_example : Kept 7 "access" calm (eve_access sso 7 calm).1
eve_access-Kept_example =
    eve_access-Kept sso 7 "access" calm (eve_access sso 7 calm).1 refl access_runs

abbrev login : Login
login = record {
  state = "state";
  pkce_verifier = "verifier";
  scopes = requested_scopes;
  mcp_client_id = "cursor";
  redirect_uri = "http://localhost/cb";
  mcp_state = "theirs";
  code_challenge = "challenge";
  created_at = 50;
}

abbrev coming_back : World
coming_back = record calm { db = record sample_db { logins = login ∷ [] } }

abbrev exchange : String → String → Result CharacterToken
exchange code verifier = ok answer

abbrev parses : String → Bool
parses uri = true

abbrev place : Location
place = record { redirect_uri = "http://localhost/cb"; code = "fresh"; state = "theirs" }

abbrev came_back : World
came_back = (complete_callback exchange parses "fresh" "grant" "state" coming_back).1

callback_runs :
    complete_callback exchange parses "fresh" "grant" "state" coming_back
    ≡ (authorized place, came_back)
unfolding complete_callback eve_online_mcp.Repo.Logins.take eve_online_mcp.Store.sql
    eve_online_mcp.Repo.Logins.take_sql eve_online_mcp.Write.Policy.missing_scopes requested_scopes
    eve_online_mcp.Repo.Characters.get eve_online_mcp.Repo.Characters.get_sql
    eve_online_mcp.Repo.Sessions.revoke_all_for_character
    eve_online_mcp.Repo.Sessions.revoke_all_sql eve_online_mcp.Repo.Characters.upsert
    eve_online_mcp.Store.revoke_at_ccp eve_online_mcp.Repo.Sessions.tokens_of
    eve_online_mcp.Repo.Characters.upsert_sql eve_online_mcp.Repo.Codes.put
    eve_online_mcp.Repo.Codes.put_sql
callback_runs = refl

complete_callback-Parked_example :
    Parked exchange "fresh" "grant" "state" place coming_back came_back
complete_callback-Parked_example =
    complete_callback-Parked exchange parses "fresh" "grant" "state" place coming_back came_back
      callback_runs

-- Every URL is one of the player's own machine.
abbrev local_url : String → Option Url
local_url raw = some (record { scheme = "http"; hostname = "localhost"; path = "/cb" })

abbrev same_text : String → String
same_text s = s

abbrev no_address : String → Bool
no_address s = false

abbrev sign_in : AuthorizeRequest
sign_in = record {
  client_id = "cursor";
  redirect_uri = "http://localhost/cb";
  state = "theirs";
  code_challenge = "challenge";
}

abbrev prepared : PreparedLogin
prepared = record {
  url = "https://login";
  state = "state";
  verifier = "verifier";
  scopes = requested_scopes;
}

abbrev two_visits : List (Visit local_url same_text no_address [])
two_visits =
    authorizes sign_in (ok prepared) ∷ comes_back exchange parses "fresh" "grant" "state" ∷ []

visits-SentTo_example :
    SentTo local_url same_text no_address []
      (visits local_url same_text no_address [] two_visits calm)
visits-SentTo_example = visits-SentTo local_url same_text no_address [] two_visits calm tt

-- The player does get back to the client.
visits_run : visits local_url same_text no_address [] two_visits calm ≡ place ∷ []
unfolding visits complete_callback eve_online_mcp.Repo.Logins.take eve_online_mcp.Store.sql
    eve_online_mcp.Oauth.Authorize.serve_authorize eve_online_mcp.Repo.Logins.put
    eve_online_mcp.Repo.Clients.get eve_online_mcp.Repo.Clients.get_sql
    eve_online_mcp.Repo.Logins.put_sql eve_online_mcp.Repo.Logins.take_sql
    eve_online_mcp.Write.Policy.missing_scopes requested_scopes eve_online_mcp.Repo.Characters.get
    eve_online_mcp.Repo.Characters.get_sql eve_online_mcp.Repo.Sessions.revoke_all_for_character
    eve_online_mcp.Repo.Sessions.revoke_all_sql eve_online_mcp.Repo.Characters.upsert
    eve_online_mcp.Repo.Characters.upsert_sql eve_online_mcp.Repo.Codes.put
    eve_online_mcp.Repo.Codes.put_sql eve_online_mcp.Repo.Sessions.close_row
    eve_online_mcp.Repo.Sessions.revoke_rows eve_online_mcp.Repo.Sessions.tokens_of
    eve_online_mcp.Store.revoke_at_ccp
visits_run = refl
