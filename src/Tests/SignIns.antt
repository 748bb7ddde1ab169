-- ===== src/Tests/SignIns.antt =====
-- Runs of the token endpoint and of the check on a request: internal/usecase/oauth.
use eve_online_mcp.Prelude.{◌≡◌, refl, String, ◌∷◌, [], some}
use eve_online_mcp.Store.{World, ok}
use eve_online_mcp.Repo.Codes.{has_value}
use eve_online_mcp.Write.Policy.{requested_scopes}
use eve_online_mcp.Oauth.{tokens, TokenRequest, Issued, exchange_code, refresh_grant, require_live}
use eve_online_mcp.Oauth.Exchange.{Vouched, exchange_code-Vouched}
use eve_online_mcp.Oauth.Live.{Entitled, require_live-Entitled}
use eve_online_mcp.Tests.Samples.{calm, sample_db, session_row}

-- In place of the digest, the text itself.
abbrev plain : String → String
plain s = s

abbrev request : TokenRequest
request = record { code = "code"; verifier = "challenge"; redirect = ""; ip = "10.0.0.1" }

abbrev after_exchange : World
after_exchange = (exchange_code plain request calm).1

exchange_runs : exchange_code plain request calm ≡ (tokens 90 8 2592000000000100, after_exchange)
unfolding exchange_code eve_online_mcp.Repo.Codes.get eve_online_mcp.Store.sql
    eve_online_mcp.Repo.Codes.select_sql eve_online_mcp.Grant.redeem eve_online_mcp.Store.within_tx
    eve_online_mcp.Repo.Clients.get eve_online_mcp.Repo.Clients.get_sql
    eve_online_mcp.Repo.Sessions.lock_character eve_online_mcp.Repo.Codes.take_code
    eve_online_mcp.Repo.Codes.take_sql eve_online_mcp.Repo.Sessions.revoke_all_for_character
    eve_online_mcp.Repo.Sessions.revoke_all_sql eve_online_mcp.Repo.Sessions.create
    eve_online_mcp.Repo.Sessions.create_sql eve_online_mcp.Repo.Mutations.character_exists
    eve_online_mcp.Repo.Sessions.close_row eve_online_mcp.Repo.Sessions.new_row
    eve_online_mcp.Store.revoke_at_ccp eve_online_mcp.Repo.Sessions.tokens_of
exchange_runs = refl

exchange_code-Vouched_example : Vouched plain request calm
exchange_code-Vouched_example =
    exchange_code-Vouched plain request calm after_exchange 90 8 2592000000000100 exchange_runs

-- The session of the sample, with all scopes.
abbrev signed_in : World
signed_in = record calm {
  db = record sample_db { sessions = record session_row { scopes = requested_scopes } ∷ [] };
}

abbrev issued : Issued
issued = record { character_id = 90; session_id = 7 }

require_live_runs : require_live issued signed_in ≡ (ok tt, (require_live issued signed_in).1)
unfolding require_live eve_online_mcp.Repo.Sessions.live_by_id eve_online_mcp.Store.sql
    eve_online_mcp.Repo.Sessions.live_by_id_sql eve_online_mcp.Write.Policy.missing_scopes
    requested_scopes
require_live_runs = refl

require_live-Entitled_example : Entitled issued signed_in (require_live issued signed_in).1
require_live-Entitled_example =
    require_live-Entitled issued signed_in (require_live issued signed_in).1 require_live_runs

refresh_runs :
    refresh_grant (some issued) signed_in
    ≡ (tokens 90 7 2592000000000001, (refresh_grant (some issued) signed_in).1)
unfolding refresh_grant eve_online_mcp.Repo.Sessions.live_by_id eve_online_mcp.Store.sql
    eve_online_mcp.Repo.Sessions.live_by_id_sql
refresh_runs = refl
