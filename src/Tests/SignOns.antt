-- ===== src/Tests/SignOns.antt =====
-- Runs of the client of CCP's sign-on: internal/adapter/sso/http/client.go.
use eve_online_mcp.Prelude.{ℕ, ◌≡◌, ◌⊎◌, refl, some, none, [], ◌∷◌, arith}
use eve_online_mcp.Domain.{CharacterToken}
use eve_online_mcp.Store.{ok}
use eve_online_mcp.Sso.{
  Client, Library, Claims, Scp, TokenReply, Form, token_request, exchange_code, access_token,
  refresh, cached_token, mem_of,
}
use eve_online_mcp.Sso.Issued.{Issued, exchange_code-Issued}
use eve_online_mcp.Sso.Cached.{FromMemory, Renewed, access_token-Live, access_token-Again}

abbrev sample_claims : Claims
sample_claims = record {
  iss = "https://login.eveonline.com";
  sub = "CHARACTER:EVE:90";
  name = "Pilot";
  owner = "hash";
  scp = Scp.many (some "publicData" ∷ none ∷ []);
}

-- CCP, with one key, which answers every request with the same tokens.
abbrev sample_library : Library ℕ
sample_library = record {
  token_reply = λ n form. TokenReply.responded 200 "application/json" "{}";
  payload_of =
      λ body. some (record { access_token = "access"; refresh_token = "new"; expires_in = none });
  detail_of = λ body. none;
  jwks_reply = λ n. some (("kid", 7) ∷ []);
  peek = λ access. some ("kid", sample_claims);
  verify = λ key access. some sample_claims;
  scan = λ s. some 90;
}

abbrev sample_client : Client ℕ
sample_client = record { now = 100; access = []; jwks = none; requests = 0 }

abbrev sample_token : CharacterToken
sample_token = record {
  character_id = 90;
  character_name = "Pilot";
  refresh_token = "new";
  scopes = "publicData" ∷ [];
  owner_hash = "hash";
  access_token = "access";
  access_expires_at = 1200000000100;
}

exchanged : (exchange_code sample_library "code" "verifier" sample_client).0 ≡ ok sample_token
unfolding exchange_code
exchanged = refl

exchange_code-Issued_example :
    Issued sample_library
      (token_request sample_library (Form.authorization_code "code" "verifier") sample_client).1
      sample_token
exchange_code-Issued_example =
    exchange_code-Issued sample_library "code" "verifier" sample_client sample_token exchanged

renewed : (access_token sample_library "old" sample_client).0 ≡ ok sample_token
unfolding access_token
renewed = refl

access_token-Live_example :
    FromMemory sample_library "old" sample_token sample_client
      (access_token sample_library "old" sample_client).1
    ⊎ Renewed sample_library "old" sample_token sample_client
        (access_token sample_library "old" sample_client).1
access_token-Live_example =
    access_token-Live sample_library "old" sample_client sample_token renewed

refreshed_once : (refresh sample_library "old" sample_client).0 ≡ ok sample_token
unfolding refresh
refreshed_once = refl

access_token-Again_example :
    (let c' = record ((refresh sample_library "old" sample_client).1) { now = 1140000000100 } in
      access_token sample_library "new" c'
      ≡ (ok (cached_token (mem_of sample_library sample_token)), c'))
access_token-Again_example =
    access_token-Again sample_library "old" sample_client sample_token 1140000000100 refreshed_once
      (omega arith)
