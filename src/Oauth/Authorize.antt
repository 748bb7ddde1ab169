-- ===== src/Oauth/Authorize.antt =====
-- internal/usecase/oauth/oauth.go: a client registers, and a player is sent to CCP's sign-on, if the
-- redirect is one that the server allows. The token endpoint picks its grant here too.
pub mod Allowed
use eve_online_mcp.Prelude.{
  ℕ, String, Bool, true, false, ◌&&◌, ◌||◌, Option, none, some, List, [], ◌∷◌, if◌then◌else◌,
  str_eq, contains, filter,
}
use eve_online_mcp.Domain.{Error, Client, Login}
use eve_online_mcp.Store.{World, Result, ok, err}
use eve_online_mcp.Repo.Clients
use eve_online_mcp.Repo.Logins
use eve_online_mcp.Oauth.{Response, TokenRequest, Issued, exchange_code, refresh_grant}

-- What is read of a URL.
pub record Url : Type 0 where
  pub scheme : String
  pub hostname : String
  pub path : String

-- `strings.HasPrefix`
unfoldable pub has_prefix : String → String → Bool
has_prefix s String.[] = true
has_prefix String.[] (String.◌∷◌ c p) = false
has_prefix (String.◌∷◌ d s) (String.◌∷◌ c p) =
    str_eq (String.◌∷◌ d "") (String.◌∷◌ c "") && has_prefix s p

pub data HttpMethod : Type 0 where
  options post other : HttpMethod

-- sso.PreparedLogin
pub record PreparedLogin : Type 0 where
  pub url : String
  pub state : String
  pub verifier : String
  pub scopes : List String

pub record AuthorizeRequest : Type 0 where
  pub client_id : String
  pub redirect_uri : String
  pub state : String
  pub code_challenge : String

pub data Authorized : Type 0 where
  explained unknown_client server_error : Authorized
  redirected : String → Authorized

pub record Registration : Type 0 where
  pub redirect_uris : List String
  pub client_name : String

pub data Registered : Type 0 where
  no_content not_allowed invalid_client_metadata invalid_redirect_uri server_error : Registered
  created : String → List String → String → Registered

-- `parse` is url.Parse, `lower` strings.ToLower, `is_loopback` whether net.ParseIP reads a loopback
-- address, and `extra` the redirects that the configuration adds.
module _ (parse : String → Option Url) (lower : String → String) (is_loopback : String → Bool)
    (extra : List String) where
  abbrev pub host_ok : String → Url → Bool
  host_ok host u =
      if str_eq host "localhost" || (str_eq host "127.0.0.1" || str_eq host "::1")
      then str_eq u.scheme "http"
      else if str_eq host "www.cursor.com" && has_prefix u.path "/agents/mcp/oauth/callback"
      then str_eq u.scheme "https"
      else if str_eq host "cursor.com" && has_prefix u.path "/agents/mcp/oauth/callback"
      then str_eq u.scheme "https"
      else if str_eq host "claude.ai" && has_prefix u.path "/api/mcp/auth_callback"
      then str_eq u.scheme "https"
      else if is_loopback host
      then str_eq u.scheme "http"
      else false

  unfoldable pub url_ok : Option Url → Bool
  unfolding has_prefix
  url_ok none = false
  url_ok (some u) = if str_eq u.path "" then false else host_ok (lower u.hostname) u

  unfoldable pub redirect_ok : String → Bool
  unfolding url_ok
  redirect_ok raw = url_ok (parse raw)

  unfoldable pub redirect_allowed : String → Bool
  unfolding redirect_ok
  redirect_allowed raw = if redirect_ok raw then true else contains extra raw

  -- The client is looked up, and the answer is the same whatever is found.
  unfoldable pub client_redirect_ok : String → String → World → Bool × World
  unfolding redirect_allowed
  client_redirect_ok client redirect w =
      if redirect_allowed redirect then (true, (Clients.get client w).1) else (false, w)

  abbrev pub client_of : String → Registration → List String → Client
  client_of id q allowed = record {
    id = id;
    name = q.client_name;
    redirect_uris = allowed;
    created_at = 0;
    deleted_at = none;
  }

  unfoldable pub upserted :
      String → Registration → List String → Result (Unit {0}) × World → Registered × World
  upserted id q allowed (ok _, w) = (created id allowed q.client_name, w)
  upserted id q allowed (err e, w) = (server_error, w)

  unfoldable pub register_allowed : String → Registration → List String → World → Registered × World
  unfolding upserted
  register_allowed id q [] w = (invalid_redirect_uri, w)
  register_allowed id q (u ∷ allowed) w =
      upserted id q (u ∷ allowed) (Clients.upsert (client_of id q (u ∷ allowed)) w)

  unfoldable pub register_body : String → Option Registration → World → Registered × World
  unfolding register_allowed
  register_body id none w = (invalid_client_metadata, w)
  register_body id (some q) w = elim q.redirect_uris [
    | [] ↦ (invalid_client_metadata, w)
    | _ ∷ _ ↦ register_allowed id q (filter redirect_allowed q.redirect_uris) w
  ]

  -- `id` is the random id; the body is nothing where it is no JSON.
  unfoldable pub serve_register :
      HttpMethod → String → Option Registration → World → Registered × World
  unfolding register_body
  serve_register options id body w = (no_content, w)
  serve_register other id body w = (not_allowed, w)
  serve_register post id body w = register_body id body w

  abbrev pub login_of : AuthorizeRequest → PreparedLogin → Login
  login_of q prep = record {
    state = prep.state;
    pkce_verifier = prep.verifier;
    scopes = prep.scopes;
    mcp_client_id = q.client_id;
    redirect_uri = q.redirect_uri;
    mcp_state = q.state;
    code_challenge = q.code_challenge;
    created_at = 0;
  }

  unfoldable pub login_put : PreparedLogin → Result (Unit {0}) × World → Authorized × World
  login_put prep (ok _, w) = (redirected prep.url, w)
  login_put prep (err e, w) = (server_error, w)

  unfoldable pub login_prepared :
      AuthorizeRequest → Result PreparedLogin → World → Authorized × World
  unfolding login_put
  login_prepared q (ok prep) w = login_put prep (Logins.put (login_of q prep) w)
  login_prepared q (err e) w = (server_error, w)

  unfoldable pub redirect_checked :
      AuthorizeRequest → Result PreparedLogin → Bool × World → Authorized × World
  unfolding login_prepared
  redirect_checked q prep (true, w) = login_prepared q prep w
  redirect_checked q prep (false, w) = (unknown_client, w)

  -- `prep` is what `PrepareLogin` answers.
  unfoldable pub serve_authorize :
      AuthorizeRequest → Result PreparedLogin → World → Authorized × World
  unfolding redirect_checked client_redirect_ok
  serve_authorize q prep w =
      if str_eq q.client_id "" || (str_eq q.redirect_uri "" || str_eq q.code_challenge "")
      then (explained, w)
      else redirect_checked q prep (client_redirect_ok q.client_id q.redirect_uri w)

pub data Grant : Type 0 where
  authorization_code : TokenRequest → Grant
  refresh_token : Option Issued → Grant
  unknown_grant : Grant

pub data TokenAnswer : Type 0 where
  not_allowed invalid_request unsupported_grant_type : TokenAnswer
  answered : Response → TokenAnswer

abbrev pub answer_with : Response × World → TokenAnswer × World
answer_with (r, w) = (answered r, w)

-- The form is nothing where it cannot be parsed.
unfoldable pub serve_token :
    (String → String) → HttpMethod → Option Grant → World → TokenAnswer × World
serve_token s256 options form w = (not_allowed, w)
serve_token s256 other form w = (not_allowed, w)
serve_token s256 post none w = (invalid_request, w)
serve_token s256 post (some (authorization_code q)) w = answer_with (exchange_code s256 q w)
serve_token s256 post (some (refresh_token ref)) w = answer_with (refresh_grant ref w)
serve_token s256 post (some unknown_grant) w = (unsupported_grant_type, w)
