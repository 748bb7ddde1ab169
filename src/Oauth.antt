-- ===== src/Oauth.antt =====
-- internal/usecase/oauth: exchange.go, protect.go, and the tests of oauth.go on a redirect and on
-- the PKCE verifier.
pub mod Authorize
pub mod Callback
pub mod Exchange
pub mod Live
use eve_online_mcp.Prelude.{
  ℕ, String, Bool, true, false, not, ◌&&◌, ◌||◌, Option, none, some, List, [], ◌∷◌, if◌then◌else◌,
  ◌==◌, str_eq, contains,
}
use eve_online_mcp.Domain.{Error, Client, Code, SessionRow, authcode_not_found, session_not_found}
use eve_online_mcp.Store.{World, Result, ok, err, M, revoke_at_ccp}
use eve_online_mcp.Repo.Codes
use eve_online_mcp.Repo.Clients
use eve_online_mcp.Repo.Sessions
use eve_online_mcp.Write.Policy.{missing_scopes}
use eve_online_mcp.Write.Summary.{rune_count, first_runes}
use eve_online_mcp.Grant.{ParkedGrant, Exchanged, redeem}

-- What the token endpoint answers.
pub data Response : Type 0 where
  invalid_grant server_error : Response
  tokens : ℕ → ℕ → ℕ → Response

pub record TokenRequest : Type 0 where
  pub code : String
  pub verifier : String
  pub redirect : String
  pub ip : String

-- `strings.TrimRight(s, "=")`
unfoldable pub trim_padding : String → String
trim_padding String.[] = ""
trim_padding (String.◌∷◌ c s) =
    let t = String.◌∷◌ c (trim_padding s) in if str_eq t "=" then "" else t

-- `errors.Is(err, authcode.ErrNotFound)`
unfoldable pub is_no_code : Error → Bool
is_no_code e = elim e [ authcode_not_found ↦ true | _ ↦ false ]

unfoldable pub refusal : Error → Response
unfolding is_no_code
refusal e = if is_no_code e then invalid_grant else server_error

-- A client that cannot be read has no name.
unfoldable pub name_of : Result Client × World → String × World
name_of (ok c, w) = (c.name, w)
name_of (err e, w) = ("", w)

abbrev pub grant_of : TokenRequest → Code → String → ParkedGrant
grant_of q ac name = record {
  code = ac.value;
  character_id = ac.character_id;
  refresh_token = ac.refresh_token;
  scopes = ac.scopes;
  mcp_client_id = ac.mcp_client_id;
  client_name = name;
  ip = q.ip;
}

unfoldable pub exchanged : Result Exchanged × World → Response × World
unfolding refusal
exchanged (ok e, w) = (
  tokens e.session.character_id e.session.id e.session.valid_til,
  (revoke_at_ccp e.revoked.tokens w).1,
)
exchanged (err e, w) = (refusal e, w)

unfoldable pub spend_code : TokenRequest → Code → World → Response × World
unfolding exchanged name_of
spend_code q ac w =
    let (name, w') = name_of (Clients.get ac.mcp_client_id w) in
    exchanged (redeem (grant_of q ac name) w')

-- A redirect that the request leaves out is not compared.
abbrev pub redirect_differs : TokenRequest → Code → Bool
redirect_differs q ac = not (str_eq q.redirect "") && not (str_eq q.redirect ac.redirect_uri)

-- `s256` is the SHA-256 of a text in URL-safe base64.
module _ (s256 : String → String) where
  unfoldable pub pkce_ok : String → String → Bool
  unfolding trim_padding
  pkce_ok challenge verifier =
      if str_eq challenge "" || str_eq verifier ""
      then false
      else str_eq (trim_padding (s256 verifier)) (trim_padding challenge)

  unfoldable pub with_code : TokenRequest → Result Code × World → Response × World
  unfolding refusal spend_code pkce_ok
  with_code q (err e, w) = (refusal e, w)
  with_code q (ok ac, w) =
      if redirect_differs q ac
      then (invalid_grant, w)
      else if not (pkce_ok ac.code_challenge q.verifier)
      then (invalid_grant, w)
      else spend_code q ac w

  unfoldable pub exchange_code : TokenRequest → World → Response × World
  unfolding with_code
  exchange_code q w = with_code q (Codes.get q.code w)

-- The claims of a token that was verified.
pub record Issued : Type 0 where
  pub character_id : ℕ
  pub session_id : ℕ

unfoldable pub refreshed : Issued → Result SessionRow × World → Response × World
refreshed ref (err e, w) = (invalid_grant, w)
refreshed ref (ok row, w) =
    if not (row.character_id == ref.character_id)
    then (invalid_grant, w)
    else (tokens ref.character_id ref.session_id row.valid_til, w)

-- The argument is what `parseRefresh` answers, nothing on an error.
unfoldable pub refresh_grant : Option Issued → World → Response × World
unfolding refreshed
refresh_grant none w = (invalid_grant, w)
refresh_grant (some ref) w = refreshed ref (Sessions.live_by_id ref.session_id w)

unfoldable pub judge_scopes : Issued → List String → M (Unit {0})
judge_scopes ref [] w = (ok tt, w)
judge_scopes ref (_ ∷ _) w = (err session_not_found, (Sessions.revoke ref.session_id w).1)

unfoldable pub judge_live : Issued → Result SessionRow × World → Result (Unit {0}) × World
unfolding judge_scopes
judge_live ref (err e, w) = (err session_not_found, w)
judge_live ref (ok row, w) =
    if not (row.character_id == ref.character_id)
    then (err session_not_found, w)
    else judge_scopes ref (missing_scopes row.scopes) w

unfoldable pub require_live : Issued → M (Unit {0})
unfolding judge_live
require_live ref w = judge_live ref (Sessions.live_by_id ref.session_id w)
