-- ===== src/Sso.antt =====
-- internal/adapter/sso/http/client.go and tokens.go: the client of CCP's sign-on, with its cache of
-- access tokens and of signing keys.
pub mod Texts
pub mod Issued
pub mod Cached
use eve_online_mcp.Prelude.{
  ℕ, ◌+◌, ◌*◌, String, Bool, true, false, not, ◌||◌, ◌&&◌, Option, none, some, List, [], ◌∷◌, ◌++◌,
  if◌then◌else◌, ltb, leb, ◌==◌, str_eq, find?, remove_if,
}
use eve_online_mcp.Domain.{second, minute, hour, Error, CharacterToken, invalid_grant, sso_failure}
use eve_online_mcp.Store.{Result, ok, err}
use Texts.{after_prefix, text_contains, Detail, sso_detail}

abbrev pub refresh_margin : ℕ
refresh_margin = 60 * second

abbrev pub subject_prefix : String
subject_prefix = "CHARACTER:EVE:"

unfoldable pub known_issuer : String → Bool
known_issuer iss = str_eq iss "login.eveonline.com" || str_eq iss "https://login.eveonline.com"

-- The claim `scp`: a text, a list whose members may be texts, or anything else.
pub data Scp : Type 0 where
  one : String → Scp
  many : List (Option String) → Scp
  other : Scp

-- The claims that are read, each as `j.Str` reads it.
pub record Claims : Type 0 where
  pub iss : String
  pub sub : String
  pub name : String
  pub owner : String
  pub scp : Scp

-- The answer of the token endpoint; `expires_in` in nanoseconds, where it is a number.
pub record Payload : Type 0 where
  pub access_token : String
  pub refresh_token : String
  pub expires_in : Option ℕ

-- What a request to the token endpoint brings: nothing, or a status, a content type and a body.
pub data TokenReply : Type 0 where
  broken : TokenReply
  responded : ℕ → String → String → TokenReply

pub data Form : Type 0 where
  authorization_code : (code verifier : String) → Form
  refresh_grant : String → Form

-- accessMem, under its refresh token.
pub record AccessMem : Type 0 where
  pub refresh_token : String
  pub access_token : String
  pub access_expires_at : ℕ

-- jwksState, with the keys under their `kid`.
pub record Jwks (Key : Type 0) : Type 0 where
  pub keys : List (String × Key)
  pub at : ℕ

-- The client: the time, the access tokens, the keys, and how many requests it has sent.
pub record Client (Key : Type 0) : Type 0 where
  pub now : ℕ
  pub access : List AccessMem
  pub jwks : Option (Jwks Key)
  pub requests : ℕ

abbrev pub holds : String → AccessMem → Bool
holds refresh m = str_eq m.refresh_token refresh

abbrev pub drop : String → List AccessMem → List AccessMem
drop refresh cache = remove_if (holds refresh) cache

unfoldable pub put : AccessMem → List AccessMem → List AccessMem
put m cache =
    if str_eq m.refresh_token "" || str_eq m.access_token ""
    then cache
    else m ∷ drop m.refresh_token cache

abbrev pub judge_mem : ℕ → Option AccessMem → Option AccessMem
judge_mem now none = none
judge_mem now (some m) =
    if str_eq m.access_token ""
    then none
    else if ltb m.access_expires_at (now + refresh_margin)
    then none
    else some m

unfoldable pub live : String → ℕ → List AccessMem → Option AccessMem
live refresh now cache = judge_mem now (find? (holds refresh) cache)

unfoldable pub cached_token : AccessMem → CharacterToken
cached_token m = record {
  character_id = 0;
  character_name = "";
  refresh_token = m.refresh_token;
  scopes = [];
  owner_hash = "";
  access_token = m.access_token;
  access_expires_at = m.access_expires_at;
}

-- tokenPair, of a payload with no token to fall back on.
unfoldable pub token_pair : Payload → Result (String × String)
token_pair p =
    if str_eq p.access_token "" || str_eq p.refresh_token ""
    then err sso_failure
    else ok (p.access_token, p.refresh_token)

abbrev texts_of : List (Option String) → List String
texts_of [] = []
texts_of (none ∷ values) = texts_of values
texts_of (some s ∷ values) = s ∷ texts_of values

unfoldable pub scopes_from_claims : Claims → List String
scopes_from_claims claims = elim claims.scp [
  | Scp.one s ↦ s ∷ []
  | Scp.many values ↦ texts_of values
  | Scp.other ↦ []
]

unfoldable pub expires_in : Payload → ℕ
expires_in p = elim p.expires_in [ none ↦ 1200 * second | some n ↦ n ]

unfoldable pub check_issuer : Claims → Result Claims
unfolding known_issuer
check_issuer claims = if known_issuer claims.iss then ok claims else err sso_failure

-- The network and the languages' libraries: what the n-th request brings, how a body reads as a
-- payload and as the detail of an error, what a token says of its key and its claims before its
-- signature is looked at, whether a key vouches for it (with its audience and its time), and the
-- number that `fmt.Sscanf` reads.
pub record Library (Key : Type 0) : Type 0 where
  pub token_reply : ℕ → Form → TokenReply
  pub payload_of : String → Option Payload
  pub detail_of : String → Option Detail
  pub jwks_reply : ℕ → Option (List (String × Key))
  pub peek : String → Option (String × Claims)
  pub verify : Key → String → Option Claims
  pub scan : String → Option ℕ

abbrev pub S : Type 0 → Type 0 → Type 0
S Key A = Client Key → Result A × Client Key

module _ {Key : Type 0} (lib : Library Key) where
  -- `strings.Contains(detail, "invalid_grant")` tells a grant that is gone from other refusals.
  unfoldable pub judge_token_reply : TokenReply → Result Payload
  unfolding sso_detail text_contains
  judge_token_reply TokenReply.broken = err sso_failure
  judge_token_reply (TokenReply.responded status content_type body) =
      if leb 400 status
      then (if text_contains "invalid_grant" (sso_detail lib.detail_of content_type body)
          then err invalid_grant
          else err sso_failure)
      else elim (lib.payload_of body) [ none ↦ err sso_failure | some p ↦ ok p ]

  unfoldable pub token_request : Form → S Key Payload
  unfolding judge_token_reply
  token_request form c =
      (judge_token_reply (lib.token_reply c.requests form), record c { requests = c.requests + 1 })

  unfoldable pub scanned : Option ℕ → Result ℕ
  scanned none = err sso_failure
  scanned (some n) = if n == 0 then err sso_failure else ok n

  unfoldable pub character_of : Option String → Result ℕ
  unfolding scanned
  character_of none = err sso_failure
  character_of (some rest) = scanned (lib.scan rest)

  unfoldable pub character_id_from_claims : Claims → Result ℕ
  unfolding character_of after_prefix
  character_id_from_claims claims = character_of (after_prefix subject_prefix claims.sub)

  -- `time.Since(at) > time.Hour`, or no keys at all.
  abbrev pub is_stale : ℕ → Option (Jwks Key) → Bool
  is_stale now none = true
  is_stale now (some jwks) = ltb (jwks.at + hour) now

  abbrev key_in : String → List (String × Key) → Result Key
  key_in kid [] = err sso_failure
  key_in kid ((k, key) ∷ keys) = if str_eq k kid then ok key else key_in kid keys

  abbrev pub fetched : String → Client Key → Option (List (String × Key)) → Result Key × Client Key
  fetched kid c none = (err sso_failure, record c { requests = c.requests + 1 })
  fetched kid c (some keys) = (
    key_in kid keys,
    record c { requests = c.requests + 1; jwks = some (record { keys = keys; at = c.now }) },
  )

  abbrev pub kept_key : String → Option (Jwks Key) → Result Key
  kept_key kid none = err sso_failure
  kept_key kid (some jwks) = key_in kid jwks.keys

  unfoldable pub key_for : Option (String × Claims) → S Key Key
  key_for none c = (err sso_failure, c)
  key_for (some (kid, claims)) c =
      if is_stale c.now c.jwks
      then fetched kid c (lib.jwks_reply c.requests)
      else (kept_key kid c.jwks, c)

  unfoldable pub signing_key : String → S Key Key
  unfolding key_for
  signing_key access c = key_for (lib.peek access) c

  abbrev pub claims_of : Option Claims → Result Claims
  claims_of none = err sso_failure
  claims_of (some claims) = check_issuer claims

  abbrev pub peeked : Option (String × Claims) → Option Claims
  peeked none = none
  peeked (some (kid, claims)) = some claims

  -- Where there is no key, the token is taken as it is, on the trust in the connection.
  unfoldable pub decode_with : String → Result Key → Result Claims
  unfolding check_issuer
  decode_with access (ok key) = claims_of (lib.verify key access)
  decode_with access (err e) = claims_of (peeked (lib.peek access))

  unfoldable pub decode : String → S Key Claims
  unfolding decode_with signing_key
  decode access c = let (r, c') = signing_key access c in (decode_with access r, c')

  unfoldable pub token_of : Payload → ℕ → Claims → ℕ → CharacterToken
  unfolding scopes_from_claims expires_in
  token_of p now claims id = record {
    character_id = id;
    character_name = claims.name;
    refresh_token = p.refresh_token;
    scopes = scopes_from_claims claims;
    owner_hash = claims.owner;
    access_token = p.access_token;
    access_expires_at = now + expires_in p;
  }

  abbrev pub with_id : Payload → ℕ → Claims → Result ℕ → Result CharacterToken
  with_id p now claims (err e) = err e
  with_id p now claims (ok id) = ok (token_of p now claims id)

  unfoldable pub with_claims : Payload → ℕ → Result Claims → Result CharacterToken
  unfolding token_of character_id_from_claims
  with_claims p now (err e) = err e
  with_claims p now (ok claims) = with_id p now claims (character_id_from_claims claims)

  abbrev pub with_pair :
      Payload → Client Key → Result (String × String) → Result CharacterToken × Client Key
  with_pair p c (err e) = (err e, c)
  with_pair p c (ok (access, refresh)) =
      let (r, c') = decode access c in (with_claims p c'.now r, c')

  unfoldable pub token_from_payload :
      Result Payload × Client Key → Result CharacterToken × Client Key
  unfolding token_pair with_claims decode
  token_from_payload (err e, c) = (err e, c)
  token_from_payload (ok p, c) = with_pair p c (token_pair p)

  -- `ExchangeCode`, with the verifier of the login.
  unfoldable pub exchange_code : String → String → S Key CharacterToken
  unfolding token_request token_from_payload
  exchange_code code verifier c =
      token_from_payload (token_request (Form.authorization_code code verifier) c)

  abbrev pub mem_of : CharacterToken → AccessMem
  mem_of tok = record {
    refresh_token = tok.refresh_token;
    access_token = tok.access_token;
    access_expires_at = tok.access_expires_at;
  }

  abbrev pub is_invalid_grant : Error → Bool
  is_invalid_grant e = elim e [ invalid_grant ↦ true | _ ↦ false ]

  abbrev pub rotated : String → CharacterToken → List AccessMem → List AccessMem
  rotated refresh tok cache = if str_eq tok.refresh_token refresh then cache else drop refresh cache

  -- `refresh`: a grant that is gone takes its access token with it.
  unfoldable pub refreshed :
      String → Result CharacterToken × Client Key → Result CharacterToken × Client Key
  unfolding put
  refreshed refresh (err e, c) =
      (err e, if is_invalid_grant e then record c { access = drop refresh c.access } else c)
  refreshed refresh (ok tok, c) =
      (ok tok, record c { access = rotated refresh tok (put (mem_of tok) c.access) })

  unfoldable pub refresh : String → S Key CharacterToken
  unfolding refreshed token_request token_from_payload
  refresh token c =
      refreshed token (token_from_payload (token_request (Form.refresh_grant token) c))

  abbrev pub access_by : String → Option AccessMem → S Key CharacterToken
  access_by token (some m) c = (ok (cached_token m), c)
  access_by token none c = refresh token c

  -- `AccessToken`; the second look at the cache, under the lock, sees what the first one saw, since
  -- nothing runs between them here.
  unfoldable pub access_token : String → S Key CharacterToken
  unfolding live cached_token refresh
  access_token token c =
      if str_eq token ""
      then (err sso_failure, c)
      else access_by token (live token c.now c.access) c

  -- `Revoke`: CCP's answer is logged and forgotten.
  unfoldable pub revoke : String → Client Key → Client Key
  revoke token c =
      if str_eq token ""
      then c
      else record c { access = drop token c.access; requests = c.requests + 1 }
