-- ===== src/Domain.antt =====
-- The records of internal/domain: confirm, mutation, session, authcode, loginstate, oauthclient
-- and character, as the rows that internal/domain/*/pgx keeps, with the sentinel errors.
-- A time is a number of nanoseconds and the zero time is 0; a nullable column is an `Option`.
use eve_online_mcp.Prelude.{ℕ, ◌*◌, String, List, Option}

abbrev pub second : ℕ
second = 1000000000

abbrev pub minute : ℕ
minute = 60 * second

abbrev pub hour : ℕ
hour = 60 * minute

abbrev pub day : ℕ
day = 24 * hour

-- The sentinel that `errors.Is` finds in an error's chain. `driver` is every error of the
-- database driver; the texts that `wrap` adds are left out.
pub data Error : Type 0 where
  driver need_tx : Error
  confirm_not_found authcode_not_found login_not_found session_not_found : Error
  client_not_found character_not_found : Error
  mail_cap confirm_unknown confirm_args confirm_tool unknown_capability : Error
  missing_write_scope mail_hold_abandoned : Error
  no_session dead_session missing_scope npc_corp missing_corp_role no_corporation : Error
  invalid_grant sso_failure esi_failure : Error
  cspa_unpriced cspa_exceeds preview_read : Error
  validation : (field invariant : String) → Error

-- confirm.Confirm
pub record Confirm : Type 0 where
  pub value : String
  pub session_id : ℕ
  pub tool : String
  pub args_digest : String
  pub created_at : ℕ
  pub expires_at : ℕ

-- mutation.Mutation, the argument of `Append`.
pub record Mutation : Type 0 where
  pub character_id : ℕ
  pub session_id : ℕ
  pub tool : String
  pub capability : String
  pub args_digest : String
  pub summary : String
  pub outcome : String
  pub esi_status : ℕ
  pub error : String

-- A row of the table `mutations`.
pub record MutationRow : Type 0 where
  pub character_id : ℕ
  pub session_id : Option ℕ
  pub tool : String
  pub capability : String
  pub args_digest : String
  pub summary : String
  pub outcome : String
  pub esi_status : Option ℕ
  pub error : Option String
  pub created_at : ℕ

-- session.Session as a row of the table `sessions`.
pub record SessionRow : Type 0 where
  pub id : ℕ
  pub character_id : ℕ
  pub refresh_token : Option String
  pub scopes : List String
  pub mcp_client_id : String
  pub client_name : String
  pub ip : String
  pub created_at : ℕ
  pub valid_til : ℕ
  pub revoked_at : Option ℕ

-- session.Revoked: the rows that were revoked, and their tokens.
pub record Revoked : Type 0 where
  pub ids : List ℕ
  pub tokens : List String

-- authcode.Code
pub record Code : Type 0 where
  pub value : String
  pub character_id : ℕ
  pub refresh_token : String
  pub scopes : List String
  pub mcp_client_id : String
  pub redirect_uri : String
  pub code_challenge : String
  pub expires_at : ℕ

-- authcode.Swept
pub record Swept : Type 0 where
  pub count : ℕ
  pub tokens : List String

-- loginstate.Login
pub record Login : Type 0 where
  pub state : String
  pub pkce_verifier : String
  pub scopes : List String
  pub mcp_client_id : String
  pub redirect_uri : String
  pub mcp_state : String
  pub code_challenge : String
  pub created_at : ℕ

-- oauthclient.Client as a row of `oauth_clients`.
pub record Client : Type 0 where
  pub id : String
  pub name : String
  pub redirect_uris : List String
  pub created_at : ℕ
  pub deleted_at : Option ℕ

-- character.Character as a row of `characters`.
pub record Character : Type 0 where
  pub id : ℕ
  pub name : String
  pub owner_hash : String
  pub created_at : ℕ
  pub deleted_at : Option ℕ

-- sso.CharacterToken: what CCP answers to a sign-in and to a refresh.
pub record CharacterToken : Type 0 where
  pub character_id : ℕ
  pub character_name : String
  pub refresh_token : String
  pub scopes : List String
  pub owner_hash : String
  pub access_token : String
  pub access_expires_at : ℕ

-- session.grantState: the tokens of a session in memory.
pub record GrantState : Type 0 where
  pub refresh : String
  pub access : String
  pub expiry : ℕ
