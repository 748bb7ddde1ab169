-- ===== src/Session.antt =====
-- internal/usecase/session/session.go: who a request is, and what its corporation lets it do, with
-- the corporation of internal/domain/character/character.go.
pub mod Known
use eve_online_mcp.Prelude.{
  ℕ, String, Bool, true, false, ◌&&◌, ◌||◌, List, [], ◌∷◌, if◌then◌else◌, ltb, ◌==◌, str_eq,
  contains, any,
}
use eve_online_mcp.Domain.{
  Error, SessionRow, Character, CharacterToken, no_session, dead_session, missing_scope, npc_corp,
  missing_corp_role, no_corporation,
}
use eve_online_mcp.Store.{World, Result, ok, err, M, pure, raise, ◌>>=◌, ◌>>◌}
use eve_online_mcp.Repo.Sessions
use eve_online_mcp.Repo.Sessions.{deref}
use eve_online_mcp.Repo.Characters
use eve_online_mcp.Grant.{revoke_if_scopes_fall_short}

-- The answer of `Character`; `AddedAt` is left out.
abbrev pub token_of : SessionRow → Character → CharacterToken
token_of row ident = record {
  character_id = ident.id;
  character_name = ident.name;
  refresh_token = deref row.refresh_token;
  scopes = row.scopes;
  owner_hash = ident.owner_hash;
  access_token = "";
  access_expires_at = 0;
}

unfoldable pub with_ident :
    ℕ → SessionRow → Result Character × World → Result CharacterToken × World
with_ident session row (err e, w) = (err dead_session, w)
with_ident session row (ok ident, w) =
    if Characters.live ident
    then (revoke_if_scopes_fall_short session row.scopes >> pure (token_of row ident)) w
    else (err dead_session, w)

unfoldable pub with_row : ℕ → ℕ → Result SessionRow × World → Result CharacterToken × World
unfolding with_ident
with_row id session (err e, w) = (err dead_session, w)
with_row id session (ok row, w) =
    if row.character_id == id
    then with_ident session row (Characters.get id w)
    else (err dead_session, w)

-- `Character` of the session with these two numbers, 0 where it has none.
unfoldable pub character : ℕ → ℕ → M CharacterToken
unfolding with_row
character id session w =
    if (id == 0) || (session == 0)
    then (err no_session, w)
    else with_row id session (Sessions.live_by_id session w)

unfoldable pub live : ℕ → M SessionRow
live session w = if session == 0 then (err no_session, w) else Sessions.live_by_id session w

abbrev pub has_granted : List String → String → Bool
has_granted scopes scope = contains scopes scope

unfoldable pub require_granted : List String → String → Result (Unit {0})
require_granted scopes scope = if has_granted scopes scope then ok tt else err missing_scope

abbrev pub player_corp_id_floor : ℕ
player_corp_id_floor = 98000000

-- character.Corporation, less what ESI says of it in public.
pub record Corporation : Type 0 where
  pub token : CharacterToken
  pub corporation_id : ℕ
  pub corporation_name : String
  pub ticker : String
  pub roles : List String
  pub roles_at_hq : List String
  pub roles_at_base : List String
  pub roles_at_other : List String

abbrev pub is_npc : Corporation → Bool
is_npc corp = ltb corp.corporation_id player_corp_id_floor

abbrev pub has_role : Corporation → List String → Bool
has_role corp needed = contains corp.roles "Director" || any (contains corp.roles) needed

unfoldable pub require_player_corp : Corporation → Result (Unit {0})
require_player_corp corp = if is_npc corp then err npc_corp else ok tt

unfoldable pub require_corp_role : Corporation → List String → Result (Unit {0})
require_corp_role corp [] = ok tt
require_corp_role corp (role ∷ needed) =
    if has_role corp (role ∷ needed) then ok tt else err missing_corp_role

-- The four lists of roles that ESI answers.
pub record Roles : Type 0 where
  pub everywhere : List String
  pub at_hq : List String
  pub at_base : List String
  pub at_other : List String

abbrev pub no_roles : Roles
no_roles = record { everywhere = []; at_hq = []; at_base = []; at_other = [] }

-- An error is logged and leaves no roles.
abbrev pub or_no_roles : Result Roles → Roles
or_no_roles (ok roles) = roles
or_no_roles (err e) = no_roles

abbrev pub roles_scope : String
roles_scope = "esi-characters.read_corporation_roles.v1"

-- A corporation's name and ticker.
pub record Public : Type 0 where
  pub name : String
  pub ticker : String

-- What ESI answers of a character's corporation, 0 where it names none, of a corporation, and of a
-- character's roles. `numbered` writes a corporation's number where it has no name.
module _ (corporation_of : ℕ → Result ℕ) (public_of : ℕ → Result Public)
    (roles_of : ℕ → Result Roles) (numbered : ℕ → String) where
  abbrev pub corp_of : CharacterToken → ℕ → Public → Roles → Corporation
  corp_of token id public roles = record {
    token = token;
    corporation_id = id;
    corporation_name = if str_eq public.name "" then numbered id else public.name;
    ticker = public.ticker;
    roles = roles.everywhere;
    roles_at_hq = roles.at_hq;
    roles_at_base = roles.at_base;
    roles_at_other = roles.at_other;
  }

  abbrev pub granted_roles : CharacterToken → Roles
  granted_roles token =
      if has_granted token.scopes roles_scope
      then or_no_roles (roles_of token.character_id)
      else no_roles

  unfoldable pub with_public : CharacterToken → ℕ → Result Public → Result Corporation
  with_public token id (err e) = err e
  with_public token id (ok public) = ok (corp_of token id public (granted_roles token))

  unfoldable pub with_sheet : CharacterToken → Result ℕ → Result Corporation
  unfolding with_public
  with_sheet token (err e) = err e
  with_sheet token (ok id) =
      if id == 0 then err no_corporation else with_public token id (public_of id)

  unfoldable pub resolve_corporation : ℕ → ℕ → M Corporation
  unfolding with_sheet
  resolve_corporation id session =
      character id session >>= λ token w. (with_sheet token (corporation_of token.character_id), w)
