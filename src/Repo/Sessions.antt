-- ===== src/Repo/Sessions.antt =====
-- internal/domain/session/pgx/repo.go, the table `sessions`: one sign-in a row.
use eve_online_mcp.Prelude.{
  ℕ, suc, ◌+◌, ◌*◌, String, Bool, true, false, ◌&&◌, not, Option, none, some, List, [], ◌∷◌, map,
  if◌then◌else◌, ltb, ◌==◌, str_eq, find?, filter, remove_if, any, count, take, sort_by,
}
use eve_online_mcp.Domain.{day, Error, SessionRow, MutationRow, Revoked, session_not_found, need_tx}
use eve_online_mcp.Repo.Mutations.{null_if_empty, character_exists}
use eve_online_mcp.Store.{M, Statement, sql, touch_db, within_tx, raise, or_raise, ◌>>=◌}

abbrev pub lifetime : ℕ
lifetime = 30 * day

abbrev pub revoke_ceiling : ℕ
revoke_ceiling = 100

abbrev pub is_unrevoked : SessionRow → Bool
is_unrevoked s = elim s.revoked_at [ none ↦ true | some _ ↦ false ]

-- The condition of the unique index `sessions_one_live`.
abbrev pub is_open_for : ℕ → SessionRow → Bool
is_open_for character s = (s.character_id == character) && is_unrevoked s

abbrev pub is_live : ℕ → ℕ → SessionRow → Bool
is_live id now s = (s.id == id) && (is_unrevoked s && ltb now s.valid_til)

abbrev pub deref : Option String → String
deref none = ""
deref (some s) = s

-- session.Session, the argument of `Create`.
pub record NewSession : Type 0 where
  pub character_id : ℕ
  pub refresh_token : String
  pub scopes : List String
  pub mcp_client_id : String
  pub client_name : String
  pub ip : String

unfoldable pub new_row : ℕ → ℕ → NewSession → SessionRow
new_row id now s = record {
  id = id;
  character_id = s.character_id;
  refresh_token = null_if_empty s.refresh_token;
  scopes = s.scopes;
  mcp_client_id = s.mcp_client_id;
  client_name = s.client_name;
  ip = s.ip;
  created_at = now;
  valid_til = now + lifetime;
  revoked_at = none;
}

-- A row needs a character, and no other row of that character that is not revoked.
unfoldable pub create_sql : NewSession → Statement SessionRow
create_sql s now d =
    if character_exists s.character_id d.characters
      && not (any (is_open_for s.character_id) d.sessions)
    then some (
      new_row d.next_session now s,
      record d {
        sessions = new_row d.next_session now s ∷ d.sessions;
        next_session = suc d.next_session;
      },
    )
    else none

-- The `UPDATE` of the three revoking statements on one row, if the row is selected.
unfoldable pub close_row : (SessionRow → Bool) → ℕ → SessionRow → SessionRow
close_row p now s = if p s then record s { revoked_at = some now; refresh_token = none } else s

-- The tokens that are neither null nor empty.
unfoldable pub tokens_of : List SessionRow → List String
tokens_of [] = []
tokens_of (s ∷ rows) =
    if str_eq (deref s.refresh_token) ""
    then tokens_of rows
    else deref s.refresh_token ∷ tokens_of rows

unfoldable pub revoke_rows : (SessionRow → Bool) → List SessionRow → Statement Revoked
revoke_rows p doomed now d = some (
  record { ids = map (λ s. s.id) doomed; tokens = tokens_of doomed },
  record d { sessions = map (close_row p now) d.sessions },
)

unfoldable pub revoke_all_sql : ℕ → Statement Revoked
unfolding revoke_rows
revoke_all_sql character now d =
    revoke_rows (is_open_for character) (filter (is_open_for character) d.sessions) now d

abbrev pub is_open : ℕ → SessionRow → Bool
is_open id s = (s.id == id) && is_unrevoked s

unfoldable pub revoke_one_sql : ℕ → Statement Revoked
unfolding revoke_rows
revoke_one_sql id now d = revoke_rows (is_open id) (filter (is_open id) d.sessions) now d

abbrev pub is_overdue : ℕ → SessionRow → Bool
is_overdue now s = is_unrevoked s && ltb s.valid_til now

-- `ORDER BY valid_til LIMIT 100`
unfoldable pub overdue : ℕ → List SessionRow → List SessionRow
overdue now rows = take revoke_ceiling (sort_by (λ s. s.valid_til) (filter (is_overdue now) rows))

unfoldable pub expire_valid_til_sql : Statement Revoked
unfolding revoke_rows overdue
expire_valid_til_sql now d =
    let doomed = overdue now d.sessions in
    revoke_rows (λ s. any (λ t. t.id == s.id) doomed) doomed now d

abbrev pub is_stale : ℕ → SessionRow → Bool
is_stale now s = elim s.revoked_at [ none ↦ false | some t ↦ ltb (t + 90 * day) now ]

-- `ON DELETE CASCADE` of the confirm tokens, `ON DELETE SET NULL` of the audit rows.
unfoldable pub forget : List SessionRow → MutationRow → MutationRow
forget rows m = elim m.session_id [
  | none ↦ m
  | some id ↦ if any (λ s. s.id == id) rows then m else record m { session_id = none }
]

unfoldable pub purge_revoked_sql : Statement ℕ
unfolding forget
purge_revoked_sql now d =
    let kept = remove_if (is_stale now) d.sessions in
    some (
      count (is_stale now) d.sessions,
      record d {
        sessions = kept;
        confirms = filter (λ c. any (λ s. s.id == c.session_id) kept) d.confirms;
        mutations = map (forget kept) d.mutations;
      },
    )

unfoldable pub live_by_id_sql : ℕ → Statement (Option SessionRow)
live_by_id_sql id now d = some (find? (is_live id now) d.sessions, d)

unfoldable pub reread_sql : ℕ → Statement (Option SessionRow)
reread_sql id now d = some (find? (λ s. s.id == id) d.sessions, d)

unfoldable pub write_refresh : ℕ → String → SessionRow → SessionRow
write_refresh id token s =
    if s.id == id then record s { refresh_token = null_if_empty token } else s

unfoldable pub write_refresh_sql : ℕ → String → Statement (Unit {0})
unfolding write_refresh
write_refresh_sql id token now d =
    some (tt, record d { sessions = map (write_refresh id token) d.sessions })

unfoldable pub create : NewSession → M SessionRow
create s = sql (create_sql s)

unfoldable pub revoke_all_for_character : ℕ → M Revoked
revoke_all_for_character character = sql (revoke_all_sql character)

unfoldable pub revoke : ℕ → M Revoked
revoke id = sql (revoke_one_sql id)

unfoldable pub expire_valid_til : M Revoked
expire_valid_til = sql expire_valid_til_sql

unfoldable pub purge_revoked : M ℕ
purge_revoked = sql purge_revoked_sql

unfoldable pub live_by_id : ℕ → M SessionRow
live_by_id id = do row ← sql (live_by_id_sql id); or_raise row session_not_found

-- The row is locked, its token read again, and what `fn` answers is written back.
unfoldable pub refresh_locked : ℕ → (String → M String) → M (Unit {0})
refresh_locked id fn = do
  locked ← sql (live_by_id_sql id)
  held ← or_raise locked session_not_found
  row ← sql (reread_sql id)
  current ← or_raise row Error.driver
  next ← fn (deref current.refresh_token)
  sql (write_refresh_sql id next)

unfoldable pub lock_for_refresh : ℕ → (String → M String) → M (Unit {0})
lock_for_refresh id fn = within_tx (refresh_locked id fn)

unfoldable pub lock_character : ℕ → M (Unit {0})
lock_character character w = if w.in_tx then sql touch_db w else raise need_tx w
