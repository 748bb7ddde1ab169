-- ===== src/Repo/Confirms.antt =====
-- internal/domain/confirm/pgx/repo.go, the table `confirm_tokens`.
use eve_online_mcp.Prelude.{
  ℕ, ◌+◌, ◌*◌, String, Bool, ◌&&◌, not, Option, none, some, List, ◌∷◌, if◌then◌else◌, ltb, ◌==◌,
  str_eq, find?, remove_if, any, count,
}
use eve_online_mcp.Domain.{second, Confirm, SessionRow, confirm_not_found}
use eve_online_mcp.Store.{M, Statement, sql, pure, raise, or_raise, ◌>>=◌}

-- confirm.TTL
abbrev pub ttl : ℕ
ttl = 300 * second

abbrev pub has_token : String → Confirm → Bool
has_token token c = str_eq c.value token

unfoldable pub session_exists : ℕ → List SessionRow → Bool
session_exists id rows = any (λ s. s.id == id) rows

-- The row comes in under a token that no row has, or takes the place of the row that has it.
unfoldable pub put_sql : Confirm → Statement (Unit {0})
put_sql c now d =
    if session_exists c.session_id d.sessions
    then some (tt, record d { confirms = c ∷ remove_if (has_token c.value) d.confirms })
    else none

unfoldable pub get_sql : String → Statement (Option Confirm)
get_sql token now d = some (find? (has_token token) d.confirms, d)

unfoldable pub take_sql : String → Statement (Option Confirm)
take_sql token now d = some (
  find? (has_token token) d.confirms,
  record d { confirms = remove_if (has_token token) d.confirms },
)

unfoldable pub delete_sql : String → Statement (Unit {0})
delete_sql token now d = some (tt, record d { confirms = remove_if (has_token token) d.confirms })

unfoldable pub count_sql : ℕ → Statement ℕ
count_sql session now d =
    some (count (λ c. (c.session_id == session) && ltb now c.expires_at) d.confirms, d)

abbrev pub is_expired : ℕ → Confirm → Bool
is_expired now c = ltb c.expires_at now

unfoldable pub delete_expired_sql : Statement ℕ
delete_expired_sql now d = some (
  count (is_expired now) d.confirms,
  record d { confirms = remove_if (is_expired now) d.confirms },
)

-- The times that `Put` fills in where the caller left them zero.
unfoldable pub stamp : ℕ → Confirm → Confirm
stamp now c =
    let created = if c.created_at == 0 then now else c.created_at in
    record c {
      created_at = created;
      expires_at = if c.expires_at == 0 then created + ttl else c.expires_at;
    }

unfoldable pub put : Confirm → M (Unit {0})
put c w = sql (put_sql (stamp w.now c)) w

unfoldable pub get : String → M Confirm
get token = do row ← sql (get_sql token); or_raise row confirm_not_found

-- A token that is past its time is deleted all the same.
unfoldable pub check_unexpired : Confirm → M Confirm
check_unexpired row w =
    if not (row.expires_at == 0) && ltb row.expires_at w.now
    then raise confirm_not_found w
    else pure row w

unfoldable pub take : String → M Confirm
unfolding check_unexpired
take token = do
  row ← sql (take_sql token)
  found ← or_raise row confirm_not_found
  check_unexpired found

unfoldable pub delete : String → M (Unit {0})
delete token = sql (delete_sql token)

unfoldable pub count_live : ℕ → M ℕ
count_live session = sql (count_sql session)

unfoldable pub delete_expired : M ℕ
delete_expired = sql delete_expired_sql
