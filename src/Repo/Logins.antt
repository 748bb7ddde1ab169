-- ===== src/Repo/Logins.antt =====
-- internal/domain/loginstate/pgx/repo.go, the table `login_states`: a handshake with EVE SSO.
use eve_online_mcp.Prelude.{
  ℕ, ◌+◌, ◌*◌, String, Bool, Option, some, ◌∷◌, if◌then◌else◌, ltb, ◌==◌, str_eq, find?, remove_if,
  count,
}
use eve_online_mcp.Domain.{minute, Login, login_not_found}
use eve_online_mcp.Store.{M, Statement, sql, pure, raise, or_raise, ◌>>=◌, ◌>>◌}

-- loginstate.TTL
abbrev pub ttl : ℕ
ttl = 15 * minute

abbrev pub has_state : String → Login → Bool
has_state state l = str_eq l.state state

unfoldable pub put_sql : Login → Statement (Unit {0})
put_sql l now d = some (tt, record d { logins = l ∷ remove_if (has_state l.state) d.logins })

unfoldable pub get_sql : String → Statement (Option Login)
get_sql state now d = some (find? (has_state state) d.logins, d)

unfoldable pub take_sql : String → Statement (Option Login)
take_sql state now d =
    some
      (find? (has_state state) d.logins, record d { logins = remove_if (has_state state) d.logins })

unfoldable pub delete_sql : String → Statement (Unit {0})
delete_sql state now d = some (tt, record d { logins = remove_if (has_state state) d.logins })

abbrev pub is_expired : ℕ → Login → Bool
is_expired now l = ltb (l.created_at + ttl) now

unfoldable pub delete_expired_sql : Statement ℕ
delete_expired_sql now d =
    some
      (count (is_expired now) d.logins, record d { logins = remove_if (is_expired now) d.logins })

unfoldable pub put : Login → M (Unit {0})
put l w = sql (put_sql (if l.created_at == 0 then record l { created_at = w.now } else l)) w

-- A state that is past its time is deleted by the read.
unfoldable pub drop_expired : String → Login → M Login
drop_expired state l w =
    if is_expired w.now l then (sql (delete_sql state) >> raise login_not_found) w else pure l w

unfoldable pub get : String → M Login
unfolding drop_expired
get state = do
  row ← sql (get_sql state)
  found ← or_raise row login_not_found
  drop_expired state found

unfoldable pub check_unexpired : Login → M Login
check_unexpired l w = if is_expired w.now l then raise login_not_found w else pure l w

unfoldable pub take : String → M Login
unfolding check_unexpired
take state = do
  row ← sql (take_sql state)
  found ← or_raise row login_not_found
  check_unexpired found

unfoldable pub delete_expired : M ℕ
delete_expired = sql delete_expired_sql
