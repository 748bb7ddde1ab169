-- ===== src/Repo/Clients.antt =====
-- internal/domain/oauthclient/pgx/repo.go, the table `oauth_clients`.
use eve_online_mcp.Prelude.{
  ℕ, ◌+◌, ◌*◌, String, Bool, true, false, ◌&&◌, not, Option, none, some, List, [], ◌∷◌, map,
  if◌then◌else◌, ltb, ◌==◌, str_eq, find?, remove_if, any, count,
}
use eve_online_mcp.Domain.{day, Client, SessionRow, client_not_found}
use eve_online_mcp.Store.{M, Statement, sql, or_raise, ◌>>=◌}

abbrev pub has_id : String → Client → Bool
has_id id c = str_eq c.id id

abbrev pub is_present : Client → Bool
is_present c = elim c.deleted_at [ none ↦ true | some _ ↦ false ]

-- A row that is there keeps the time of its creation, and is deleted no more.
unfoldable pub upsert_rows : Client → List Client → List Client
upsert_rows c [] = record c { deleted_at = none } ∷ []
upsert_rows c (x ∷ rows) =
    if has_id c.id x
    then record x { name = c.name; redirect_uris = c.redirect_uris; deleted_at = none } ∷ rows
    else x ∷ upsert_rows c rows

unfoldable pub upsert_sql : Client → Statement (Unit {0})
unfolding upsert_rows
upsert_sql c now d = some (tt, record d { clients = upsert_rows c d.clients })

unfoldable pub get_sql : String → Statement (Option Client)
get_sql id now d = some (find? (λ c. has_id id c && is_present c) d.clients, d)

abbrev pub is_abandoned : ℕ → List SessionRow → Client → Bool
is_abandoned now sessions c =
    is_present c
    && (ltb (c.created_at + 30 * day) now && not (any (λ s. str_eq s.mcp_client_id c.id) sessions))

unfoldable pub soft_delete : ℕ → List SessionRow → Client → Client
soft_delete now sessions c =
    if is_abandoned now sessions c then record c { deleted_at = some now } else c

unfoldable pub soft_delete_abandoned_sql : Statement ℕ
unfolding soft_delete
soft_delete_abandoned_sql now d = some (
  count (is_abandoned now d.sessions) d.clients,
  record d { clients = map (soft_delete now d.sessions) d.clients },
)

abbrev pub is_long_deleted : ℕ → Client → Bool
is_long_deleted now c = elim c.deleted_at [ none ↦ false | some t ↦ ltb (t + 30 * day) now ]

unfoldable pub delete_long_soft_deleted_sql : Statement ℕ
delete_long_soft_deleted_sql now d = some (
  count (is_long_deleted now) d.clients,
  record d { clients = remove_if (is_long_deleted now) d.clients },
)

unfoldable pub upsert : Client → M (Unit {0})
upsert c w = sql (upsert_sql (if c.created_at == 0 then record c { created_at = w.now } else c)) w

unfoldable pub get : String → M Client
get id = do row ← sql (get_sql id); or_raise row client_not_found

unfoldable pub soft_delete_abandoned : M ℕ
soft_delete_abandoned = sql soft_delete_abandoned_sql

unfoldable pub delete_long_soft_deleted : M ℕ
delete_long_soft_deleted = sql delete_long_soft_deleted_sql
