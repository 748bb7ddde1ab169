-- ===== src/Repo/Characters.antt =====
-- internal/domain/character/pgx/repo.go, the table `characters`.
use eve_online_mcp.Prelude.{
  ℕ, Bool, true, false, ◌&&◌, Option, none, some, List, [], ◌∷◌, map, if◌then◌else◌, ◌==◌, find?,
  any,
}
use eve_online_mcp.Domain.{Character, character_not_found}
use eve_online_mcp.Store.{M, Statement, sql, pure, raise, or_raise, ◌>>=◌}

-- Character.Live
abbrev pub live : Character → Bool
live c = elim c.deleted_at [ none ↦ true | some _ ↦ false ]

unfoldable pub upsert_rows : Character → List Character → List Character
upsert_rows c [] = record c { deleted_at = none } ∷ []
upsert_rows c (x ∷ rows) =
    if x.id == c.id
    then record x { name = c.name; owner_hash = c.owner_hash; deleted_at = none } ∷ rows
    else x ∷ upsert_rows c rows

unfoldable pub upsert_sql : Character → Statement (Unit {0})
unfolding upsert_rows
upsert_sql c now d = some (tt, record d { characters = upsert_rows c d.characters })

unfoldable pub get_sql : ℕ → Statement (Option Character)
get_sql id now d = some (find? (λ c. c.id == id) d.characters, d)

abbrev pub is_live_as : ℕ → Character → Bool
is_live_as id c = (c.id == id) && live c

unfoldable pub mark_deleted : ℕ → ℕ → Character → Character
mark_deleted id now c = if is_live_as id c then record c { deleted_at = some now } else c

-- The answer says whether a row was changed.
unfoldable pub delete_sql : ℕ → Statement Bool
unfolding mark_deleted
delete_sql id now d = some (
  any (is_live_as id) d.characters,
  record d { characters = map (mark_deleted id now) d.characters },
)

unfoldable pub upsert : Character → M (Unit {0})
upsert c w = sql (upsert_sql (if c.created_at == 0 then record c { created_at = w.now } else c)) w

unfoldable pub get : ℕ → M Character
get id = do row ← sql (get_sql id); or_raise row character_not_found

unfoldable pub delete : ℕ → M (Unit {0})
delete id = do found ← sql (delete_sql id); if found then pure tt else raise character_not_found
