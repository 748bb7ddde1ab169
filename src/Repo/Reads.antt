-- ===== src/Repo/Reads.antt =====
-- What a look-up that answered has found: session/pgx and character/pgx under internal/domain.
use eve_online_mcp.Prelude.{ℕ, ◌≡◌, ap, sym, ◌∙◌, some, arith, find?, ◌==◌}
use eve_online_mcp.Domain.{SessionRow, Character, session_not_found, character_not_found}
use eve_online_mcp.Store.{World, ok, sql, or_raise}
use eve_online_mcp.Store.Runs.{sql-ok, resume-ok, or_raise-ok}
use eve_online_mcp.Repo.Sessions
use eve_online_mcp.Repo.Sessions.{is_live}
use eve_online_mcp.Repo.Characters

-- A session that is looked up is a live row of the table, and no row changes.
pub live_by_id-ok :
    (id : ℕ) (row : SessionRow) (w v : World)
    → Sessions.live_by_id id w ≡ (ok row, v)
    → (find? (is_live id w.now) w.db.sessions ≡ some row) × (v.db ≡ w.db)
unfolding Sessions.live_by_id Sessions.live_by_id_sql
live_by_id-ok id row w v h =
    let (answer, u, (run, rest)) =
      resume-ok (sql (Sessions.live_by_id_sql id) w) (λ r. or_raise r session_not_found) row v h in
    let ran = sql-ok (Sessions.live_by_id_sql id) answer w u run in
    let (is_some, same) = or_raise-ok answer session_not_found row u v rest in
    (
      ground (arith, ran.rows, is_some),
      ap (λ (x : World). x.db) (sym same) ∙ ground (arith, ran.rows),
    )

-- A character that is looked up is the row of the table, and no row changes.
pub get-ok :
    (id : ℕ) (c : Character) (w v : World)
    → Characters.get id w ≡ (ok c, v)
    → (find? (λ x. x.id == id) w.db.characters ≡ some c) × ((v.db ≡ w.db) × (v.now ≡ w.now))
unfolding Characters.get Characters.get_sql
get-ok id c w v h =
    let (row, u, (run, rest)) =
      resume-ok (sql (Characters.get_sql id) w) (λ r. or_raise r character_not_found) c v h in
    let ran = sql-ok (Characters.get_sql id) row w u run in
    let (is_some, same) = or_raise-ok row character_not_found c u v rest in
    (
      ground (arith, ran.rows, is_some),
      (
        ap (λ (x : World). x.db) (sym same) ∙ ground (arith, ran.rows),
        ap (λ (x : World). x.now) (sym same) ∙ ran.context.clock,
      ),
    )
