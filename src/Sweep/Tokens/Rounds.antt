-- ===== src/Sweep/Tokens/Rounds.antt =====
-- internal/usecase/sweep: the tokens of the sessions that ran out, and those of a whole round.
use eve_online_mcp.Prelude.{suc, Bool, List, map, any, ◌==◌}
use eve_online_mcp.Domain.{SessionRow}
use eve_online_mcp.Store.{World}
use eve_online_mcp.Repo.Sessions
use eve_online_mcp.Repo.Sessions.{close_row, revoke_ceiling}

abbrev closed : List SessionRow → SessionRow → Bool
closed doomed s = any (λ e. e.id == s.id) doomed

-- The tables after the sessions in the list are closed.
abbrev with_closed : List SessionRow → World → World
with_closed doomed w = record w {
  calls = suc w.calls;
  db = record w.db { sessions = map (close_row (closed doomed) w.now) w.db.sessions };
}
