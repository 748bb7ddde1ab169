-- ===== src/Write/Call.antt =====
-- internal/usecase/eve/record.go, and the shape that the tools of internal/usecase/eve/writes_*.go
-- share (eveMailMark is the shortest): authorise, call ESI, write the audit record.
pub mod Append
pub mod Capped
pub mod Mails
pub mod Races
use eve_online_mcp.Prelude.{ℕ, String, Bool, Option, none, some, List, [], ◌∷◌}
use eve_online_mcp.Domain.{Error, esi_failure}
use eve_online_mcp.Store.{World, Result, ok, err}
use eve_online_mcp.Write.Summary.{Args}
use eve_online_mcp.Write.Guard.Monad.{Guard, G, g_pure, g_raise, attempt, ◌>>=◌, ◌>>◌}
use eve_online_mcp.Write.Guard.{Authz, Decision, Preview, Record, authorize, record_write}

-- What ESI answered: nothing on success, else the status and the message that are recorded.
abbrev pub EsiOutcome : Type 0
EsiOutcome = Option (ℕ × String)

unfoldable pub log_of : Authz → EsiOutcome → Record
log_of in_ none = record {
  tool = in_.tool;
  capability = in_.capability;
  args = in_.args;
  outcome = "ok";
  esi_status = 0;
  error = "";
}
log_of in_ (some (status, message)) = record {
  tool = in_.tool;
  capability = in_.capability;
  args = in_.args;
  outcome = "error";
  esi_status = status;
  error = message;
}

abbrev pub answer : EsiOutcome → G Decision
answer none = g_pure none
answer (some e) = g_raise esi_failure

-- One call: the guard of its session, the time, the failures of its exchanges with the database,
-- the token that a preview would draw, the request, and what ESI would answer.
pub record Call : Type 0 where
  pub guard : Guard
  pub time : ℕ
  pub fault : ℕ → Bool
  pub fresh : String
  pub request : Authz
  pub esi : EsiOutcome

module _ (digest : Args → Result String) where
  -- `recordWrite`: a record that fails is logged and forgotten.
  unfoldable pub proceed : Authz → EsiOutcome → Decision → G Decision
  unfolding log_of
  proceed in_ esi (some preview) = g_pure (some preview)
  proceed in_ esi none = attempt (record_write digest (log_of in_ esi)) >> answer esi

  unfoldable pub perform : String → Authz → EsiOutcome → G Decision
  unfolding proceed
  perform fresh in_ esi = authorize digest fresh in_ >>= proceed in_ esi

  unfoldable pub serve : Call → World → World
  unfolding perform
  serve c w =
      (perform c.fresh c.request c.esi (c.guard, record w { now = c.time; fault = c.fault })).1.1

  unfoldable pub serve_all : List Call → World → World
  unfolding serve
  serve_all [] w = w
  serve_all (c ∷ calls) w = serve_all calls (serve c w)
