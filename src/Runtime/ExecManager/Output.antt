-- ===== src/Runtime/ExecManager/Output.antt =====
-- The events of a process in src/runtime/exec-manager.ts, and the budget for the output of all sessions.
use mcp_dev_runtime.Base.{
  ℕ, ◌+◌, ◌-◌, Bool, ◌&&◌, ◌||◌, Option, List, [], ◌∷◌, ◌++◌, ltb, leb, ◌==◌, if◌then◌else◌, Number,
  Bytes,
}
use mcp_dev_runtime.Base.JsMap.{values}
use mcp_dev_runtime.Base.Sorting.{sort_by}
use mcp_dev_runtime.Base.Text.{Text}
use mcp_dev_runtime.Runtime.OutputLog.{size, trim_to}
use mcp_dev_runtime.Runtime.OutputLog
use mcp_dev_runtime.Runtime.ExecManager.{
  Session, ExecConfig, ExecManager, put, append_call, close_session, end_archive,
}
use mcp_dev_runtime.Runtime.ExecManager.Starting.{with_session}

-- `a.lastOutput - b.lastOutput || a.seq - b.seq`
unfoldable pub comes_first : Session → Session → Bool
comes_first a b =
    ltb a.last_output b.last_output || (a.last_output == b.last_output && leb a.seq b.seq)

-- A round of the loop of `enforceOutputBudget`.
unfoldable pub trim_session : ℕ → Session → ExecManager → ExecManager
trim_session maximum s m =
    let log = trim_to s.log (size s.log - (m.cached_output_bytes - maximum)) in
    record (put (record s { log = log }) m) {
      cached_output_bytes = m.cached_output_bytes - (size s.log - size log);
    }

unfoldable pub trim_loop : ℕ → List Session → ExecManager → ExecManager
trim_loop maximum [] m = m
trim_loop maximum (s ∷ ss) m =
    let trimmed = trim_session maximum s m in
    let rest = trim_loop maximum ss trimmed in
    if leb trimmed.cached_output_bytes maximum then trimmed else rest

unfoldable pub enforce_output_budget : ExecConfig → ExecManager → ExecManager
enforce_output_budget config m =
    if leb m.cached_output_bytes config.total_output_bytes
    then m
    else trim_loop config.total_output_bytes (sort_by comes_first (values m.records)) m

-- The event `output`, up to the budget.
unfoldable pub take_output : ℕ → Bytes → Session → ExecManager → ExecManager
take_output now text s m =
    let log = OutputLog.append s.log text in
    record (put (record s { log = log; last_output = now }) m) {
      calls = m.calls ++ (append_call s.archive_id text ∷ []);
      cached_output_bytes = m.cached_output_bytes + size log - size s.log;
    }

unfoldable pub output : ExecConfig → ℕ → Bytes → ℕ → ExecManager → ExecManager
output config now text id m =
    with_session id (λ s. enforce_output_budget config (take_output now text s m)) m

-- The event `closed`.
unfoldable pub closed :
    ℕ → Option Number → Option Text → Option Text → ℕ → ExecManager → ExecManager
closed now code signal error id m =
    with_session id (λ s. end_archive now (close_session now code signal error s) m) m
