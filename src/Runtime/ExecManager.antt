-- ===== src/Runtime/ExecManager.antt =====
-- ExecManager of src/runtime/exec-manager.ts: the sessions, and what ends them. What waits in the
-- code (a process that starts, a client that waits for output) is two steps here. The process is seen
-- by its events; what it is sent is recorded.
pub mod Starting
pub mod Output
pub mod Input
pub mod Sweeping
pub mod Validity
pub mod Runs
pub mod Ending
mod Checks
use mcp_dev_runtime.Base.{
  ℕ, zero, suc, ◌+◌, ◌-◌, min, max, Bool, true, false, not, ◌&&◌, ◌||◌, Option, none, some, List,
  [], ◌∷◌, ◌++◌, ltb, leb, ◌==◌, if◌then◌else◌, length, String, Number, Bytes, map, keep,
}
use native.Mathlib.Decide.{ℕ_discrete}
use mcp_dev_runtime.Base.JsMap.{JsMap, get, set, delete, values}
use mcp_dev_runtime.Base.Sorting.{sort_by}
use mcp_dev_runtime.Base.Text.{Text}
use mcp_dev_runtime.Runtime.OutputLog.{OutputLog, size}
use mcp_dev_runtime.Runtime.RetryCache.{RetryCache, Pin}
use mcp_dev_runtime.Runtime.RetryCache

pub data ExecState : Type 0 where
  running exited terminating terminated timed_out start_failed : ExecState

unfoldable pub terminal_state : ExecState → Bool
terminal_state running = false
terminal_state terminating = false
terminal_state _ = true

pub data Reason : Type 0 where
  timeout terminate : Reason

pub data Signal : Type 0 where
  sigterm sigkill : Signal

-- `Session`. A timer that is set says whether it is still armed; `handle` says that there is a process
-- to write to, and `sent` holds the signals that it was sent.
pub record Session : Type 0 where
  pub id : ℕ
  pub seq : ℕ
  pub cwd : Text
  pub tty : Bool
  pub state : ExecState
  pub ended : Option ℕ
  pub exit_code : Option Number
  pub signal : Option Text
  pub log : OutputLog
  pub cursor : ℕ
  pub busy : Bool
  pub handle : Bool
  pub timer : Bool
  pub escalation : Option Bool
  pub reason : Option Reason
  pub error : Option Text
  pub last_output : ℕ
  pub label : Option Text
  pub archive_id : Option String
  pub pin : Pin
  pub sent : List Signal

pub record ExecConfig : Type 0 where
  pub cwd : Text
  pub shell : Text
  pub default_login : Bool
  pub default_tty : Bool
  pub default_yield_time_ms : ℕ
  pub max_yield_time_ms : ℕ
  pub default_max_output_tokens : ℕ
  pub max_output_tokens : ℕ
  pub max_active_sessions : ℕ
  pub per_session_output_bytes : ℕ
  pub total_output_bytes : ℕ
  pub retained_session_ms : Option ℕ
  pub max_ended_sessions : ℕ

-- The calls that the manager makes on the history store.
pub data HistoryCall : Type 0 where
  append_call : Option String → Bytes → HistoryCall
  finish_call : Option String → ExecState → Option Number → HistoryCall

pub record ExecManager : Type 0 where
  pub records : JsMap ℕ Session
  pub seq : ℕ
  pub accepting : Bool
  pub cached_output_bytes : ℕ
  pub retry : RetryCache
  pub calls : List HistoryCall

-- The constructor, with the retry cache that it is given.
unfoldable pub new : RetryCache → ExecManager
new retry = record {
  records = [];
  seq = 0;
  accepting = true;
  cached_output_bytes = 0;
  retry = retry;
  calls = [];
}

-- `[...this.records.values()].filter(s => !terminalState(s.state)).length`
unfoldable pub is_active : Session → Bool
is_active s = not (terminal_state s.state)

unfoldable pub active_count : ExecManager → ℕ
active_count m = length (keep is_active (values m.records))

-- A session object is shared with the map: a change of it is one in the map.
unfoldable pub put : Session → ExecManager → ExecManager
put s m = record m { records = set ℕ_discrete s.id s m.records }

-- `s.reason ??= reason`
unfoldable pub first_reason : Option Reason → Reason → Reason
first_reason none r = r
first_reason (some earlier) r = earlier

-- The helper `signal` of `beginTermination`; `refused` is the error that `kill` throws, if it does.
unfoldable pub send : Option Text → Signal → Session → Session
send refused name s =
    if terminal_state s.state
    then s
    else if s.handle
    then record s {
      sent = s.sent ++ (name ∷ []);
      error = elim refused [ none ↦ s.error | some message ↦ some message ];
    }
    else s

unfoldable pub arm_escalation : Bool → Session → Session
arm_escalation force s = elim s.escalation [
  | none ↦ if force then s else record s { escalation = some true }
  | some armed ↦ s
]

unfoldable pub begin_termination : Option Text → Bool → Reason → Session → Session
begin_termination refused force reason s =
    if terminal_state s.state
    then s
    else arm_escalation force (
        send refused (if force then sigkill else sigterm)
          (record s { reason = some (first_reason s.reason reason); state = terminating }))

-- The escalation timer fires.
unfoldable pub escalate : Option Text → Session → Session
escalate refused s = elim s.escalation [
  | none ↦ s
  | some armed ↦ if armed then send refused sigkill (record s { escalation = some false }) else s
]

-- The timeout fires.
unfoldable pub time_out : Option Text → Session → Session
time_out refused s =
    if s.timer then begin_termination refused false timeout (record s { timer = false }) else s

-- `signal || error`, for texts that may be missing
unfoldable pub truthy : Option Text → Bool
truthy none = false
truthy (some []) = false
truthy (some (c ∷ t)) = true

unfoldable pub final_state : Option Text → Option Reason → ExecState
final_state error reason = if truthy error then start_failed else elim reason [
  | none ↦ exited
  | some r ↦ elim r [ timeout ↦ timed_out | terminate ↦ terminated ]
]

-- The session part of the event `closed`.
unfoldable pub close_session : ℕ → Option Number → Option Text → Option Text → Session → Session
close_session now code signal error s = record s {
  timer = false;
  escalation = elim s.escalation [ none ↦ none | some armed ↦ some false ];
  exit_code = if truthy signal || truthy error then none else code;
  signal = signal;
  ended = some now;
  error = elim error [ none ↦ s.error | some message ↦ some message ];
  state = final_state error s.reason;
  handle = false;
}

-- The session part of the `catch`.
unfoldable pub fail_session : ℕ → Text → Session → Session
fail_session now message s = record s {
  error = some message;
  state = start_failed;
  ended = some now;
  handle = false;
}

-- releaseRetry() and archiveEnd()
unfoldable pub end_archive : ℕ → Session → ExecManager → ExecManager
end_archive now s m =
    let (retry, pin) = RetryCache.release now s.pin m.retry in
    let s' = record s { pin = pin } in
    record (put s' m) {
      retry = retry;
      calls = m.calls ++ (finish_call s.archive_id s.state s.exit_code ∷ []);
    }

-- `a.ended! - b.ended!`; only sessions that have ended are compared.
unfoldable pub ended_at : Session → ℕ
ended_at s = elim s.ended [ none ↦ 0 | some t ↦ t ]

unfoldable pub ended_first : Session → Session → Bool
ended_first a b = leb (ended_at a) (ended_at b)

-- `terminalState(s.state) && !s.busy`
unfoldable pub is_idle : Session → Bool
is_idle s = terminal_state s.state && not s.busy

-- `ttl !== null && ttl > 0 && Date.now() - s.ended! >= ttl`
unfoldable pub outlived : Option ℕ → ℕ → Session → Bool
outlived none now s = false
outlived (some ttl) now s = ltb 0 ttl && leb (ended_at s + ttl) now

unfoldable pub drop_session : Session → ExecManager → ExecManager
drop_session s m = record m {
  cached_output_bytes = m.cached_output_bytes - size s.log;
  records = delete ℕ_discrete s.id m.records;
}

-- The loop over the ended sessions; `count` of them are left.
unfoldable pub sweep_loop : ExecConfig → ℕ → List Session → ℕ → ExecManager → ExecManager
sweep_loop config now [] count m = m
sweep_loop config now (s ∷ ended) count m =
    let removed = sweep_loop config now ended (count - 1) (drop_session s m) in
    let kept = sweep_loop config now ended count m in
    if outlived config.retained_session_ms now s || ltb config.max_ended_sessions count
    then removed
    else kept

-- `ttl === null || ttl === 0`
unfoldable pub keeps_all : Option ℕ → Bool
keeps_all none = true
keeps_all (some ttl) = ttl == 0

unfoldable pub sweep : ExecConfig → ℕ → ExecManager → ExecManager
sweep config now m =
    let ended = sort_by ended_first (keep is_idle (values m.records)) in
    let swept =
      if keeps_all config.retained_session_ms && leb (length m.records) config.max_ended_sessions
      then m
      else sweep_loop config now ended (length ended) m in
    record swept { retry = RetryCache.sweep now swept.retry }
