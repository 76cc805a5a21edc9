-- ===== src/Runtime/ExecManager/Input.antt =====
-- write, read, list, terminate and close of src/runtime/exec-manager.ts. A call that waits is two
-- steps: what it does before, and what it returns.
use mcp_dev_runtime.Base.{
  ℕ, ◌*◌, min, Bool, true, false, not, ◌&&◌, ◌||◌, Option, none, some, List, [], ◌∷◌, ltb, leb,
  if◌then◌else◌, length, Number, whole, Bytes, take, keep, codes, max_safe_integer,
}
use native.Mathlib.Decide.{ℕ_discrete}
use mcp_dev_runtime.Base.JsMap.{get, values}
use mcp_dev_runtime.Base.Sorting.{sort_by}
use mcp_dev_runtime.Base.Text.{Text}
use mcp_dev_runtime.Runtime.Errors.{
  Result, ok, err, unknown_session, session_busy, stdin_closed, session_ended, ◌>>=◌,
}
use mcp_dev_runtime.Runtime.OutputLog.{OutputLog, LogChunk}
use mcp_dev_runtime.Runtime.OutputLog
use mcp_dev_runtime.Runtime.LogQuery.{LogSource, LogQuery, QueryChunk, query_log, given}
use mcp_dev_runtime.Runtime.HistoryStore.Filter.{Outcome, HistoryFilter, matches_filter}
use mcp_dev_runtime.Runtime.PatchParser.Grammar.{is_nil}
use mcp_dev_runtime.Runtime.ExecManager.{
  ExecState, running, exited, terminating, terminated, timed_out, start_failed, terminal_state,
  terminate, Session, ExecConfig, ExecManager, put, begin_termination, is_active, sweep,
}
use mcp_dev_runtime.Runtime.ExecManager.Starting.{or_else}

-- `read`: a read with no cursor moves that of the session.
unfoldable pub read_session : Session → Option Number → ℕ → Session × Result LogChunk
read_session s explicit tokens =
    elim (OutputLog.read s.log (or_else explicit (whole s.cursor)) (min (tokens * 4) 65536)) [
      | err e ↦ (s, err e)
      | ok chunk ↦
          (if given explicit then s else record s { cursor = chunk.next_output_cursor }, ok chunk)
    ]

-- `ready` of `wait`
unfoldable pub is_ready : Session → ℕ → Bool → Bool
is_ready s cursor final_only =
    terminal_state s.state
    || (not final_only && (ltb cursor s.log.end || ltb cursor s.log.retained_from))

-- A log as the source of a query.
unfoldable pub log_source : OutputLog → LogSource
log_source log = record {
  end = log.end;
  retained_from = log.retained_from;
  read = OutputLog.read log;
}

pub record InputArgs : Type 0 where
  pub session_id : ℕ
  pub chars : Bytes
  pub max_output_tokens : ℕ
  pub output_cursor : Option Number
  pub query : LogQuery

-- `chars.length > 0 || a.output_cursor === undefined`
unfoldable pub is_exclusive : InputArgs → Bool
is_exclusive a = not (is_nil a.chars) || not (given a.output_cursor)

-- The tests before characters are written.
unfoldable pub accepts_input : Session → Bytes → Result (Unit {0})
accepts_input s chars =
    if is_nil chars
    then ok tt
    else if not s.tty
    then err stdin_closed
    else if terminal_state s.state || not s.handle
    then err session_ended
    else ok tt

-- What `write` comes to before it waits: the answer of a query, or the session to wait for, whose
-- process gets the characters.
pub data Written : Type 0 where
  answered : QueryChunk → Written
  waiting : Session → Written

-- The tests of `write` before it writes; an explicit cursor is read first.
unfoldable pub check_input : InputArgs → Session → Result (Unit {0})
check_input a s = if is_exclusive a && s.busy then err session_busy else do
  chunk ← OutputLog.read s.log (or_else a.output_cursor (whole s.cursor)) 0
  accepts_input s a.chars

-- A session that is read by its own cursor, or written to, is busy until the call ends.
unfoldable pub taken : InputArgs → Session → Session
taken a s = if is_exclusive a then record s { busy = true } else s

unfoldable pub is_query : InputArgs → Bool
is_query a = given a.query.tail_lines || given a.query.search

-- If a test fails, `busy` is as before.
unfoldable pub write_checked :
    InputArgs → Session → ExecManager → Result (Unit {0}) → ExecManager × Result Written
write_checked a s m (err e) = (m, err e)
write_checked a s m (ok u) = (put (taken a s) m, ok (waiting (taken a s)))

unfoldable pub write_found : InputArgs → ExecManager → Option Session → ExecManager × Result Written
write_found a m none = (m, err unknown_session)
write_found a m (some s) =
    if is_query a
    then (
      m,
      query_log (log_source s.log) a.query (min (a.max_output_tokens * 4) 65536) >>= λ chunk.
          ok (answered chunk),
    )
    else write_checked a s m (check_input a s)

-- The action of `write` on a session in memory, up to its wait.
unfoldable pub write_action :
    ExecConfig → ℕ → InputArgs → ExecManager → ExecManager × Result Written
write_action config now a m =
    let swept = sweep config now m in
    write_found a swept (get ℕ_discrete a.session_id swept.records)

unfoldable pub returned :
    Bool → ExecManager → Session × Result LogChunk → ExecManager × Result LogChunk
returned exclusive m (s, chunk) =
    (put (if exclusive then record s { busy = false } else s) m, chunk)

-- What a call returns after its wait. A read with a cursor of its own may outlast its session, which
-- the call still has, as it was when it was swept.
unfoldable pub return_to :
    Bool
    → Option Number
    → ℕ
    → Session
    → ExecManager
    → Option Session
    → ExecManager × Result LogChunk
return_to exclusive explicit tokens swept m none = (m, (read_session swept explicit tokens).1)
return_to exclusive explicit tokens swept m (some s) =
    returned exclusive m (read_session s explicit tokens)

unfoldable pub write_return : InputArgs → Session → ExecManager → ExecManager × Result LogChunk
write_return a swept m =
    return_to (is_exclusive a) a.output_cursor a.max_output_tokens swept m
      (get ℕ_discrete a.session_id m.records)

unfoldable pub exec_return : ℕ → ℕ → Session → ExecManager → ExecManager × Result LogChunk
exec_return id tokens swept m = return_to true none tokens swept m (get ℕ_discrete id m.records)

unfoldable pub state_text : ExecState → Text
state_text running = codes "running"
state_text exited = codes "exited"
state_text terminating = codes "terminating"
state_text terminated = codes "terminated"
state_text timed_out = codes "timed_out"
state_text start_failed = codes "start_failed"

-- The part of `summary` that the filter reads.
unfoldable pub summary : Session → Outcome
summary s = record {
  state = state_text s.state;
  exit_code = s.exit_code;
  workdir = s.cwd;
  label = s.label;
}

-- A cursor of the list of executions, decoded; none is the start.
pub record ListCursor : Type 0 where
  pub after : ℕ
  pub ceiling : ℕ

unfoldable pub in_page : Bool → ListCursor → ℕ → Bool
in_page descending c seq =
    (if descending then ltb seq c.after else ltb c.after seq) && leb seq c.ceiling

unfoldable pub goes_before : Bool → Session → Session → Bool
goes_before descending a b = if descending then leb b.seq a.seq else leb a.seq b.seq

unfoldable pub last_seq : List Session → Option ℕ
last_seq [] = none
last_seq (s ∷ []) = some s.seq
last_seq (s ∷ t ∷ ss) = last_seq (t ∷ ss)

unfoldable pub first_cursor : Bool → ExecManager → ListCursor
first_cursor descending m = record {
  after = if descending then max_safe_integer else 0;
  ceiling = m.seq;
}

unfoldable pub next_cursor : ListCursor → List Session → List Session → Option ListCursor
next_cursor c eligible selected =
    if ltb (length selected) (length eligible)
    then (elim (last_seq selected) [
      | none ↦ none
      | some seq ↦ some (record { after = seq; ceiling = c.ceiling })
    ])
    else none

-- `list`, with the cursor decoded: the sessions of the page, and the next cursor.
unfoldable pub list :
    ExecConfig
    → ℕ
    → HistoryFilter
    → Bool
    → Option ℕ
    → Option ListCursor
    → ExecManager
    → ExecManager × (List Session × Option ListCursor)
list config now f descending limit cursor m =
    let swept = sweep config now m in
    let c = or_else cursor (first_cursor descending swept) in
    let eligible = sort_by (goes_before descending) (
      keep (λ s. in_page descending c s.seq && matches_filter (summary s) f)
        (values swept.records)) in
    let selected = take (or_else limit 20) eligible in
    (swept, (selected, next_cursor c eligible selected))

unfoldable pub terminate_found :
    Option Text → Bool → ExecManager → Option Session → ExecManager × Result (Unit {0})
terminate_found refused force m none = (m, err unknown_session)
terminate_found refused force m (some s) =
    (put (begin_termination refused force terminate s) m, ok tt)

-- The action of `terminate`, up to its wait.
unfoldable pub terminate_action :
    ExecConfig → ℕ → Option Text → Bool → ℕ → ExecManager → ExecManager × Result (Unit {0})
terminate_action config now refused force id m =
    let swept = sweep config now m in
    terminate_found refused force swept (get ℕ_discrete id swept.records)

-- `close`, up to its wait; `refused` is what the calls of `kill` throw.
unfoldable pub end_all : Option Text → List Session → ExecManager → ExecManager
end_all refused [] m = m
end_all refused (s ∷ ss) m =
    end_all refused ss (put (begin_termination refused false terminate s) m)

unfoldable pub close : Option Text → ExecManager → ExecManager
close refused m =
    end_all refused (keep is_active (values m.records)) (record m { accepting = false })
