-- ===== src/Runtime/ExecManager/Starting.antt =====
-- exec of src/runtime/exec-manager.ts: the call, and what follows while the process starts.
use mcp_dev_runtime.Base.{
  ℕ, suc, min, Bool, true, false, not, ◌&&◌, ◌||◌, Option, none, some, List, [], ◌∷◌, ltb, leb,
  if◌then◌else◌, length, String,
}
use native.Mathlib.Decide.{ℕ_discrete}
use mcp_dev_runtime.Base.JsMap.{JsMap, get}
use mcp_dev_runtime.Base.Text.{Text}
use mcp_dev_runtime.Config.{Paths, expand_path}
use mcp_dev_runtime.Runtime.Errors.{
  ◌>>=◌, Result, ok, err, invalid_argument, server_closing, session_limit, internal,
}
use mcp_dev_runtime.Runtime.OutputLog.{LogChunk}
use mcp_dev_runtime.Runtime.OutputLog
use mcp_dev_runtime.Runtime.RetryCache
use mcp_dev_runtime.Runtime.RetryCache.{Pin}
use mcp_dev_runtime.Runtime.ExecManager.{
  running, terminal_state, terminate, Session, ExecConfig, ExecManager, active_count, put,
  begin_termination, fail_session, end_archive, sweep,
}

pub record ExecArgs : Type 0 where
  pub workdir : Option Text
  pub shell : Option Text
  pub login : Option Bool
  pub tty : Option Bool
  pub yield_time_ms : Option ℕ
  pub max_output_tokens : Option ℕ
  pub timeout_ms : Option ℕ
  pub request_id : Option String
  pub label : Option Text

pub record NormalArgs : Type 0 where
  pub workdir : Text
  pub shell : Text
  pub login : Bool
  pub tty : Bool
  pub yield_time_ms : ℕ
  pub max_output_tokens : ℕ
  pub timeout_ms : Option ℕ
  pub request_id : Option String
  pub label : Option Text

-- `a ?? b`
abbrev pub or_else {ℓ} : {A : Type ℓ} → Option A → A → A
or_else none b = b
or_else (some a) b = a

-- The arguments with the defaults of the configuration, and the expanded directory.
unfoldable pub with_defaults : ExecConfig → ExecArgs → Text → NormalArgs
with_defaults config a workdir = record {
  workdir = workdir;
  shell = or_else a.shell config.shell;
  login = or_else a.login config.default_login;
  tty = or_else a.tty config.default_tty;
  yield_time_ms =
      min (or_else a.yield_time_ms config.default_yield_time_ms) config.max_yield_time_ms;
  max_output_tokens =
      min (or_else a.max_output_tokens config.default_max_output_tokens) config.max_output_tokens;
  timeout_ms = a.timeout_ms;
  request_id = a.request_id;
  label = a.label;
}

unfoldable pub normalize : Paths → ExecConfig → ExecArgs → Result NormalArgs
normalize paths config a = do
  workdir ← expand_path paths (or_else a.workdir (b'.' ∷ [])) config.cwd
  ok (with_defaults config a workdir)

-- `label !== undefined && label.length > 120`
unfoldable pub long_label : Option Text → Bool
long_label none = false
long_label (some label) = ltb 120 (length label)

-- The loop that draws a session id: the first number drawn that no record has.
unfoldable pub draw_id : List ℕ → JsMap ℕ Session → Option ℕ
draw_id [] records = none
draw_id (id ∷ draws) records = elim (get ℕ_discrete id records) [
  | none ↦ some id
  | some taken ↦ draw_id draws records
]

unfoldable pub new_session : ExecConfig → NormalArgs → ℕ → ℕ → ℕ → Pin → Session
new_session config a now id seq pin = record {
  id = id;
  seq = seq;
  cwd = a.workdir;
  tty = a.tty;
  state = running;
  ended = none;
  exit_code = none;
  signal = none;
  log = OutputLog.new config.per_session_output_bytes;
  cursor = 0;
  busy = true;
  handle = false;
  timer = false;
  escalation = none;
  reason = none;
  error = none;
  last_output = now;
  label = a.label;
  archive_id = none;
  pin = pin;
  sent = [];
}

-- The slot is reserved, and the entry of the request pinned.
unfoldable pub reserve : ExecConfig → NormalArgs → ℕ → ℕ → ExecManager → ExecManager
reserve config a now id m =
    let (retry, pin) = RetryCache.pin a.request_id m.retry in
    put (new_session config a now id (suc m.seq) pin) (record m { seq = suc m.seq; retry = retry })

-- When no number drawn is free, the code goes on drawing.
unfoldable pub start_drawn :
    ExecConfig → NormalArgs → ℕ → ExecManager → Option ℕ → ExecManager × Result ℕ
start_drawn config a now swept none = (swept, err internal)
start_drawn config a now swept (some id) = (reserve config a now id swept, ok id)

unfoldable pub start_swept :
    ExecConfig → NormalArgs → ℕ → List ℕ → ExecManager → ExecManager × Result ℕ
start_swept config a now draws swept =
    if leb config.max_active_sessions (active_count swept)
    then (swept, err session_limit)
    else start_drawn config a now swept (draw_id draws swept.records)

-- The start of the action that `exec` gives to the retry cache, up to its first wait; with it the
-- session's id.
unfoldable pub start_session :
    ExecConfig → NormalArgs → ℕ → List ℕ → ExecManager → ExecManager × Result ℕ
start_session config a now draws m =
    if not m.accepting
    then (m, err server_closing)
    else start_swept config a now draws (sweep config now m)

-- What a call of `exec` comes to at once: a session of its own, the promise of an earlier call, or an
-- error.
pub data Execution : Type 0 where
  session : ℕ → Execution
  promised : ℕ → Execution

abbrev pub as_session : ExecManager × Result ℕ → ExecManager × Result Execution
as_session (m, ok id) = (m, ok (session id))
as_session (m, err e) = (m, err e)

unfoldable pub answer :
    ExecConfig
    → NormalArgs
    → ℕ
    → List ℕ
    → ExecManager
    → RetryCache.Outcome
    → ExecManager × Result Execution
answer config a now draws m RetryCache.direct = as_session (start_session config a now draws m)
answer config a now draws m (RetryCache.started promise) =
    as_session (start_session config a now draws m)
answer config a now draws m (RetryCache.existing promise) = (m, ok (promised promise))
answer config a now draws m (RetryCache.rejected e) = (m, err e)

unfoldable pub exec_normal :
    ExecConfig
    → String
    → ℕ
    → List ℕ
    → ExecManager
    → Result NormalArgs
    → ExecManager × Result Execution
exec_normal config digest now draws m (err e) = (m, err e)
exec_normal config digest now draws m (ok a) =
    let (retry, outcome) = RetryCache.run a.request_id digest now m.retry in
    answer config a now draws (record m { retry = retry }) outcome

-- `exec`; `digest` stands for the normalized arguments.
unfoldable pub exec :
    Paths
    → ExecConfig
    → ExecArgs
    → String
    → ℕ
    → List ℕ
    → ExecManager
    → ExecManager × Result Execution
exec paths config args digest now draws m =
    if long_label args.label
    then (m, err invalid_argument)
    else exec_normal config digest now draws m (normalize paths config args)

-- A step of a session that is still in the map.
unfoldable pub with_session : ℕ → (Session → ExecManager) → ExecManager → ExecManager
with_session id step m = elim (get ℕ_discrete id m.records) [ none ↦ m | some s ↦ step s ]

-- `s.archiveId = await this.history.start(…)`
unfoldable pub archived : ℕ → Option String → ExecManager → ExecManager
archived id archive_id m = with_session id (λ s. put (record s { archive_id = archive_id }) m) m

-- `!this.accepting || s.reason`
unfoldable pub is_ending : Bool → Session → Bool
is_ending accepting s = not accepting || (elim s.reason [ none ↦ false | some _ ↦ true ])

-- The process has started: it is ended again if the server closes or the session is to end, and else
-- its time is set.
unfoldable pub process_started : Option Text → Option ℕ → Bool → Session → Session
process_started refused timeout_ms accepting s =
    let s' = record s { handle = true } in
    let ending = is_ending accepting s in
    let after =
      if ending then begin_termination refused true (or_else s.reason terminate) s' else s' in
    record after {
      timer =
          not ending
          && not (terminal_state after.state)
          && (elim timeout_ms [ none ↦ false | some _ ↦ true ]);
    }

unfoldable pub started : Option Text → Option ℕ → ℕ → ExecManager → ExecManager
started refused timeout_ms id m =
    with_session id (λ s. put (process_started refused timeout_ms m.accepting s) m) m

-- The `catch`: there is no process.
unfoldable pub start_failed_step : ℕ → Text → ℕ → ExecManager → ExecManager
start_failed_step now message id m =
    with_session id (λ s. end_archive now (fail_session now message s) m) m
