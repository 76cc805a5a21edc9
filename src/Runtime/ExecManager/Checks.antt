-- ===== src/Runtime/ExecManager/Checks.antt =====
-- Examples for the manager of src/runtime/exec-manager.ts.
use mcp_dev_runtime.Base.{true, false, none, some, [], ◌∷◌, ◌++◌, ◌≡◌, refl, whole, codes}
use mcp_dev_runtime.Runtime.RetryCache
use mcp_dev_runtime.Runtime.ExecManager.{
  Session, ExecConfig, ExecManager, terminate, begin_termination, close_session, sweep, new,
  terminal_state, arm_escalation, send,
}
use mcp_dev_runtime.Config.{Paths}
use mcp_dev_runtime.Runtime.ExecManager.Starting.{
  ExecArgs, NormalArgs, exec, new_session, process_started, is_ending,
}
use mcp_dev_runtime.Runtime.ExecManager.Output.{output, closed}
use mcp_dev_runtime.Runtime.ExecManager.Sweeping.{IsSwept}
use mcp_dev_runtime.Runtime.ExecManager.Sweeping.Loop.{sweep-IsSwept}
use mcp_dev_runtime.Runtime.ExecManager.Runs.{
  Reached, fresh, next, executes, outputs, closes, Reached-IsValid,
}
use mcp_dev_runtime.Runtime.ExecManager.Ending.{
  Lived, born, later, ends, closes, starts, agrees, may_follow, Lived-agrees, Lived-may_follow,
}

abbrev small_config : ExecConfig
small_config = record {
  cwd = codes "/work";
  shell = codes "/bin/sh";
  default_login = true;
  default_tty = false;
  default_yield_time_ms = 1000;
  max_yield_time_ms = 30000;
  default_max_output_tokens = 100;
  max_output_tokens = 1000;
  max_active_sessions = 1;
  per_session_output_bytes = 4;
  total_output_bytes = 3;
  retained_session_ms = some 50;
  max_ended_sessions = 2;
}

abbrev plain_args : ExecArgs
plain_args = record {
  workdir = none;
  shell = none;
  login = none;
  tty = none;
  yield_time_ms = none;
  max_output_tokens = none;
  timeout_ms = none;
  request_id = none;
  label = none;
}

abbrev normal_args : NormalArgs
normal_args = record {
  workdir = codes "/work";
  shell = codes "/bin/sh";
  login = true;
  tty = false;
  yield_time_ms = 1000;
  max_output_tokens = 100;
  timeout_ms = none;
  request_id = none;
  label = none;
}

abbrev plain_paths : Paths
plain_paths = record {
  home = codes "/home";
  join = λ base path. base ++ path;
  resolve = λ base path. path;
}

abbrev empty_manager : ExecManager
empty_manager = new (RetryCache.new 10 1000)

abbrev after_exec : ExecManager
after_exec = (exec plain_paths small_config plain_args "a" 5 (7 ∷ []) empty_manager).0

abbrev after_output : ExecManager
after_output = output small_config 6 (65 ∷ 66 ∷ 67 ∷ 68 ∷ 69 ∷ []) 7 after_exec

abbrev after_close : ExecManager
after_close = closed 8 (some (whole 0)) none none 7 after_output

-- A session that is started, writes and exits; four bytes were written into a budget of three.
output_reached : Reached small_config after_output
output_reached = next (next (fresh _) (executes _ _ _ _ _ _)) (outputs _ _ _ _)

sweep-IsSwept_example : IsSwept small_config 100 after_close (sweep small_config 100 after_close)
sweep-IsSwept_example =
    sweep-IsSwept small_config 100 after_close
      (Reached-IsValid small_config (next output_reached (closes _ _ _ _ _ _))).sound

abbrev first_session : Session
first_session =
    new_session small_config normal_args 5 7 1 (record { object = none; released = false })

abbrev with_process : Session
with_process = process_started none none true first_session

abbrev asked_session : Session
asked_session = begin_termination none false terminate with_process

asked-Lived : Lived asked_session
asked-Lived = later (later (born _ _ _ _ _ _) (starts _ _ _ _)) (ends _ _ _ _)

Lived-agrees_example : agrees asked_session.state asked_session.reason ≡ true
Lived-agrees_example = Lived-agrees asked-Lived

Lived-may_follow_example :
    may_follow asked_session.state
      (close_session 9 none (some (codes "SIGTERM")) none asked_session).state
    ≡ true
unfolding begin_termination process_started new_session terminal_state is_ending arm_escalation send
Lived-may_follow_example =
    Lived-may_follow asked-Lived (closes 9 none (some (codes "SIGTERM")) none asked_session refl)
