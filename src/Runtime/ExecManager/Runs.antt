-- ===== src/Runtime/ExecManager/Runs.antt =====
-- The manager of src/runtime/exec-manager.ts as a machine: the calls and the events of the processes and
-- timers, in every order.
use mcp_dev_runtime.Base.{ℕ, Bool, Option, List, Bytes, Number, String, refl, arith}
use mcp_dev_runtime.Base.Text.{Text}
use mcp_dev_runtime.Base.JsMap.{get}
use mcp_dev_runtime.Runtime.RetryCache.{RetryCache}
use mcp_dev_runtime.Runtime.ExecManager.{
  Session, ExecConfig, ExecManager, new, put, escalate, time_out, sweep,
}
use mcp_dev_runtime.Config.{Paths}
use mcp_dev_runtime.Runtime.ExecManager.Starting.{
  ExecArgs, exec, archived, started, start_failed_step, with_session,
}
use mcp_dev_runtime.Runtime.ExecManager.Output.{output, closed}
use mcp_dev_runtime.Runtime.ExecManager.Input.{
  InputArgs, write_action, write_return, exec_return, terminate_action, close,
}
use mcp_dev_runtime.Runtime.ExecManager.Validity.{IsValid}
use mcp_dev_runtime.Runtime.ExecManager.Validity.Changes.{
  time_out-IsKept, escalate-IsKept, close_session-IsKept, fail_session-IsKept,
}
use mcp_dev_runtime.Runtime.ExecManager.Validity.Budget.{
  take_output-AreSessions, enforce_output_budget-IsValid,
}
use mcp_dev_runtime.Runtime.ExecManager.Validity.Steps.{
  with_session-IsValid, put-IsValid, end_archive-IsValid, sweep-IsValid, close-IsValid,
}
use mcp_dev_runtime.Runtime.ExecManager.Validity.Calls.{
  exec-IsValid, process_started-IsKept, archive-IsKept, return_to-IsValid, write_found-IsValid,
  terminate_found-IsValid,
}

module _ (config : ExecConfig) where
  -- A step of the manager: a call up to its wait, what it does after the wait, or an event.
  pub data Step : ExecManager → ExecManager → Type 0 where
    executes :
        (paths : Paths) (args : ExecArgs) (digest : String) (now : ℕ) (draws : List ℕ)
        (m : ExecManager)
        → Step m (exec paths config args digest now draws m).0
    archives :
        (id : ℕ) (archive_id : Option String) (m : ExecManager) → Step m (archived id archive_id m)
    starts :
        (refused : Option Text) (timeout_ms : Option ℕ) (id : ℕ) (m : ExecManager)
        → Step m (started refused timeout_ms id m)
    fails :
        (now : ℕ) (message : Text) (id : ℕ) (m : ExecManager)
        → Step m (start_failed_step now message id m)
    outputs :
        (now : ℕ) (text : Bytes) (id : ℕ) (m : ExecManager) → Step m (output config now text id m)
    closes :
        (now : ℕ) (code : Option Number) (signal error : Option Text) (id : ℕ) (m : ExecManager)
        → Step m (closed now code signal error id m)
    times_out :
        (refused : Option Text) (id : ℕ) (m : ExecManager)
        → Step m (with_session id (λ s. put (time_out refused s) m) m)
    escalates :
        (refused : Option Text) (id : ℕ) (m : ExecManager)
        → Step m (with_session id (λ s. put (escalate refused s) m) m)
    writes : (now : ℕ) (a : InputArgs) (m : ExecManager) → Step m (write_action config now a m).0
    write_returns :
        (a : InputArgs) (swept : Session) (m : ExecManager) → Step m (write_return a swept m).0
    exec_returns :
        (id tokens : ℕ) (swept : Session) (m : ExecManager)
        → Step m (exec_return id tokens swept m).0
    terminates :
        (now : ℕ) (refused : Option Text) (force : Bool) (id : ℕ) (m : ExecManager)
        → Step m (terminate_action config now refused force id m).0
    sweeps : (now : ℕ) (m : ExecManager) → Step m (sweep config now m)
    shuts : (refused : Option Text) (m : ExecManager) → Step m (close refused m)

  pub data Reached : ExecManager → Type 0 where
    fresh : (retry : RetryCache) → Reached (new retry)
    next : {m m' : ExecManager} → Reached m → Step m m' → Reached m'

  Step-IsValid : {m m' : ExecManager} → Step m m' → IsValid config m → IsValid config m'
  unfolding archived started start_failed_step output closed write_action write_return exec_return
      terminate_action
  Step-IsValid (executes paths args digest now draws m) v =
      exec-IsValid config paths args digest now draws m v
  Step-IsValid (archives id archive_id m) v =
      with_session-IsValid config id _ m v
        (λ s g. put-IsValid config s _ m v g (archive-IsKept config archive_id s))
  Step-IsValid (starts refused timeout_ms id m) v = with_session-IsValid config id _ m v (λ s g.
      put-IsValid config s _ m v g (process_started-IsKept config refused timeout_ms m.accepting s))
  Step-IsValid (fails now message id m) v =
      with_session-IsValid config id _ m v
        (λ s g. end_archive-IsValid config now s _ m v g (fail_session-IsKept now message s))
  Step-IsValid (outputs now text id m) v = with_session-IsValid config id _ m v (λ s g.
      enforce_output_budget-IsValid config _
        (take_output-AreSessions config now text s m v.sound g))
  Step-IsValid (closes now code signal error id m) v = with_session-IsValid config id _ m v (λ s g.
      end_archive-IsValid config now s _ m v g (close_session-IsKept now code signal error s))
  Step-IsValid (times_out refused id m) v =
      with_session-IsValid config id _ m v
        (λ s g. put-IsValid config s _ m v g (time_out-IsKept refused s))
  Step-IsValid (escalates refused id m) v =
      with_session-IsValid config id _ m v
        (λ s g. put-IsValid config s _ m v g (escalate-IsKept refused s))
  Step-IsValid (writes now a m) v =
      write_found-IsValid config a (sweep config now m) (sweep-IsValid config now m v)
  Step-IsValid (write_returns a swept m) v = return_to-IsValid config _ _ _ a.session_id swept m v
  Step-IsValid (exec_returns id tokens swept m) v = return_to-IsValid config _ _ _ id swept m v
  Step-IsValid (terminates now refused force id m) v =
      terminate_found-IsValid config refused force id (sweep config now m)
        (sweep-IsValid config now m v)
  Step-IsValid (sweeps now m) v = sweep-IsValid config now m v
  Step-IsValid (shuts refused m) v = close-IsValid config refused m v

  new-IsValid : (retry : RetryCache) → IsValid config (new retry)
  unfolding new get
  new-IsValid retry = record {
    sound = record {
      unique = tt;
      sessions = λ k s g. absurd (ground (arith, g));
      counted = refl;
      active_le = omega arith;
    };
    within = omega arith;
  }

  pub Reached-IsValid : {m : ExecManager} → Reached m → IsValid config m
  Reached-IsValid (fresh retry) = new-IsValid retry
  Reached-IsValid (next r step) = Step-IsValid step (Reached-IsValid r)
