-- ===== src/Runtime/ExecManager/Validity/Calls.antt =====
-- exec, write and terminate of src/runtime/exec-manager.ts, and the changes of a session that they make.
use mcp_dev_runtime.Base.{
  ℕ, Bool, true, false, Option, some, List, ◌≡◌, refl, arith, ◌*◌, min, if◌then◌else◌, if_cases,
  Number, String, whole,
}
use native.Mathlib.Decide.{ℕ_discrete}
use mcp_dev_runtime.Base.Text.{Text}
use mcp_dev_runtime.Base.JsMap.{get}
use mcp_dev_runtime.Runtime.Errors.{Result, ok, err, invalid_argument}
use mcp_dev_runtime.Runtime.OutputLog.{LogChunk}
use mcp_dev_runtime.Runtime.OutputLog
use mcp_dev_runtime.Runtime.LogQuery.{given}
use mcp_dev_runtime.Runtime.RetryCache.{RetryCache}
use mcp_dev_runtime.Runtime.RetryCache
use mcp_dev_runtime.Runtime.ExecManager.{
  Session, ExecConfig, ExecManager, begin_termination, terminate, is_active,
}
use mcp_dev_runtime.Config.{Paths}
use mcp_dev_runtime.Runtime.ExecManager.Starting.{
  exec_normal, ExecArgs, NormalArgs, normalize, long_label, Execution, answer, start_session, exec,
  or_else, as_session, is_ending, process_started,
}
use mcp_dev_runtime.Runtime.ExecManager.Input.{
  InputArgs, read_session, taken, Written, check_input, write_checked, write_found, is_query,
  returned, return_to, terminate_found, is_exclusive,
}
use mcp_dev_runtime.Runtime.ExecManager.Validity.{IsValid}
use mcp_dev_runtime.Runtime.ExecManager.Validity.Changes.{
  IsKept, IsKept-trans, same-IsKept, timer-IsKept, begin_termination-IsKept,
}
use mcp_dev_runtime.Runtime.ExecManager.Validity.Steps.{
  by_found, put-IsValid, start_session-IsValid,
}

module _ (config : ExecConfig) where
  as_session-IsValid :
      (r : ExecManager × Result ℕ) → IsValid config r.0 → IsValid config (as_session r).0
  as_session-IsValid (m, ok id) v = v
  as_session-IsValid (m, err e) v = v

  answer-IsValid :
      (a : NormalArgs) (now : ℕ) (draws : List ℕ) (m : ExecManager) (o : RetryCache.Outcome)
      → IsValid config m
      → IsValid config (answer config a now draws m o).0
  unfolding answer
  answer-IsValid a now draws m RetryCache.direct v =
      as_session-IsValid (start_session config a now draws m)
        (start_session-IsValid config a now draws m v)
  answer-IsValid a now draws m (RetryCache.started promise) v =
      as_session-IsValid (start_session config a now draws m)
        (start_session-IsValid config a now draws m v)
  answer-IsValid a now draws m (RetryCache.existing promise) v = v
  answer-IsValid a now draws m (RetryCache.rejected e) v = v

  exec_normal-IsValid :
      (digest : String) (now : ℕ) (draws : List ℕ) (m : ExecManager) (r : Result NormalArgs)
      → IsValid config m
      → IsValid config (exec_normal config digest now draws m r).0
  unfolding exec_normal
  exec_normal-IsValid digest now draws m (err e) v = v
  exec_normal-IsValid digest now draws m (ok a) v =
      answer-IsValid a now draws _ _ (record { sound = v.sound; within = v.within })

  -- An `exec` keeps the invariant whatever it answers.
  pub exec-IsValid :
      (paths : Paths) (args : ExecArgs) (digest : String) (now : ℕ) (draws : List ℕ)
      (m : ExecManager)
      → IsValid config m
      → IsValid config (exec paths config args digest now draws m).0
  unfolding exec
  exec-IsValid paths args digest now draws m v =
      if_cases (λ (r : ExecManager × Result Execution). IsValid config r.0) (long_label args.label)
        (m, err invalid_argument)
        (exec_normal config digest now draws m (normalize paths config args)) (λ _. v)
        (λ _. exec_normal-IsValid digest now draws m (normalize paths config args) v)

  -- Changes of fields that the invariant does not read.
  busy-IsKept : (busy : Bool) (s : Session) → IsKept s (record s { busy = busy })
  unfolding is_active
  busy-IsKept busy s = record {
    same_id = refl;
    same_seq = refl;
    same_log = refl;
    active = omega arith;
    dated = λ h. h;
  }

  cursor-IsKept : (cursor : ℕ) (s : Session) → IsKept s (record s { cursor = cursor })
  unfolding is_active
  cursor-IsKept cursor s = record {
    same_id = refl;
    same_seq = refl;
    same_log = refl;
    active = omega arith;
    dated = λ h. h;
  }

  pub archive-IsKept : (a : Option String) (s : Session) → IsKept s (record s { archive_id = a })
  unfolding is_active
  archive-IsKept a s = record {
    same_id = refl;
    same_seq = refl;
    same_log = refl;
    active = omega arith;
    dated = λ h. h;
  }

  handle-IsKept : (handle : Bool) (s : Session) → IsKept s (record s { handle = handle })
  unfolding is_active
  handle-IsKept handle s = record {
    same_id = refl;
    same_seq = refl;
    same_log = refl;
    active = omega arith;
    dated = λ h. h;
  }

  pub process_started-IsKept :
      (refused : Option Text) (timeout_ms : Option ℕ) (accepting : Bool) (s : Session)
      → IsKept s (process_started refused timeout_ms accepting s)
  unfolding process_started
  process_started-IsKept refused timeout_ms accepting s =
      IsKept-trans s _ _
        (if_cases (IsKept s) (is_ending accepting s)
          (begin_termination refused true (or_else s.reason terminate) (record s { handle = true }))
          (record s { handle = true })
          (λ _. IsKept-trans s _ _ (handle-IsKept true s) (
            begin_termination-IsKept refused true (or_else s.reason terminate)
              (record s { handle = true })))
          (λ _. handle-IsKept true s))
        (timer-IsKept _ _)

  taken-IsKept : (a : InputArgs) (s : Session) → IsKept s (taken a s)
  unfolding taken
  taken-IsKept a s =
      if_cases (IsKept s) (is_exclusive a) (record s { busy = true }) s (λ _. busy-IsKept true s)
        (λ _. same-IsKept s)

  read_session-IsKept :
      (s : Session) (explicit : Option Number) (tokens : ℕ)
      → IsKept s (read_session s explicit tokens).0
  unfolding read_session
  read_session-IsKept s explicit tokens =
      by_chunk (OutputLog.read s.log (or_else explicit (whole s.cursor)) (min (tokens * 4) 65536))
    where
      by_chunk :
          (r : Result LogChunk)
          → IsKept s
              (elim r as (λ _. Session × Result LogChunk) [
                | err e ↦ (s, err e)
                | ok chunk ↦ (
                  if given explicit then s else record s { cursor = chunk.next_output_cursor },
                  ok chunk,
                )
              ]).0
      by_chunk (err e) = same-IsKept s
      by_chunk (ok chunk) =
          if_cases (IsKept s) (given explicit) s (record s { cursor = chunk.next_output_cursor })
            (λ _. same-IsKept s) (λ _. cursor-IsKept chunk.next_output_cursor s)

  returned-IsValid :
      (exclusive : Bool) (m : ExecManager) (s : Session) (r : Session × Result LogChunk)
      → IsValid config m
      → get ℕ_discrete s.id m.records ≡ some s
      → IsKept s r.0
      → IsValid config (returned exclusive m r).0
  unfolding returned
  returned-IsValid exclusive m s (s', chunk) v g k = put-IsValid config s _ m v g (
      if_cases (IsKept s) exclusive (record s' { busy = false }) s'
        (λ _. IsKept-trans s _ _ k (busy-IsKept false s')) (λ _. k))

  pub return_to-IsValid :
      (exclusive : Bool) (explicit : Option Number) (tokens id : ℕ) (swept : Session)
      (m : ExecManager)
      → IsValid config m
      → IsValid config (return_to exclusive explicit tokens swept m (get ℕ_discrete id m.records)).0
  unfolding return_to
  return_to-IsValid exclusive explicit tokens id swept m v =
      by_found config id m (λ o. IsValid config (return_to exclusive explicit tokens swept m o).0) v
        v
        (λ s g.
          returned-IsValid exclusive m s (read_session s explicit tokens) v g
            (read_session-IsKept s explicit tokens))

  write_checked-IsValid :
      (a : InputArgs) (s : Session) (m : ExecManager) (r : Result (Unit {0}))
      → IsValid config m
      → get ℕ_discrete s.id m.records ≡ some s
      → IsValid config (write_checked a s m r).0
  unfolding write_checked
  write_checked-IsValid a s m (err e) v g = v
  write_checked-IsValid a s m (ok u) v g = put-IsValid config s (taken a s) m v g (taken-IsKept a s)

  pub write_found-IsValid :
      (a : InputArgs) (m : ExecManager)
      → IsValid config m
      → IsValid config (write_found a m (get ℕ_discrete a.session_id m.records)).0
  unfolding write_found
  write_found-IsValid a m v =
      by_found config a.session_id m (λ o. IsValid config (write_found a m o).0) v v
        (λ s g.
          if_cases (λ (r : ExecManager × Result Written). IsValid config r.0) (is_query a) (m, _)
            (write_checked a s m (check_input a s)) (λ _. v)
            (λ _. write_checked-IsValid a s m (check_input a s) v g))

  pub terminate_found-IsValid :
      (refused : Option Text) (force : Bool) (id : ℕ) (m : ExecManager)
      → IsValid config m
      → IsValid config (terminate_found refused force m (get ℕ_discrete id m.records)).0
  unfolding terminate_found
  terminate_found-IsValid refused force id m v =
      by_found config id m (λ o. IsValid config (terminate_found refused force m o).0) v v
        (λ s g. put-IsValid config s _ m v g (begin_termination-IsKept refused force terminate s))
