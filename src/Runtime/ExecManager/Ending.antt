-- ===== src/Runtime/ExecManager/Ending.antt =====
-- The life of one session of src/runtime/exec-manager.ts: its states and what ends it.
use mcp_dev_runtime.Base.{ℕ, Bool, true, false, Option, none, some, ◌≡◌, refl, arith, Number}
use mcp_dev_runtime.Base.Text.{Text}
use mcp_dev_runtime.Runtime.RetryCache.{Pin}
use mcp_dev_runtime.Runtime.ExecManager.{
  ExecState, running, exited, terminating, terminated, timed_out, start_failed, terminal_state,
  Reason, timeout, terminate, first_reason, Signal, Session, ExecConfig, send, arm_escalation,
  begin_termination, escalate, time_out, final_state, close_session, fail_session,
}
use mcp_dev_runtime.Runtime.ExecManager.Starting.{NormalArgs, new_session, process_started, or_else}

-- What happens to a session, in its own fields. Only a session that has not ended is closed, or fails to
-- start: a process is closed once.
pub data Change : Session → Session → Type 0 where
  starts :
      (refused : Option Text) (timeout_ms : Option ℕ) (accepting : Bool) (s : Session)
      → Change s (process_started refused timeout_ms accepting s)
  ends :
      (refused : Option Text) (force : Bool) (reason : Reason) (s : Session)
      → Change s (begin_termination refused force reason s)
  times_out : (refused : Option Text) (s : Session) → Change s (time_out refused s)
  escalates : (refused : Option Text) (s : Session) → Change s (escalate refused s)
  closes :
      (now : ℕ) (code : Option Number) (signal error : Option Text) (s : Session)
      → terminal_state s.state ≡ false
      → Change s (close_session now code signal error s)
  fails :
      (now : ℕ) (message : Text) (s : Session)
      → terminal_state s.state ≡ false
      → Change s (fail_session now message s)

pub data Lived : Session → Type 0 where
  born :
      (config : ExecConfig) (a : NormalArgs) (now id seq : ℕ) (pin : Pin)
      → Lived (new_session config a now id seq pin)
  later : {s s' : Session} → Lived s → Change s s' → Lived s'

-- The reason that a state goes with.
unfoldable pub agrees : ExecState → Option Reason → Bool
agrees running reason = elim reason [ none ↦ true | some r ↦ false ]
agrees terminating reason = elim reason [ none ↦ false | some r ↦ true ]
agrees exited reason = elim reason [ none ↦ true | some r ↦ false ]
agrees timed_out reason = elim reason [
  | none ↦ false
  | some r ↦ elim r [ timeout ↦ true | terminate ↦ false ]
]
agrees terminated reason = elim reason [
  | none ↦ false
  | some r ↦ elim r [ timeout ↦ false | terminate ↦ true ]
]
agrees start_failed reason = true

-- The moves between states: a session runs, is asked to end, and ends; then it stays as it is.
unfoldable pub may_follow : ExecState → ExecState → Bool
may_follow running exited = true
may_follow running terminating = true
may_follow running start_failed = true
may_follow running running = true
may_follow terminating terminating = true
may_follow terminating terminated = true
may_follow terminating timed_out = true
may_follow terminating start_failed = true
may_follow exited exited = true
may_follow terminated terminated = true
may_follow timed_out timed_out = true
may_follow start_failed start_failed = true
may_follow _ _ = false

-- A change moves along the diagram, and keeps the reason in step with the state.
record IsMove (s s' : Session) : Type 0 where
  follows : may_follow s.state s'.state ≡ true
  agreed : agrees s'.state s'.reason ≡ true

module _ (s : Session) (agreed : agrees s.state s.reason ≡ true) where
  same-IsMove : IsMove s s
  unfolding may_follow
  same-IsMove = record { follows = ground arith; agreed = agreed }

  send_same :
      (refused : Option Text) (name : Signal)
      → ((send refused name s).state ≡ s.state) × ((send refused name s).reason ≡ s.reason)
  unfolding send
  send_same refused name = ground arith

  begin_termination-IsMove :
      (refused : Option Text) (force : Bool) (reason : Reason)
      → IsMove s (begin_termination refused force reason s)
  unfolding begin_termination arm_escalation send may_follow agrees terminal_state first_reason
  begin_termination-IsMove refused force reason = record {
    follows = ground (arith, agreed);
    agreed = ground (arith, agreed);
  }

  escalate-IsMove : (refused : Option Text) → IsMove s (escalate refused s)
  unfolding escalate send may_follow agrees terminal_state
  escalate-IsMove refused = record {
    follows = ground (arith, agreed);
    agreed = ground (arith, agreed);
  }

  close_session-IsMove :
      (now : ℕ) (code : Option Number) (signal error : Option Text)
      → terminal_state s.state ≡ false
      → IsMove s (close_session now code signal error s)
  unfolding close_session final_state may_follow agrees terminal_state
  close_session-IsMove now code signal error active = record {
    follows = ground (arith, agreed);
    agreed = ground (arith, agreed);
  }

  fail_session-IsMove :
      (now : ℕ) (message : Text)
      → terminal_state s.state ≡ false
      → IsMove s (fail_session now message s)
  unfolding fail_session may_follow agrees terminal_state
  fail_session-IsMove now message active = record {
    follows = ground (arith, agreed);
    agreed = ground (arith, agreed);
  }

module _ (s : Session) (agreed : agrees s.state s.reason ≡ true) where
  time_out-IsMove : (refused : Option Text) → IsMove s (time_out refused s)
  unfolding time_out may_follow
  time_out-IsMove refused =
      let b = begin_termination-IsMove (record s { timer = false }) agreed refused false timeout in
      record { follows = ground (arith, b.follows); agreed = ground (arith, b.agreed, agreed) }

  process_started-IsMove :
      (refused : Option Text) (timeout_ms : Option ℕ) (accepting : Bool)
      → IsMove s (process_started refused timeout_ms accepting s)
  unfolding process_started may_follow
  process_started-IsMove refused timeout_ms accepting =
      let b =
        begin_termination-IsMove (record s { handle = true }) agreed refused true
          (or_else s.reason terminate) in
      record { follows = ground (arith, b.follows); agreed = ground (arith, b.agreed, agreed) }

Change-IsMove : {s s' : Session} → Change s s' → agrees s.state s.reason ≡ true → IsMove s s'
Change-IsMove (starts refused timeout_ms accepting s) h =
    process_started-IsMove s h refused timeout_ms accepting
Change-IsMove (ends refused force reason s) h = begin_termination-IsMove s h refused force reason
Change-IsMove (times_out refused s) h = time_out-IsMove s h refused
Change-IsMove (escalates refused s) h = escalate-IsMove s h refused
Change-IsMove (closes now code signal error s active) h =
    close_session-IsMove s h now code signal error active
Change-IsMove (fails now message s active) h = fail_session-IsMove s h now message active

-- In every life of a session its state tells the reason: one that was never asked to end is running or
-- has exited, one in `terminating` was asked, `timed_out` was asked by the timeout and `terminated` by a
-- call; only a failure to start says nothing of it.
pub Lived-agrees : {s : Session} → Lived s → agrees s.state s.reason ≡ true
unfolding new_session agrees
Lived-agrees (born config a now id seq pin) = refl
Lived-agrees (later l c) = (Change-IsMove c (Lived-agrees l)).agreed

-- In every life of a session each change moves along the diagram of the states: it runs, is asked to
-- end, and ends; a state in which it has ended is never left.
pub Lived-may_follow : {s s' : Session} → Lived s → Change s s' → may_follow s.state s'.state ≡ true
Lived-may_follow l c = (Change-IsMove c (Lived-agrees l)).follows
