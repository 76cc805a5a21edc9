-- ===== src/Runtime/ExecManager/Validity/Changes.antt =====
-- The changes of one session in src/runtime/exec-manager.ts.
use mcp_dev_runtime.Base.{
  ℕ, ◌+◌, ◌≤◌, Bool, true, false, Option, none, some, ◌≡◌, ◌≢◌, refl, sym, ◌∙◌, subst, ap, arith,
  if◌then◌else◌, if_cases, Number,
}
use native.Mathlib.Decide.{ℕ_discrete}
use mcp_dev_runtime.Base.JsMap.{get, set}
use mcp_dev_runtime.Base.Text.{Text}
use mcp_dev_runtime.Runtime.OutputLog.{size}
use mcp_dev_runtime.Runtime.ExecManager.{
  Session, ExecConfig, ExecManager, terminating, terminal_state, is_active, put, Reason, Signal,
  sigkill, send, arm_escalation, begin_termination, escalate, time_out, final_state, close_session,
  fail_session,
}
use mcp_dev_runtime.Runtime.ExecManager.Validity.{
  AreSessions, IsSession, active_weight, set-AreSessions,
}

-- A change keeps the number, the id and the log of a session; none becomes active again, and one that
-- has ended has its time.
pub record IsKept (s s' : Session) : Type 0 where
  pub same_id : s'.id ≡ s.id
  pub same_seq : s'.seq ≡ s.seq
  pub same_log : s'.log ≡ s.log
  pub active : active_weight s' ≤ active_weight s
  pub dated :
      (terminal_state s.state ≡ true → s.ended ≢ none)
      → terminal_state s'.state ≡ true
      → s'.ended ≢ none

pub IsKept-trans : (s t u : Session) → IsKept s t → IsKept t u → IsKept s u
IsKept-trans s t u p q = record {
  same_id = q.same_id ∙ p.same_id;
  same_seq = q.same_seq ∙ p.same_seq;
  same_log = q.same_log ∙ p.same_log;
  active = omega (arith, p.active, q.active);
  dated = λ h. q.dated (p.dated h);
}

send-IsKept : (refused : Option Text) (name : Signal) (s : Session) → IsKept s (send refused name s)
unfolding send is_active
send-IsKept refused name s = record {
  same_id = ground arith;
  same_seq = ground arith;
  same_log = ground arith;
  active = ground arith;
  dated = λ h. ground (arith, h);
}

arm_escalation-IsKept : (force : Bool) (s : Session) → IsKept s (arm_escalation force s)
unfolding arm_escalation is_active
arm_escalation-IsKept force s = record {
  same_id = ground arith;
  same_seq = ground arith;
  same_log = ground arith;
  active = ground arith;
  dated = λ h. ground (arith, h);
}

pub same-IsKept : (s : Session) → IsKept s s
same-IsKept s = record {
  same_id = refl;
  same_seq = refl;
  same_log = refl;
  active = omega arith;
  dated = λ h. h;
}

terminating-IsKept :
    (reason : Option Reason) (s : Session)
    → terminal_state s.state ≡ false
    → IsKept s (record s { reason = reason; state = terminating })
unfolding terminal_state is_active
terminating-IsKept reason s h = record {
  same_id = refl;
  same_seq = refl;
  same_log = refl;
  active = ground (arith, h);
  dated = λ _ e. absurd (ground (arith, e));
}

pub begin_termination-IsKept :
    (refused : Option Text) (force : Bool) (reason : Reason) (s : Session)
    → IsKept s (begin_termination refused force reason s)
unfolding begin_termination
begin_termination-IsKept refused force reason s =
    if_cases (IsKept s) (terminal_state s.state) s _ (λ _. same-IsKept s)
      (λ h.
        IsKept-trans s _ _ (terminating-IsKept _ s h)
          (IsKept-trans _ _ _ (send-IsKept refused _ _) (arm_escalation-IsKept force _)))

pub timer-IsKept : (timer : Bool) (s : Session) → IsKept s (record s { timer = timer })
unfolding is_active
timer-IsKept timer s = record {
  same_id = refl;
  same_seq = refl;
  same_log = refl;
  active = omega arith;
  dated = λ h. h;
}

pub time_out-IsKept : (refused : Option Text) (s : Session) → IsKept s (time_out refused s)
unfolding time_out
time_out-IsKept refused s =
    if_cases (IsKept s) s.timer _ s
      (λ _. IsKept-trans s _ _ (timer-IsKept false s) (begin_termination-IsKept refused false _ _))
      (λ _. same-IsKept s)

pub escalate-IsKept : (refused : Option Text) (s : Session) → IsKept s (escalate refused s)
unfolding escalate is_active
escalate-IsKept refused s = by_escalation s.escalation
  where
    fired : IsKept s (record s { escalation = some false })
    fired = record {
      same_id = refl;
      same_seq = refl;
      same_log = refl;
      active = omega arith;
      dated = λ h. h;
    }

    by_escalation :
        (o : Option Bool)
        → IsKept s (elim o [
          | none ↦ s
          | some armed ↦
              if armed then send refused sigkill (record s { escalation = some false }) else s
        ])
    by_escalation none = same-IsKept s
    by_escalation (some armed) =
        if_cases (IsKept s) armed _ s (λ _. IsKept-trans s _ _ fired (send-IsKept refused _ _))
          (λ _. same-IsKept s)

-- A session whose process has ended is in a state that it does not leave.
pub final_state_ended :
    (error : Option Text) (reason : Option Reason)
    → terminal_state (final_state error reason) ≡ true
unfolding final_state terminal_state
final_state_ended error reason = ground arith

-- The session has ended, at `now`.
pub close_session-IsKept :
    (now : ℕ) (code : Option Number) (signal error : Option Text) (s : Session)
    → IsKept s (close_session now code signal error s)
unfolding close_session is_active
close_session-IsKept now code signal error s = record {
  same_id = refl;
  same_seq = refl;
  same_log = refl;
  active = ground (arith, final_state_ended error s.reason);
  dated = λ h e. λ n. ground (arith, n);
}

pub fail_session-IsKept :
    (now : ℕ) (message : Text) (s : Session) → IsKept s (fail_session now message s)
unfolding fail_session is_active terminal_state
fail_session-IsKept now message s = record {
  same_id = refl;
  same_seq = refl;
  same_log = refl;
  active = ground arith;
  dated = λ h e. λ n. ground (arith, n);
}

module _ (config : ExecConfig) where
  pub put-AreSessions :
      (s s' : Session) (m : ExecManager)
      → AreSessions config m.records m.seq m.cached_output_bytes
      → get ℕ_discrete s.id m.records ≡ some s
      → IsKept s s'
      → AreSessions config (put s' m).records m.seq m.cached_output_bytes
  unfolding put
  put-AreSessions s s' m v g k =
      subst (λ i. AreSessions config (set ℕ_discrete i s' m.records) m.seq m.cached_output_bytes)
        (sym k.same_id)
        (set-AreSessions config s s' m.records m.seq m.cached_output_bytes m.cached_output_bytes v g
          (record {
            key = k.same_id;
            numbered = rw k.same_seq old.numbered;
            logged = rw k.same_log old.logged;
            dated = k.dated old.dated;
          })
          k.active (ap (λ l. m.cached_output_bytes + size l) (sym k.same_log)))
    where
      old : IsSession config m.seq s.id s
      old = v.sessions s.id s g
