-- ===== src/Runtime/ExecManager/Validity.antt =====
-- The invariant of the manager of src/runtime/exec-manager.ts, and how changes keep it.
pub mod Changes
pub mod Budget
pub mod Steps
pub mod Calls
use mcp_dev_runtime.Base.{
  ℕ, suc, ◌+◌, ◌-◌, ◌≤◌, Bool, true, false, not, Option, none, some, Bytes, [], ◌≡◌, ◌≢◌, refl, sym,
  ◌∙◌, subst, arith, length, if◌then◌else◌,
}
use native.Mathlib.Decide.{ℕ_discrete}
use mcp_dev_runtime.Base.JsMap.{JsMap, get, set, delete, IsMap, values}
use mcp_dev_runtime.Base.JsMap.Laws.{set-IsMap, delete-IsMap}
use mcp_dev_runtime.Base.JsMap.Totals.{
  total, total-set_old, total-set_new, total-delete, weight-le-total,
}
use mcp_dev_runtime.Base.JsMap.Listing.{Each, Each-set, Each-delete}
use mcp_dev_runtime.Runtime.OutputLog.{OutputLog, size}
use mcp_dev_runtime.Runtime.OutputLog.Refinement.{Represents}
use mcp_dev_runtime.Runtime.ExecManager.{
  Session, ExecConfig, ExecManager, terminal_state, is_active,
}

-- A log stands for the output of the session, within the capacity.
pub record IsLog (config : ExecConfig) (log : OutputLog) : Type 0 where
  pub stream : Bytes
  pub represents : Represents log stream
  pub capacity : log.capacity ≡ config.per_session_output_bytes
  pub bounded : size log ≤ config.per_session_output_bytes

-- A session under an id: it holds the id, a number that was given out, and, if it has ended, the time.
pub record IsSession (config : ExecConfig) (seq id : ℕ) (s : Session) : Type 0 where
  pub key : s.id ≡ id
  pub numbered : s.seq ≤ seq
  pub logged : IsLog config s.log
  pub dated : terminal_state s.state ≡ true → s.ended ≢ none

abbrev pub log_size : Session → ℕ
log_size s = size s.log

abbrev pub active_weight : Session → ℕ
active_weight s = if is_active s then 1 else 0

-- The sessions, the last number given out, and the count of the bytes in memory.
pub record AreSessions (config : ExecConfig) (records : JsMap ℕ Session) (seq cached : ℕ)
    : Type 0 where
  pub unique : IsMap ℕ_discrete records
  pub sessions : Each ℕ_discrete (IsSession config seq) records
  pub counted : cached ≡ total log_size records
  pub active_le : total active_weight records ≤ config.max_active_sessions

pub record IsValid (config : ExecConfig) (m : ExecManager) : Type 0 where
  pub sound : AreSessions config m.records m.seq m.cached_output_bytes
  pub within : m.cached_output_bytes ≤ config.total_output_bytes

module _ (config : ExecConfig) where
  -- A session is changed, and the count with its log.
  pub set-AreSessions :
      (s s' : Session) (records : JsMap ℕ Session) (seq cached cached' : ℕ)
      → AreSessions config records seq cached
      → get ℕ_discrete s.id records ≡ some s
      → IsSession config seq s.id s'
      → active_weight s' ≤ active_weight s
      → cached' + log_size s ≡ cached + log_size s'
      → AreSessions config (set ℕ_discrete s.id s' records) seq cached'
  set-AreSessions s s' records seq cached cached' v g ok fewer counts = record {
    unique = set-IsMap ℕ_discrete s.id s' records v.unique;
    sessions = Each-set ℕ_discrete (IsSession config seq) s.id s' records ok v.sessions;
    counted =
        omega (arith, counts, v.counted, total-set_old log_size ℕ_discrete s.id s s' records g);
    active_le =
        omega
          (arith, fewer, v.active_le, total-set_old active_weight ℕ_discrete s.id s s' records g);
  }

  -- A session is added, if the limit leaves room for it.
  pub add-AreSessions :
      (s : Session) (records : JsMap ℕ Session) (seq cached : ℕ)
      → AreSessions config records seq cached
      → get ℕ_discrete s.id records ≡ none
      → IsSession config (suc seq) s.id s
      → log_size s ≡ 0
      → suc (total active_weight records) ≤ config.max_active_sessions
      → AreSessions config (set ℕ_discrete s.id s records) (suc seq) cached
  add-AreSessions s records seq cached v g ok empty room = record {
    unique = set-IsMap ℕ_discrete s.id s records v.unique;
    sessions =
        Each-set ℕ_discrete (IsSession config (suc seq)) s.id s records ok
          (λ k w h. later k w (v.sessions k w h));
    counted = omega (arith, empty, v.counted, total-set_new log_size ℕ_discrete s.id s records g);
    active_le = ground (arith, room, total-set_new active_weight ℕ_discrete s.id s records g);
  }
    where
      later : (k : ℕ) (w : Session) → IsSession config seq k w → IsSession config (suc seq) k w
      later k w i = record {
        key = i.key;
        numbered = omega (arith, i.numbered);
        logged = i.logged;
        dated = i.dated;
      }

  -- A session is removed, and its log is taken off the count.
  pub delete-AreSessions :
      (s : Session) (records : JsMap ℕ Session) (seq cached : ℕ)
      → AreSessions config records seq cached
      → get ℕ_discrete s.id records ≡ some s
      → AreSessions config (delete ℕ_discrete s.id records) seq (cached - log_size s)
  delete-AreSessions s records seq cached v g = record {
    unique = delete-IsMap ℕ_discrete s.id records v.unique;
    sessions = Each-delete ℕ_discrete (IsSession config seq) s.id records v.unique v.sessions;
    counted = omega (arith, v.counted, total-delete log_size ℕ_discrete s.id s records g);
    active_le = omega (arith, v.active_le, total-delete active_weight ℕ_discrete s.id s records g);
  }
