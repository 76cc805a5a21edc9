-- ===== src/Runtime/ExecManager/Validity/Budget.antt =====
-- enforceOutputBudget of src/runtime/exec-manager.ts, and the event of output.
use mcp_dev_runtime.Base.{
  ℕ, ◌+◌, ◌-◌, ◌≤◌, ◌<◌, true, not, none, some, List, [], ◌∷◌, ◌++◌, ◌≡◌, ◌≢◌, refl, sym, ◌∙◌,
  subst, ap, arith, if◌then◌else◌, if_cases, Bytes, leb, leb→le,
}
use native.Mathlib.Decide.{ℕ_discrete}
use mcp_dev_runtime.Base.Sorting.{sort_by}
use mcp_dev_runtime.Base.JsMap.{JsMap, get, set, values}
use mcp_dev_runtime.Base.JsMap.Listing.{sum_of, sum_of-sort_by, total_values, All-set}
use mcp_dev_runtime.Runtime.OutputLog.{OutputLog, size, trim_to}
use mcp_dev_runtime.Runtime.OutputLog
use mcp_dev_runtime.Runtime.OutputLog.Appending.{
  trim_to-IsTrimmed, size-trim_to, capacity-trim_to, append-Represents,
}
use mcp_dev_runtime.Base.JsMap.Totals.{weight-le-total}
use mcp_dev_runtime.Runtime.ExecManager.{
  Session, ExecConfig, ExecManager, put, is_active, terminal_state,
}
use mcp_dev_runtime.Runtime.ExecManager.Output.{
  comes_first, trim_session, trim_loop, enforce_output_budget, take_output,
}
use mcp_dev_runtime.Runtime.ExecManager.Sweeping.{session_id, AreListed, values_listed, sort_listed}
use mcp_dev_runtime.Runtime.ExecManager.Validity.{
  IsLog, AreSessions, IsValid, log_size, set-AreSessions,
}

abbrev pub AreSound : ExecConfig → ExecManager → Type 0
AreSound config m = AreSessions config m.records m.seq m.cached_output_bytes

module _ (config : ExecConfig) where
  -- Trimming keeps what a log stands for.
  trim_to-IsLog :
      (log : OutputLog) (bytes : ℕ)
      → IsLog config log
      → IsLog config (trim_to log bytes) × (size (trim_to log bytes) ≤ size log)
  trim_to-IsLog log bytes l =
      let t = trim_to-IsTrimmed log l.stream bytes l.represents in
      let less : size (trim_to log bytes) ≤ size log =
        omega (arith, t.boundary.from_le, t.represents.end_length, l.represents.end_length) in
      (
        record {
          stream = l.stream;
          represents = t.represents;
          capacity = capacity-trim_to log bytes ∙ l.capacity;
          bounded = omega (arith, less, l.bounded);
        },
        less,
      )

  -- A session's log is changed, and the count with it.
  log-AreSessions :
      (s s' : Session) (records : JsMap ℕ Session) (seq cached cached' : ℕ)
      → AreSessions config records seq cached
      → get ℕ_discrete s.id records ≡ some s
      → s'.id ≡ s.id
      → s'.seq ≡ s.seq
      → s'.state ≡ s.state
      → s'.ended ≡ s.ended
      → IsLog config s'.log
      → cached' + log_size s ≡ cached + log_size s'
      → AreSessions config (set ℕ_discrete s'.id s' records) seq cached'
  unfolding is_active
  log-AreSessions s s' records seq cached cached' v g same_id same_seq same_state same_ended l
        counts =
      let old = v.sessions s.id s g in
      subst (λ i. AreSessions config (set ℕ_discrete i s' records) seq cached') (sym same_id)
        (set-AreSessions config s s' records seq cached cached' v g
          (record {
            key = same_id;
            numbered = omega (arith, same_seq, old.numbered);
            logged = l;
            dated =
                subst (λ e. terminal_state s'.state ≡ true → e ≢ none) (sym same_ended)
                  (subst (λ e. terminal_state e ≡ true → s.ended ≢ none) (sym same_state)
                    old.dated);
          })
          (omega (arith, ap {B = ℕ} (λ e. if not (terminal_state e) then 1 else 0) same_state))
          counts)

  trim_session-AreSessions :
      (maximum : ℕ) (s : Session) (m : ExecManager)
      → AreSound config m
      → get ℕ_discrete s.id m.records ≡ some s
      → AreSound config (trim_session maximum s m)
  unfolding trim_session put
  trim_session-AreSessions maximum s m v g =
      let (l, less) =
        trim_to-IsLog s.log (size s.log - (m.cached_output_bytes - maximum))
          (v.sessions s.id s g).logged in
      log-AreSessions s
        (record s { log = trim_to s.log (size s.log - (m.cached_output_bytes - maximum)) })
        m.records m.seq m.cached_output_bytes _ v g refl refl refl refl l
        (omega (arith, less, v.counted, weight-le-total log_size ℕ_discrete s.id s m.records g))

  -- A round reaches the budget, or gives up the whole log.
  trim_session_least :
      (maximum : ℕ) (s : Session) (m : ExecManager)
      → AreSound config m
      → get ℕ_discrete s.id m.records ≡ some s
      → maximum < (trim_session maximum s m).cached_output_bytes
      → (trim_session maximum s m).cached_output_bytes + log_size s ≤ m.cached_output_bytes
  unfolding trim_session
  trim_session_least maximum s m v g over =
      let l = (v.sessions s.id s g).logged in
      omega (
        arith,
        over,
        v.counted,
        weight-le-total log_size ℕ_discrete s.id s m.records g,
        size-trim_to s.log l.stream (size s.log - (m.cached_output_bytes - maximum)) l.represents,
      )

  trim_session-AreListed :
      (maximum : ℕ) (s : Session) (ss : List Session) (m : ExecManager)
      → AreListed m.records (s ∷ ss)
      → AreListed (trim_session maximum s m).records ss
  unfolding trim_session put
  trim_session-AreListed maximum s ss m l = record {
    found = All-set ℕ_discrete session_id s _ m.records ss l.apart.0 l.found.1;
    apart = l.apart.1;
  }

  -- The loop reaches the budget when the sessions that are left hold what is counted.
  trim_loop-AreSessions :
      (maximum : ℕ) (ss : List Session) (m : ExecManager)
      → AreSound config m
      → AreListed m.records ss
      → m.cached_output_bytes ≤ sum_of log_size ss
      → AreSound config (trim_loop maximum ss m)
        × ((trim_loop maximum ss m).cached_output_bytes ≤ maximum)
  unfolding trim_loop
  trim_loop-AreSessions maximum [] m v l enough = (v, omega (arith, enough))
  trim_loop-AreSessions maximum (s ∷ ss) m v l enough =
      let trimmed = trim_session-AreSessions maximum s m v l.found.0 in
      if_cases (λ m'. AreSound config m' × (m'.cached_output_bytes ≤ maximum))
        (leb (trim_session maximum s m).cached_output_bytes maximum) (trim_session maximum s m)
        (trim_loop maximum ss (trim_session maximum s m)) (λ h. (trimmed, leb→le _ _ h))
        (λ h.
          trim_loop-AreSessions maximum ss (trim_session maximum s m) trimmed
            (trim_session-AreListed maximum s ss m l)
            (omega (arith, enough, trim_session_least maximum s m v l.found.0 (ground (arith, h)))))

  -- Whatever the sessions hold, enforcing the budget reaches it.
  pub enforce_output_budget-IsValid :
      (m : ExecManager) → AreSound config m → IsValid config (enforce_output_budget config m)
  unfolding enforce_output_budget
  enforce_output_budget-IsValid m v =
      if_cases (IsValid config) (leb m.cached_output_bytes config.total_output_bytes) m
        (trim_loop config.total_output_bytes (sort_by comes_first (values m.records)) m)
        (λ h. record { sound = v; within = leb→le _ _ h })
        (λ _.
          let (p, q) =
            trim_loop-AreSessions config.total_output_bytes (sort_by comes_first (values m.records))
              m v
              (sort_listed comes_first m.records (values m.records)
                (values_listed config m.records m.seq m.cached_output_bytes v))
              (omega (
                arith,
                v.counted,
                total_values log_size m.records,
                sum_of-sort_by log_size comes_first (values m.records),
              )) in
          record { sound = p; within = q })

  pub take_output-AreSessions :
      (now : ℕ) (text : Bytes) (s : Session) (m : ExecManager)
      → AreSound config m
      → get ℕ_discrete s.id m.records ≡ some s
      → AreSound config (take_output now text s m)
  unfolding take_output put
  take_output-AreSessions now text s m v g =
      let l = (v.sessions s.id s g).logged in
      let (trimmed, bounded, same) = append-Represents s.log l.stream text l.represents in
      log-AreSessions s (record s { log = OutputLog.append s.log text; last_output = now })
        m.records m.seq m.cached_output_bytes _ v g refl refl refl refl
        (record {
          stream = l.stream ++ text;
          represents = trimmed.represents;
          capacity = same ∙ l.capacity;
          bounded = omega (arith, bounded, l.capacity);
        })
        (omega (arith, v.counted, weight-le-total log_size ℕ_discrete s.id s m.records g))
