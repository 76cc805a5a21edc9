-- ===== src/Runtime/ExecManager/Validity/Steps.antt =====
-- The operations of src/runtime/exec-manager.ts and the invariant.
use mcp_dev_runtime.Base.{
  ℕ, ◌<◌, false, not, Option, none, some, List, [], ◌∷◌, ◌≡◌, refl, sym, subst, arith, if_cases,
  leb, keep,
}
use native.Mathlib.Decide.{ℕ_discrete}
use mcp_dev_runtime.Base.Sorting.{All}
use mcp_dev_runtime.Base.Text.{Text}
use mcp_dev_runtime.Base.JsMap.{JsMap, get, set, values}
use mcp_dev_runtime.Base.JsMap.Listing.{length-keep_total, All-set}
use mcp_dev_runtime.Runtime.Errors.{Result, err, server_closing, session_limit}
use mcp_dev_runtime.Runtime.OutputLog
use mcp_dev_runtime.Runtime.OutputLog.Refinement.{new-Represents}
use mcp_dev_runtime.Runtime.ExecManager.{
  Session, ExecConfig, ExecManager, put, is_active, terminal_state, active_count, begin_termination,
  terminate, end_archive, sweep,
}
use mcp_dev_runtime.Runtime.ExecManager.Starting.{
  NormalArgs, new_session, reserve, draw_id, start_drawn, start_swept, start_session, with_session,
}
use mcp_dev_runtime.Runtime.ExecManager.Input.{end_all, close}
use mcp_dev_runtime.Runtime.ExecManager.Sweeping.{session_id, AreListed, values_listed, keep_listed}
use mcp_dev_runtime.Runtime.ExecManager.Sweeping.Loop.{sweep-IsSwept}
use mcp_dev_runtime.Runtime.ExecManager.Validity.{IsValid, add-AreSessions}
use mcp_dev_runtime.Runtime.ExecManager.Validity.Changes.{
  IsKept, put-AreSessions, begin_termination-IsKept,
}

-- A number that is drawn for a session is free.
pub draw_id_free :
    (draws : List ℕ) (records : JsMap ℕ Session) (id : ℕ)
    → draw_id draws records ≡ some id
    → get ℕ_discrete id records ≡ none
unfolding draw_id
draw_id_free [] records id h = absurd (ground (arith, h))
draw_id_free (d ∷ draws) records id h = ground (arith, h, draw_id_free draws records id)

module _ (config : ExecConfig) where
  -- What a number stands for: no session, or one of that id.
  pub by_found :
      (id : ℕ) (m : ExecManager) (P : Option Session → Type 0)
      → IsValid config m
      → P none
      → ((s : Session) → get ℕ_discrete s.id m.records ≡ some s → P (some s))
      → P (get ℕ_discrete id m.records)
  by_found id m P v absent present = by_get (get ℕ_discrete id m.records) refl
    where
      by_get : (o : Option Session) → get ℕ_discrete id m.records ≡ o → P o
      by_get none e = absent
      by_get (some s) e =
          present s
            (subst (λ i. get ℕ_discrete i m.records ≡ some s) (sym (v.sound.sessions id s e).key) e)

  -- A step of a session that is not there changes nothing.
  pub with_session-IsValid :
      (id : ℕ) (step : Session → ExecManager) (m : ExecManager)
      → IsValid config m
      → ((s : Session) → get ℕ_discrete s.id m.records ≡ some s → IsValid config (step s))
      → IsValid config (with_session id step m)
  unfolding with_session
  with_session-IsValid id step m v kept =
      by_found id m (λ o. IsValid config (elim o [ none ↦ m | some s ↦ step s ])) v v kept

  pub put-IsValid :
      (s s' : Session) (m : ExecManager)
      → IsValid config m
      → get ℕ_discrete s.id m.records ≡ some s
      → IsKept s s'
      → IsValid config (put s' m)
  unfolding put
  put-IsValid s s' m v g k = record {
    sound = put-AreSessions config s s' m v.sound g k;
    within = v.within;
  }

  pub end_archive-IsValid :
      (now : ℕ) (s s' : Session) (m : ExecManager)
      → IsValid config m
      → get ℕ_discrete s.id m.records ≡ some s
      → IsKept s s'
      → IsValid config (end_archive now s' m)
  unfolding end_archive put is_active
  end_archive-IsValid now s s' m v g k = record {
    sound = put-AreSessions config s _ m v.sound g (record {
      same_id = k.same_id;
      same_seq = k.same_seq;
      same_log = k.same_log;
      active = k.active;
      dated = k.dated;
    });
    within = v.within;
  }

  pub sweep-IsValid :
      (now : ℕ) (m : ExecManager) → IsValid config m → IsValid config (sweep config now m)
  sweep-IsValid now m v =
      let w = sweep-IsSwept config now m v.sound in
      record { sound = w.sound; within = omega (arith, w.reduced.less, v.within) }

  -- A session is added when there is room and its number is free.
  pub reserve-IsValid :
      (a : NormalArgs) (now id : ℕ) (m : ExecManager)
      → IsValid config m
      → get ℕ_discrete id m.records ≡ none
      → active_count m < config.max_active_sessions
      → IsValid config (reserve config a now id m)
  unfolding reserve put new_session active_count OutputLog.new terminal_state
  reserve-IsValid a now id m v free room = record {
    sound =
        add-AreSessions config _ m.records m.seq m.cached_output_bytes v.sound free
          (record {
            key = refl;
            numbered = omega arith;
            logged = record {
              stream = [];
              represents = new-Represents config.per_session_output_bytes;
              capacity = refl;
              bounded = omega arith;
            };
            dated = λ e. absurd (ground (arith, e));
          })
          refl (omega (arith, room, length-keep_total is_active m.records));
    within = v.within;
  }

  start_drawn-IsValid :
      (a : NormalArgs) (now : ℕ) (m : ExecManager) (drawn : Option ℕ)
      → IsValid config m
      → ((id : ℕ) → drawn ≡ some id → get ℕ_discrete id m.records ≡ none)
      → active_count m < config.max_active_sessions
      → IsValid config (start_drawn config a now m drawn).0
  unfolding start_drawn
  start_drawn-IsValid a now m none v free room = v
  start_drawn-IsValid a now m (some id) v free room =
      reserve-IsValid a now id m v (free id refl) room

  start_swept-IsValid :
      (a : NormalArgs) (now : ℕ) (draws : List ℕ) (m : ExecManager)
      → IsValid config m
      → IsValid config (start_swept config a now draws m).0
  unfolding start_swept
  start_swept-IsValid a now draws m v =
      if_cases (λ (r : ExecManager × Result ℕ). IsValid config r.0)
        (leb config.max_active_sessions (active_count m)) (m, err session_limit)
        (start_drawn config a now m (draw_id draws m.records)) (λ _. v)
        (λ h.
          start_drawn-IsValid a now m (draw_id draws m.records) v
            (λ id e. draw_id_free draws m.records id e) (ground (arith, h)))

  pub start_session-IsValid :
      (a : NormalArgs) (now : ℕ) (draws : List ℕ) (m : ExecManager)
      → IsValid config m
      → IsValid config (start_session config a now draws m).0
  unfolding start_session
  start_session-IsValid a now draws m v =
      if_cases (λ (r : ExecManager × Result ℕ). IsValid config r.0) (not m.accepting)
        (m, err server_closing) (start_swept config a now draws (sweep config now m)) (λ _. v)
        (λ _. start_swept-IsValid a now draws (sweep config now m) (sweep-IsValid now m v))

  end_all-IsValid :
      (refused : Option Text) (ss : List Session) (m : ExecManager)
      → IsValid config m
      → AreListed m.records ss
      → IsValid config (end_all refused ss m)
  unfolding end_all put
  end_all-IsValid refused [] m v l = v
  end_all-IsValid refused (s ∷ ss) m v l =
      end_all-IsValid refused ss (put s' m) (put-IsValid s s' m v l.found.0 kept) (record {
        found =
            subst (λ i. All (λ t. get ℕ_discrete t.id (set ℕ_discrete i s' m.records) ≡ some t) ss)
              (sym kept.same_id)
              (All-set ℕ_discrete session_id s s' m.records ss l.apart.0 l.found.1);
        apart = l.apart.1;
      })
    where
      s' : Session
      s' = begin_termination refused false terminate s

      kept : IsKept s s'
      kept = begin_termination-IsKept refused false terminate s

  pub close-IsValid :
      (refused : Option Text) (m : ExecManager)
      → IsValid config m
      → IsValid config (close refused m)
  unfolding close
  close-IsValid refused m v =
      end_all-IsValid refused (keep is_active (values m.records)) (record m { accepting = false })
        (record { sound = v.sound; within = v.within })
        (keep_listed is_active m.records (values m.records)
          (values_listed config m.records m.seq m.cached_output_bytes v.sound))
