-- ===== src/Runtime/ExecManager/Sweeping/Loop.antt =====
-- sweep of src/runtime/exec-manager.ts: the loop over the ended sessions, and the whole.
use mcp_dev_runtime.Base.{
  ℕ, ◌-◌, true, false, ◌&&◌, ◌||◌, some, List, [], ◌∷◌, ◌≡◌, refl, arith, length, keep, if_cases,
  ltb, leb,
}
use native.Mathlib.Decide.{ℕ_discrete}
use mcp_dev_runtime.Base.Sorting.{sort_by, All, All-sort_by}
use mcp_dev_runtime.Base.JsMap.{get, values}
use mcp_dev_runtime.Base.JsMap.Laws.{get-delete}
use mcp_dev_runtime.Base.JsMap.Totals.{weight-le-total}
use mcp_dev_runtime.Base.JsMap.Listing.{
  sum_of-sort_by, sum_of-keep, total_values, length-keep_total, length-sort_by, length-keep-values,
}
use mcp_dev_runtime.Runtime.RetryCache.{RetryCache}
use mcp_dev_runtime.Runtime.ExecManager.{
  Session, ExecConfig, ExecManager, is_idle, outlived, ended_first, drop_session, sweep_loop,
  keeps_all, sweep,
}
use mcp_dev_runtime.Runtime.ExecManager.Validity.{AreSessions}
use mcp_dev_runtime.Runtime.ExecManager.Sweeping.{
  IsReduced, IsSwept, Sweeps, Sweeps-removed, Sweeps-kept, expired_weight, is_expired,
  values_listed, keep_listed, sort_listed,
}

same-IsReduced : (m : ExecManager) → IsReduced m m
same-IsReduced m = record {
  less = omega arith;
  same_seq = refl;
  same_calls = refl;
  old = λ id s g. g;
  kept = λ id s g h. g;
}

drop_session-IsReduced :
    (config : ExecConfig) (s : Session) (m m' : ExecManager)
    → IsReduced (drop_session s m) m'
    → (AreSessions config m.records m.seq m.cached_output_bytes)
    → get ℕ_discrete s.id m.records ≡ some s
    → is_idle s ≡ true
    → IsReduced m m'
unfolding drop_session
drop_session-IsReduced config s m m' r v found idle = record {
  less = omega (arith, r.less);
  same_seq = r.same_seq;
  same_calls = r.same_calls;
  old = λ id t g. ground (arith, r.old id t g, get-delete ℕ_discrete id s.id m.records v.unique);
  kept = λ id t g h.
      r.kept id t
        (ground (arith, g, h, found, idle, get-delete ℕ_discrete id s.id m.records v.unique)) h;
}

module _ (config : ExecConfig) (now : ℕ) where
  -- After the loop no session is left to look at.
  record IsEnd (m m' : ExecManager) : Type 0 where
    left : ℕ
    final : Sweeps config now [] left m'
    reduced : IsReduced m m'

  sweep_loop-IsEnd :
      (ss : List Session) (count : ℕ) (m : ExecManager)
      → Sweeps config now ss count m
      → IsEnd m (sweep_loop config now ss count m)
  unfolding sweep_loop
  sweep_loop-IsEnd [] count m w = record { left = count; final = w; reduced = same-IsReduced m }
  sweep_loop-IsEnd (s ∷ ss) count m w =
      if_cases (IsEnd m)
        (outlived config.retained_session_ms now s || ltb config.max_ended_sessions count)
        (sweep_loop config now ss (count - 1) (drop_session s m)) (sweep_loop config now ss count m)
        (λ _.
          let e =
            sweep_loop-IsEnd ss (count - 1) (drop_session s m)
              (Sweeps-removed config now s ss count m w) in
          record {
            left = e.left;
            final = e.final;
            reduced =
                drop_session-IsReduced config s m
                  (sweep_loop config now ss (count - 1) (drop_session s m)) e.reduced w.sound
                  w.listed.found.0 w.idle.0;
          })
        (λ h. sweep_loop-IsEnd ss count m (Sweeps-kept config now s ss count m w h))

  -- With nothing left to look at, the map is swept.
  IsEnd-IsSwept : (m m' : ExecManager) → IsEnd m m' → IsSwept config now m m'
  unfolding is_expired
  IsEnd-IsSwept m m' e = record {
    sound = e.final.sound;
    reduced = e.reduced;
    fresh = λ id s g. ground (
      arith,
      e.final.expired,
      weight-le-total (expired_weight config now) ℕ_discrete id s m'.records g,
    );
    few = omega (arith, e.final.counted, e.final.enough, length-keep_total is_idle m'.records);
  }

  idle_expired : (s : Session) → is_idle s ≡ false → expired_weight config now s ≡ 0
  unfolding is_expired
  idle_expired s h = ground (arith, h)

  All_kept : (ss : List Session) → All (λ s. is_idle s ≡ true) (keep is_idle ss)
  All_kept [] = tt
  All_kept (s ∷ ss) =
      if_cases (All (λ t. is_idle t ≡ true)) (is_idle s) (s ∷ keep is_idle ss) (keep is_idle ss)
        (λ h. (h, All_kept ss)) (λ _. All_kept ss)

  abbrev ended_sessions : ExecManager → List Session
  ended_sessions m = sort_by ended_first (keep is_idle (values m.records))

  Sweeps-start :
      (m : ExecManager)
      → AreSessions config m.records m.seq m.cached_output_bytes
      → Sweeps config now (ended_sessions m) (length (ended_sessions m)) m
  Sweeps-start m v = record {
    sound = v;
    listed = sort_listed ended_first m.records (keep is_idle (values m.records)) (
        keep_listed is_idle m.records (values m.records)
          (values_listed config m.records m.seq m.cached_output_bytes v));
    idle =
        All-sort_by (λ s. is_idle s ≡ true) ended_first (keep is_idle (values m.records))
          (All_kept (values m.records));
    expired = omega (
      arith,
      total_values (expired_weight config now) m.records,
      sum_of-sort_by (expired_weight config now) ended_first (keep is_idle (values m.records)),
      sum_of-keep (expired_weight config now) is_idle idle_expired (values m.records),
    );
    counted = omega (
      arith,
      length-keep_total is_idle m.records,
      length-sort_by ended_first (keep is_idle (values m.records)),
    );
    enough = omega arith;
  }

  -- With no time limit and few sessions nothing has to be removed.
  few-IsSwept :
      (m : ExecManager)
      → AreSessions config m.records m.seq m.cached_output_bytes
      → (keeps_all config.retained_session_ms && leb (length m.records) config.max_ended_sessions)
        ≡ true
      → IsSwept config now m m
  unfolding is_expired keeps_all outlived
  few-IsSwept m v h = record {
    sound = v;
    reduced = same-IsReduced m;
    fresh = λ id s g. ground (arith, h);
    few = ground (arith, h, length-keep-values is_idle m.records);
  }

  retry-IsSwept :
      (m m' : ExecManager) (retry : RetryCache)
      → IsSwept config now m m'
      → IsSwept config now m (record m' { retry = retry })
  retry-IsSwept m m' retry w = record {
    sound = w.sound;
    reduced = record {
      less = w.reduced.less;
      same_seq = w.reduced.same_seq;
      same_calls = w.reduced.same_calls;
      old = w.reduced.old;
      kept = w.reduced.kept;
    };
    fresh = w.fresh;
    few = w.few;
  }

  -- A sweep keeps the counts right, adds nothing, and keeps every session that runs or is waited for;
  -- afterwards no ended session is past its time, and the limit of ended sessions holds.
  pub sweep-IsSwept :
      (m : ExecManager)
      → AreSessions config m.records m.seq m.cached_output_bytes
      → IsSwept config now m (sweep config now m)
  unfolding sweep
  sweep-IsSwept m v = retry-IsSwept m _ _ (
      if_cases (IsSwept config now m)
        (keeps_all config.retained_session_ms && leb (length m.records) config.max_ended_sessions) m
        (sweep_loop config now (ended_sessions m) (length (ended_sessions m)) m) (few-IsSwept m v)
        (λ _.
          IsEnd-IsSwept m _
            (sweep_loop-IsEnd (ended_sessions m) (length (ended_sessions m)) m (Sweeps-start m v))))
