-- ===== src/Runtime/ExecManager/Sweeping.antt =====
-- sweep of src/runtime/exec-manager.ts: what is removed and what stays.
pub mod Loop
use mcp_dev_runtime.Base.{
  ℕ, suc, ◌+◌, ◌-◌, ◌≤◌, Bool, true, false, not, ◌&&◌, ◌||◌, Option, none, some, List, [], ◌∷◌, ◌≡◌,
  ◌≢◌, refl, sym, ◌∙◌, subst, arith, length, keep, if◌then◌else◌, if_cases, Bool-cases, inl, inr,
  ltb, leb, ltb→lt, leb→le,
}
use native.Mathlib.Decide.{ℕ_discrete}
use mcp_dev_runtime.Base.Sorting.{
  sort_by, All, Pairwise, All-sort_by, All-keep, Pairwise-sort_by, Pairwise-keep,
}
use mcp_dev_runtime.Base.JsMap.{JsMap, get, set, delete, IsMap, values}
use mcp_dev_runtime.Base.JsMap.Laws.{get-delete}
use mcp_dev_runtime.Base.JsMap.Totals.{total, total-delete, weight-le-total}
use mcp_dev_runtime.Base.JsMap.Listing.{
  sum_of, sum_of-sort_by, sum_of-keep, total_values, length-keep_total, IsFound, AreApart,
  AreApart-sym, values_found, All-delete,
}
use mcp_dev_runtime.Runtime.ExecManager.{
  Session, ExecConfig, ExecManager, terminal_state, is_idle, outlived, ended_first, drop_session,
  sweep_loop, keeps_all, sweep,
}
use mcp_dev_runtime.Runtime.ExecManager.Validity.{AreSessions, log_size, delete-AreSessions}

abbrev pub session_id : Session → ℕ
session_id s = s.id

abbrev pub idle_weight : Session → ℕ
idle_weight s = if is_idle s then 1 else 0

-- An ended session that nobody waits for is past its time.
unfoldable pub is_expired : ExecConfig → ℕ → Session → Bool
is_expired config now s = is_idle s && outlived config.retained_session_ms now s

abbrev pub expired_weight : ExecConfig → ℕ → Session → ℕ
expired_weight config now s = if is_expired config now s then 1 else 0

-- The sessions of a list are those of the map, each once.
pub record AreListed (records : JsMap ℕ Session) (ss : List Session) : Type 0 where
  pub found : All (IsFound ℕ_discrete session_id records) ss
  pub apart : Pairwise (AreApart ℕ_discrete session_id) ss

pub values_listed :
    (config : ExecConfig) (records : JsMap ℕ Session) (seq cached : ℕ)
    → AreSessions config records seq cached
    → AreListed records (values records)
values_listed config records seq cached v =
    let (p, q) =
      values_found ℕ_discrete session_id records v.unique (λ k s g. (v.sessions k s g).key) in
    record { found = p; apart = q }

pub keep_listed :
    (p : Session → Bool) (records : JsMap ℕ Session) (ss : List Session)
    → AreListed records ss
    → AreListed records (keep p ss)
keep_listed p records ss l = record {
  found = All-keep (IsFound ℕ_discrete session_id records) p ss l.found;
  apart = Pairwise-keep (AreApart ℕ_discrete session_id) p ss l.apart;
}

pub sort_listed :
    (before : Session → Session → Bool) (records : JsMap ℕ Session) (ss : List Session)
    → AreListed records ss
    → AreListed records (sort_by before ss)
sort_listed before records ss l = record {
  found = All-sort_by (IsFound ℕ_discrete session_id records) before ss l.found;
  apart =
      Pairwise-sort_by (AreApart ℕ_discrete session_id) (AreApart-sym ℕ_discrete session_id) before
        ss l.apart;
}

-- Sessions are removed from the map, none of them one that runs or is waited for.
pub record IsReduced (m m' : ExecManager) : Type 0 where
  pub less : m'.cached_output_bytes ≤ m.cached_output_bytes
  pub same_seq : m'.seq ≡ m.seq
  pub same_calls : m'.calls ≡ m.calls
  pub old :
      (id : ℕ) (s : Session)
      → get ℕ_discrete id m'.records ≡ some s
      → get ℕ_discrete id m.records ≡ some s
  pub kept :
      (id : ℕ) (s : Session)
      → get ℕ_discrete id m.records ≡ some s
      → is_idle s ≡ false
      → get ℕ_discrete id m'.records ≡ some s

-- What a sweep at `now` leaves: nothing new, all that runs or is waited for, nothing past its time,
-- and of the ended sessions as many as the limit at most.
pub record IsSwept (config : ExecConfig) (now : ℕ) (m m' : ExecManager) : Type 0 where
  pub sound : AreSessions config m'.records m'.seq m'.cached_output_bytes
  pub reduced : IsReduced m m'
  pub fresh :
      (id : ℕ) (s : Session)
      → get ℕ_discrete id m'.records ≡ some s
      → is_expired config now s ≡ false
  pub few : length (keep is_idle (values m'.records)) ≤ config.max_ended_sessions

-- The state in the middle of the loop, with the sessions and the count that are left.
pub record Sweeps (config : ExecConfig) (now : ℕ) (ss : List Session) (count : ℕ) (m : ExecManager)
    : Type 0 where
  pub sound : AreSessions config m.records m.seq m.cached_output_bytes
  pub listed : AreListed m.records ss
  pub idle : All (λ s. is_idle s ≡ true) ss
  pub expired : total (expired_weight config now) m.records ≡ sum_of (expired_weight config now) ss
  pub counted : total idle_weight m.records ≡ count
  pub enough : count ≤ config.max_ended_sessions + length ss

module _ (config : ExecConfig) (now : ℕ) where
  pub Sweeps-removed :
      (s : Session) (ss : List Session) (count : ℕ) (m : ExecManager)
      → Sweeps config now (s ∷ ss) count m
      → Sweeps config now ss (count - 1) (drop_session s m)
  unfolding drop_session
  Sweeps-removed s ss count m w = record {
    sound = delete-AreSessions config s m.records m.seq m.cached_output_bytes w.sound found;
    listed = record {
      found =
          All-delete ℕ_discrete session_id s m.records ss w.sound.unique w.listed.apart.0
            w.listed.found.1;
      apart = w.listed.apart.1;
    };
    idle = w.idle.1;
    expired = omega (
      arith,
      w.expired,
      total-delete (expired_weight config now) ℕ_discrete s.id s m.records found,
    );
    counted =
        ground
          (arith, w.counted, w.idle.0, total-delete idle_weight ℕ_discrete s.id s m.records found);
    enough = omega (arith, w.enough);
  }
    where
      found : get ℕ_discrete s.id m.records ≡ some s
      found = w.listed.found.0

  pub Sweeps-kept :
      (s : Session) (ss : List Session) (count : ℕ) (m : ExecManager)
      → Sweeps config now (s ∷ ss) count m
      → (outlived config.retained_session_ms now s || ltb config.max_ended_sessions count) ≡ false
      → Sweeps config now ss count m
  unfolding is_expired
  Sweeps-kept s ss count m w h = record {
    sound = w.sound;
    listed = record { found = w.listed.found.1; apart = w.listed.apart.1 };
    idle = w.idle.1;
    expired = ground (arith, w.expired, h);
    counted = w.counted;
    enough = ground (arith, h);
  }
