-- ===== src/Runtime/HistoryStore/Validity.antt =====
-- The invariant of the store of src/runtime/history-store.ts.
pub mod Appends
pub mod Rooms
pub mod Writes
pub mod Saves
pub mod Starts
pub mod Opens
pub mod Clears
use mcp_dev_runtime.Base.{
  ℕ, ◌+◌, ◌-◌, ◌≤◌, Bool, true, false, not, ◌||◌, ◌&&◌, Option, none, some, List, [], ◌∷◌, ◌≡◌, ◌≢◌,
  ◌⊎◌, inl, inr, refl, sym, ap, ◌∙◌, subst, arith, length, String, ite_cases, and-eq_true, leb→le,
  leb,
}
use mathlib.Core.Bool.{false≢true}
use mcp_dev_runtime.Base.JsMap.{string_discrete, get, set, delete, IsMap}
use mcp_dev_runtime.Base.JsMap.Laws.{get-set, set-IsMap, length-set_old, length-set_new}
use mcp_dev_runtime.Base.JsMap.Totals.{total, total-set_old}
use mcp_dev_runtime.Runtime.HistoryStore.{Entry, Limits, HistoryStore, stored, has, fits}
use mcp_dev_runtime.Runtime.HistoryStore.Reductions.{IsSound, IsReduced, AreSettled, waiting_bytes}

-- What an archive holds and has waiting was reserved for it, within the limit of a log while it takes
-- output; and only an active one takes output or has some waiting.
pub record IsEntry (limits : Limits) (active : Bool) (e : Entry) : Type 0 where
  pub reserved : e.log_bytes + waiting_bytes e ≤ e.reserved_bytes
  pub bounded : e.accepting ≡ true → e.reserved_bytes ≤ limits.max_log_bytes
  pub taking : e.accepting ≡ true → active ≡ true
  pub settled : active ≡ false → waiting_bytes e ≡ 0

abbrev pub AreEntries : Limits → HistoryStore → Type 0
AreEntries limits s =
    (id : String) (e : Entry)
    → get string_discrete id s.entries ≡ some e
    → IsEntry limits (has id s.active) e

-- The archives are within every limit, and the counts are those of the archives; `held` is what a task
-- has taken to write it, and is counted as waiting until the task ends.
pub record IsValid (limits : Limits) (held : ℕ) (s : HistoryStore) : Type 0 where
  pub sound : IsSound s
  pub bytes_le : s.bytes ≤ limits.max_total_bytes
  pub records_le : length s.entries ≤ limits.max_records
  pub waiting : s.pending_bytes ≡ total waiting_bytes s.entries + held
  pub pending_le : s.pending_bytes ≤ limits.max_pending_bytes
  pub entries : AreEntries limits s

module _ (limits : Limits) where
  pub settled_all : (s : HistoryStore) → AreEntries limits s → AreSettled s
  settled_all s entries = λ id e g idle. (entries id e g).settled idle

  -- Removing archives keeps the invariant.
  pub reduced-IsValid :
      (protect : Option String) (held : ℕ) (s s' : HistoryStore)
      → IsValid limits held s
      → IsReduced protect s s'
      → IsValid limits held s'
  reduced-IsValid protect held s s' v r = record {
    sound = r.sound;
    bytes_le = omega (arith, v.bytes_le, r.less);
    records_le = omega (arith, v.records_le, r.fewer);
    waiting = omega (arith, r.pending, v.waiting, r.waiting (settled_all s v.entries));
    pending_le = omega (arith, r.pending, v.pending_le);
    entries = λ id e g.
        subst (λ l. IsEntry limits (has id l) e) (sym r.active)
          (v.entries id e (r.unchanged id e g));
  }

  -- Changing an archive keeps the invariant if the counts go with it.
  pub changed-IsValid :
      (id : String) (e e' : Entry) (bytes pending held held' : ℕ) (s : HistoryStore)
      → IsValid limits held s
      → get string_discrete id s.entries ≡ some e
      → IsEntry limits (has id s.active) e'
      → bytes + stored e ≡ s.bytes + stored e'
      → bytes ≤ limits.max_total_bytes
      → pending + waiting_bytes e + held ≡ s.pending_bytes + waiting_bytes e' + held'
      → pending ≤ limits.max_pending_bytes
      → IsValid limits held' (record s {
        entries = set string_discrete id e' s.entries;
        bytes = bytes;
        pending_bytes = pending;
      })
  changed-IsValid id e e' bytes pending held held' s v g entry counted within waited room = record {
    sound = record {
      unique = set-IsMap string_discrete id e' s.entries v.sound.unique;
      counted = omega (
        arith,
        counted,
        v.sound.counted,
        total-set_old stored string_discrete id e e' s.entries g,
      );
    };
    bytes_le = within;
    records_le = omega (arith, v.records_le, length-set_old string_discrete id e' e s.entries g);
    waiting =
        omega (
          arith,
          waited,
          v.waiting,
          total-set_old waiting_bytes string_discrete id e e' s.entries g,
        );
    pending_le = room;
    entries = λ k w h.
        (ite_cases (λ o. o ≡ some w → IsEntry limits (has k s.active) w) (string_discrete id k)
            (some e') (get string_discrete k s.entries)
            (λ same q.
              let eq : e' ≡ w = ap (λ (o : Option Entry). elim o [ none ↦ e' | some x ↦ x ]) q in
              subst (λ x. IsEntry limits (has x s.active) w) same
                (subst (IsEntry limits (has id s.active)) eq entry))
            (λ other q. v.entries k w q))
          (sym (get-set string_discrete k id e' s.entries) ∙ h);
  }
