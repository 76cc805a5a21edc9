-- ===== src/Runtime/HistoryStore/Reductions.antt =====
-- What remove of src/runtime/history-store.ts leaves of the archives.
use mcp_dev_runtime.Base.{
  ℕ, ◌≤◌, Bool, true, false, ◌||◌, Option, none, some, ◌≡◌, ◌⊎◌, inl, inr, refl, sym, ap, ◌∙◌,
  subst, arith, Bool-cases, Option-cases, length, String, ite_cases,
}
use mathlib.Core.Bool.{false≢true}
use mcp_dev_runtime.Base.JsMap.{string_discrete, get, IsMap}
use mcp_dev_runtime.Base.JsMap.Laws.{get-delete, length-delete-le, delete-IsMap}
use mcp_dev_runtime.Base.JsMap.Totals.{total, total-delete}
use mcp_dev_runtime.Runtime.Errors.{Result, ok}
use mcp_dev_runtime.Runtime.HistoryStore.{
  Entry, HistoryStore, stored, has, evict, remove, is_protected,
}

-- Every archive is listed once, and `bytes` is what they take on disk.
pub record IsSound (s : HistoryStore) : Type 0 where
  pub unique : IsMap string_discrete s.entries
  pub counted : s.bytes ≡ total stored s.entries

-- An archive that may not be removed.
abbrev pub Protected : Option String → HistoryStore → String → Type 0
Protected protect s id = (is_protected protect id || has id s.active) ≡ true

abbrev pub waiting_bytes : Entry → ℕ
waiting_bytes e = length e.pending

-- Only an active archive has output that waits to be written.
abbrev pub AreSettled : HistoryStore → Type 0
AreSettled s =
    (id : String) (e : Entry)
    → get string_discrete id s.entries ≡ some e
    → has id s.active ≡ false
    → waiting_bytes e ≡ 0

-- Some archives were removed, none that is protected, and nothing else has changed.
pub record IsReduced (protect : Option String) (s s' : HistoryStore) : Type 0 where
  pub sound : IsSound s'
  pub kept :
      (id : String) (e : Entry)
      → get string_discrete id s.entries ≡ some e
      → Protected protect s id
      → get string_discrete id s'.entries ≡ some e
  pub unchanged :
      (id : String) (e : Entry)
      → get string_discrete id s'.entries ≡ some e
      → get string_discrete id s.entries ≡ some e
  pub active : s'.active ≡ s.active
  pub sequence : s'.sequence ≡ s.sequence
  pub pending : s'.pending_bytes ≡ s.pending_bytes
  pub less : s'.bytes ≤ s.bytes
  pub fewer : length s'.entries ≤ length s.entries
  pub waiting : AreSettled s → total waiting_bytes s'.entries ≡ total waiting_bytes s.entries

module _ (protect : Option String) where
  pub IsReduced-refl : (s : HistoryStore) → IsSound s → IsReduced protect s s
  IsReduced-refl s sound = record {
    sound = sound;
    kept = λ id e g p. g;
    unchanged = λ id e g. g;
    active = refl;
    sequence = refl;
    pending = refl;
    less = omega arith;
    fewer = omega arith;
    waiting = λ settled. refl;
  }

  pub IsReduced-trans :
      (a b c : HistoryStore) → IsReduced protect a b → IsReduced protect b c → IsReduced protect a c
  IsReduced-trans a b c p q = record {
    sound = q.sound;
    kept = λ id e g h.
        q.kept id e (p.kept id e g h)
          (subst (λ l. (is_protected protect id || has id l) ≡ true) (sym p.active) h);
    unchanged = λ id e g. p.unchanged id e (q.unchanged id e g);
    active = q.active ∙ p.active;
    sequence = q.sequence ∙ p.sequence;
    pending = q.pending ∙ p.pending;
    less = omega (arith, p.less, q.less);
    fewer = omega (arith, p.fewer, q.fewer);
    waiting = λ settled.
        q.waiting
          (λ id e g idle. settled id e (p.unchanged id e g) (ap (has id) (sym p.active) ∙ idle))
        ∙ p.waiting settled;
  }

  pub evict-IsReduced :
      (id : String) (e : Entry) (s : HistoryStore)
      → IsSound s
      → get string_discrete id s.entries ≡ some e
      → (is_protected protect id || has id s.active) ≡ false
      → IsReduced protect s (evict id e s)
  unfolding evict
  evict-IsReduced id e s sound g free = record {
    sound = record {
      unique = delete-IsMap string_discrete id s.entries sound.unique;
      counted = omega (arith, sound.counted, total-delete stored string_discrete id e s.entries g);
    };
    kept = λ k v h p.
        get-delete string_discrete k id s.entries sound.unique
        ∙ ite_cases (λ o. o ≡ some v) (string_discrete id k) none (get string_discrete k s.entries)
            (λ same. absurd (
              false≢true (
                sym free
                ∙ subst (λ x. (is_protected protect x || has x s.active) ≡ true) (sym same) p)))
            (λ other. h);
    unchanged = λ k v h. ground (arith, get-delete string_discrete k id s.entries sound.unique, h);
    active = refl;
    sequence = refl;
    pending = refl;
    less = omega arith;
    fewer = length-delete-le string_discrete id s.entries;
    waiting = λ settled. omega (
      arith,
      total-delete waiting_bytes string_discrete id e s.entries g,
      settled id e g (ground (arith, free)),
    );
  }

evict-absent :
    (id : String) (e : Entry) (s : HistoryStore)
    → IsSound s
    → get string_discrete id (evict id e s).entries ≡ none
unfolding evict
evict-absent id e s sound =
    get-delete string_discrete id id s.entries sound.unique
    ∙ ite_cases (λ o. o ≡ none) (string_discrete id id) none (get string_discrete id s.entries)
        (λ _. refl) (λ n. absurd (n refl))

-- What a removal comes to, for an archive that may be removed.
abbrev pub Removed :
    (String → Bool)
    → Option String
    → String
    → HistoryStore
    → HistoryStore × Result (Unit {0})
    → Type 0
Removed unlinked protect id s r =
    IsReduced protect s r.0
    × (((r.1 ≡ ok tt) × (get string_discrete id r.0.entries ≡ none)) ⊎ (unlinked id ≡ false))

pub remove-Removed :
    (unlinked : String → Bool) (protect : Option String) (id : String) (s : HistoryStore)
    → IsSound s
    → (is_protected protect id || has id s.active) ≡ false
    → Removed unlinked protect id s (remove unlinked id s)
unfolding remove
remove-Removed unlinked protect id s sound free =
    let idle : has id s.active ≡ false = ground (arith, free) in
    elim (Option-cases (get string_discrete id s.entries)) [
      | inl absent ↦ rw (absent, remove) (IsReduced-refl protect s sound, inl (refl, absent))
      | inr (e, g) ↦ elim (Bool-cases (unlinked id)) [
        | inl gone ↦
            rw (g, idle, gone, remove)
              (evict-IsReduced protect id e s sound g free, inl (refl, evict-absent id e s sound))
        | inr stays ↦ rw (g, idle, stays, remove) (IsReduced-refl protect s sound, inr refl)
      ]
    ]
