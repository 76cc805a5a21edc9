-- ===== src/Runtime/RetryCache/Retention.antt =====
-- What src/runtime/retry-cache.ts retains: entries in flight or pinned, and never too many.
use mcp_dev_runtime.Base.{
  ℕ, ◌≤◌, ◌<◌, true, false, not, String, Option, none, some, [], ◌∷◌, leb, length, length-keep-le,
  ◌≡◌, refl, arith, Option-cases, Bool-cases, ite_cases, inl, inr,
}
use mcp_dev_runtime.Base.JsMap.{JsMap, string_discrete, get, delete, IsMap}
use mcp_dev_runtime.Base.JsMap.Laws.{
  get-set, get-delete, set-IsMap, delete-IsMap, length-set_new, length-delete,
}
use mcp_dev_runtime.Base.JsMap.Keep.{get-keep-some, keep-IsMap}
use mcp_dev_runtime.Runtime.RetryCache.{
  Entry, RetryCache, removable, expired, sweep, first_removable, Outcome, fresh_entry, register,
  register_full, admit, run_with, run,
}

-- The first removable entry is an entry of the map that is completed and has no pins.
pub first_removable-some :
    (m : JsMap String Entry) (k : String)
    → IsMap string_discrete m
    → first_removable m ≡ some k
    → (e : Entry) × (get string_discrete k m ≡ some e) × (removable e ≡ true)
unfolding first_removable get
first_removable-some [] k u h = absurd (ground arith)
first_removable-some ((j, e) ∷ m) k u h = elim (Bool-cases (removable e)) [
  | inl free ↦ (e, ground arith, free)
  | inr held ↦
      let (d, at, free) = first_removable-some m k u.1 (ground arith) in
      (d, ground (arith, u.0), free)
]

-- There is none only if every entry is in flight or pinned.
pub first_removable-none :
    (m : JsMap String Entry) (k : String) (e : Entry)
    → first_removable m ≡ none
    → get string_discrete k m ≡ some e
    → removable e ≡ false
unfolding first_removable get
first_removable-none [] k e h g = absurd (ground arith)
first_removable-none ((j, d) ∷ m) k e h g = ground (arith, first_removable-none m k e)

pub sweep-IsMap :
    (now : ℕ) (c : RetryCache)
    → IsMap string_discrete c.entries
    → IsMap string_discrete (sweep now c).entries
unfolding sweep
sweep-IsMap now c u = keep-IsMap string_discrete _ c.entries u

pub sweep-keeps :
    (now : ℕ) (c : RetryCache) (k : String) (e : Entry)
    → get string_discrete k c.entries ≡ some e
    → removable e ≡ false
    → get string_discrete k (sweep now c).entries ≡ some e
unfolding sweep
sweep-keeps now c k e g h =
    get-keep-some string_discrete (λ p. not (expired c.ttl now p.1)) k e c.entries g (ground arith)

-- A cache with unique keys, within its capacity.
pub record IsValid (c : RetryCache) : Type 0 where
  pub unique : IsMap string_discrete c.entries
  pub bounded : length c.entries ≤ c.capacity
  pub room : 0 < c.capacity

pub sweep-IsValid : (now : ℕ) (c : RetryCache) → IsValid c → IsValid (sweep now c)
unfolding sweep
sweep-IsValid now c v = record {
  unique = keep-IsMap string_discrete _ c.entries v.unique;
  bounded = omega (arith, length-keep-le (λ p. not (expired c.ttl now p.1)) c.entries, v.bounded);
  room = v.room;
}

module _ (id digest : String) (c : RetryCache)
    (absent : get string_discrete id c.entries ≡ none) where
  register-IsValid :
      IsMap string_discrete c.entries
      → length c.entries < c.capacity
      → IsValid (register id digest c).0
  unfolding register
  register-IsValid u h = record {
    unique = set-IsMap string_discrete id _ c.entries u;
    bounded =
        omega
          (arith, length-set_new string_discrete id (fresh_entry digest c.next) c.entries absent);
    room = omega arith;
  }

  register-keeps :
      (k : String) (e : Entry)
      → get string_discrete k c.entries ≡ some e
      → get string_discrete k (register id digest c).0.entries ≡ some e
  unfolding register
  register-keeps k e g =
      ground (arith, get-set string_discrete k id (fresh_entry digest c.next) c.entries, absent)

abbrev pub without : String → RetryCache → RetryCache
without k c = record c { entries = delete string_discrete k c.entries }

absent-delete :
    (id key : String) (c : RetryCache)
    → IsMap string_discrete c.entries
    → get string_discrete id c.entries ≡ none
    → get string_discrete id (delete string_discrete key c.entries) ≡ none
absent-delete id key c u h = ground (arith, get-delete string_discrete id key c.entries u)

admit_new-IsValid :
    (id digest : String) (c : RetryCache)
    → IsValid c
    → get string_discrete id c.entries ≡ none
    → IsValid (admit id digest c none).0
unfolding admit
admit_new-IsValid id digest c v absent = elim (Bool-cases (leb c.capacity (length c.entries))) [
  | inr room ↦ rw room (register-IsValid id digest c absent v.unique (ground arith))
  | inl full ↦ rw full (elim (Option-cases (first_removable c.entries)) [
    | inl stuck ↦ rw stuck (unfold register_full in v)
    | inr (key, e) ↦
        let (d, at, free) = first_removable-some c.entries key v.unique e in
        rw e (
          unfold register_full in
          register-IsValid id digest (without key c) (absent-delete id key c v.unique absent)
            (delete-IsMap string_discrete key c.entries v.unique)
            (omega (arith, length-delete string_discrete key d c.entries at, v.bounded)))
  ])
]

admit-IsValid :
    (id digest : String) (c : RetryCache) (found : Option Entry)
    → IsValid c
    → get string_discrete id c.entries ≡ found
    → IsValid (admit id digest c found).0
unfolding admit
admit-IsValid id digest c none v h = admit_new-IsValid id digest c v h
admit-IsValid id digest c (some e) v h =
    ite_cases (λ (r : RetryCache × Outcome). IsValid r.0) (string_discrete e.digest digest) _ _
      (λ same. v) (λ differ. v)

run_with-IsValid :
    (id digest : String) (now : ℕ) (c : RetryCache)
    → IsValid c
    → IsValid (run_with id digest now c).0
unfolding run_with
run_with-IsValid id digest now c v =
    admit-IsValid id digest (sweep now c) (get string_discrete id (sweep now c).entries)
      (sweep-IsValid now c v) refl

-- A call of `run`, whatever it comes to, keeps the ids unique and the number of entries within the
-- capacity.
pub run-IsValid :
    (id : Option String) (digest : String) (now : ℕ) (c : RetryCache)
    → IsValid c
    → IsValid (run id digest now c).0
unfolding run
run-IsValid none digest now c v = v
run-IsValid (some id) digest now c v =
    ite_cases (λ (r : RetryCache × Outcome). IsValid r.0) (string_discrete id "") _ _ (λ empty. v)
      (λ given. run_with-IsValid id digest now c v)

module _ (k : String) (e : Entry) (protected : removable e ≡ false) where
  abbrev Kept : RetryCache × Outcome → Type 0
  Kept r = get string_discrete k r.0.entries ≡ some e

  admit_new-keeps :
      (id digest : String) (c : RetryCache)
      → IsMap string_discrete c.entries
      → get string_discrete id c.entries ≡ none
      → get string_discrete k c.entries ≡ some e
      → get string_discrete k (admit id digest c none).0.entries ≡ some e
  unfolding admit
  admit_new-keeps id digest c u absent g = elim (Bool-cases (leb c.capacity (length c.entries))) [
    | inr room ↦ rw room (register-keeps id digest c absent k e g)
    | inl full ↦ rw full (elim (Option-cases (first_removable c.entries)) [
      | inl stuck ↦ rw stuck (unfold register_full in g)
      | inr (key, first) ↦
          let (d, at, free) = first_removable-some c.entries key u first in
          rw first (
            unfold register_full in
            register-keeps id digest (without key c) (absent-delete id key c u absent) k e
              (ground (arith, get-delete string_discrete k key c.entries u)))
    ])
  ]

  admit-keeps :
      (id digest : String) (c : RetryCache) (found : Option Entry)
      → IsMap string_discrete c.entries
      → get string_discrete id c.entries ≡ found
      → get string_discrete k c.entries ≡ some e
      → get string_discrete k (admit id digest c found).0.entries ≡ some e
  unfolding admit
  admit-keeps id digest c none u h g = admit_new-keeps id digest c u h g
  admit-keeps id digest c (some d) u h g =
      ite_cases Kept (string_discrete d.digest digest) _ _ (λ same. g) (λ differ. g)

  run_with-keeps :
      (id digest : String) (now : ℕ) (c : RetryCache)
      → IsMap string_discrete c.entries
      → get string_discrete k c.entries ≡ some e
      → get string_discrete k (run_with id digest now c).0.entries ≡ some e
  unfolding run_with
  run_with-keeps id digest now c u g =
      admit-keeps id digest (sweep now c) (get string_discrete id (sweep now c).entries)
        (sweep-IsMap now c u) refl (sweep-keeps now c k e g protected)

  -- An entry that is in flight or pinned is never evicted or changed by a call of `run`, also when
  -- the cache is full and however much time has passed.
  pub run-keeps :
      (id : Option String) (digest : String) (now : ℕ) (c : RetryCache)
      → IsMap string_discrete c.entries
      → get string_discrete k c.entries ≡ some e
      → get string_discrete k (run id digest now c).0.entries ≡ some e
  unfolding run
  run-keeps none digest now c u g = g
  run-keeps (some id) digest now c u g =
      ite_cases Kept (string_discrete id "") _ _ (λ empty. g)
        (λ given. run_with-keeps id digest now c u g)
