-- ===== src/Runtime/RetryCache/Requests.antt =====
-- How src/runtime/retry-cache.ts answers a repeated request id.
use mathlib.Core.Logic.{if_pos, if_neg}
use mcp_dev_runtime.Base.{
  ℕ, suc, ◌≤◌, ◌<◌, true, false, String, none, some, leb, length, ◌≡◌, ◌≢◌, ◌⊎◌, refl, sym, arith,
  Option-cases, if_cases, ite_cases, ◌∙◌, inl, inr,
}
use mcp_dev_runtime.Base.JsMap.{string_discrete, get, IsMap}
use mcp_dev_runtime.Base.JsMap.Laws.{get-set}
use mcp_dev_runtime.Runtime.Errors.{request_id_conflict, request_cache_full}
use mcp_dev_runtime.Runtime.RetryCache.{
  Entry, RetryCache, removable, sweep, first_removable, Outcome, existing, started, rejected,
  fresh_entry, register, register_full, admit, run_with, run,
}
use mcp_dev_runtime.Runtime.RetryCache.Retention.{
  first_removable-none, first_removable-some, sweep-keeps, sweep-IsMap, without,
}

-- While the entry of an id is in flight or pinned, a repetition of the request gets the promise of
-- the first call, a different request under the id is refused, and nothing is started.
pub run_again :
    (id digest : String) (now : ℕ) (c : RetryCache) (e : Entry)
    → id ≢ ""
    → get string_discrete id c.entries ≡ some e
    → removable e ≡ false
    → (e.digest ≡ digest → run (some id) digest now c ≡ (sweep now c, existing e.promise))
      × (e.digest ≢ digest
          → run (some id) digest now c ≡ (sweep now c, rejected request_id_conflict))
unfolding run run_with admit
run_again id digest now c e given g protected =
    let found = sweep-keeps now c id e g protected in
    (
      λ same. rw (if_neg _ given) (rw (found, admit) (rw (if_pos _ same))),
      λ differ. rw (if_neg _ given) (rw (found, admit) (rw (if_neg _ differ))),
    )

-- A request is started after `before`: its entry is in flight under the next promise, and all other
-- entries are those of `before`.
pub record IsStarted (id digest : String) (before : RetryCache) (r : RetryCache × Outcome)
    : Type 0 where
  pub outcome : r.1 ≡ started before.next
  pub entry : get string_discrete id r.0.entries ≡ some (fresh_entry digest before.next)
  pub next : r.0.next ≡ suc before.next
  pub others :
      (k : String)
      → k ≢ id
      → get string_discrete k r.0.entries ≡ get string_discrete k before.entries

-- An entry that may be evicted.
abbrev pub IsRemovable : String → RetryCache → Type 0
IsRemovable k c = (e : Entry) × (get string_discrete k c.entries ≡ some e) × (removable e ≡ true)

-- The ways in which a request without an entry is answered: with room it is started, in a full cache it
-- is started in the place of an entry that may be evicted, and refused if there is none.
abbrev pub IsAnswered : String → String → RetryCache → RetryCache × Outcome → Type 0
IsAnswered id digest c r =
    ((length c.entries < c.capacity) × IsStarted id digest c r)
    ⊎ ((c.capacity ≤ length c.entries)
        × (((k : String) × IsRemovable k c × IsStarted id digest (without k c) r)
            ⊎ ((r ≡ (c, rejected request_cache_full))
                × ((k : String) (e : Entry)
                    → get string_discrete k c.entries ≡ some e
                    → removable e ≡ false))))

register-IsStarted :
    (id digest : String) (c : RetryCache) → IsStarted id digest c (register id digest c)
unfolding register
register-IsStarted id digest c = record {
  outcome = refl;
  entry =
      get-set string_discrete id id (fresh_entry digest c.next) c.entries
      ∙ if_pos (string_discrete id id) refl _ _;
  next = refl;
  others = λ k other.
      get-set string_discrete k id (fresh_entry digest c.next) c.entries
      ∙ if_neg (string_discrete id k) (λ same. other (sym same)) _ _;
}

admit-IsAnswered :
    (id digest : String) (c : RetryCache)
    → IsMap string_discrete c.entries
    → IsAnswered id digest c (admit id digest c none)
unfolding admit
admit-IsAnswered id digest c unique =
    if_cases (IsAnswered id digest c) (leb c.capacity (length c.entries)) _ _
      (λ full. elim (Option-cases (first_removable c.entries)) [
        | inl stuck ↦ rw stuck (
            inr (
              ground arith,
              inr (
                unfold register_full in refl,
                λ k e g. first_removable-none c.entries k e stuck g,
              ),
            ))
        | inr (key, first) ↦ rw first (
            inr (
              ground arith,
              inl (
                key,
                first_removable-some c.entries key unique first,
                unfold register_full in register-IsStarted id digest (without key c),
              ),
            ))
      ])
      (λ room. inl (ground arith, register-IsStarted id digest c))

-- In a cache of unique ids, a request whose id has no entry after the sweep is started under the next
-- promise if there is room, and then nothing is evicted; in a full cache it is started in the place of
-- one entry that is completed and has no pins, and all others stay; and if every entry of a full cache
-- is in flight or pinned, it is refused and nothing changes.
pub run_new :
    (id digest : String) (now : ℕ) (c : RetryCache)
    → id ≢ ""
    → IsMap string_discrete c.entries
    → get string_discrete id (sweep now c).entries ≡ none
    → IsAnswered id digest (sweep now c) (run (some id) digest now c)
unfolding run run_with
run_new id digest now c given unique absent =
    ite_cases (IsAnswered id digest (sweep now c)) (string_discrete id "") _ _
      (λ e. absurd (given e))
      (λ _. rw absent (admit-IsAnswered id digest (sweep now c) (sweep-IsMap now c unique)))
