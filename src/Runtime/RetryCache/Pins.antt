-- ===== src/Runtime/RetryCache/Pins.antt =====
-- The pins of src/runtime/retry-cache.ts over any sequence of calls.
pub mod Counting
pub mod Releasing
pub mod Histories
use mcp_dev_runtime.Base.{
  ℕ, zero, suc, ◌+◌, ◌-◌, ◌≤◌, ◌<◌, Bool, true, false, not, ◌&&◌, String, Option, none, some, List,
  [], ◌∷◌, ◌==◌, leb, ltb, if◌then◌else◌, length, keep, ◌≡◌, ◌≢◌, ◌⊎◌, refl, arith, Option-cases,
  Bool-cases, inl, inr, get_elem?, ite_cases, if_cases,
}
use mcp_dev_runtime.Base.JsMap.{JsMap, string_discrete, get, set, delete, IsMap}
use mcp_dev_runtime.Base.JsMap.Laws.{get-set, get-delete}
use mcp_dev_runtime.Base.JsMap.Keep.{get-keep_inv}
use mcp_dev_runtime.Runtime.RetryCache.{
  Entry, RetryCache, new, removable, expired, sweep, first_removable, Outcome, fresh_entry,
  register, register_full, admit, run_with, run, update, settle, Pin, bump, pin_entry, entry_of,
  pin, unpin, release_object, release,
}
use mcp_dev_runtime.Runtime.RetryCache.Retention.{IsValid, run-IsValid, sweep-IsValid}

-- A cache with the pins that were handed out, the latest first.
pub record World : Type 0 where
  pub cache : RetryCache
  pub pins : List Pin

-- Calls of the cache, settled promises and calls of the functions that `pin` returned, by their
-- place among the pins.
pub data Event : Type 0 where
  runs : Option String → String → ℕ → Event
  settles : ℕ → ℕ → Event
  pins : Option String → Event
  releases : ℕ → ℕ → Event
  sweeps : ℕ → Event

-- The pin at a place is released, if there is one.
pub release_at : ℕ → ℕ → RetryCache → List Pin → World
release_at i now c [] = record { cache = c; pins = [] }
release_at zero now c (p ∷ ps) =
    let (c', p') = release now p c in record { cache = c'; pins = p' ∷ ps }
release_at (suc i) now c (p ∷ ps) =
    let w = release_at i now c ps in record { cache = w.cache; pins = p ∷ w.pins }

pub step : World → Event → World
unfolding release_at
step w (runs id digest now) = record w { cache = (run id digest now w.cache).0 }
step w (settles promise now) = record w { cache = settle promise now w.cache }
step w (pins id) = let (c, p) = pin id w.cache in record { cache = c; pins = p ∷ w.pins }
step w (releases i now) = release_at i now w.cache w.pins
step w (sweeps now) = record w { cache = sweep now w.cache }

pub after : World → List Event → World
after w [] = w
after w (e ∷ es) = after (step w e) es

-- How many pins of an entry are not released yet.
abbrev pub holds : ℕ → Option ℕ → Bool
holds promise none = false
holds promise (some o) = o == promise

abbrev pub outstanding : ℕ → List Pin → ℕ
outstanding promise [] = 0
outstanding promise (p ∷ ps) =
    let rest = outstanding promise ps in
    if not p.released && holds promise p.object then suc rest else rest

-- Every pin is of an entry that was made before.
abbrev pub IsIssued : ℕ → List Pin → Type 0
IsIssued next [] = Unit
IsIssued next (p ∷ ps) = ((o : ℕ) → p.object ≡ some o → o < next) × IsIssued next ps

pub record Counted (c : RetryCache) (ps : List Pin) : Type 0 where
  pub fresh :
      (k : String) (e : Entry) → get string_discrete k c.entries ≡ some e → e.promise < c.next
  pub issued : IsIssued c.next ps
  pub counted :
      (k : String) (e : Entry)
      → get string_discrete k c.entries ≡ some e
      → e.pins ≡ outstanding e.promise ps
