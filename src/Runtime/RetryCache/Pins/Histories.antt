-- ===== src/Runtime/RetryCache/Pins/Histories.antt =====
-- Any history of calls of src/runtime/retry-cache.ts keeps the count of pins, and the bounds.
use mcp_dev_runtime.Base.{
  ℕ, zero, suc, ◌+◌, ◌<◌, String, Option, none, some, List, [], ◌∷◌, ◌==◌, if◌then◌else◌, ◌≡◌, ◌⊎◌,
  refl, arith, Option-cases, Bool-cases, inl, inr, ite_cases,
}
use mcp_dev_runtime.Base.JsMap.{string_discrete, get}
use mcp_dev_runtime.Runtime.RetryCache.{
  Entry, RetryCache, new, sweep, Outcome, run_with, run, update, settle, Pin, bump, pin_entry,
  entry_of, pin, unpin, release_object, release,
}
use mcp_dev_runtime.Runtime.RetryCache.Retention.{IsValid, run-IsValid, sweep-IsValid}
use mcp_dev_runtime.Runtime.RetryCache.Pins.{
  World, Event, runs, settles, pins, releases, sweeps, release_at, step, after, outstanding,
  IsIssued, Counted,
}
use mcp_dev_runtime.Runtime.RetryCache.Pins.Counting.{sweep-Counted, admit-Counted}
use mcp_dev_runtime.Runtime.RetryCache.Pins.Releasing.{
  update-Counted, update-IsValid, settle-Counted, pin_entry-Counted,
}

-- What releasing a pin does: nothing, or an update of one entry and one pin less of it.
abbrev Unpinned : ℕ → RetryCache → List Pin → World → Type 0
Unpinned now c ps w =
    (w.cache ≡ c × ((q : ℕ) → outstanding q w.pins ≡ outstanding q ps))
    ⊎ ((o : ℕ) × (w.cache ≡ record c { entries = update o (unpin now) c.entries })
        × ((q : ℕ) → outstanding q ps ≡ outstanding q w.pins + (if q == o then 1 else 0)))

release_here :
    (now : ℕ) (c : RetryCache) (p : Pin) (ps : List Pin)
    → Unpinned now c (p ∷ ps) (release_at 0 now c (p ∷ ps))
unfolding release_at release release_object
release_here now c p ps = elim (Bool-cases p.released) [
  | inl over ↦ inl (ground arith, λ q. ground arith)
  | inr held ↦ elim (Option-cases p.object) [
    | inl nothing ↦ inl (ground arith, λ q. ground arith)
    | inr (o, of) ↦ inr (o, ground arith, λ q. ground arith)
  ]
]

release_at-Unpinned :
    (i now : ℕ) (c : RetryCache) (ps : List Pin) → Unpinned now c ps (release_at i now c ps)
unfolding release_at
release_at-Unpinned i now c [] = inl (refl, λ q. refl)
release_at-Unpinned zero now c (p ∷ ps) = release_here now c p ps
release_at-Unpinned (suc i) now c (p ∷ ps) = elim (release_at-Unpinned i now c ps) [
  | inl (same, count) ↦ inl (same, λ q. ground (arith, count q))
  | inr (o, moved, count) ↦ inr (o, moved, λ q. ground (arith, count q))
]

release_at-IsIssued :
    (i now n : ℕ) (c : RetryCache) (ps : List Pin)
    → IsIssued n ps
    → IsIssued n (release_at i now c ps).pins
unfolding release_at release
release_at-IsIssued i now n c [] h = tt
release_at-IsIssued zero now n c (p ∷ ps) h = (λ o e. h.0 o (ground arith), h.1)
release_at-IsIssued (suc i) now n c (p ∷ ps) h = (h.0, release_at-IsIssued i now n c ps h.1)

-- The invariant of a cache in use.
pub record IsSound (w : World) : Type 0 where
  pub valid : IsValid w.cache
  pub counted : Counted w.cache w.pins

Unpinned-IsSound :
    (now : ℕ) (c : RetryCache) (ps : List Pin) (w : World)
    → Unpinned now c ps w
    → IsIssued c.next w.pins
    → IsValid c
    → Counted c ps
    → IsSound w
Unpinned-IsSound now c ps w (inl (same, count)) i v h = record {
  valid = rw same v;
  counted = rw same (record {
    fresh = h.fresh;
    issued = i;
    counted = λ k e g. ground (arith, h.counted k e g, count e.promise);
  });
}
Unpinned-IsSound now c ps w (inr (o, moved, count)) i v h = record {
  valid = rw moved (update-IsValid o (unpin now) c v);
  counted = rw moved (
      update-Counted o (unpin now) c ps w.pins (λ e. refl) (λ e q. ground (arith, count e.promise))
        i h);
}

run-Counted :
    (id : Option String) (digest : String) (now : ℕ) (c : RetryCache) (ps : List Pin)
    → IsValid c
    → Counted c ps
    → Counted (run id digest now c).0 ps
unfolding run run_with
run-Counted none digest now c ps v h = h
run-Counted (some id) digest now c ps v h =
    let v' = sweep-IsValid now c v in
    ite_cases (λ (r : RetryCache × Outcome). Counted r.0 ps) (string_discrete id "") _ _ (λ _. h)
      (λ _.
        admit-Counted id digest (sweep now c) ps (get string_discrete id (sweep now c).entries)
          v'.unique (sweep-Counted now c ps v.unique h))

entry_of-fresh :
    (id : Option String) (c : RetryCache) (ps : List Pin) (e : Entry)
    → Counted c ps
    → entry_of id c ≡ some e
    → e.promise < c.next
entry_of-fresh none c ps e h g = absurd (ground arith)
entry_of-fresh (some id) c ps e h g = h.fresh id e (ground arith)

pin_entry-IsValid :
    (c : RetryCache) (found : Option Entry) → IsValid c → IsValid (pin_entry c found).0
unfolding pin_entry
pin_entry-IsValid c none v = v
pin_entry-IsValid c (some e) v = update-IsValid e.promise bump c v

step-IsSound : (w : World) (e : Event) → IsSound w → IsSound (step w e)
unfolding step pin settle
step-IsSound w (runs id digest now) s = record {
  valid = run-IsValid id digest now w.cache s.valid;
  counted = run-Counted id digest now w.cache w.pins s.valid s.counted;
}
step-IsSound w (settles promise now) s = record {
  valid = update-IsValid promise _ w.cache s.valid;
  counted = settle-Counted promise now w.cache w.pins s.counted;
}
step-IsSound w (pins id) s = record {
  valid = pin_entry-IsValid w.cache (entry_of id w.cache) s.valid;
  counted =
      pin_entry-Counted w.cache w.pins (entry_of id w.cache)
        (λ e. entry_of-fresh id w.cache w.pins e s.counted) s.counted;
}
step-IsSound w (releases i now) s =
    Unpinned-IsSound now w.cache w.pins (release_at i now w.cache w.pins)
      (release_at-Unpinned i now w.cache w.pins)
      (release_at-IsIssued i now w.cache.next w.cache w.pins s.counted.issued) s.valid s.counted
step-IsSound w (sweeps now) s = record {
  valid = sweep-IsValid now w.cache s.valid;
  counted = sweep-Counted now w.cache w.pins s.valid.unique s.counted;
}

-- After any sequence of calls, settled promises and releases, in any order and also repeated, the
-- cache is within its capacity with unique ids, and the pin count of each entry is the number of
-- its pins that are not released: a pin is counted once and given back once.
pub after-IsSound : (w : World) (es : List Event) → IsSound w → IsSound (after w es)
unfolding after
after-IsSound w [] s = s
after-IsSound w (e ∷ es) s = after-IsSound (step w e) es (step-IsSound w e s)

-- A new cache satisfies the invariant.
pub new-IsSound :
    (ttl capacity : ℕ) → 0 < capacity → IsSound (record { cache = new ttl capacity; pins = [] })
unfolding new get
new-IsSound ttl capacity h = record {
  valid = record { unique = tt; bounded = omega arith; room = h };
  counted = record {
    fresh = λ k e g. absurd (ground arith);
    issued = tt;
    counted = λ k e g. absurd (ground arith);
  };
}
