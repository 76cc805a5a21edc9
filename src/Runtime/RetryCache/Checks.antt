-- ===== src/Runtime/RetryCache/Checks.antt =====
-- Tests of the retry cache, and its theorems at concrete inputs.
use mathlib.Core.Bool.{false≢true}
use text.Mathlib.TextEquality.{eq_iff}
use mcp_dev_runtime.Base.{String, none, some, List, [], ◌∷◌, ◌≡◌, ◌≢◌, refl, arith}
use mcp_dev_runtime.Base.JsMap.{string_discrete, get, set, delete}
use mcp_dev_runtime.Runtime.Errors.{request_id_conflict}
use mcp_dev_runtime.Runtime.RetryCache.{
  Entry, RetryCache, new, sweep, first_removable, existing, started, rejected, register,
  register_full, admit, run_with, run, update, settle,
}
use mcp_dev_runtime.Runtime.RetryCache.Retention.{IsValid, run-keeps}
use mcp_dev_runtime.Runtime.RetryCache.Requests.{run_again, run_new, IsAnswered}
use mcp_dev_runtime.Runtime.RetryCache.Pins.{Event, runs, settles, pins, releases, sweeps, after}
use mcp_dev_runtime.Runtime.RetryCache.Pins.Histories.{IsSound, after-IsSound, new-IsSound}

abbrev flying : Entry
flying = record { digest = "d"; promise = 0; completed = none; pins = 0 }

-- One request in flight in a cache of one entry.
abbrev busy : RetryCache
busy = record { entries = ("a", flying) ∷ []; ttl = 100; capacity = 1; next = 1 }

busy-IsValid : IsValid busy
unfolding get
busy-IsValid = record { unique = (refl, tt); bounded = omega arith; room = omega arith }

-- A settled entry makes place for another id.
replaced : (run (some "b") "e" 7 (settle 0 5 busy)).1 ≡ started 1
unfolding run run_with admit register register_full first_removable sweep settle update get set
    delete string_discrete
replaced = refl

a-ne-empty : ◌≢◌ {A = String} "a" ""
a-ne-empty e = false≢true ((eq_iff "a" "").1 e)

b-ne-empty : ◌≢◌ {A = String} "b" ""
b-ne-empty e = false≢true ((eq_iff "b" "").1 e)

run-keeps_example : get string_discrete "a" (run (some "b") "e" 900 busy).0.entries ≡ some flying
unfolding get string_discrete
run-keeps_example = run-keeps "a" flying refl (some "b") "e" 900 busy busy-IsValid.unique refl

run_again_example :
    (flying.digest ≡ "d" → run (some "a") "d" 900 busy ≡ (sweep 900 busy, existing 0))
    × (flying.digest ≢ "d"
        → run (some "a") "d" 900 busy ≡ (sweep 900 busy, rejected request_id_conflict))
unfolding get string_discrete
run_again_example = run_again "a" "d" 900 busy flying a-ne-empty refl refl

run_new_example : IsAnswered "b" "e" (sweep 9 (new 100 1)) (run (some "b") "e" 9 (new 100 1))
unfolding new sweep get
run_new_example = run_new "b" "e" 9 (new 100 1) b-ne-empty tt refl

abbrev history : List Event
history =
    runs (some "a") "d" 1
    ∷ pins (some "a")
    ∷ settles 0 2
    ∷ releases 0 3
    ∷ releases 0 4
    ∷ sweeps 999
    ∷ []

after-IsSound_example : IsSound (after (record { cache = new 100 1; pins = [] }) history)
after-IsSound_example =
    after-IsSound (record { cache = new 100 1; pins = [] }) history
      (new-IsSound 100 1 (omega arith))
