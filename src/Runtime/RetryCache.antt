-- ===== src/Runtime/RetryCache.antt =====
-- RetryCache of src/runtime/retry-cache.ts. A promise, and the entry that holds it, is a number
-- that is given out once. The digest of a request (a hash of its canonical JSON) is a text that
-- comes with the request; `Date.now()` is an argument.
pub mod Retention
pub mod Requests
pub mod Pins
mod Checks
use mcp_dev_runtime.Base.{
  ℕ, suc, ◌+◌, ◌-◌, Bool, true, false, not, ◌&&◌, ◌||◌, String, Option, none, some, List, [], ◌∷◌,
  ◌==◌, ltb, leb, if◌then◌else◌, length, keep,
}
use mathlib.Core.Logic.{ite}
use mcp_dev_runtime.Base.JsMap.{JsMap, string_discrete, get, set, delete}
use mcp_dev_runtime.Runtime.Errors.{ToolError, request_id_conflict, request_cache_full}

pub record Entry : Type 0 where
  pub digest : String
  pub promise : ℕ
  pub completed : Option ℕ
  pub pins : ℕ

pub record RetryCache : Type 0 where
  pub entries : JsMap String Entry
  pub ttl : ℕ
  pub capacity : ℕ
  pub next : ℕ

pub new : ℕ → ℕ → RetryCache
new ttl capacity = record { entries = []; ttl = ttl; capacity = capacity; next = 0 }

-- `entry.completed !== null`
abbrev pub is_completed : Entry → Bool
is_completed e = elim e.completed [ none ↦ false | some _ ↦ true ]

-- `e.completed !== null && e.pins === 0`
abbrev pub removable : Entry → Bool
removable e = is_completed e && e.pins == 0

-- `entry.completed !== null && now - entry.completed >= this.ttl`
abbrev pub outlived : ℕ → ℕ → Option ℕ → Bool
outlived ttl now none = false
outlived ttl now (some completed) = leb (completed + ttl) now

abbrev pub expired : ℕ → ℕ → Entry → Bool
expired ttl now e = e.pins == 0 && outlived ttl now e.completed

pub sweep : ℕ → RetryCache → RetryCache
sweep now c = record c { entries = keep (λ p. not (expired c.ttl now p.1)) c.entries }

unfoldable pub first_removable : JsMap String Entry → Option String
first_removable [] = none
first_removable ((k, e) ∷ m) = if removable e then some k else first_removable m

-- What a call of `run` comes to: the action alone, the promise of an earlier call, a new promise
-- whose action is started, or a rejection.
pub data Outcome : Type 0 where
  direct : Outcome
  existing : ℕ → Outcome
  started : ℕ → Outcome
  rejected : ToolError → Outcome

abbrev pub fresh_entry : String → ℕ → Entry
fresh_entry digest promise = record {
  digest = digest;
  promise = promise;
  completed = none;
  pins = 0;
}

-- The entry is registered before the action is scheduled.
pub register : String → String → RetryCache → RetryCache × Outcome
register id digest c = (
  record c {
    entries = set string_discrete id (fresh_entry digest c.next) c.entries;
    next = suc c.next;
  },
  started c.next,
)

-- A full cache gives up its first removable entry, or refuses.
pub register_full : String → String → RetryCache → Option String → RetryCache × Outcome
unfolding register
register_full id digest c none = (c, rejected request_cache_full)
register_full id digest c (some key) =
    register id digest (record c { entries = delete string_discrete key c.entries })

pub admit : String → String → RetryCache → Option Entry → RetryCache × Outcome
unfolding register register_full
admit id digest c (some previous) =
    ite (string_discrete previous.digest digest) (c, existing previous.promise)
      (c, rejected request_id_conflict)
admit id digest c none =
    if leb c.capacity (length c.entries)
    then register_full id digest c (first_removable c.entries)
    else register id digest c

pub run_with : String → String → ℕ → RetryCache → RetryCache × Outcome
run_with id digest now c =
    let c' = sweep now c in admit id digest c' (get string_discrete id c'.entries)

-- `if (!id)`: no id, or an empty one
pub run : Option String → String → ℕ → RetryCache → RetryCache × Outcome
run none digest now c = (c, direct)
run (some id) digest now c = ite (string_discrete id "") (c, direct) (run_with id digest now c)

-- An update of the entry object that holds `promise`; the object may have left the map.
unfoldable pub update : ℕ → (Entry → Entry) → JsMap String Entry → JsMap String Entry
update promise f [] = []
update promise f ((k, e) ∷ m) = (k, if e.promise == promise then f e else e) ∷ update promise f m

-- The promise settles: `.finally(() => { entry.completed = Date.now(); })`
pub settle : ℕ → ℕ → RetryCache → RetryCache
settle promise now c = record c {
  entries = update promise (λ e. record e { completed = some now }) c.entries;
}

-- What `pin` returns: the entry object that it closes over, if any, and its flag `released`.
pub record Pin : Type 0 where
  pub object : Option ℕ
  pub released : Bool

abbrev pub bump : Entry → Entry
bump e = record e { pins = e.pins + 1 }

pub pin_entry : RetryCache → Option Entry → RetryCache × Pin
pin_entry c none = (c, record { object = none; released = false })
pin_entry c (some e) = (
  record c { entries = update e.promise bump c.entries },
  record { object = some e.promise; released = false },
)

-- `id ? this.entries.get(id) : undefined`
abbrev pub entry_of : Option String → RetryCache → Option Entry
entry_of none c = none
entry_of (some id) c = ite (string_discrete id "") none (get string_discrete id c.entries)

pub pin : Option String → RetryCache → RetryCache × Pin
unfolding pin_entry
pin id c = pin_entry c (entry_of id c)

-- The completion time starts anew when the last pin of a completed entry is released.
abbrev pub restamp : ℕ → Entry → Option ℕ → Option ℕ
restamp now e none = none
restamp now e (some completed) = if e.pins == 0 then some now else some completed

abbrev pub unpin : ℕ → Entry → Entry
unpin now e =
    let e' = record e { pins = e.pins - 1 } in record e' { completed = restamp now e' e.completed }

pub release_object : ℕ → Option ℕ → RetryCache → RetryCache
release_object now none c = c
release_object now (some promise) c = record c { entries = update promise (unpin now) c.entries }

pub release : ℕ → Pin → RetryCache → RetryCache × Pin
unfolding release_object
release now p c =
    if p.released then (c, p) else (release_object now p.object c, record p { released = true })

pub record Stats : Type 0 where
  pub entries : ℕ
  pub capacity : ℕ
  pub ttl_ms : ℕ
  pub protected_entries : ℕ

pub stats : RetryCache → Stats
stats c = record {
  entries = length c.entries;
  capacity = c.capacity;
  ttl_ms = c.ttl;
  protected_entries = length (keep (λ p. ltb 0 p.1.pins || not (is_completed p.1)) c.entries);
}
