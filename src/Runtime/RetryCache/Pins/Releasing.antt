-- ===== src/Runtime/RetryCache/Pins/Releasing.antt =====
-- `settle`, `pin` and its release in src/runtime/retry-cache.ts keep the count of pins.
use mcp_dev_runtime.Base.{
  ℕ, suc, ◌<◌, String, Option, none, some, List, [], ◌∷◌, ◌==◌, if◌then◌else◌, length, ◌≡◌, refl,
  arith, ap,
}
use mcp_dev_runtime.Base.JsMap.{JsMap, string_discrete, get, IsMap}
use mcp_dev_runtime.Runtime.RetryCache.{Entry, RetryCache, update, settle, Pin, bump, pin_entry}
use mcp_dev_runtime.Runtime.RetryCache.Retention.{IsValid}
use mcp_dev_runtime.Runtime.RetryCache.Pins.{outstanding, IsIssued, Counted}

module _ (promise : ℕ) (f : Entry → Entry) where
  abbrev changed : Entry → Entry
  changed e = if e.promise == promise then f e else e

  get-update-some :
      (k : String) (m : JsMap String Entry) (d : Entry)
      → get string_discrete k (update promise f m) ≡ some d
      → (e : Entry) × (get string_discrete k m ≡ some e) × (d ≡ changed e)
  unfolding update get
  get-update-some k [] d h = absurd (ground arith)
  get-update-some k ((j, e) ∷ m) d h = elim (string_discrete j k) [
    | yes here ↦ (e, ground arith, ground arith)
    | no later ↦
        let (e', at, same) = get-update-some k m d (ground arith) in (e', ground arith, same)
  ]

  get-update-none :
      (k : String) (m : JsMap String Entry)
      → get string_discrete k m ≡ none
      → get string_discrete k (update promise f m) ≡ none
  unfolding update get
  get-update-none k [] h = refl
  get-update-none k ((j, e) ∷ m) h = ground (arith, get-update-none k m)

  update-IsMap :
      (m : JsMap String Entry)
      → IsMap string_discrete m
      → IsMap string_discrete (update promise f m)
  unfolding update
  update-IsMap [] u = tt
  update-IsMap ((j, e) ∷ m) u = (get-update-none j m u.0, update-IsMap m u.1)

  length-update : (m : JsMap String Entry) → length (update promise f m) ≡ length m
  unfolding update
  length-update [] = refl
  length-update (p ∷ m) = ap suc (length-update m)

  pub update-IsValid :
      (c : RetryCache) → IsValid c → IsValid (record c { entries = update promise f c.entries })
  update-IsValid c v = record {
    unique = update-IsMap c.entries v.unique;
    bounded = omega (arith, length-update c.entries, v.bounded);
    room = v.room;
  }

-- An update that keeps the promises, and changes the pins as the outstanding pins change.
module _ (promise : ℕ) (f : Entry → Entry) (c : RetryCache) (ps qs : List Pin) where
  pub update-Counted :
      ((e : Entry) → (f e).promise ≡ e.promise)
      → ((e : Entry)
          → e.pins ≡ outstanding e.promise ps
          → (changed promise f e).pins ≡ outstanding e.promise qs)
      → IsIssued c.next qs
      → Counted c ps
      → Counted (record c { entries = update promise f c.entries }) qs
  update-Counted keeps counts issued h = record {
    fresh = λ k d g.
        let (e, at, same) = get-update-some promise f k c.entries d g in
        ground (arith, h.fresh k e at, keeps e);
    issued = issued;
    counted = λ k d g.
        let (e, at, same) = get-update-some promise f k c.entries d g in
        ground (arith, h.counted k e at, counts e (h.counted k e at), keeps e);
  }

pub settle-Counted :
    (promise now : ℕ) (c : RetryCache) (ps : List Pin)
    → Counted c ps
    → Counted (settle promise now c) ps
unfolding settle
settle-Counted promise now c ps h =
    update-Counted promise (λ e. record e { completed = some now }) c ps ps (λ e. refl)
      (λ e q. ground arith) h.issued h

pub pin_entry-Counted :
    (c : RetryCache) (ps : List Pin) (found : Option Entry)
    → ((e : Entry) → found ≡ some e → e.promise < c.next)
    → Counted c ps
    → Counted (pin_entry c found).0 ((pin_entry c found).1 ∷ ps)
unfolding pin_entry
pin_entry-Counted c ps none at h = record {
  fresh = h.fresh;
  issued = (λ o e. absurd (ground arith), h.issued);
  counted = h.counted;
}
pin_entry-Counted c ps (some e) at h =
    update-Counted e.promise bump c ps _ (λ d. refl) (λ d q. ground arith)
      (λ o q. ground (arith, at e refl), h.issued) h
