-- ===== src/Runtime/RetryCache/Pins/Counting.antt =====
-- `run` and `sweep` of src/runtime/retry-cache.ts keep the count of pins.
use mcp_dev_runtime.Base.{
  ℕ, suc, ◌≤◌, String, Option, none, some, List, [], ◌∷◌, leb, length, ◌≡◌, refl, arith,
  Option-cases, inl, inr, ite_cases, if_cases,
}
use mcp_dev_runtime.Base.JsMap.{string_discrete, delete, IsMap}
use mcp_dev_runtime.Base.JsMap.Laws.{get-set, get-delete}
use mcp_dev_runtime.Base.JsMap.Keep.{get-keep_inv}
use mcp_dev_runtime.Runtime.RetryCache.{
  Entry, RetryCache, sweep, first_removable, Outcome, fresh_entry, register, register_full, admit,
  Pin,
}
use mcp_dev_runtime.Runtime.RetryCache.Pins.{outstanding, IsIssued, Counted}

outstanding_none : (next : ℕ) (ps : List Pin) → IsIssued next ps → outstanding next ps ≡ 0
outstanding_none next [] h = refl
outstanding_none next (p ∷ ps) h = elim (Option-cases p.object) [
  | inl e ↦ ground (arith, outstanding_none next ps h.1)
  | inr (o, e) ↦ ground (arith, outstanding_none next ps h.1, h.0 o e)
]

pub IsIssued-mono : (m n : ℕ) (ps : List Pin) → m ≤ n → IsIssued m ps → IsIssued n ps
IsIssued-mono m n [] h i = tt
IsIssued-mono m n (p ∷ ps) h i = (λ o e. let q = i.0 o e in omega arith, IsIssued-mono m n ps h i.1)

pub sweep-Counted :
    (now : ℕ) (c : RetryCache) (ps : List Pin)
    → IsMap string_discrete c.entries
    → Counted c ps
    → Counted (sweep now c) ps
unfolding sweep
sweep-Counted now c ps u h = record {
  fresh = λ k e g. h.fresh k e (get-keep_inv string_discrete _ k e c.entries u g).0;
  issued = h.issued;
  counted = λ k e g. h.counted k e (get-keep_inv string_discrete _ k e c.entries u g).0;
}

register-Counted :
    (id digest : String) (c : RetryCache) (ps : List Pin)
    → Counted c ps
    → Counted (register id digest c).0 ps
unfolding register
register-Counted id digest c ps h = record {
  fresh = λ k e g.
      ground
        (arith, get-set string_discrete k id (fresh_entry digest c.next) c.entries, h.fresh k e);
  issued = IsIssued-mono c.next (suc c.next) ps (omega arith) h.issued;
  counted = λ k e g. ground (
    arith,
    get-set string_discrete k id (fresh_entry digest c.next) c.entries,
    h.counted k e,
    outstanding_none c.next ps h.issued,
  );
}

delete-Counted :
    (key : String) (c : RetryCache) (ps : List Pin)
    → IsMap string_discrete c.entries
    → Counted c ps
    → Counted (record c { entries = delete string_discrete key c.entries }) ps
delete-Counted key c ps u h = record {
  fresh = λ k e g. ground (arith, get-delete string_discrete k key c.entries u, h.fresh k e);
  issued = h.issued;
  counted = λ k e g. ground (arith, get-delete string_discrete k key c.entries u, h.counted k e);
}

register_full-Counted :
    (id digest : String) (c : RetryCache) (ps : List Pin) (key : Option String)
    → IsMap string_discrete c.entries
    → Counted c ps
    → Counted (register_full id digest c key).0 ps
unfolding register_full
register_full-Counted id digest c ps none u h = h
register_full-Counted id digest c ps (some key) u h =
    register-Counted id digest _ ps (delete-Counted key c ps u h)

pub admit-Counted :
    (id digest : String) (c : RetryCache) (ps : List Pin) (found : Option Entry)
    → IsMap string_discrete c.entries
    → Counted c ps
    → Counted (admit id digest c found).0 ps
unfolding admit
admit-Counted id digest c ps (some d) u h =
    ite_cases (λ (r : RetryCache × Outcome). Counted r.0 ps) (string_discrete d.digest digest) _ _
      (λ _. h) (λ _. h)
admit-Counted id digest c ps none u h =
    if_cases (λ (r : RetryCache × Outcome). Counted r.0 ps) (leb c.capacity (length c.entries)) _ _
      (λ _. register_full-Counted id digest c ps (first_removable c.entries) u h)
      (λ _. register-Counted id digest c ps h)
