-- ===== src/Runtime/HistoryStore/Validity/Rooms.antt =====
-- makeRoom of src/runtime/history-store.ts keeps the invariant.
use mcp_dev_runtime.Base.{
  ℕ, ◌+◌, ◌≤◌, Bool, true, false, ◌||◌, Option, some, ◌≡◌, inl, inr, refl, length, String,
  and-eq_true, leb→le, ite_cases,
}
use mcp_dev_runtime.Base.JsMap.{string_discrete, get}
use mcp_dev_runtime.Runtime.Errors.{ok}
use mcp_dev_runtime.Runtime.HistoryStore.{
  Entry, Limits, HistoryStore, fits, make_room, is_protected, has,
}
use mcp_dev_runtime.Runtime.HistoryStore.Capacity.{HasRoom, make_room-HasRoom}
use mcp_dev_runtime.Runtime.HistoryStore.Validity.{IsValid, reduced-IsValid}

module _ (limits : Limits) (unlinked : String → Bool) (bytes records held : ℕ)
    (protect : Option String) (s : HistoryStore) (v : IsValid limits held s) where
  has_room :
      HasRoom limits unlinked bytes records protect s
        (make_room limits unlinked bytes records protect s)
  has_room = make_room-HasRoom limits unlinked bytes records protect s v.sound

  pub make_room-IsValid : IsValid limits held (make_room limits unlinked bytes records protect s).0
  make_room-IsValid =
      reduced-IsValid limits protect held s (make_room limits unlinked bytes records protect s).0 v
        has_room.0

  pub make_room-fits :
      (make_room limits unlinked bytes records protect s).1 ≡ ok tt
      → ((make_room limits unlinked bytes records protect s).0.bytes + bytes
          ≤ limits.max_total_bytes)
        × (length (make_room limits unlinked bytes records protect s).0.entries + records
            ≤ limits.max_records)
  unfolding fits
  make_room-fits made = elim has_room.1 [
    | inl (_, fit) ↦ let (a, b) = and-eq_true _ _ fit in (leb→le _ _ a, leb→le _ _ b)
    | inr (not_made, _) ↦ absurd (not_made made)
  ]

module _ (limits : Limits) (unlinked : String → Bool) (bytes records held : ℕ) (id : String)
    (s : HistoryStore) (v : IsValid limits held s) where
  protected_self : (b : Bool) → (is_protected (some id) id || b) ≡ true
  unfolding is_protected
  protected_self b =
      ite_cases (λ p. (p || b) ≡ true) (string_discrete id id) true false (λ _. refl)
        (λ n. absurd (n refl))

  -- The protected archive is still there.
  pub make_room-kept :
      (e : Entry)
      → get string_discrete id s.entries ≡ some e
      → get string_discrete id (make_room limits unlinked bytes records (some id) s).0.entries
        ≡ some e
  make_room-kept e g =
      (make_room-HasRoom limits unlinked bytes records (some id) s v.sound).0.kept id e g
        (protected_self (has id s.active))
