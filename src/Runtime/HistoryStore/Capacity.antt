-- ===== src/Runtime/HistoryStore/Capacity.antt =====
-- makeRoom of src/runtime/history-store.ts: what it removes, and what it achieves.
use mcp_dev_runtime.Base.{
  ℕ, leb, Bool, true, ◌||◌, Option, some, List, [], ◌∷◌, ◌≡◌, ◌≢◌, ◌⊎◌, inl, inr, refl, sym, subst,
  arith, Bool-cases, String, if◌then◌else◌, if_cases, ite_cases,
}
use mathlib.Core.Bool.{false≢true}
use mcp_dev_runtime.Base.JsMap.{JsMap, string_discrete, get, keys}
use mcp_dev_runtime.Runtime.Errors.{Result, ok, err, history_capacity}
use mcp_dev_runtime.Runtime.HistoryStore.{
  Entry, Limits, HistoryStore, has, remove, insert, sort, fits, is_protected, room_loop, make_room,
}
use mcp_dev_runtime.Runtime.HistoryStore.Reductions.{
  IsSound, Protected, IsReduced, IsReduced-refl, IsReduced-trans, Removed, remove-Removed,
}

has_either :
    (k id : String) (ids : List String) → has k (id ∷ ids) ≡ true → (id ≡ k) ⊎ (has k ids ≡ true)
unfolding has
has_either k id ids listed =
    ite_cases (λ b. b ≡ true → (id ≡ k) ⊎ (has k ids ≡ true)) (string_discrete id k) true
      (has k ids) (λ same _. inl same) (λ _ later. inr later) listed

-- What making room comes to, by removing some of `ids`: only archives that may be removed are. If it
-- succeeds, what is wanted fits. If not, and every archive could be unlinked, what is left of them is
-- protected.
abbrev Exhausted :
    (String → Bool) → Option String → List String → HistoryStore → HistoryStore → Type 0
Exhausted unlinked protect ids s s' =
    ((id : String) → unlinked id ≡ true)
    → (id : String) (e : Entry) → has id ids ≡ true
    → get string_discrete id s'.entries ≡ some e
    → Protected protect s id

module _ (limits : Limits) (unlinked : String → Bool) (bytes records : ℕ)
    (protect : Option String) where
  abbrev IsRoom : List String → HistoryStore → HistoryStore × Result (Unit {0}) → Type 0
  IsRoom ids s r =
      IsReduced protect s r.0
      × (((r.1 ≡ ok tt) × (fits limits bytes records r.0 ≡ true))
          ⊎ ((r.1 ≢ ok tt) × Exhausted unlinked protect ids s r.0))

  after_removal :
      (id : String) (ids : List String) (s a : HistoryStore) (outcome : Result (Unit {0}))
      (rest : HistoryStore × Result (Unit {0}))
      → Removed unlinked protect id s (a, outcome)
      → (IsSound a → IsRoom ids a rest)
      → IsRoom (id ∷ ids) s (elim outcome [
        | err e ↦ (a, err e)
        | ok _ ↦ if fits limits bytes records a then (a, ok tt) else rest
      ])
  unfolding has
  after_removal id ids s a (err e) rest (reduced, removed) more = (
    reduced,
    inr (λ q. absurd (ground (arith, q)), λ all. absurd (ground (arith, removed, all id))),
  )
  after_removal id ids s a (ok u) rest (reduced, removed) more =
      if_cases (IsRoom (id ∷ ids) s) (fits limits bytes records a) (a, ok tt) rest
        (λ fit. (reduced, inl (refl, fit)))
        (λ _.
          let m = more reduced.sound in
          (
            IsReduced-trans protect s a rest.0 reduced m.0,
            elim m.1 [
              | inl done ↦ inl done
              | inr (failed, left) ↦ inr (
                failed,
                λ all k e listed g. elim (has_either k id ids listed) [
                  | inl same ↦ absurd (
                      ground (
                        arith,
                        removed,
                        all id,
                        subst (λ x. get string_discrete x a.entries ≡ some e) (sym same)
                            (m.0.unchanged k e g),
                      ))
                  | inr later ↦
                      subst (λ l. (is_protected protect k || has k l) ≡ true) reduced.active
                        (left all k e later g)
                ],
              )
            ],
          ))

  room_loop-IsRoom :
      (ids : List String) (s : HistoryStore)
      → IsSound s
      → IsRoom ids s (room_loop limits unlinked bytes records protect ids s)
  unfolding room_loop has
  room_loop-IsRoom [] s sound =
      if_cases (λ r. IsRoom [] s (s, r)) (fits limits bytes records s) (ok tt)
        (err history_capacity) (λ fit. (IsReduced-refl protect s sound, inl (refl, fit)))
        (λ _. (
          IsReduced-refl protect s sound,
          inr (λ q. absurd (ground (arith, q)), λ all k e listed g. absurd (false≢true listed)),
        ))
  room_loop-IsRoom (id ∷ ids) s sound =
      elim (Bool-cases (is_protected protect id || has id s.active)) [
        | inl busy ↦ rw busy (
            let m = room_loop-IsRoom ids s sound in
            (
              m.0,
              elim m.1 [
                | inl done ↦ inl done
                | inr (failed, left) ↦ inr (
                  failed,
                  λ all k e listed g. elim (has_either k id ids listed) [
                    | inl same ↦ subst (Protected protect s) same busy
                    | inr later ↦ left all k e later g
                  ],
                )
              ],
            ))
        | inr free ↦ rw free (
            after_removal id ids s _ _ _ (remove-Removed unlinked protect id s sound free)
              (λ sound'. room_loop-IsRoom ids (remove unlinked id s).0 sound'))
      ]

-- Every archive is on the list that is gone through.
has-insert :
    (k : String) (x : String × Entry) (xs : List (String × Entry))
    → has k (keys (insert x xs)) ≡ has k (x.0 ∷ keys xs)
unfolding insert has
has-insert k x [] = refl
has-insert k x (y ∷ ys) = elim (Bool-cases (leb x.1.archived.seq y.1.archived.seq)) [
  | inl le ↦ rw le refl
  | inr gt ↦ rw gt (ground (arith, has-insert k x ys))
]

get-has-sort :
    (k : String) (e : Entry) (m : JsMap String Entry)
    → get string_discrete k m ≡ some e
    → has k (keys (sort m)) ≡ true
unfolding sort get has
get-has-sort k e [] g = absurd (ground (arith, g))
get-has-sort k e ((j, v) ∷ m) g =
    ground (arith, has-insert k (j, v) (sort m), get-has-sort k e m, g)

-- What making room comes to: if it succeeds, what is wanted fits. If it fails although every archive
-- could be unlinked, all that is left is protected.
abbrev pub HasRoom :
    Limits
    → (String → Bool)
    → ℕ
    → ℕ
    → Option String
    → HistoryStore
    → HistoryStore × Result (Unit {0})
    → Type 0
HasRoom limits unlinked bytes records protect s r =
    IsReduced protect s r.0
    × (((r.1 ≡ ok tt) × (fits limits bytes records r.0 ≡ true))
        ⊎ ((r.1 ≢ ok tt)
            × (((id : String) → unlinked id ≡ true)
                → (id : String) (e : Entry) → get string_discrete id r.0.entries ≡ some e
                → Protected protect s id)))

-- Making room changes nothing but that it removes archives, and none that is active or the one to be
-- protected; the bytes stay those of the archives that are left. If it succeeds, the bytes and records
-- that are wanted fit. If it fails although every archive could be unlinked, all that is left is
-- protected.
pub make_room-HasRoom :
    (limits : Limits) (unlinked : String → Bool) (bytes records : ℕ) (protect : Option String)
    (s : HistoryStore)
    → IsSound s
    → HasRoom limits unlinked bytes records protect s
        (make_room limits unlinked bytes records protect s)
unfolding make_room
make_room-HasRoom limits unlinked bytes records protect s sound =
    if_cases (HasRoom limits unlinked bytes records protect s) (fits limits bytes records s)
      (s, ok tt) _ (λ fit. (IsReduced-refl protect s sound, inl (refl, fit)))
      (λ _.
        let m =
          room_loop-IsRoom limits unlinked bytes records protect (keys (sort s.entries)) s sound in
        (
          m.0,
          elim m.1 [
            | inl done ↦ inl done
            | inr (failed, left) ↦ inr (
              failed,
              λ all id e g. left all id e (get-has-sort id e s.entries (m.0.unchanged id e g)) g,
            )
          ],
        ))
