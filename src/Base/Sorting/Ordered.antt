-- ===== src/Base/Sorting/Ordered.antt =====
-- Lists that are sorted by a comparison, and what keeping some of their values does to them.
use mathlib.Core.Path.{◌≡◌, refl}
use mathlib.Core.Bool.{Bool, true, false, ◌&&◌}
use mathlib.Core.List.{List, [], ◌∷◌}
use mathlib.Core.Logic.{inl, inr}
use native.Mathlib.Omega.{arith}
use mcp_dev_runtime.Base.Tests.{if◌then◌else◌, if_cases, Bool-cases}
use mcp_dev_runtime.Base.Lists.{keep}
use mcp_dev_runtime.Base.Sorting.{insert_by, sort_by, All, Pairwise, All-insert_by, All-keep}

module _ {A : Type 0} where
  pub keep-keep : (p q : A → Bool) (xs : List A) → keep q (keep p xs) ≡ keep (λ x. p x && q x) xs
  keep-keep p q [] = refl
  keep-keep p q (x ∷ xs) = ground (arith, keep-keep p q xs)

  pub keep-ext : (p q : A → Bool) → ((x : A) → p x ≡ q x) → (xs : List A) → keep p xs ≡ keep q xs
  keep-ext p q same [] = refl
  keep-ext p q same (x ∷ xs) = ground (arith, same x, keep-ext p q same xs)

  All-map : {P Q : A → Type 0} → ((a : A) → P a → Q a) → (xs : List A) → All P xs → All Q xs
  All-map f [] h = tt
  All-map f (x ∷ xs) h = (f x h.0, All-map f xs h.1)

module _ {A : Type 0} (before : A → A → Bool)
    (trans : (a b c : A) → before a b ≡ true → before b c ≡ true → before a c ≡ true)
    (total : (a b : A) → before a b ≡ false → before b a ≡ true) where
  abbrev Stands : A → A → Type 0
  Stands a b = before a b ≡ true

  insert_by-Pairwise :
      (x : A) (ys : List A) → Pairwise Stands ys → Pairwise Stands (insert_by before x ys)
  unfolding insert_by
  insert_by-Pairwise x [] s = (tt, tt)
  insert_by-Pairwise x (y ∷ ys) s =
      if_cases (Pairwise Stands) (before x y) (x ∷ y ∷ ys) (y ∷ insert_by before x ys)
        (λ e. ((e, All-map (λ z h. trans x y z e h) ys s.0), s))
        (λ e. (All-insert_by (Stands y) before x ys (total x y e) s.0, insert_by-Pairwise x ys s.1))

  pub sort_by-Pairwise : (xs : List A) → Pairwise Stands (sort_by before xs)
  unfolding sort_by
  sort_by-Pairwise [] = tt
  sort_by-Pairwise (x ∷ xs) = insert_by-Pairwise x (sort_by before xs) (sort_by-Pairwise xs)

  insert_by-front : (x : A) (ys : List A) → All (Stands x) ys → insert_by before x ys ≡ x ∷ ys
  unfolding insert_by
  insert_by-front x [] h = refl
  insert_by-front x (y ∷ ys) h = rw h.0 refl

  keep-insert_by :
      (q : A → Bool) (x : A) (ys : List A)
      → Pairwise Stands ys
      → keep q (insert_by before x ys) ≡ (if q x then insert_by before x (keep q ys) else keep q ys)
  unfolding insert_by
  keep-insert_by q x [] s = refl
  keep-insert_by q x (y ∷ ys) s = elim (Bool-cases (before x y)) [
    | inl e ↦ rw e (
        ground (
          arith,
          insert_by-front x (keep q (y ∷ ys))
              (All-keep (Stands x) q (y ∷ ys) (e, All-map (λ z h. trans x y z e h) ys s.0)),
        ))
    | inr e ↦ ground (arith, e, keep-insert_by q x ys s.1)
  ]

  -- It does not matter whether one sorts first.
  pub keep-sort_by :
      (q : A → Bool) (xs : List A) → keep q (sort_by before xs) ≡ sort_by before (keep q xs)
  unfolding sort_by
  keep-sort_by q [] = refl
  keep-sort_by q (x ∷ xs) =
      ground
        (arith, keep-insert_by q x (sort_by before xs) (sort_by-Pairwise xs), keep-sort_by q xs)
