-- ===== src/Base/Sorting.antt =====
-- Array.prototype.sort with a comparison, which is stable, and what sorting keeps.
pub mod Ordered
use mathlib.Core.Bool.{Bool}
use mathlib.Core.List.{List, [], ◌∷◌}
use mcp_dev_runtime.Base.Tests.{if◌then◌else◌, if_cases}
use mcp_dev_runtime.Base.Lists.{keep}

module _ {ℓ} {A : Type ℓ} where
  -- Whether a value stands before another, or beside it.
  unfoldable pub insert_by : (A → A → Bool) → A → List A → List A
  insert_by before x [] = x ∷ []
  insert_by before x (y ∷ ys) =
      let rest = insert_by before x ys in if before x y then x ∷ y ∷ ys else y ∷ rest

  unfoldable pub sort_by : (A → A → Bool) → List A → List A
  sort_by before [] = []
  sort_by before (x ∷ xs) = insert_by before x (sort_by before xs)

module _ {ℓ κ} {A : Type ℓ} where
  abbrev pub All : (A → Type κ) → List A → Type κ
  All P [] = Unit
  All P (x ∷ xs) = P x × All P xs

  -- A relation holds between each value and those behind it.
  abbrev pub Pairwise : (A → A → Type κ) → List A → Type κ
  Pairwise R [] = Unit
  Pairwise R (x ∷ xs) = All (R x) xs × Pairwise R xs

  pub All-insert_by :
      (P : A → Type κ) (before : A → A → Bool) (x : A) (xs : List A)
      → P x
      → All P xs
      → All P (insert_by before x xs)
  unfolding insert_by
  All-insert_by P before x [] p q = (p, tt)
  All-insert_by P before x (y ∷ ys) p q =
      if_cases (All P) (before x y) (x ∷ y ∷ ys) (y ∷ insert_by before x ys) (λ _. (p, q))
        (λ _. (q.0, All-insert_by P before x ys p q.1))

  pub All-sort_by :
      (P : A → Type κ) (before : A → A → Bool) (xs : List A) → All P xs → All P (sort_by before xs)
  unfolding sort_by
  All-sort_by P before [] q = tt
  All-sort_by P before (x ∷ xs) q =
      All-insert_by P before x (sort_by before xs) q.0 (All-sort_by P before xs q.1)

  module _ (R : A → A → Type κ) (symmetric : (a b : A) → R a b → R b a) where
    Pairwise-insert_by :
        (before : A → A → Bool) (x : A) (xs : List A)
        → All (R x) xs
        → Pairwise R xs
        → Pairwise R (insert_by before x xs)
    unfolding insert_by
    Pairwise-insert_by before x [] p q = (tt, tt)
    Pairwise-insert_by before x (y ∷ ys) p q =
        if_cases (Pairwise R) (before x y) (x ∷ y ∷ ys) (y ∷ insert_by before x ys) (λ _. (p, q))
          (λ _. (
            All-insert_by (R y) before x ys (symmetric x y p.0) q.0,
            Pairwise-insert_by before x ys p.1 q.1,
          ))

    pub Pairwise-sort_by :
        (before : A → A → Bool) (xs : List A) → Pairwise R xs → Pairwise R (sort_by before xs)
    unfolding sort_by
    Pairwise-sort_by before [] q = tt
    Pairwise-sort_by before (x ∷ xs) q =
        Pairwise-insert_by before x (sort_by before xs) (All-sort_by (R x) before xs q.0)
          (Pairwise-sort_by before xs q.1)

  pub All-keep : (P : A → Type κ) (p : A → Bool) (xs : List A) → All P xs → All P (keep p xs)
  All-keep P p [] q = tt
  All-keep P p (x ∷ xs) q =
      if_cases (All P) (p x) (x ∷ keep p xs) (keep p xs) (λ _. (q.0, All-keep P p xs q.1))
        (λ _. All-keep P p xs q.1)

  pub Pairwise-keep :
      (R : A → A → Type κ) (p : A → Bool) (xs : List A) → Pairwise R xs → Pairwise R (keep p xs)
  Pairwise-keep R p [] q = tt
  Pairwise-keep R p (x ∷ xs) q =
      if_cases (Pairwise R) (p x) (x ∷ keep p xs) (keep p xs)
        (λ _. (All-keep (R x) p xs q.0, Pairwise-keep R p xs q.1)) (λ _. Pairwise-keep R p xs q.1)
