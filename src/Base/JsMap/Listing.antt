-- ===== src/Base/JsMap/Listing.antt =====
-- The values of a map whose values hold their keys.
use Prim.Native.Nat.{ℕ, ◌+◌, ◌≤◌}
use mathlib.Core.Path.{subst, ◌≡◌, refl, sym, ◌∙◌}
use mathlib.Core.Logic.{◌≢◌}
use mathlib.Core.Bool.{Bool, false}
use mathlib.Core.List.{List, [], ◌∷◌}
use mathlib.Core.Option.{none, some, some-injective}
use native.Mathlib.Omega.{arith}
use mcp_dev_runtime.Base.Tests.{if◌then◌else◌, ite_cases}
use mcp_dev_runtime.Base.Lists.{keep, length}
use mcp_dev_runtime.Base.JsMap.{JsMap, values, get, set, delete, IsMap}
use mcp_dev_runtime.Base.JsMap.Laws.{get-set, get-delete}
use mcp_dev_runtime.Base.JsMap.Totals.{total}
use mcp_dev_runtime.Base.Sorting.{All, Pairwise, insert_by, sort_by}

module _ {A : Type 0} (weight : A → ℕ) where
  abbrev pub sum_of : List A → ℕ
  sum_of [] = 0
  sum_of (x ∷ xs) = weight x + sum_of xs

  sum_of-insert_by :
      (before : A → A → Bool) (x : A) (xs : List A)
      → sum_of (insert_by before x xs) ≡ weight x + sum_of xs
  unfolding insert_by
  sum_of-insert_by before x [] = refl
  sum_of-insert_by before x (y ∷ ys) = ground (arith, sum_of-insert_by before x ys)

  pub sum_of-sort_by :
      (before : A → A → Bool) (xs : List A) → sum_of (sort_by before xs) ≡ sum_of xs
  unfolding sort_by
  sum_of-sort_by before [] = refl
  sum_of-sort_by before (x ∷ xs) =
      omega (arith, sum_of-insert_by before x (sort_by before xs), sum_of-sort_by before xs)

module _ {K V : Type 0} where
  pub total_values : (weight : V → ℕ) (m : JsMap K V) → total weight m ≡ sum_of weight (values m)
  total_values weight [] = refl
  total_values weight ((k, v) ∷ m) = omega (arith, total_values weight m)

  pub length-keep_total :
      (p : V → Bool) (m : JsMap K V)
      → length (keep p (values m)) ≡ total (λ v. if p v then 1 else 0) m
  length-keep_total p [] = refl
  length-keep_total p ((k, v) ∷ m) = ground (arith, length-keep_total p m)

module _ {K V : Type 0} (dec : Discrete K) (key : V → K) where
  abbrev pub IsFound : JsMap K V → V → Type 0
  IsFound m v = get dec (key v) m ≡ some v

  abbrev pub AreApart : V → V → Type 0
  AreApart v w = key v ≢ key w

  pub AreApart-sym : (v w : V) → AreApart v w → AreApart w v
  AreApart-sym v w apart = λ e. apart (sym e)

  abbrev pub HaveKeys : JsMap K V → Type 0
  HaveKeys m = (k : K) (v : V) → get dec k m ≡ some v → key v ≡ k

  HaveKeys-tail :
      (k : K) (v : V) (m : JsMap K V) → IsMap dec ((k, v) ∷ m) → HaveKeys ((k, v) ∷ m) → HaveKeys m
  unfolding get
  HaveKeys-tail k v m u h = λ j w g. h j w (ground (arith, u.0))

  head_key : (k : K) (v : V) (m : JsMap K V) → HaveKeys ((k, v) ∷ m) → key v ≡ k
  unfolding get
  head_key k v m h = h k v (ground arith)

  head_found : (k : K) (v : V) (m : JsMap K V) → HaveKeys ((k, v) ∷ m) → IsFound ((k, v) ∷ m) v
  unfolding get
  head_found k v m h = ground (arith, head_key k v m h)

  IsFound-skip :
      (k : K) (v w : V) (m : JsMap K V)
      → get dec k m ≡ none
      → IsFound m w
      → IsFound ((k, v) ∷ m) w × (k ≢ key w)
  unfolding get
  IsFound-skip k v w m free found =
      let differ : k ≢ key w = λ e. ground (arith, e, found, free) in
      (ground (arith, differ), differ)

  All_skip :
      (k : K) (v : V) (m : JsMap K V) (ws : List V)
      → get dec k m ≡ none
      → key v ≡ k
      → All (IsFound m) ws
      → All (IsFound ((k, v) ∷ m)) ws × All (AreApart v) ws
  All_skip k v m [] free e found = (tt, tt)
  All_skip k v m (w ∷ ws) free e found =
      let (p, q) = IsFound-skip k v w m free found.0 in
      let (ps, qs) = All_skip k v m ws free e found.1 in ((p, ps), (λ same. q (sym e ∙ same), qs))

  -- Each value is found by its key, and the keys differ.
  pub values_found :
      (m : JsMap K V)
      → IsMap dec m
      → HaveKeys m
      → All (IsFound m) (values m) × Pairwise AreApart (values m)
  values_found [] u h = (tt, tt)
  values_found ((k, v) ∷ m) u h =
      let (found, apart) = values_found m u.1 (HaveKeys-tail k v m u h) in
      let (later, distinct) = All_skip k v m (values m) u.0 (head_key k v m h) found in
      ((head_found k v m h, later), (distinct, apart))

  pub All-set :
      (v w : V) (m : JsMap K V) (ws : List V)
      → All (AreApart v) ws
      → All (IsFound m) ws
      → All (IsFound (set dec (key v) w m)) ws
  All-set v w m [] apart found = tt
  All-set v w m (x ∷ xs) apart found = (
    ground (arith, get-set dec (key x) (key v) w m, apart.0, found.0),
    All-set v w m xs apart.1 found.1,
  )

  pub All-delete :
      (v : V) (m : JsMap K V) (ws : List V)
      → IsMap dec m
      → All (AreApart v) ws
      → All (IsFound m) ws
      → All (IsFound (delete dec (key v) m)) ws
  All-delete v m [] u apart found = tt
  All-delete v m (x ∷ xs) u apart found = (
    ground (arith, get-delete dec (key x) (key v) m u, apart.0, found.0),
    All-delete v m xs u apart.1 found.1,
  )

module _ {K V : Type 0} (dec : Discrete K) (P : K → V → Type 0) where
  abbrev pub Each : JsMap K V → Type 0
  Each m = (k : K) (v : V) → get dec k m ≡ some v → P k v

  pub Each-set : (j : K) (w : V) (m : JsMap K V) → P j w → Each m → Each (set dec j w m)
  Each-set j w m p each = λ k v g.
      (ite_cases (λ o. o ≡ some v → P k v) (dec j k) (some w) (get dec k m)
          (λ same q. subst (P k) (some-injective w v q) (subst (λ i. P i w) same p))
          (λ other q. each k v q))
        (sym (get-set dec k j w m) ∙ g)

  pub Each-delete : (j : K) (m : JsMap K V) → IsMap dec m → Each m → Each (delete dec j m)
  Each-delete j m u each = λ k v g.
      (ite_cases (λ o. o ≡ some v → P k v) (dec j k) none (get dec k m)
          (λ same q. absurd (ground (arith, q))) (λ other q. each k v q))
        (sym (get-delete dec k j m u) ∙ g)

pub sum_of-keep :
    {A : Type 0} (weight : A → ℕ) (p : A → Bool)
    → ((x : A) → p x ≡ false → weight x ≡ 0)
    → (xs : List A) → sum_of weight (keep p xs) ≡ sum_of weight xs
sum_of-keep weight p none_of [] = refl
sum_of-keep weight p none_of (x ∷ xs) = ground (arith, none_of x, sum_of-keep weight p none_of xs)

sum_of_ones : {A : Type 0} (xs : List A) → sum_of (λ _. 1) xs ≡ length xs
sum_of_ones [] = refl
sum_of_ones (x ∷ xs) = omega (arith, sum_of_ones xs)

-- Sorting keeps the number of values.
pub length-sort_by :
    {A : Type 0} (before : A → A → Bool) (xs : List A) → length (sort_by before xs) ≡ length xs
length-sort_by before xs =
    omega
      (arith, sum_of_ones (sort_by before xs), sum_of_ones xs, sum_of-sort_by (λ _. 1) before xs)

pub length-keep-values :
    {K V : Type 0} (p : V → Bool) (m : JsMap K V) → length (keep p (values m)) ≤ length m
length-keep-values p [] = omega arith
length-keep-values p ((k, v) ∷ m) = ground (arith, length-keep-values p m)
