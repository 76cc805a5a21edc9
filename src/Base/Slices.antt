-- ===== src/Base/Slices.antt =====
-- Parts of a list between two positions.
use Prim.Native.Nat.{ℕ, zero, suc, ◌+◌, ◌-◌, ◌≤◌, ◌<◌}
use mathlib.Core.Path.{◌≡◌, refl, ap, sym, ◌∙◌}
use mathlib.Core.List.{List, [], ◌∷◌, ◌++◌}
use native.Mathlib.Omega.{arith}
use mcp_dev_runtime.Base.Lists.{length, take, drop, get_elem?, get_or, length-take, length-drop}

module _ {ℓ} {A : Type ℓ} where
  -- buffer.subarray(from, to) and array.slice(from, to), for from ≤ to.
  abbrev pub slice : ℕ → ℕ → List A → List A
  slice from to xs = take (to - from) (drop from xs)

  pub drop-nil : (n : ℕ) → drop {A = A} n [] ≡ []
  drop-nil zero = refl
  drop-nil (suc n) = refl

  pub take-nil : (n : ℕ) → take {A = A} n [] ≡ []
  take-nil zero = refl
  take-nil (suc n) = refl

  pub drop-drop : (m n : ℕ) (xs : List A) → drop m (drop n xs) ≡ drop (n + m) xs
  drop-drop m zero xs = ap (λ k. drop k xs) (omega arith)
  drop-drop m (suc n) [] = ground (arith, drop-nil m, drop-nil (suc n + m))
  drop-drop m (suc n) (x ∷ xs) =
      drop-drop m n xs ∙ ap (λ k. drop k (x ∷ xs)) {x = suc (n + m)} (omega arith)

  pub drop_all : (n : ℕ) (xs : List A) → length xs ≤ n → drop n xs ≡ []
  drop_all zero [] h = refl
  drop_all zero (x ∷ xs) h = absurd (omega arith)
  drop_all (suc n) [] h = refl
  drop_all (suc n) (x ∷ xs) h = drop_all n xs (omega arith)

  pub take_all : (n : ℕ) (xs : List A) → length xs ≤ n → take n xs ≡ xs
  take_all zero [] h = refl
  take_all zero (x ∷ xs) h = absurd (omega arith)
  take_all (suc n) [] h = refl
  take_all (suc n) (x ∷ xs) h = ap (λ l. x ∷ l) (take_all n xs (omega arith))

  pub drop-append_le :
      (n : ℕ) (xs ys : List A) → n ≤ length xs → drop n (xs ++ ys) ≡ drop n xs ++ ys
  drop-append_le zero xs ys h = refl
  drop-append_le (suc n) [] ys h = absurd (omega arith)
  drop-append_le (suc n) (x ∷ xs) ys h = drop-append_le n xs ys (omega arith)

  pub drop-append_length : (xs ys : List A) → drop (length xs) (xs ++ ys) ≡ ys
  drop-append_length [] ys = refl
  drop-append_length (x ∷ xs) ys = drop-append_length xs ys

  pub drop-append_ge :
      (n : ℕ) (xs ys : List A) → length xs ≤ n → drop n (xs ++ ys) ≡ drop (n - length xs) ys
  drop-append_ge n [] ys h = ap (λ k. drop k ys) (omega arith)
  drop-append_ge zero (x ∷ xs) ys h = absurd (omega arith)
  drop-append_ge (suc n) (x ∷ xs) ys h =
      drop-append_ge n xs ys (omega arith) ∙ ap (λ k. drop k ys) (omega arith)

  pub take-append_le : (n : ℕ) (xs ys : List A) → n ≤ length xs → take n (xs ++ ys) ≡ take n xs
  take-append_le zero xs ys h = refl
  take-append_le (suc n) [] ys h = absurd (omega arith)
  take-append_le (suc n) (x ∷ xs) ys h = ap (λ l. x ∷ l) (take-append_le n xs ys (omega arith))

  pub take-append_ge :
      (n : ℕ) (xs ys : List A) → length xs ≤ n → take n (xs ++ ys) ≡ xs ++ take (n - length xs) ys
  take-append_ge n [] ys h = ap (λ k. take k ys) (omega arith)
  take-append_ge zero (x ∷ xs) ys h = absurd (omega arith)
  take-append_ge (suc n) (x ∷ xs) ys h =
      ap (λ l. x ∷ l)
        (take-append_ge n xs ys (omega arith) ∙ ap (λ k. xs ++ take k ys) (omega arith))

  pub take-add : (m n : ℕ) (xs : List A) → take (m + n) xs ≡ take m xs ++ take n (drop m xs)
  take-add zero n xs = ap (λ k. take k xs) (omega arith)
  take-add (suc m) n [] = ground (arith, take-nil n, take-nil (suc m + n))
  take-add (suc m) n (x ∷ xs) =
      ap (λ k. take k (x ∷ xs)) {y = suc (m + n)} (omega arith) ∙ ap (λ l. x ∷ l) (take-add m n xs)

  -- Two neighbouring slices make one.
  pub slice-append :
      (a b c : ℕ) (xs : List A) → a ≤ b → b ≤ c → slice a b xs ++ slice b c xs ≡ slice a c xs
  slice-append a b c xs h k = sym (
      ap (λ n. take n (drop a xs)) {y = (b - a) + (c - b)} (omega arith)
      ∙ take-add (b - a) (c - b) (drop a xs)
      ∙ ap (λ l. slice a b xs ++ take (c - b) l)
          (drop-drop (b - a) a xs ∙ ap (λ n. drop n xs) (omega arith)))

  pub get_elem?-drop : (n i : ℕ) (xs : List A) → get_elem? (drop n xs) i ≡ get_elem? xs (n + i)
  get_elem?-drop zero i xs = ap (get_elem? xs) (omega arith)
  get_elem?-drop (suc n) i [] = refl
  get_elem?-drop (suc n) i (x ∷ xs) =
      get_elem?-drop n i xs ∙ ap (get_elem? (x ∷ xs)) {x = suc (n + i)} (omega arith)

  pub get_or-drop : (n i : ℕ) (d : A) (xs : List A) → get_or (drop n xs) i d ≡ get_or xs (n + i) d
  get_or-drop zero i d xs = ap (λ k. get_or xs k d) (omega arith)
  get_or-drop (suc n) i d [] = refl
  get_or-drop (suc n) i d (x ∷ xs) =
      get_or-drop n i d xs ∙ ap (λ k. get_or (x ∷ xs) k d) {x = suc (n + i)} (omega arith)

  pub get_or-append_lt :
      (i : ℕ) (d : A) (xs ys : List A) → i < length xs → get_or (xs ++ ys) i d ≡ get_or xs i d
  get_or-append_lt i d [] ys h = absurd (omega arith)
  get_or-append_lt zero d (x ∷ xs) ys h = refl
  get_or-append_lt (suc i) d (x ∷ xs) ys h = get_or-append_lt i d xs ys (omega arith)

  pub get_or-append_ge :
      (i : ℕ) (d : A) (xs ys : List A)
      → length xs ≤ i
      → get_or (xs ++ ys) i d ≡ get_or ys (i - length xs) d
  get_or-append_ge i d [] ys h = ap (λ k. get_or ys k d) (omega arith)
  get_or-append_ge zero d (x ∷ xs) ys h = absurd (omega arith)
  get_or-append_ge (suc i) d (x ∷ xs) ys h =
      get_or-append_ge i d xs ys (omega arith) ∙ ap (λ k. get_or ys k d) (omega arith)

  pub length-slice : (a b : ℕ) (xs : List A) → a ≤ b → b ≤ length xs → length (slice a b xs) ≡ b - a
  length-slice a b xs h k = omega (arith, length-take (b - a) (drop a xs), length-drop a xs)

  pub slice_eq : (xs : List A) {a a' b b' : ℕ} → a ≡ a' → b ≡ b' → slice a b xs ≡ slice a' b' xs
  slice_eq xs p q = λ i. slice (p i) (q i) xs

  pub slice_empty : (a b : ℕ) (xs : List A) → b ≤ a → slice a b xs ≡ []
  slice_empty a b xs h = ap (λ k. take k (drop a xs)) {y = 0} (omega arith)

  pub slice-nil : (a b : ℕ) → slice a b [] ≡ []
  slice-nil a b = ap (take (b - a)) (drop-nil a) ∙ take-nil (b - a)

  pub slice-append_left :
      (a b : ℕ) (xs ys : List A) → a ≤ b → b ≤ length xs → slice a b (xs ++ ys) ≡ slice a b xs
  slice-append_left a b xs ys h k =
      ap (take (b - a)) (drop-append_le a xs ys (omega arith))
      ∙ take-append_le (b - a) (drop a xs) ys (omega (arith, length-drop a xs))

  pub slice-append_right :
      (a b : ℕ) (xs ys : List A)
      → length xs ≤ a
      → slice a b (xs ++ ys) ≡ slice (a - length xs) (b - length xs) ys
  slice-append_right a b xs ys h =
      ap (take (b - a)) (drop-append_ge a xs ys h)
      ∙ ap (λ k. take k (drop (a - length xs) ys)) (omega arith)

  pub slice-append_both :
      (a b : ℕ) (xs ys : List A)
      → a ≤ length xs
      → length xs ≤ b
      → slice a b (xs ++ ys) ≡ slice a (length xs) xs ++ slice 0 (b - length xs) ys
  slice-append_both a b xs ys h k =
      ap (take (b - a)) (drop-append_le a xs ys h)
      ∙ take-append_ge (b - a) (drop a xs) ys (omega (arith, length-drop a xs))
      ∙ ap (λ l. l ++ take (b - a - length (drop a xs)) ys)
          (sym (take_all (length xs - a) (drop a xs) (omega (arith, length-drop a xs))))
      ∙ ap (λ n. slice a (length xs) xs ++ take n ys) (omega (arith, length-drop a xs))

  pub slice-drop :
      (n a b : ℕ) (xs : List A) → n ≤ a → a ≤ b → slice (a - n) (b - n) (drop n xs) ≡ slice a b xs
  slice-drop n a b xs h k =
      ap (take (b - n - (a - n))) (drop-drop (a - n) n xs)
      ∙ ap (λ m. take (b - n - (a - n)) (drop m xs)) (omega arith)
      ∙ ap (λ m. take m (drop a xs)) (omega arith)

  pub take-take : (m n : ℕ) (xs : List A) → m ≤ n → take m (take n xs) ≡ take m xs
  take-take zero n xs h = refl
  take-take (suc m) zero xs h = absurd (omega arith)
  take-take (suc m) (suc n) [] h = refl
  take-take (suc m) (suc n) (x ∷ xs) h = ap (λ l. x ∷ l) (take-take m n xs (omega arith))

  pub drop-take : (m n : ℕ) (xs : List A) → drop m (take n xs) ≡ slice m n xs
  drop-take zero n xs = ap (λ k. take k xs) (omega arith)
  drop-take (suc m) zero xs = sym (slice_empty (suc m) 0 xs (omega arith))
  drop-take (suc m) (suc n) [] = sym (take-nil (suc n - suc m))
  drop-take (suc m) (suc n) (x ∷ xs) = drop-take m n xs ∙ ap (λ k. take k (drop m xs)) (omega arith)
