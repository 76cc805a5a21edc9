-- ===== src/Base/Choices.antt =====
-- A property of a choice that waits for its test, from the property of each case.
use mathlib.Core.Path.{◌≡◌, refl}
use mathlib.Core.Bool.{Bool, true, false}
use mathlib.Core.Option.{Option, none, some}
use mathlib.Core.List.{List, [], ◌∷◌}

module _ {A : Type 0} (P : A → Type 0) where
  pub choose_cases :
      (b : Bool) {x y : A}
      → (b ≡ true → P x)
      → (b ≡ false → P y)
      → P (elim b [ true ↦ x | false ↦ y ])
  choose_cases true f g = f refl
  choose_cases false f g = g refl

  pub option_cases :
      {B : Type 0} (o : Option B) {x : A} {y : B → A}
      → (o ≡ none → P x)
      → ((b : B) → o ≡ some b → P (y b))
      → P (elim o [ none ↦ x | some b ↦ y b ])
  option_cases none f g = f refl
  option_cases (some b) f g = g b refl

  pub list_cases :
      {B : Type 0} (l : List B) {x : A} {y : B → List B → A}
      → (l ≡ [] → P x)
      → ((b : B) (bs : List B) → l ≡ b ∷ bs → P (y b bs))
      → P (elim l [ [] ↦ x | b ∷ bs ↦ y b bs ])
  list_cases [] f g = f refl
  list_cases (b ∷ bs) f g = g b bs refl
