-- ===== src/Base/JsMap.antt =====
-- A JavaScript `Map` as the list of its entries in insertion order.
pub mod Laws
pub mod Keep
pub mod Totals
pub mod Listing
use Prim.Native.String.{String}
use text.Mathlib.Text.{◌==◌}
use text.Mathlib.TextEquality.{eq_iff}
use mathlib.Core.Path.{◌≡◌, ◌∙◌, sym}
use mathlib.Core.Logic.{◌⊎◌, inl, inr, ite}
use mathlib.Core.Bool.{true, false, false≢true}
use mathlib.Core.List.{List, [], ◌∷◌}
use mathlib.Core.Option.{Option, none, some}
use mcp_dev_runtime.Base.Tests.{Bool-cases}

string_discrete_by : (s t : String) → ((s == t) ≡ true) ⊎ ((s == t) ≡ false) → Dec (s ≡ t)
string_discrete_by s t (inl same) = yes ((eq_iff s t).0 same)
string_discrete_by s t (inr differ) = no (λ e. false≢true (sym differ ∙ (eq_iff s t).1 e))

-- `===` on texts.
unfoldable pub string_discrete : Discrete String
unfolding string_discrete_by Bool-cases
string_discrete s t = string_discrete_by s t (Bool-cases (s == t))

abbrev pub JsMap {ℓ} : Type ℓ → Type ℓ → Type ℓ
JsMap K V = List (K × V)

module _ {ℓ} {K V : Type ℓ} where
  abbrev pub values : JsMap K V → List V
  values [] = []
  values ((k, v) ∷ m) = v ∷ values m

  abbrev pub keys : JsMap K V → List K
  keys [] = []
  keys ((k, v) ∷ m) = k ∷ keys m

module _ {ℓ} {K V : Type ℓ} (dec : Discrete K) where
  -- map.get(k)
  unfoldable pub get : K → JsMap K V → Option V
  get k [] = none
  get k ((j, v) ∷ m) = ite (dec j k) (some v) (get k m)

  -- map.delete(k)
  unfoldable pub delete : K → JsMap K V → JsMap K V
  delete k [] = []
  delete k ((j, v) ∷ m) = ite (dec j k) m ((j, v) ∷ delete k m)

  -- map.set(k, v): an entry that is there keeps its place, a new one goes to the end.
  unfoldable pub set : K → V → JsMap K V → JsMap K V
  set k v [] = (k, v) ∷ []
  set k v ((j, w) ∷ m) = ite (dec j k) ((j, v) ∷ m) ((j, w) ∷ set k v m)

  -- No key stands twice.
  abbrev pub IsMap : JsMap K V → Type ℓ
  IsMap [] = Unit
  IsMap ((k, v) ∷ m) = (get k m ≡ none) × IsMap m
