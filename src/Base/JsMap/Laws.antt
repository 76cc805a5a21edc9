-- ===== src/Base/JsMap/Laws.antt =====
-- The laws of `get`, `set` and `delete`.
use Prim.Native.Nat.{suc, ◌≤◌}
use mathlib.Core.Path.{◌≡◌, refl}
use mathlib.Core.Logic.{ite}
use mathlib.Core.List.{[], ◌∷◌, ◌++◌}
use mathlib.Core.Option.{none, some}
use native.Mathlib.Omega.{arith}
use mcp_dev_runtime.Base.Lists.{length}
use mcp_dev_runtime.Base.JsMap.{JsMap, get, delete, set, IsMap}

module _ {ℓ} {K V : Type ℓ} (dec : Discrete K) where
  pub get-set :
      (j k : K) (v : V) (m : JsMap K V)
      → get dec j (set dec k v m) ≡ ite (dec k j) (some v) (get dec j m)
  unfolding get set
  get-set j k v [] = refl
  get-set j k v ((i, w) ∷ m) = ground (arith, get-set j k v m)

  pub get-delete :
      (j k : K) (m : JsMap K V)
      → IsMap dec m
      → get dec j (delete dec k m) ≡ ite (dec k j) none (get dec j m)
  unfolding get delete
  get-delete j k [] u = ground arith
  get-delete j k ((i, w) ∷ m) u = ground (arith, get-delete j k m u.1, u.0)

  pub set-IsMap : (k : K) (v : V) (m : JsMap K V) → IsMap dec m → IsMap dec (set dec k v m)
  unfolding get set
  set-IsMap k v [] u = (refl, tt)
  set-IsMap k v ((i, w) ∷ m) u = ground (arith, set-IsMap k v m u.1, get-set i k v m)

  pub delete-IsMap : (k : K) (m : JsMap K V) → IsMap dec m → IsMap dec (delete dec k m)
  unfolding get delete
  delete-IsMap k [] u = tt
  delete-IsMap k ((i, w) ∷ m) u = ground (arith, delete-IsMap k m u.1, get-delete i k m u.1)

  pub set_new :
      (k : K) (v : V) (m : JsMap K V) → get dec k m ≡ none → set dec k v m ≡ m ++ (k, v) ∷ []
  unfolding get set
  set_new k v [] h = refl
  set_new k v ((i, w) ∷ m) h = ground (arith, set_new k v m)

  pub length-set_new :
      (k : K) (v : V) (m : JsMap K V) → get dec k m ≡ none → length (set dec k v m) ≡ suc (length m)
  unfolding get set
  length-set_new k v [] h = refl
  length-set_new k v ((i, w) ∷ m) h = ground (arith, length-set_new k v m)

  pub length-set_old :
      (k : K) (v w : V) (m : JsMap K V) → get dec k m ≡ some w → length (set dec k v m) ≡ length m
  unfolding get set
  length-set_old k v w [] h = absurd (ground arith)
  length-set_old k v w ((i, x) ∷ m) h = ground (arith, length-set_old k v w m)

  pub length-delete :
      (k : K) (v : V) (m : JsMap K V)
      → get dec k m ≡ some v
      → suc (length (delete dec k m)) ≡ length m
  unfolding get delete
  length-delete k v [] h = absurd (ground arith)
  length-delete k v ((i, x) ∷ m) h = ground (arith, length-delete k v m)

  pub length-delete-le : (k : K) (m : JsMap K V) → length (delete dec k m) ≤ length m
  unfolding delete
  length-delete-le k [] = omega arith
  length-delete-le k ((i, x) ∷ m) = ground (arith, length-delete-le k m)

  pub delete-none : (k : K) (m : JsMap K V) → get dec k m ≡ none → delete dec k m ≡ m
  unfolding get delete
  delete-none k [] h = refl
  delete-none k ((i, x) ∷ m) h = ground (arith, delete-none k m)
