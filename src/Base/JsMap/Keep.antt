-- ===== src/Base/JsMap/Keep.antt =====
-- Deleting from a map every entry that fails a test, as a loop over the map does.
use mathlib.Core.Path.{◌≡◌, refl}
use mathlib.Core.Bool.{Bool, true}
use mathlib.Core.List.{[], ◌∷◌}
use mathlib.Core.Option.{none, some}
use native.Mathlib.Omega.{arith}
use mcp_dev_runtime.Base.Lists.{keep}
use mcp_dev_runtime.Base.JsMap.{JsMap, get, IsMap}

module _ {K V : Type 0} (dec : Discrete K) (p : K × V → Bool) where
  -- A key that was not there is not there afterwards.
  pub get-keep-none : (k : K) (m : JsMap K V) → get dec k m ≡ none → get dec k (keep p m) ≡ none
  unfolding get
  get-keep-none k [] h = refl
  get-keep-none k ((i, w) ∷ m) h = ground (arith, get-keep-none k m)

  pub keep-IsMap : (m : JsMap K V) → IsMap dec m → IsMap dec (keep p m)
  unfolding get
  keep-IsMap [] u = tt
  keep-IsMap ((i, w) ∷ m) u = ground (arith, keep-IsMap m u.1, get-keep-none i m u.0)

  -- An entry that passes the test stays.
  pub get-keep-some :
      (k : K) (v : V) (m : JsMap K V)
      → get dec k m ≡ some v
      → p (k, v) ≡ true
      → get dec k (keep p m) ≡ some v
  unfolding get
  get-keep-some k v [] h q = absurd (ground arith)
  get-keep-some k v ((i, w) ∷ m) h q = ground (arith, get-keep-some k v m)

  -- What is there afterwards was there, and passes the test.
  pub get-keep_inv :
      (k : K) (v : V) (m : JsMap K V)
      → IsMap dec m
      → get dec k (keep p m) ≡ some v
      → (get dec k m ≡ some v) × (p (k, v) ≡ true)
  unfolding get
  get-keep_inv k v [] u h = absurd (ground arith)
  get-keep_inv k v ((i, w) ∷ m) u h = ground (arith, get-keep_inv k v m u.1, get-keep-none i m u.0)
