-- ===== src/Base/JsMap/Totals.antt =====
-- The sum of a number over the entries of a map.
use Prim.Native.Nat.{ℕ, ◌+◌, ◌≤◌}
use mathlib.Core.Path.{◌≡◌}
use mathlib.Core.List.{[], ◌∷◌}
use mathlib.Core.Option.{none, some}
use native.Mathlib.Omega.{arith}
use mcp_dev_runtime.Base.JsMap.{JsMap, get, set, delete}

module _ {ℓ} {K V : Type ℓ} (weight : V → ℕ) where
  abbrev pub total : JsMap K V → ℕ
  total [] = 0
  total ((k, v) ∷ m) = weight v + total m

  module _ (dec : Discrete K) where
    pub total-delete :
        (k : K) (v : V) (m : JsMap K V)
        → get dec k m ≡ some v
        → total (delete dec k m) + weight v ≡ total m
    unfolding get delete
    total-delete k v [] h = absurd (ground arith)
    total-delete k v ((j, w) ∷ m) h = ground (arith, total-delete k v m)

    pub total-set_old :
        (k : K) (v w : V) (m : JsMap K V)
        → get dec k m ≡ some v
        → total (set dec k w m) + weight v ≡ total m + weight w
    unfolding get set
    total-set_old k v w [] h = absurd (ground arith)
    total-set_old k v w ((j, x) ∷ m) h = ground (arith, total-set_old k v w m)

    pub total-set_new :
        (k : K) (w : V) (m : JsMap K V)
        → get dec k m ≡ none
        → total (set dec k w m) ≡ total m + weight w
    unfolding get set
    total-set_new k w [] h = ground arith
    total-set_new k w ((j, x) ∷ m) h = ground (arith, total-set_new k w m)

    pub weight-le-total :
        (k : K) (v : V) (m : JsMap K V) → get dec k m ≡ some v → weight v ≤ total m
    unfolding get
    weight-le-total k v [] h = absurd (ground arith)
    weight-le-total k v ((j, x) ∷ m) h = ground (arith, weight-le-total k v m)
