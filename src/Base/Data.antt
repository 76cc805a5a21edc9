-- ===== src/Base/Data.antt =====
-- JavaScript values that several parts share.
use Prim.Native.Nat.{ℕ, ◌^◌, ◌-◌}
use Prim.Native.Char.{code}
use Prim.Native.String.{String}
use mathlib.Core.List.{List, [], ◌∷◌}

-- A JavaScript number as the code's integer tests see it: a whole number from 0 on, or anything
-- else (negative, fractional, not a number).
pub data Number : Type 0 where
  whole : ℕ → Number
  other : Number

-- Number.MAX_SAFE_INTEGER
abbrev pub max_safe_integer : ℕ
max_safe_integer = 2 ^ 53 - 1

-- The bytes of a buffer, or the code units of a text.
abbrev pub Bytes : Type 0
Bytes = List ℕ

-- The code units of an ASCII literal.
abbrev pub codes : String → Bytes
codes (String.◌∷◌ unit rest) = code unit ∷ codes rest
codes String.[] = []
