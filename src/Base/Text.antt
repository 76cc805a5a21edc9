-- ===== src/Base/Text.antt =====
-- JavaScript texts as lists of UTF-16 code units, and the methods of texts that the code calls.
use Prim.Native.Nat.{ℕ}
use mathlib.Core.Path.{◌≡◌, refl}
use mathlib.Core.Bool.{Bool, true, false, ◌&&◌, ◌||◌}
use mathlib.Core.List.{List, [], ◌∷◌, ◌++◌}
use mathlib.Core.Option.{Option, none, some}
use mathlib.Core.Logic.{◌↔◌, ◌≢◌}
use native.Mathlib.Omega.{arith}
use mcp_dev_runtime.Base.Tests.{◌==◌, leb, if◌then◌else◌}

abbrev pub Text : Type 0
Text = List ℕ

-- s === t
unfoldable pub equal : Text → Text → Bool
equal [] [] = true
equal [] (d ∷ t) = false
equal (c ∷ s) [] = false
equal (c ∷ s) (d ∷ t) = c == d && equal s t

-- t.startsWith(s)
unfoldable pub starts_with : Text → Text → Bool
starts_with [] t = true
starts_with (c ∷ s) [] = false
starts_with (c ∷ s) (d ∷ t) = c == d && starts_with s t

-- The part of `t` behind the prefix `s`, if `t` starts with it.
unfoldable pub strip : Text → Text → Option Text
strip [] t = some t
strip (c ∷ s) [] = none
strip (c ∷ s) (d ∷ t) = if c == d then strip s t else none

-- The white space and line terminators that `trim` takes off.
unfoldable pub is_space : ℕ → Bool
is_space c =
    (leb 9 c && leb c 13)
    || c == 32
    || c == 0xa0
    || c == 0x1680
    || (leb 0x2000 c && leb c 0x200a)
    || c == 0x2028
    || c == 0x2029
    || c == 0x202f
    || c == 0x205f
    || c == 0x3000
    || c == 0xfeff

unfoldable pub trim_start : Text → Text
trim_start [] = []
trim_start (c ∷ s) = let rest = trim_start s in if is_space c then rest else c ∷ s

-- A character is kept if it is no space, or if something behind it is kept.
abbrev keep_before : ℕ → Text → Text
keep_before c [] = if is_space c then [] else c ∷ []
keep_before c (d ∷ t) = c ∷ d ∷ t

unfoldable pub trim_end : Text → Text
trim_end [] = []
trim_end (c ∷ s) = keep_before c (trim_end s)

unfoldable pub trim : Text → Text
trim s = trim_end (trim_start s)

abbrev push : ℕ → ℕ → List Text → List Text
push separator c [] = (c ∷ []) ∷ []
push separator c (l ∷ ls) = if c == separator then [] ∷ l ∷ ls else (c ∷ l) ∷ ls

-- t.split(separator) for one character
unfoldable pub split : ℕ → Text → List Text
split separator [] = [] ∷ []
split separator (c ∷ s) = push separator c (split separator s)

-- t.replace(/\r\n/g, '\n')
unfoldable pub unix_lines : Text → Text
unix_lines [] = []
unix_lines (c ∷ []) = c ∷ []
unix_lines (c ∷ d ∷ s) =
    let rest = unix_lines (d ∷ s) in if c == 13 && d == 10 then rest else c ∷ rest

pub equal_iff : (s t : Text) → (equal s t ≡ true) ↔ (s ≡ t)
unfolding equal
equal_iff [] [] = (λ _. refl, λ _. refl)
equal_iff [] (d ∷ t) = (λ h. absurd (ground arith), λ h. absurd (ground arith))
equal_iff (c ∷ s) [] = (λ h. absurd (ground arith), λ h. absurd (ground arith))
equal_iff (c ∷ s) (d ∷ t) = ground (arith, equal_iff s t)

pub strip-append : (s t : Text) → strip s (s ++ t) ≡ some t
unfolding strip
strip-append [] t = refl
strip-append (c ∷ s) t = ground (arith, strip-append s t)

pub strip-some : (s t u : Text) → strip s t ≡ some u → t ≡ s ++ u
unfolding strip
strip-some [] t u h = ground arith
strip-some (c ∷ s) [] u h = absurd (ground arith)
strip-some (c ∷ s) (d ∷ t) u h = ground (arith, strip-some s t u)

pub not-equal_nil : (s : Text) → s ≢ [] → equal s [] ≡ false
unfolding equal
not-equal_nil [] h = absurd (h refl)
not-equal_nil (c ∷ s) h = refl
