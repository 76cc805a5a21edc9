-- ===== src/Runtime/Utf8.antt =====
-- The byte test that src/runtime/log-query.ts, output-log.ts and src/skills share, and the cuts of
-- a byte string at the start of a code point.
use Prim.Native.Nat.{bit_and}
use mcp_dev_runtime.Base.{
  ℕ, zero, suc, ap, ◌∙◌, ◌++◌, drop, take-append-drop, ◌≤◌, ◌<◌, min, Bool, false, ◌&&◌, Bytes,
  ◌==◌, ltb, if◌then◌else◌, length, take, length-take, get_or, ◌≡◌, arith, Bool-cases, inl, inr,
}

unfoldable pub continuation : ℕ → Bool
continuation n = bit_and n 0xc0 == 0x80

-- `while (end > 0 && end < bytes.length && continuation(bytes[end])) end--`
unfoldable pub back_to_boundary : Bytes → ℕ → ℕ
back_to_boundary bytes zero = 0
back_to_boundary bytes (suc end) =
    let earlier = back_to_boundary bytes end in
    if ltb (suc end) (length bytes) && continuation (get_or bytes (suc end) 0)
    then earlier
    else suc end

-- utf8Prefix: the longest prefix of at most `maximum` bytes that does not split a code point.
unfoldable pub utf8_prefix : Bytes → ℕ → Bytes
utf8_prefix bytes maximum = take (back_to_boundary bytes (min (length bytes) maximum)) bytes

-- A position at which a byte string may be cut.
abbrev pub IsBoundary : Bytes → ℕ → Type 0
IsBoundary bytes n = n < length bytes → 0 < n → continuation (get_or bytes n 0) ≡ false

pub back_to_boundary-le : (bytes : Bytes) (n : ℕ) → back_to_boundary bytes n ≤ n
unfolding back_to_boundary
back_to_boundary-le bytes zero = omega arith
back_to_boundary-le bytes (suc n) = ground (arith, back_to_boundary-le bytes n)

pub back_to_boundary-IsBoundary :
    (bytes : Bytes) (n : ℕ) → IsBoundary bytes (back_to_boundary bytes n)
unfolding back_to_boundary
back_to_boundary-IsBoundary bytes zero = λ h k. absurd (omega arith)
back_to_boundary-IsBoundary bytes (suc n) =
    elim (Bool-cases (ltb (suc n) (length bytes) && continuation (get_or bytes (suc n) 0))) [
      | inl more ↦ rw more (back_to_boundary-IsBoundary bytes n)
      | inr stop ↦ rw stop (λ h k. ground arith)
    ]

pub utf8_prefix-le : (bytes : Bytes) (maximum : ℕ) → length (utf8_prefix bytes maximum) ≤ maximum
unfolding utf8_prefix
utf8_prefix-le bytes maximum =
    let n = back_to_boundary bytes (min (length bytes) maximum) in
    omega (arith, length-take n bytes, back_to_boundary-le bytes (min (length bytes) maximum))

-- It is the start of the bytes.
pub utf8_prefix-append :
    (bytes : Bytes) (maximum : ℕ)
    → utf8_prefix bytes maximum ++ drop (length (utf8_prefix bytes maximum)) bytes ≡ bytes
unfolding utf8_prefix
utf8_prefix-append bytes maximum =
    let n = back_to_boundary bytes (min (length bytes) maximum) in
    ap (λ k. take n bytes ++ drop k bytes)
      (omega (arith, length-take n bytes, back_to_boundary-le bytes (min (length bytes) maximum)))
    ∙ take-append-drop n bytes
