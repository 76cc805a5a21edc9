-- ===== src/Runtime/LogQuery/Tail.antt =====
-- What the tail query of src/runtime/log-query.ts returns.
use mcp_dev_runtime.Base.{
  ℕ, zero, suc, ◌+◌, ◌-◌, ◌<◌, ◌≤◌, max, true, false, not, ◌||◌, ◌&&◌, Option, none, some, [], ◌∷◌,
  ◌++◌, ◌≡◌, ◌⊎◌, inl, inr, refl, sym, ap, ◌∙◌, subst, arith, Bytes, ltb, leb, ◌==◌, ==_iff,
  if◌then◌else◌, length, take, drop, get_or, length-drop, Bool-cases,
}
use mcp_dev_runtime.Base.Slices.{slice, slice-append, slice_empty}
use mcp_dev_runtime.Runtime.OutputLog.{LogChunk}
use mcp_dev_runtime.Runtime.LogQuery.{
  LogSource, boundary_loop, boundary, given, desired_at, back_lines, counted, TailChunk, tail_chunk,
}

-- The line feeds among some bytes.
abbrev pub feeds : Bytes → ℕ
feeds [] = 0
feeds (b ∷ bytes) = (if b == 10 then 1 else 0) + feeds bytes

feeds-append : (xs ys : Bytes) → feeds (xs ++ ys) ≡ feeds xs + feeds ys
feeds-append [] ys = omega arith
feeds-append (x ∷ xs) ys = omega (arith, feeds-append xs ys)

-- The line feeds among the bytes from one place to another.
abbrev pub feeds_in : ℕ → ℕ → Bytes → ℕ
feeds_in from to bytes = feeds (slice from to bytes)

take_one :
    (n : ℕ) (bytes : Bytes) → n < length bytes → take 1 (drop n bytes) ≡ get_or bytes n 0 ∷ []
take_one n [] h = absurd (omega arith)
take_one zero (b ∷ bytes) h = refl
take_one (suc n) (b ∷ bytes) h = take_one n bytes (omega arith)

-- One byte more.
feeds_in-suc :
    (from n : ℕ) (bytes : Bytes)
    → from ≤ n
    → n < length bytes
    → feeds_in from (suc n) bytes
      ≡ feeds_in from n bytes + (if get_or bytes n 0 == 10 then 1 else 0)
feeds_in-suc from n bytes h k =
    ap feeds (sym (slice-append from n (suc n) bytes h (omega arith)))
    ∙ feeds-append (slice from n bytes) (slice n (suc n) bytes)
    ∙ ap (λ l. feeds_in from n bytes + feeds l)
        (ap (λ m. take m (drop n bytes)) {y = 1} (omega arith) ∙ take_one n bytes k)
    ∙ ground arith

feeds_in-empty : (n : ℕ) (bytes : Bytes) → feeds_in n n bytes ≡ 0
feeds_in-empty n bytes = ap feeds (slice_empty n n bytes (omega arith))

-- The place that a scan back from `left` for the `lines`-th line feed finds.
abbrev IsLines : ℕ → ℕ → Bytes → Option ℕ → Type 0
IsLines left lines bytes none = feeds_in 0 left bytes < lines
IsLines left lines bytes (some at) =
    (0 < at) × (at ≤ left) × (get_or bytes (at - 1) 0 ≡ 10) × (feeds_in at left bytes + 1 ≡ lines)

-- A byte that is no line feed changes nothing.
one_more :
    (left lines : ℕ) (bytes : Bytes) (r : Option ℕ)
    → left < length bytes
    → (get_or bytes left 0 == 10) ≡ false
    → IsLines left lines bytes r
    → IsLines (suc left) lines bytes r
one_more left lines bytes none h other i =
    ground (arith, feeds_in-suc 0 left bytes (omega arith) h, other, i)
one_more left lines bytes (some at) h other (pos, le, feed, full) =
    (pos, omega (arith, le), feed, ground (arith, feeds_in-suc at left bytes le h, other, full))

-- A line feed is one line more.
one_line :
    (left lines : ℕ) (bytes : Bytes) (r : Option ℕ)
    → left < length bytes
    → (get_or bytes left 0 == 10) ≡ true
    → 1 < lines
    → IsLines left (lines - 1) bytes r
    → IsLines (suc left) lines bytes r
one_line left lines bytes none h feed many i =
    ground (arith, feeds_in-suc 0 left bytes (omega arith) h, feed, i, many)
one_line left lines bytes (some at) h here many (pos, le, feed, full) = (
  pos,
  omega (arith, le),
  feed,
  ground (arith, feeds_in-suc at left bytes le h, here, full, many),
)

back_lines-IsLines :
    (left lines : ℕ) (bytes : Bytes)
    → left ≤ length bytes
    → 0 < lines
    → IsLines left lines bytes (back_lines left lines bytes)
unfolding back_lines
back_lines-IsLines zero lines bytes h k = omega (arith, feeds_in-empty 0 bytes)
back_lines-IsLines (suc left) lines bytes h k = elim (Bool-cases (get_or bytes left 0 == 10)) [
  | inr other ↦ rw other (
      one_more left lines bytes (back_lines left lines bytes) (omega arith) other
        (back_lines-IsLines left lines bytes (omega arith) k))
  | inl feed ↦ elim (Bool-cases (lines == 1)) [
    | inl last ↦
        rw (feed, last)
          (
            omega arith,
            omega arith,
            (==_iff _ _).0 (ap (λ n. get_or bytes n 0 == 10) {y = left} (omega arith) ∙ feed),
            omega (arith, feeds_in-empty (suc left) bytes, (==_iff lines 1).0 last),
          )
    | inr more ↦
        rw (feed, more)
          (one_line left lines bytes (back_lines left (lines - 1) bytes) (omega arith) feed
            (ground (arith, more, k))
            (back_lines-IsLines left (lines - 1) bytes (omega arith) (ground (arith, more, k))))
  ]
]

-- The code point boundary at or behind a place is within the bytes.
boundary_loop-le :
    (left : ℕ) (bytes : Bytes) (at : ℕ)
    → at + left ≡ length bytes
    → (at ≤ boundary_loop left bytes at) × (boundary_loop left bytes at ≤ length bytes)
unfolding boundary_loop
boundary_loop-le zero bytes at e = (omega arith, omega (arith, e))
boundary_loop-le (suc left) bytes at e =
    ground (arith, boundary_loop-le left bytes (at + 1) (omega (arith, e)), e)

pub boundary-le :
    (bytes : Bytes) (at : ℕ)
    → at ≤ length bytes
    → (at ≤ boundary bytes at) × (boundary bytes at ≤ length bytes)
unfolding boundary
boundary-le bytes at h = boundary_loop-le (length bytes - at) bytes at (omega (arith, h))

counted-le : (bytes : Bytes) → counted bytes ≤ length bytes
unfolding counted
counted-le bytes = ground arith

-- Fewer bytes have fewer line feeds.
feeds_in-le :
    (from from' to : ℕ) (bytes : Bytes)
    → from ≤ from'
    → feeds_in from' to bytes ≤ feeds_in from to bytes
feeds_in-le from from' to bytes h = elim (Bool-cases (leb from' to)) [
  | inl within ↦ omega (
    arith,
    ap feeds (slice-append from from' to bytes h (ground (arith, within))),
    feeds-append (slice from from' bytes) (slice from' to bytes),
  )
  | inr beyond ↦ omega (arith, ap feeds (slice_empty from' to bytes (ground (arith, beyond))))
]

-- The place `at` in the bytes at which the lines of a tail start: at the first byte, or behind a line
-- feed, with all the lines asked for behind it.
abbrev pub IsFull : ℕ → Bytes → ℕ → Type 0
IsFull lines bytes at =
    (0 < at) × (get_or bytes (at - 1) 0 ≡ 10) × (feeds_in at (counted bytes) bytes + 1 ≡ lines)

-- The tail `t` of the window `chunk`, which was read from `from`.
pub record IsTail (source : LogSource) (lines budget from : ℕ) (chunk : LogChunk) (t : TailChunk)
    : Type 0 where
  pub at : ℕ
  pub at_le : at ≤ length chunk.output
  pub output : t.output ≡ drop at chunk.output
  pub output_start : t.output_start ≡ chunk.output_start + at
  pub next : t.next_output_cursor ≡ chunk.next_output_cursor
  pub within : length t.output ≤ budget
  pub few : feeds_in at (counted chunk.output) chunk.output < lines
  pub whole :
      t.tail_truncated ≡ false
      → IsFull lines chunk.output at ⊎ ((at ≡ 0) × (from ≤ source.retained_from))

module _ (source : LogSource) (lines budget from : ℕ) (chunk : LogChunk)
    (some_line : 0 < lines) where
  IsTail-from :
      (found : Option ℕ)
      → IsLines (counted chunk.output) lines chunk.output found
      → (t : TailChunk) → (at : ℕ)
      → at ≡ boundary chunk.output (max (desired_at found) (length chunk.output - budget))
      → t.output ≡ drop at chunk.output
      → t.output_start ≡ chunk.output_start + at
      → t.next_output_cursor ≡ chunk.next_output_cursor
      → t.tail_truncated
        ≡ (ltb (desired_at found) at || (ltb source.retained_from from && not (given found)))
      → IsTail source lines budget from chunk t
  unfolding desired_at
  IsTail-from none i t at e out start next cut =
      let b = boundary-le chunk.output (max 0 (length chunk.output - budget)) (omega arith) in
      record {
        at = at;
        at_le = omega (arith, e, b.1);
        output = out;
        output_start = start;
        next = next;
        within =
            omega (arith, e, b.0, ap (λ (l : Bytes). length l) out, length-drop at chunk.output);
        few = omega (arith, i, feeds_in-le 0 at (counted chunk.output) chunk.output (omega arith));
        whole = λ q. inr (ground (arith, cut, q));
      }
  IsTail-from (some k) i t at e out start next cut =
      let (pos, le, feed, full) = i in
      let b =
        boundary-le chunk.output (max k (length chunk.output - budget))
          (omega (arith, le, counted-le chunk.output)) in
      record {
        at = at;
        at_le = omega (arith, e, b.1);
        output = out;
        output_start = start;
        next = next;
        within =
            omega (arith, e, b.0, ap (λ (l : Bytes). length l) out, length-drop at chunk.output);
        few = omega (
          arith,
          full,
          feeds_in-le k at (counted chunk.output) chunk.output (omega (arith, e, b.0)),
        );
        whole = λ q.
            let same : k ≡ at = ground (arith, cut, q, e, b.0) in
            inl (subst (IsFull lines chunk.output) same (pos, feed, full));
      }

  -- The tail of a window is what stands at its end, from a place at which no more lines than asked for
  -- follow; it fits the budget, and when it is not said to be cut it starts at the first of these
  -- lines, or at the start of what the log retains.
  pub tail_chunk-IsTail :
      IsTail source lines budget from chunk (tail_chunk source lines budget from chunk)
  unfolding tail_chunk
  tail_chunk-IsTail =
      IsTail-from (back_lines (counted chunk.output) lines chunk.output)
        (back_lines-IsLines (counted chunk.output) lines chunk.output (counted-le chunk.output)
          some_line)
        (tail_chunk source lines budget from chunk) _ refl refl refl refl refl
