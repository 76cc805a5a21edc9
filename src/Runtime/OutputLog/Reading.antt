-- ===== src/Runtime/OutputLog/Reading.antt =====
-- read of src/runtime/output-log.ts against the stream.
use mcp_dev_runtime.Base.{
  ℕ, zero, suc, ◌+◌, ◌-◌, ◌≤◌, ◌<◌, min, max, true, false, ◌&&◌, Bytes, ltb, length, drop, get_or,
  ◌≡◌, refl, sym, ap, ◌∙◌, arith, ◌⊎◌, Bool-cases, inl, inr, subst, and-eq_true, Number, whole,
  other, max_safe_integer,
}
use mcp_dev_runtime.Base.Slices.{slice, slice-drop}
use mcp_dev_runtime.Runtime.Errors.{ok, err, invalid_cursor}
use mcp_dev_runtime.Runtime.Utf8.{continuation}
use mcp_dev_runtime.Runtime.OutputLog.Blocks.{gather}
use mcp_dev_runtime.Runtime.OutputLog.Gather.{gather-slice}
use mcp_dev_runtime.Runtime.OutputLog.Refinement.{Represents}
use mcp_dev_runtime.Runtime.OutputLog.Trimming.{byte_at-stream}
use mcp_dev_runtime.Runtime.OutputLog.{OutputLog, LogChunk, byte_at, back, read}

-- `next` is the last position up to `limit`, and from `start` on, that does not split a code point.
pub record IsLastBoundary (stream : Bytes) (start limit next : ℕ) : Type 0 where
  pub start_le : start ≤ next
  pub le_limit : next ≤ limit
  pub stop : start < next → next < length stream → continuation (get_or stream next 0) ≡ false
  pub skipped :
      (o : ℕ)
      → next < o
      → o ≤ limit
      → (o < length stream) × (continuation (get_or stream o 0) ≡ true)

back-IsLastBoundary :
    (k : ℕ) (log : OutputLog) (stream : Bytes) (start : ℕ)
    → Represents log stream
    → log.retained_from ≤ start
    → IsLastBoundary stream start (start + k) (back log start k)
unfolding back
back-IsLastBoundary zero log stream start r h = record {
  start_le = omega arith;
  le_limit = omega arith;
  stop = λ p. absurd (omega arith);
  skipped = λ o p q. absurd (omega arith);
}
back-IsLastBoundary (suc k) log stream start r h =
    elim (Bool-cases (ltb (start + suc k) log.end && continuation (byte_at log (start + suc k)))) [
      | inl more ↦
          let split =
            and-eq_true (ltb (start + suc k) log.end) (continuation (byte_at log (start + suc k)))
              more in
          let inside : start + suc k < log.end = ground (arith, split.0) in
          let earlier = back-IsLastBoundary k log stream start r h in
          rw more (record {
            start_le = earlier.start_le;
            le_limit = omega (arith, earlier.le_limit);
            stop = earlier.stop;
            skipped = λ o p q. elim (Bool-cases (ltb o (start + suc k))) [
              | inl before ↦ earlier.skipped o p (ground arith)
              | inr last ↦
                  let same : start + suc k ≡ o = ground arith in
                  (
                    omega (arith, inside, r.end_length),
                    subst (λ n. continuation (get_or stream n 0) ≡ true) same
                        (sym (
                            ap continuation
                              (byte_at-stream log stream (start + suc k) r (omega arith)))
                          ∙ split.1),
                  )
            ];
          })
      | inr done ↦ rw done (record {
        start_le = omega arith;
        le_limit = omega arith;
        stop = λ p q. ground (
          arith,
          r.end_length,
          ap continuation (byte_at-stream log stream (start + suc k) r (omega arith)),
        );
        skipped = λ o p q. absurd (omega arith);
      })
    ]

-- What a chunk says of the stream: the bytes between two positions, where they start, where the
-- next read goes on, and whether bytes were lost before or are left behind.
pub record IsChunk (log : OutputLog) (stream : Bytes) (cursor budget : ℕ) (chunk : LogChunk)
    : Type 0 where
  pub output : chunk.output ≡ slice chunk.output_start chunk.next_output_cursor stream
  pub output_start : chunk.output_start ≡ max cursor log.retained_from
  pub next :
      IsLastBoundary stream chunk.output_start
        (min (length stream) (chunk.output_start + budget))
        chunk.next_output_cursor
  pub has_more : chunk.has_more ≡ ltb chunk.next_output_cursor (length stream)
  pub output_gap : chunk.output_gap ≡ ltb cursor log.retained_from
  pub total : chunk.total_output_bytes ≡ length stream

-- A position at which reading may start.
abbrev pub IsReadable : Bytes → ℕ → Type 0
IsReadable stream start = start < length stream → continuation (get_or stream start 0) ≡ false

module _ (log : OutputLog) (stream : Bytes) (cursor budget : ℕ) (r : Represents log stream)
    (h : cursor ≤ log.end) where
  start : ℕ
  start = max cursor log.retained_from

  next : ℕ
  next = back log start (min log.end (start + budget) - start)

  chunk : LogChunk
  chunk = record {
    output = gather start next (drop log.head log.blocks);
    output_start = start;
    next_output_cursor = next;
    has_more = ltb next log.end;
    retained_from = log.retained_from;
    output_gap = ltb cursor log.retained_from;
    total_output_bytes = log.end;
  }

  last : IsLastBoundary stream start (min (length stream) (start + budget)) next
  unfolding next start
  last =
      subst (λ n. IsLastBoundary stream start n next) (omega (arith, r.end_length, r.within, h))
        (back-IsLastBoundary (min log.end (start + budget) - start) log stream start r
          (omega arith))

  chunk-IsChunk : IsChunk log stream cursor budget chunk
  unfolding chunk start
  chunk-IsChunk = record {
    output =
        gather-slice start next r.base (drop log.head log.blocks) log.end r.holds.chain
          last.start_le
        ∙ ap (slice (start - r.base) (next - r.base)) r.holds.bytes
        ∙ slice-drop r.base start next stream (omega (arith, r.base_le)) last.start_le;
    output_start = refl;
    next = last;
    has_more = ap (ltb next) r.end_length;
    output_gap = refl;
    total = r.end_length;
  }

  -- Reading from a cursor within the log, whose start is at a code point boundary of the stream,
  -- returns a chunk, and the chunk holds the bytes of the stream from there to the last boundary
  -- within the budget.
  pub read-IsChunk :
      cursor ≤ max_safe_integer
      → IsReadable stream (max cursor log.retained_from)
      → (c : LogChunk) × (read log (whole cursor) budget ≡ ok c)
        × IsChunk log stream cursor budget c
  unfolding read chunk next start
  read-IsChunk safe readable = (
    chunk,
    ground (
      arith,
      r.end_length,
      readable,
      ap continuation (byte_at-stream log stream start r (omega arith)),
    ),
    chunk-IsChunk,
  )

-- The cursors that no chunk is returned for.
abbrev pub IsRefused : OutputLog → Bytes → Number → Type 0
IsRefused log stream other = Unit {0}
IsRefused log stream (whole cursor) =
    (max_safe_integer < cursor)
    ⊎ (length stream < cursor)
    ⊎ ((max cursor log.retained_from < length stream)
        × (continuation (get_or stream (max cursor log.retained_from) 0) ≡ true))

-- A cursor that is no safe integer, one past the end, and one that would start reading within a
-- code point are refused.
pub read_refused :
    (log : OutputLog) (stream : Bytes) (cursor : Number) (budget : ℕ)
    → Represents log stream
    → IsRefused log stream cursor
    → read log cursor budget ≡ err invalid_cursor
unfolding read
read_refused log stream other budget r h = refl
read_refused log stream (whole cursor) budget r h = ground (
  arith,
  r.end_length,
  byte_at-stream log stream (max cursor log.retained_from) r (omega arith),
  h,
)
