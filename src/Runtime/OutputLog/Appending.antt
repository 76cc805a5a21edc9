-- ===== src/Runtime/OutputLog/Appending.antt =====
-- trimTo and append of src/runtime/output-log.ts: the whole operations.
use mcp_dev_runtime.Base.{
  ℕ, zero, suc, ◌-◌, ◌≤◌, max, Bytes, [], ◌∷◌, ◌++◌, length, ◌≡◌, refl, ◌∙◌, arith, subst,
}
use mcp_dev_runtime.Runtime.OutputLog.Refinement.{Represents, append_loop-Represents}
use mcp_dev_runtime.Runtime.OutputLog.Trimming.{
  IsFirstBoundary, skip_continuation-IsFirstBoundary, release_blocks-Represents,
  retained_from-release_blocks,
}
use mcp_dev_runtime.Runtime.OutputLog.{
  OutputLog, size, open_tail, write_tail, append_loop, skip_continuation, release_blocks, trim_to,
  append,
}

-- Trimming changes what is retained, and the stream that the log stands for stays.
pub record IsTrimmed (before after : OutputLog) (stream : Bytes) (bytes : ℕ) : Type 0 where
  pub represents : Represents after stream
  pub boundary :
      IsFirstBoundary stream (max before.retained_from (length stream - bytes)) after.retained_from

-- Trimming to `bytes` moves the retained start to the first code point boundary at which `bytes`
-- bytes at most are left, never back, and the log still represents the same stream.
pub trim_to-IsTrimmed :
    (log : OutputLog) (stream : Bytes) (bytes : ℕ)
    → Represents log stream
    → IsTrimmed log (trim_to log bytes) stream bytes
unfolding trim_to
trim_to-IsTrimmed log stream bytes r = record {
  represents =
      release_blocks-Represents log stream kept r (omega (arith, first.from_le))
        (omega (arith, first.within, r.end_length));
  boundary = rw (retained_from-release_blocks log kept) (
      subst (λ n. IsFirstBoundary stream (max log.retained_from (n - bytes)) kept) r.end_length
        first);
}
  where
    from : ℕ
    from = max log.retained_from (log.end - bytes)

    kept : ℕ
    kept = skip_continuation (log.end - from) log from

    first : IsFirstBoundary stream from kept
    first =
        skip_continuation-IsFirstBoundary (log.end - from) log stream from r (omega arith)
          (omega (arith, r.within))

-- After trimming, `bytes` bytes at most are retained.
pub size-trim_to :
    (log : OutputLog) (stream : Bytes) (bytes : ℕ)
    → Represents log stream
    → size (trim_to log bytes) ≤ bytes
size-trim_to log stream bytes r =
    let t = trim_to-IsTrimmed log stream bytes r in
    omega (arith, t.represents.end_length, t.boundary.from_le)

pub capacity-trim_to : (log : OutputLog) (bytes : ℕ) → (trim_to log bytes).capacity ≡ log.capacity
unfolding trim_to release_blocks
capacity-trim_to log bytes = ground arith

open_tail_same :
    (log : OutputLog)
    → ((open_tail log).retained_from ≡ log.retained_from)
      × ((open_tail log).capacity ≡ log.capacity)
unfolding open_tail
open_tail_same log = ground arith

append_loop_same :
    (rounds : ℕ) (log : OutputLog) (source : Bytes)
    → ((append_loop rounds log source).retained_from ≡ log.retained_from)
      × ((append_loop rounds log source).capacity ≡ log.capacity)
unfolding append_loop write_tail
append_loop_same zero log source = (refl, refl)
append_loop_same (suc rounds) log [] = (refl, refl)
append_loop_same (suc rounds) log (b ∷ bs) =
    let (p, q) = open_tail_same log in
    let (p', q') = append_loop_same rounds _ _ in (p' ∙ p, q' ∙ q)

-- Appending a text extends the stream by its bytes; the capacity is unchanged, and the retained
-- start moves to the first code point boundary at which the capacity is met.
pub append-Represents :
    (log : OutputLog) (stream text : Bytes)
    → Represents log stream
    → IsTrimmed log (append log text) (stream ++ text) log.capacity
      × (size (append log text) ≤ log.capacity)
      × ((append log text).capacity ≡ log.capacity)
unfolding append
append-Represents log stream text r =
    let (p, q) = append_loop_same (length text) log text in
    let full = append_loop-Represents (length text) log stream text r (omega arith) in
    let t =
      trim_to-IsTrimmed (append_loop (length text) log text) (stream ++ text)
        (append_loop (length text) log text).capacity full in
    (
      record {
        represents = t.represents;
        boundary =
            subst (λ k. IsFirstBoundary (stream ++ text) k (append log text).retained_from)
              (omega (arith, p, q)) t.boundary;
      },
      omega (arith, q, size-trim_to _ _ (append_loop (length text) log text).capacity full),
      capacity-trim_to (append_loop (length text) log text) _ ∙ q,
    )
