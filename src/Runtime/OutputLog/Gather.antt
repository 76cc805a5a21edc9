-- ===== src/Runtime/OutputLog/Gather.antt =====
-- The blocks that `ended` passes, and the bytes that `gather` collects.
use mcp_dev_runtime.Base.{
  ℕ, ◌+◌, ◌-◌, ◌≤◌, min, max, true, Bytes, List, [], ◌∷◌, ◌++◌, ltb, leb, if◌then◌else◌, length,
  drop, ◌≡◌, sym, ap, ◌∙◌, arith, append-nil, Bool-cases, inl, inr,
}
use mcp_dev_runtime.Base.Slices.{
  slice, drop-nil, drop-append_ge, slice_eq, slice_empty, slice-nil, slice-append_left,
  slice-append_right, slice-append_both,
}
use mcp_dev_runtime.Runtime.OutputLog.Blocks.{Block, ended, gather, contents, Chain}

pub ended-le : (from : ℕ) (bs : List Block) → ended from bs ≤ length bs
unfolding ended
ended-le from [] = omega arith
ended-le from (b ∷ bs) = ground (arith, ended-le from bs)

-- What is left of the blocks after those that end at `from` or before is a chain to the same end,
-- and holds the same bytes from its start on, which is at `from` or before.
pub ended-Chain :
    (from s : ℕ) (bs : List Block) (e : ℕ)
    → Chain s bs e
    → s ≤ from
    → (t : ℕ) × (s ≤ t)
      × (t ≤ from)
      × Chain t (drop (ended from bs) bs) e
      × (contents (drop (ended from bs) bs) ≡ drop (t - s) (contents bs))
unfolding ended
ended-Chain from s [] e c h = (s, omega arith, h, c, sym (drop-nil (s - s)))
ended-Chain from s (b ∷ bs) e c h = elim (Bool-cases (leb (b.start + length b.bytes) from)) [
  | inl over ↦
      let (t, lo, hi, c', same) = ended-Chain from (s + length b.bytes) bs e c.2 (ground arith) in
      rw over (
        t,
        omega arith,
        hi,
        c',
        same
            ∙ ap (λ k. drop k (contents bs)) (omega arith)
            ∙ sym (drop-append_ge (t - s) b.bytes (contents bs) (omega arith)),
      )
  | inr stays ↦
      rw stays (
        s,
        omega arith,
        h,
        c,
        ap (λ k. drop k (contents (b ∷ bs))) {x = 0} {y = s - s} (omega arith),
      )
]

-- The part between two positions of a first block and of the blocks after it.
slice_block :
    (start end s : ℕ) (xs ys : Bytes)
    → start ≤ end
    → (let rest = slice (start - (s + length xs)) (end - (s + length xs)) ys in
        if leb end s
        then []
        else if ltb (max start s) (min end (s + length xs))
        then slice (max start s - s) (min end (s + length xs) - s) xs ++ rest
        else rest)
      ≡ slice (start - s) (end - s) (xs ++ ys)
slice_block start end s xs ys h = elim (Bool-cases (leb end s)) [
  | inl before ↦ rw before (sym (whole_empty before))
  | inr reached ↦ rw reached (elim (Bool-cases (ltb (max start s) (min end (s + length xs)))) [
    | inl meets ↦ rw meets (elim (Bool-cases (leb end (s + length xs))) [
      | inl inner ↦
          ap (λ l. part ++ l) (slice_empty from' to' ys (ground arith))
          ∙ append-nil part
          ∙ slice_eq xs (ground arith) (ground arith)
          ∙ sym (slice-append_left (start - s) (end - s) xs ys (omega arith) (ground arith))
      | inr beyond ↦
          ap (λ l. l ++ slice from' to' ys)
            (slice_eq xs {a' = start - s} {b' = length xs} (ground arith) (ground arith))
          ∙ ap (λ l. slice (start - s) (length xs) xs ++ l)
              (slice_eq ys {a' = 0} {b' = end - s - length xs} (ground arith) (ground arith))
          ∙ sym (slice-append_both (start - s) (end - s) xs ys (ground arith) (ground arith))
    ])
    | inr misses ↦ rw misses (elim (Bool-cases (leb (length xs) (start - s))) [
      | inl after ↦
          slice_eq ys (ground arith) (ground arith)
          ∙ sym (slice-append_right (start - s) (end - s) xs ys (ground arith))
      | inr within ↦
          slice_empty from' to' ys (ground arith)
          ∙ sym (slice_empty (start - s) (end - s) (xs ++ ys) (ground arith))
    ])
  ])
]
  where
    from' : ℕ
    from' = start - (s + length xs)

    to' : ℕ
    to' = end - (s + length xs)

    part : Bytes
    part = slice (max start s - s) (min end (s + length xs) - s) xs

    whole_empty : leb end s ≡ true → slice (start - s) (end - s) (xs ++ ys) ≡ []
    whole_empty before = slice_empty (start - s) (end - s) (xs ++ ys) (ground arith)

-- `gather` collects the bytes between the two positions.
pub gather-slice :
    (start end s : ℕ) (bs : List Block) (e : ℕ)
    → Chain s bs e
    → start ≤ end
    → gather start end bs ≡ slice (start - s) (end - s) (contents bs)
unfolding gather
gather-slice start end s [] e c h = sym (slice-nil (start - s) (end - s))
gather-slice start end s (b ∷ bs) e c h =
    rw (c.0, gather-slice start end (s + length b.bytes) bs e c.2 h)
      (slice_block start end s b.bytes (contents bs) h)
