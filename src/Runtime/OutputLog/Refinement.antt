-- ===== src/Runtime/OutputLog/Refinement.antt =====
-- src/runtime/output-log.ts against the stream of all bytes that were ever appended.
use mcp_dev_runtime.Base.{
  subst, ℕ, zero, suc, ◌+◌, ◌-◌, ◌≤◌, ◌<◌, min, false, Bytes, List, [], ◌∷◌, ◌++◌, length, take,
  drop, ◌≡◌, refl, sym, ap, ◌∙◌, arith, ◌⊎◌, append-nil, append_assoc, length-append, length-take,
  length-drop, take-append-drop, Bool-cases, inl, inr,
}
use mcp_dev_runtime.Base.Slices.{drop-append_le}
use mcp_dev_runtime.Runtime.OutputLog.Blocks.{
  Block, block_size, tail_full, tail_used, contents, Chain, Chain-push, contents-push, Chain-fill,
  contents-fill, tail_used-push, tail_used-lt, tail_full-drop, length-fill_tail, drop-fill_tail,
  tail_used-drop,
}
use mcp_dev_runtime.Runtime.OutputLog.{OutputLog, new, open_tail, write_tail, append_loop}

-- The blocks from `head` on hold the stream from `base` on.
pub record Holds (blocks : List Block) (head end base : ℕ) (stream : Bytes) : Type 0 where
  pub chain : Chain base (drop head blocks) end
  pub bytes : contents (drop head blocks) ≡ drop base stream

pub record Represents (log : OutputLog) (stream : Bytes) : Type 0 where
  pub end_length : log.end ≡ length stream
  pub within : log.retained_from ≤ log.end
  pub head_in : (log.head < length log.blocks) ⊎ ((log.blocks ≡ []) × (log.head ≡ 0))
  pub base : ℕ
  pub base_le : base ≤ log.retained_from
  pub holds : Holds log.blocks log.head log.end base stream

-- The log before the first byte.
pub new-Represents : (capacity : ℕ) → Represents (new capacity) []
unfolding new
new-Represents capacity = record {
  end_length = refl;
  within = omega arith;
  head_in = inr (refl, refl);
  base = 0;
  base_le = omega arith;
  holds = record { chain = refl; bytes = refl };
}

head_le : (log : OutputLog) (stream : Bytes) → Represents log stream → log.head ≤ length log.blocks
head_le log stream r = ground (arith, r.head_in)

pub head_lt_of_room :
    (log : OutputLog) (stream : Bytes)
    → Represents log stream
    → tail_full log.blocks ≡ false
    → log.head < length log.blocks
unfolding tail_full
head_lt_of_room log stream r h = ground (arith, r.head_in)

-- After `open_tail` the last block exists and has room, and the stream is the same.
pub record Opened (log : OutputLog) (stream : Bytes) : Type 0 where
  pub same : Represents log stream
  pub some_block : log.head < length log.blocks
  pub room : tail_used log.blocks < block_size

module _ (log : OutputLog) (stream : Bytes) (r : Represents log stream) where
  pushed : List Block
  pushed = log.blocks ++ (record { bytes = []; start = log.end } ∷ [])

  open_full : Opened (record log { blocks = pushed }) stream
  unfolding pushed
  open_full = record {
    same = record {
      end_length = r.end_length;
      within = r.within;
      head_in = inl longer;
      base = r.base;
      base_le = r.base_le;
      holds = record {
        chain = rw dropped (Chain-push r.base _ log.end r.holds.chain);
        bytes = rw dropped (contents-push (drop log.head log.blocks) log.end ∙ r.holds.bytes);
      };
    };
    some_block = longer;
    room = rw tail_used-push (omega arith);
  }
    where
      longer : log.head < length (log.blocks ++ (record { bytes = []; start = log.end } ∷ []))
      longer = omega (
        arith,
        head_le log stream r,
        length-append log.blocks (record { bytes = []; start = log.end } ∷ []),
      )

      dropped :
          drop log.head (log.blocks ++ (record { bytes = []; start = log.end } ∷ []))
          ≡ drop log.head log.blocks ++ (record { bytes = []; start = log.end } ∷ [])
      dropped = drop-append_le log.head log.blocks _ (head_le log stream r)

  open_tail-Opened : Opened (open_tail log) stream
  unfolding open_tail pushed
  open_tail-Opened = elim (Bool-cases (tail_full log.blocks)) [
    | inl full ↦ rw (full, open_tail) open_full
    | inr room ↦
        let inside = head_lt_of_room log stream r room in
        let last = tail_full-drop log.head log.blocks inside ∙ room in
        rw (room, open_tail)
          (record {
            same = r;
            some_block = inside;
            room =
                subst (λ n. n < block_size) (tail_used-drop log.head log.blocks inside)
                  (tail_used-lt r.base (drop log.head log.blocks) log.end r.holds.chain last);
          })
  ]

  write_tail-Represents :
      (part : Bytes)
      → log.head < length log.blocks
      → tail_used log.blocks + length part ≤ block_size
      → Represents (write_tail log part) (stream ++ part)
  unfolding write_tail
  write_tail-Represents part inside room = record {
    end_length = omega (arith, r.end_length, length-append stream part);
    within = omega (arith, r.within);
    head_in = inl (rw length-fill_tail inside);
    base = r.base;
    base_le = r.base_le;
    holds = record {
      chain = rw (drop-fill_tail part log.head log.blocks inside) (
          Chain-fill part r.base (drop log.head log.blocks) log.end left
            (rw (tail_used-drop log.head log.blocks inside) room) r.holds.chain);
      bytes =
          ap contents (drop-fill_tail part log.head log.blocks inside)
          ∙ contents-fill part (drop log.head log.blocks) left
          ∙ ap (λ l. l ++ part) r.holds.bytes
          ∙ sym (
              drop-append_le r.base stream part (omega (arith, r.base_le, r.within, r.end_length)));
    };
  }
    where
      left : 0 < length (drop log.head log.blocks)
      left = omega (arith, length-drop log.head log.blocks)

-- The loop of `append` adds the bytes to the stream.
pub append_loop-Represents :
    (rounds : ℕ) (log : OutputLog) (stream source : Bytes)
    → Represents log stream
    → length source ≤ rounds
    → Represents (append_loop rounds log source) (stream ++ source)
unfolding append_loop
append_loop-Represents zero log stream [] r h = rw append-nil r
append_loop-Represents zero log stream (b ∷ bs) r h = absurd (omega arith)
append_loop-Represents (suc rounds) log stream [] r h = rw append-nil r
append_loop-Represents (suc rounds) log stream (b ∷ bs) r h =
    subst (Represents (append_loop (suc rounds) log (b ∷ bs)))
      (append_assoc stream (take n (b ∷ bs)) (drop n (b ∷ bs))
        ∙ ap (λ l. stream ++ l) (take-append-drop n (b ∷ bs)))
      (append_loop-Represents rounds (write_tail (open_tail log) (take n (b ∷ bs)))
        (stream ++ take n (b ∷ bs)) (drop n (b ∷ bs))
        (write_tail-Represents (open_tail log) stream opened.same (take n (b ∷ bs))
          opened.some_block (omega (arith, length-take n (b ∷ bs), opened.room)))
        (omega (arith, length-drop n (b ∷ bs), opened.room)))
  where
    opened : Opened (open_tail log) stream
    opened = open_tail-Opened log stream r

    n : ℕ
    n = min (block_size - tail_used (open_tail log).blocks) (length (b ∷ bs))
