-- ===== src/Runtime/OutputLog.antt =====
-- OutputLog of src/runtime/output-log.ts: a bounded log of UTF-8 bytes in blocks of a fixed size.
-- A text is its UTF-8 bytes (`Buffer.from`); of a block the bytes in use are kept.
pub mod Blocks
pub mod Gather
pub mod Refinement
pub mod Trimming
pub mod Appending
pub mod Reading
mod Checks
use mcp_dev_runtime.Base.{
  ℕ, zero, suc, ◌+◌, ◌-◌, ◌*◌, min, max, Bool, true, false, not, ◌&&◌, ◌||◌, Number, whole, other,
  max_safe_integer, Bytes, List, [], ◌∷◌, ◌++◌, ◌==◌, ltb, leb, if◌then◌else◌, length, take, drop,
}
use mcp_dev_runtime.Runtime.Errors.{ToolError, invalid_cursor, Result, ok, err}
use mcp_dev_runtime.Runtime.Utf8.{continuation}
use Blocks.{Block, block_size, tail_full, tail_used, fill_tail, byte_in, ended, gather}

pub record OutputLog : Type 0 where
  pub blocks : List Block
  pub head : ℕ
  pub retained_from : ℕ
  pub end : ℕ
  pub capacity : ℕ

unfoldable pub new : ℕ → OutputLog
new capacity = record { blocks = []; head = 0; retained_from = 0; end = 0; capacity = capacity }

abbrev pub size : OutputLog → ℕ
size log = log.end - log.retained_from

-- A full last block, or none, is followed by a new block.
pub open_tail : OutputLog → OutputLog
open_tail log =
    if tail_full log.blocks
    then record log { blocks = log.blocks ++ (record { bytes = []; start = log.end } ∷ []) }
    else log

pub write_tail : OutputLog → Bytes → OutputLog
write_tail log part = record log { blocks = fill_tail part log.blocks; end = log.end + length part }

-- The loop of `append`. A round writes a byte at least, so as many rounds as bytes are enough.
pub append_loop : ℕ → OutputLog → Bytes → OutputLog
append_loop zero log source = log
append_loop (suc rounds) log [] = log
append_loop (suc rounds) log (b ∷ bs) =
    let log' = open_tail log in
    let n = min (block_size - tail_used log'.blocks) (length (b ∷ bs)) in
    append_loop rounds (write_tail log' (take n (b ∷ bs))) (drop n (b ∷ bs))

pub byte_at : OutputLog → ℕ → ℕ
byte_at log offset = byte_in offset (drop log.head log.blocks)

-- `while (from < this.end && continuation(this.byteAt(from))) from++`, by the bytes that are left.
pub skip_continuation : ℕ → OutputLog → ℕ → ℕ
skip_continuation zero log from = from
skip_continuation (suc left) log from =
    let later = skip_continuation left log (from + 1) in
    if ltb from log.end && continuation (byte_at log from) then later else from

-- The blocks before `from` are passed, and now and then given up.
pub release_blocks : OutputLog → ℕ → OutputLog
release_blocks log from =
    let head = log.head + ended from (drop log.head log.blocks) in
    if head == length log.blocks
    then record log { blocks = []; head = 0; retained_from = from }
    else if ltb 32 head && ltb (length log.blocks) (head * 2)
    then record log { blocks = drop head log.blocks; head = 0; retained_from = from }
    else record log { head = head; retained_from = from }

pub trim_to : OutputLog → ℕ → OutputLog
trim_to log bytes =
    let from = max log.retained_from (log.end - bytes) in
    release_blocks log (skip_continuation (log.end - from) log from)

pub append : OutputLog → Bytes → OutputLog
append log text = let log' = append_loop (length text) log text in trim_to log' log'.capacity

pub record LogChunk : Type 0 where
  pub output : Bytes
  pub output_start : ℕ
  pub next_output_cursor : ℕ
  pub has_more : Bool
  pub retained_from : ℕ
  pub output_gap : Bool
  pub total_output_bytes : ℕ

-- `while (end > start && end < this.end && continuation(this.byteAt(end))) end--`, by `end - start`.
pub back : OutputLog → ℕ → ℕ → ℕ
back log start zero = start
back log start (suc k) =
    let earlier = back log start k in
    if ltb (start + suc k) log.end && continuation (byte_at log (start + suc k))
    then earlier
    else start + suc k

pub read_at : OutputLog → ℕ → ℕ → Result LogChunk
read_at log cursor budget =
    let start = max cursor log.retained_from in
    let end = back log start (min log.end (start + budget) - start) in
    if ltb start log.end && continuation (byte_at log start)
    then err invalid_cursor
    else ok (record {
      output = gather start end (drop log.head log.blocks);
      output_start = start;
      next_output_cursor = end;
      has_more = ltb end log.end;
      retained_from = log.retained_from;
      output_gap = ltb cursor log.retained_from;
      total_output_bytes = log.end;
    })

pub read : OutputLog → Number → ℕ → Result LogChunk
unfolding read_at
read log other budget = err invalid_cursor
read log (whole cursor) budget =
    if leb cursor max_safe_integer && leb cursor log.end
    then read_at log cursor budget
    else err invalid_cursor
