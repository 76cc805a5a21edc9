-- ===== src/Runtime/OutputLog/Checks.antt =====
-- Tests of the output log, and its theorems at concrete inputs.
use mcp_dev_runtime.Base.{◌≤◌, Bytes, [], ◌∷◌, ◌≡◌, refl, whole, arith}
use mcp_dev_runtime.Runtime.Errors.{ok}
use mcp_dev_runtime.Runtime.Utf8.{continuation}
use mcp_dev_runtime.Runtime.OutputLog.Blocks.{tail_full, tail_used, fill_tail, byte_in, ended}
use mcp_dev_runtime.Runtime.OutputLog.Refinement.{Represents, new-Represents}
use mcp_dev_runtime.Runtime.OutputLog.Appending.{IsTrimmed, append-Represents}
use mcp_dev_runtime.Runtime.OutputLog.Reading.{IsChunk, read-IsChunk}
use mcp_dev_runtime.Runtime.OutputLog.{
  OutputLog, LogChunk, new, size, open_tail, write_tail, append_loop, byte_at, skip_continuation,
  release_blocks, trim_to, append, read,
}

abbrev small_bytes : Bytes
small_bytes = 0x61 ∷ 0xc3 ∷ 0xa9 ∷ []

-- "aé" in a log of two bytes: the "a" is given up.
abbrev small : OutputLog
small = append (new 2) small_bytes

small_retained : (small.retained_from ≡ 1) × (small.end ≡ 3)
unfolding append trim_to append_loop open_tail write_tail release_blocks skip_continuation byte_at
    continuation tail_full tail_used fill_tail byte_in ended new
small_retained = (refl, refl)

append-Represents_example :
    IsTrimmed (new 2) small small_bytes (new 2).capacity
    × (size small ≤ (new 2).capacity)
    × (small.capacity ≡ (new 2).capacity)
append-Represents_example = append-Represents (new 2) [] small_bytes (new-Represents 2)

small-Represents : Represents small small_bytes
small-Represents = (append-Represents (new 2) [] small_bytes (new-Represents 2)).0.represents

read-IsChunk_example :
    (c : LogChunk) × (read small (whole 0) 2 ≡ ok c) × IsChunk small small_bytes 0 2 c
unfolding append trim_to append_loop open_tail write_tail release_blocks skip_continuation byte_at
    continuation tail_full tail_used fill_tail byte_in ended new
read-IsChunk_example =
    read-IsChunk small small_bytes 0 2 small-Represents (omega arith) (omega arith) (λ h. refl)
