-- ===== src/Runtime/LogQuery/Checks.antt =====
-- Examples for the queries of src/runtime/log-query.ts.
use mcp_dev_runtime.Base.{false, none, some, whole, [], ◌∷◌, ◌≡◌, ◌↔◌, refl, arith}
use mcp_dev_runtime.Runtime.Errors.{ok}
use mcp_dev_runtime.Runtime.OutputLog.{LogChunk}
use mcp_dev_runtime.Runtime.PatchParser.Grammar.{is_nil}
use mcp_dev_runtime.Runtime.LogQuery.{LogSource, LogQuery, tail_chunk, search_loop, validate_query}
use mcp_dev_runtime.Runtime.LogQuery.Tail.{IsTail, tail_chunk-IsTail}
use mcp_dev_runtime.Runtime.LogQuery.Search.{IsScan, search_loop-IsScan}
use mcp_dev_runtime.Runtime.LogQuery.Validation.{IsAllowed, validate_query_iff}

-- "ab\ncd\n", the whole of what a log retains.
abbrev two_lines : LogChunk
two_lines = record {
  output = 97 ∷ 98 ∷ 10 ∷ 99 ∷ 100 ∷ 10 ∷ [];
  output_start = 0;
  next_output_cursor = 6;
  has_more = false;
  retained_from = 0;
  output_gap = false;
  total_output_bytes = 6;
}

abbrev small_source : LogSource
small_source = record { end = 6; retained_from = 0; read = λ cursor budget. ok two_lines }

-- The last line is asked for.
tail_chunk-IsTail_example :
    IsTail small_source 1 100 0 two_lines (tail_chunk small_source 1 100 0 two_lines)
tail_chunk-IsTail_example = tail_chunk-IsTail small_source 1 100 0 two_lines (omega arith)

-- "ab" is looked for in "abcab", with room for one match.
search_loop-IsScan_example :
    IsScan
      (97 ∷ 98 ∷ [])
      (97 ∷ 98 ∷ 99 ∷ 97 ∷ 98 ∷ [])
      0
      120
      20
      0
      0
      (search_loop 6 (97 ∷ 98 ∷ []) (97 ∷ 98 ∷ 99 ∷ 97 ∷ 98 ∷ []) 0 120 20 0 0)
unfolding is_nil
search_loop-IsScan_example =
    search_loop-IsScan (97 ∷ 98 ∷ []) (97 ∷ 98 ∷ 99 ∷ 97 ∷ 98 ∷ []) 0 120 refl 6 20 0 0
      (omega arith) (omega arith) (omega arith)

abbrev typed_tail : LogQuery
typed_tail = record {
  tail_lines = some (whole 5);
  search = none;
  max_matches = none;
  output_cursor = none;
}

validate_query_iff_example : (validate_query typed_tail false ≡ ok tt) ↔ IsAllowed typed_tail false
validate_query_iff_example = validate_query_iff typed_tail false
