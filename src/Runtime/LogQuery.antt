-- ===== src/Runtime/LogQuery.antt =====
-- src/runtime/log-query.ts: bounded queries of a log. A text is given by its UTF-8 bytes.
pub mod Tail
pub mod Search
pub mod Validation
mod Checks
use mcp_dev_runtime.Base.{
  ℕ, zero, suc, ◌+◌, ◌-◌, ◌*◌, min, max, Bool, true, false, not, ◌&&◌, ◌||◌, Option, none, some,
  List, [], ◌∷◌, ◌++◌, ltb, leb, ◌==◌, if◌then◌else◌, length, Number, whole, other, Bytes, drop,
  get_or,
}
use mcp_dev_runtime.Base.Slices.{slice}
use mcp_dev_runtime.Runtime.Errors.{
  Result, ok, err, ToolError, invalid_query, invalid_cursor, ◌>>=◌, ◌>>◌,
}
use mcp_dev_runtime.Runtime.Utf8.{continuation, utf8_prefix}
use mcp_dev_runtime.Runtime.OutputLog.{LogChunk}
use mcp_dev_runtime.Runtime.PatchParser.Grammar.{is_nil}

pub record LogSource : Type 0 where
  pub end : ℕ
  pub retained_from : ℕ
  pub read : Number → ℕ → Result LogChunk

pub record LogQuery : Type 0 where
  pub tail_lines : Option Number
  pub search : Option Bytes
  pub max_matches : Option Number
  pub output_cursor : Option Number

abbrev pub scan_bytes : ℕ
scan_bytes = 1024 * 1024

-- `boundary`, with the bytes left to look at
unfoldable pub boundary_loop : ℕ → Bytes → ℕ → ℕ
boundary_loop zero bytes at = at
boundary_loop (suc left) bytes at =
    let further = boundary_loop left bytes (at + 1) in
    if ltb at (length bytes) && continuation (get_or bytes at 0) then further else at

unfoldable pub boundary : Bytes → ℕ → ℕ
boundary bytes at = boundary_loop (length bytes - at) bytes at

abbrev pub given {ℓ} : {A : Type ℓ} → Option A → Bool
given none = false
given (some a) = true

-- `!Number.isInteger(n) || n < 1 || n > high`
unfoldable pub outside : ℕ → Number → Bool
outside high (whole n) = ltb n 1 || ltb high n
outside high other = true

unfoldable pub bad_tail : Option Number → Bool
bad_tail none = false
bad_tail (some n) = outside 10000 n

unfoldable pub bad_search : Option Bytes → Bool
bad_search none = false
bad_search (some s) = is_nil s || ltb 1024 (length s)

unfoldable pub bad_matches : Option Bytes → Option Number → Bool
bad_matches search none = false
bad_matches search (some n) = not (given search) || outside 100 n

-- `validateQuery`; `typed` says that there are characters to write.
unfoldable pub validate_query : LogQuery → Bool → Result (Unit {0})
validate_query q typed =
    if bad_tail q.tail_lines
    then err invalid_query
    else if bad_search q.search
    then err invalid_query
    else if given q.tail_lines && (given q.search || given q.output_cursor)
    then err invalid_query
    else if bad_matches q.search q.max_matches
    then err invalid_query
    else if typed && (given q.tail_lines || given q.search)
    then err invalid_query
    else ok tt

-- `e.code === 'INVALID_CURSOR'`
unfoldable pub is_invalid_cursor : ToolError → Bool
is_invalid_cursor invalid_cursor = true
is_invalid_cursor _ = false

-- The loop that looks for a boundary from which the window can be read, with the place it ends at.
unfoldable pub locate : ℕ → LogSource → ℕ → Result (ℕ × LogChunk)
locate zero source from = err invalid_cursor
locate (suc left) source from =
    let further = locate left source (from + 1) in
    elim (source.read (whole from) scan_bytes) [
      | ok chunk ↦ ok (from, chunk)
      | err e ↦ if is_invalid_cursor e then further else err e
    ]

-- The loop back over the bytes, of which the first `left` are left to look at: the place behind the
-- line feed that makes the lines full.
unfoldable pub back_lines : ℕ → ℕ → Bytes → Option ℕ
back_lines zero lines bytes = none
back_lines (suc left) lines bytes =
    let last = back_lines left (lines - 1) bytes in
    let more = back_lines left lines bytes in
    if get_or bytes left 0 == 10 then (if lines == 1 then some (suc left) else last) else more

-- A final line feed is not counted.
unfoldable pub counted : Bytes → ℕ
counted bytes =
    if ltb 0 (length bytes) && get_or bytes (length bytes - 1) 0 == 10
    then length bytes - 1
    else length bytes

pub record TailChunk : Type 0 where
  pub output : Bytes
  pub output_start : ℕ
  pub next_output_cursor : ℕ
  pub tail_truncated : Bool
  pub tail_window_limited : Bool

-- `if (i < 0) at = 0`
unfoldable pub desired_at : Option ℕ → ℕ
desired_at none = 0
desired_at (some at) = at

unfoldable pub tail_chunk : LogSource → ℕ → ℕ → ℕ → LogChunk → TailChunk
tail_chunk source lines budget from chunk =
    let bytes = chunk.output in
    let found = back_lines (counted bytes) lines bytes in
    let desired = desired_at found in
    let limited = ltb source.retained_from from && not (given found) in
    let at = boundary bytes (max desired (length bytes - budget)) in
    record {
      output = drop at bytes;
      output_start = chunk.output_start + at;
      next_output_cursor = chunk.next_output_cursor;
      tail_truncated = ltb desired at || limited;
      tail_window_limited = limited;
    }

unfoldable pub tail_query : LogSource → ℕ → ℕ → Result TailChunk
tail_query source lines budget = do
  (from, chunk) ← locate 4 source (max source.retained_from (source.end - scan_bytes))
  ok (tail_chunk source lines budget from chunk)

-- Whether a text starts with another.
unfoldable pub at_start : Bytes → Bytes → Bool
at_start [] bytes = true
at_start (n ∷ needle) [] = false
at_start (n ∷ needle) (b ∷ bytes) = n == b && at_start needle bytes

-- bytes.indexOf(needle, at), on the bytes from `at` on
unfoldable pub index_from : Bytes → Bytes → ℕ → Option ℕ
index_from needle [] at = if is_nil needle then some at else none
index_from needle (b ∷ bytes) at =
    let further = index_from needle bytes (at + 1) in
    if at_start needle (b ∷ bytes) then some at else further

unfoldable pub index_of : Bytes → Bytes → ℕ → Option ℕ
index_of needle bytes at = index_from needle (drop at bytes) at

-- bytes.lastIndexOf(10, at): among the first `left` bytes
unfoldable pub last_line_feed : ℕ → Bytes → Option ℕ
last_line_feed zero bytes = none
last_line_feed (suc left) bytes =
    let earlier = last_line_feed left bytes in
    if ltb left (length bytes) && get_or bytes left 0 == 10 then some left else earlier

-- Where the preview of a match starts and ends.
unfoldable pub preview_left : Bytes → ℕ → ℕ
preview_left bytes found =
    let left = boundary bytes (found - 100) in
    elim (last_line_feed (suc (found - 1)) bytes) [
      | none ↦ left
      | some newline ↦ if leb left newline && ltb newline found then suc newline else left
    ]

unfoldable pub preview_right : Bytes → ℕ → ℕ
preview_right bytes behind =
    let right = min (length bytes) (behind + 200) in
    elim (index_of (10 ∷ []) bytes behind) [ none ↦ right | some line_end ↦ min right line_end ]

unfoldable pub preview : Bytes → ℕ → ℕ → ℕ → Bytes
preview bytes found behind room =
    utf8_prefix (slice (preview_left bytes found) (preview_right bytes behind) bytes) (min 512 room)

pub record Match : Type 0 where
  pub byte_offset : ℕ
  pub text : Bytes
  pub preview_truncated : Bool

-- `left > newline + 1 || left + preview.length < (endline < 0 ? bytes.length : endline)`
unfoldable pub cut_preview : Bytes → ℕ → ℕ → Bytes → Bool
cut_preview bytes found behind text =
    let left = preview_left bytes found in
    let first : ℕ = elim (last_line_feed (suc (found - 1)) bytes) [
      | none ↦ 0
      | some newline ↦ suc newline
    ] in
    let last : ℕ = elim (index_of (10 ∷ []) bytes behind) [
      | none ↦ length bytes
      | some line_end ↦ line_end
    ] in
    ltb first left || ltb (left + length text) last

unfoldable pub match_at : ℕ → Bytes → ℕ → ℕ → Bytes → Match
match_at start bytes found behind text = record {
  byte_offset = start + found;
  text = text;
  preview_truncated = cut_preview bytes found behind text;
}

-- What the loop over the matches ends with: the matches, `at` and `consumed`.
pub record Scan : Type 0 where
  pub matches : List Match
  pub at : ℕ
  pub consumed : ℕ

-- `matches.length >= limit || used + cost > budget || (!preview.length && needle.length)`, where
-- `limit` and `used` are of the matches still allowed and of the budget used
abbrev pub is_over : Bytes → ℕ → ℕ → ℕ → Bytes → Bool
is_over needle budget limit used text =
    limit == 0 || ltb budget (used + (length text + 96)) || (is_nil text && not (is_nil needle))

abbrev pub no_more : ℕ → ℕ → Scan
no_more at consumed = record { matches = []; at = at; consumed = consumed }

abbrev pub last_match : Match → ℕ → Scan
last_match m behind = record { matches = m ∷ []; at = behind; consumed = behind }

abbrev pub one_match : Match → Scan → Scan
one_match m rest = record rest { matches = m ∷ rest.matches }

-- The end of a round in which a match was found, with the rounds that follow.
unfoldable pub search_match : Bytes → Bytes → ℕ → ℕ → ℕ → ℕ → ℕ → ℕ → Bytes → Scan → Scan
search_match needle bytes start budget limit used at found text rest =
    let behind = found + length needle in
    let m = match_at start bytes found behind text in
    if is_over needle budget limit used text
    then no_more at found
    else if leb (length bytes) behind
    then last_match m behind
    else one_match m rest

-- The loop over the matches; `start` is the place of the bytes in the log. A match that is taken moves
-- on by a byte at least.
unfoldable pub search_loop : ℕ → Bytes → Bytes → ℕ → ℕ → ℕ → ℕ → ℕ → Scan
search_loop zero needle bytes start budget limit used at = no_more at at
search_loop (suc rounds) needle bytes start budget limit used at = elim (index_of needle bytes at) [
  | none ↦ no_more at (length bytes)
  | some found ↦
      let text = preview bytes found (found + length needle) (budget - used - 96) in
      search_match needle bytes start budget limit used at found text (
        search_loop rounds needle bytes start budget (limit - 1) (used + (length text + 96))
          (found + length needle))
]

-- `while (consumed > at && consumed < bytes.length && continuation(bytes[consumed]!)) consumed--`
unfoldable pub back_to_start : Bytes → ℕ → ℕ → ℕ
back_to_start bytes at zero = zero
back_to_start bytes at (suc consumed) =
    let earlier = back_to_start bytes at consumed in
    if ltb at (suc consumed)
      && ltb (suc consumed) (length bytes)
      && continuation (get_or bytes (suc consumed) 0)
    then earlier
    else suc consumed

-- What is carried over to the next scan.
unfoldable pub consumed_bytes : Bytes → Bytes → Bool → Scan → ℕ
consumed_bytes needle bytes has_more scan =
    if scan.consumed == length bytes && has_more
    then back_to_start bytes scan.at (max scan.at (length bytes + 1 - length needle))
    else scan.consumed

pub record SearchChunk : Type 0 where
  pub output_start : ℕ
  pub output_gap : Bool
  pub matches : List Match
  pub search_next_cursor : ℕ
  pub search_has_more : Bool
  pub search_scan_end : ℕ

unfoldable pub search_chunk : LogSource → Bytes → ℕ → ℕ → LogChunk → SearchChunk
search_chunk source needle limit budget chunk =
    let bytes = chunk.output in
    let scan = search_loop (suc (length bytes)) needle bytes chunk.output_start budget limit 0 0 in
    let next = chunk.output_start + consumed_bytes needle bytes chunk.has_more scan in
    record {
      output_start = chunk.output_start;
      output_gap = chunk.output_gap;
      matches = scan.matches;
      search_next_cursor = next;
      search_has_more = ltb next source.end;
      search_scan_end = chunk.next_output_cursor;
    }

-- `q.max_matches ?? 20`, a number that is checked
unfoldable pub limit_of : Option Number → ℕ
limit_of none = 20
limit_of (some (whole n)) = n
limit_of (some other) = 0

pub data QueryChunk : Type 0 where
  tail : TailChunk → QueryChunk
  search : SearchChunk → QueryChunk

unfoldable pub run_search : LogSource → LogQuery → ℕ → Option Bytes → Result QueryChunk
run_search source q budget none = err invalid_query
run_search source q budget (some needle) = do
  chunk ←
      source.read (elim q.output_cursor [ none ↦ whole source.retained_from | some c ↦ c ])
        scan_bytes
  ok (search (search_chunk source needle (limit_of q.max_matches) budget chunk))

-- `queryLog`. After the check, `tail_lines` is a whole number.
unfoldable pub query_log : LogSource → LogQuery → ℕ → Result QueryChunk
query_log source q budget = do
  validate_query q false
  elim q.tail_lines [
    | none ↦ run_search source q budget q.search
    | some n ↦ elim n [
      | whole lines ↦ do found ← tail_query source lines budget; ok (tail found)
      | other ↦ err invalid_query
    ]
  ]
