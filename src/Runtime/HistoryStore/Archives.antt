-- ===== src/Runtime/HistoryStore/Archives.antt =====
-- read of src/runtime/history-store.ts: the archived output of an execution.
pub mod Contents
use mcp_dev_runtime.Base.{
  ℕ, zero, suc, ◌+◌, ◌-◌, ◌*◌, min, Bool, true, false, not, ◌&&◌, ◌||◌, Option, none, some, List,
  [], ◌∷◌, ◌++◌, ltb, leb, ◌==◌, if◌then◌else◌, length, String, Number, whole, other, Bytes, codes,
  max_safe_integer,
}
use mcp_dev_runtime.Base.JsMap.{string_discrete, get}
use mcp_dev_runtime.Base.Text.{Text}
use mcp_dev_runtime.Runtime.Errors.{
  Result, ok, err, ◌>>=◌, ◌>>◌, invalid_history_id, invalid_cursor, history_not_found,
  output_not_recorded, history_log_corrupt, history_log_shortened,
}
use mcp_dev_runtime.Runtime.Utf8.{continuation, utf8_prefix}
use mcp_dev_runtime.Runtime.OutputLog.{LogChunk}
use mcp_dev_runtime.Runtime.LogQuery.{LogQuery, LogSource, QueryChunk, given, query_log}
use mcp_dev_runtime.Runtime.HistoryStore.{HistoryRecord, Entry, HistoryStore}
use mcp_dev_runtime.Runtime.HistoryStore.Listing.{Phase, available}

-- The test ID: groups of 8, 4, 4, 4 and 12 hexadecimal digits, a dot and a number of 16 digits at most.
unfoldable pub is_hex : ℕ → Bool
is_hex c = (leb 48 c && leb c 57) || (leb 97 c && leb c 102)

unfoldable pub is_number : ℕ → Text → Bool
is_number digits [] = true
is_number zero (c ∷ t) = false
is_number (suc digits) (c ∷ t) = leb 48 c && leb c 57 && is_number digits t

unfoldable pub is_serial : Text → Bool
is_serial [] = false
is_serial (c ∷ t) = leb 49 c && leb c 57 && is_number 15 t

unfoldable pub has_groups : ℕ → List ℕ → Text → Bool
has_groups (suc left) groups (c ∷ t) = is_hex c && has_groups left groups t
has_groups (suc left) groups [] = false
has_groups zero groups [] = false
has_groups zero [] (c ∷ t) = c == 46 && is_serial t
has_groups zero (n ∷ groups) (c ∷ t) = c == 45 && has_groups n groups t

unfoldable pub is_id : Text → Bool
is_id id = has_groups 8 (4 ∷ 4 ∷ 4 ∷ 12 ∷ []) id

-- `file` reads at a position at most a length; `is_utf8` is what the fatal decoder accepts.
module _ (file : ℕ → ℕ → Bytes) (is_utf8 : Bytes → Bool) where
  -- The loop that fills the buffer; a round reads at least a byte.
  unfoldable pub fill : ℕ → ℕ → ℕ → Bytes → Bytes
  fill zero cursor size bytes = bytes
  fill (suc rounds) cursor size bytes = elim (ltb (length bytes) size) [
    | false ↦ bytes
    | true ↦ elim (file (cursor + length bytes) (size - length bytes)) [
      | [] ↦ bytes
      | b ∷ bs ↦ fill rounds cursor size (bytes ++ (b ∷ bs))
    ]
  ]

  unfoldable pub starts_within : Bytes → Bool
  starts_within [] = false
  starts_within (b ∷ bs) = continuation b

  unfoldable pub chunk_of : ℕ → ℕ → ℕ → Bytes → Result LogChunk
  chunk_of end cursor budget selected =
      if not (is_utf8 selected)
      then err history_log_corrupt
      else if ltb (cursor + length selected) end && length selected == 0 && ltb 3 budget
      then err history_log_shortened
      else ok (record {
        output = selected;
        output_start = cursor;
        next_output_cursor = cursor + length selected;
        has_more = ltb (cursor + length selected) end;
        retained_from = 0;
        output_gap = false;
        total_output_bytes = end;
      })

  unfoldable pub read_bytes : ℕ → ℕ → ℕ → Result LogChunk
  read_bytes end cursor budget =
      let size = min (end - cursor) (budget + 4) in
      let buffer = fill size cursor size [] in
      if starts_within buffer
      then err invalid_cursor
      else chunk_of end cursor budget (utf8_prefix buffer budget)

  unfoldable pub read_archive : ℕ → Number → ℕ → Result LogChunk
  read_archive end other budget = err invalid_cursor
  read_archive end (whole cursor) budget =
      if ltb max_safe_integer cursor || ltb end cursor
      then err invalid_cursor
      else read_bytes end cursor budget

  unfoldable pub source_of : ℕ → LogSource
  source_of end = record { end = end; retained_from = 0; read = read_archive end }

-- `q.output_cursor ?? 0`
unfoldable pub cursor_or_start : Option Number → Number
cursor_or_start none = whole 0
cursor_or_start (some cursor) = cursor

-- The output of an answer: a part of the log, or what a query found.
pub data ArchivedOutput : Type 0 where
  chunk : LogChunk → ArchivedOutput
  found : QueryChunk → ArchivedOutput

pub record ArchiveAnswer : Type 0 where
  pub archived : HistoryRecord
  pub output : ArchivedOutput
  pub max_output_tokens : ℕ
  pub archive_output_bytes : ℕ

module _ (file : String → ℕ → ℕ → Bytes) (is_utf8 : Bytes → Bool) where
  unfoldable pub read_output : String → ℕ → LogQuery → ℕ → Result ArchivedOutput
  read_output id end q budget =
      if given q.tail_lines || given q.search
      then (do queried ← query_log (source_of (file id) is_utf8 end) q budget; ok (found queried))
      else (do
        part ← read_archive (file id) is_utf8 end (cursor_or_start q.output_cursor) budget
        ok (chunk part))

  unfoldable pub read_entry : String → Option Entry → LogQuery → ℕ → Result ArchiveAnswer
  read_entry id none q tokens = err history_not_found
  read_entry id (some e) q tokens =
      if not e.archived.capture_output then err output_not_recorded else (do
        output ← read_output id e.log_bytes q (min (tokens * 4) 65536)
        ok (record {
          archived = e.archived;
          output = output;
          max_output_tokens = tokens;
          archive_output_bytes = e.log_bytes;
        }))

  unfoldable pub read : Phase → String → LogQuery → ℕ → HistoryStore → Result ArchiveAnswer
  read phase id q tokens s = do
    available phase
    if is_id (codes id) then ok tt else err invalid_history_id
    read_entry id (get string_discrete id s.entries) q tokens
