-- ===== src/Runtime/HistoryStore/Appending.antt =====
-- append of src/runtime/history-store.ts: the call, and the task that it puts in the queue.
use mcp_dev_runtime.Base.{
  ℕ, ◌+◌, ◌-◌, min, Bool, true, false, not, ◌||◌, Option, none, some, [], ◌++◌, ltb, if◌then◌else◌,
  length, String, Bytes,
}
use mcp_dev_runtime.Base.JsMap.{string_discrete, get}
use mcp_dev_runtime.Runtime.Errors.{Result, ok, err}
use mcp_dev_runtime.Runtime.Utf8.{utf8_prefix}
use mcp_dev_runtime.Runtime.PatchParser.Grammar.{is_nil}
use mcp_dev_runtime.Runtime.HistoryStore.{
  archive_queue_limit, archive_log_limit, archive_write_failed, Entry, Limits, HistoryStore,
  max_meta, make_room,
}
use mcp_dev_runtime.Runtime.HistoryStore.Saving.{put, Disk}

-- What of a text an entry still takes.
unfoldable pub room_for : Limits → Entry → HistoryStore → ℕ
room_for limits e s =
    min (limits.max_log_bytes - e.reserved_bytes) (limits.max_pending_bytes - s.pending_bytes)

unfoldable pub cut_short : Limits → ℕ → Entry → Entry
cut_short limits maximum e = record e {
  accepting = false;
  archived = record e.archived {
    output_truncated = true;
    warning = some (
        if ltb maximum (limits.max_log_bytes - e.reserved_bytes)
        then archive_queue_limit
        else archive_log_limit);
  };
}

unfoldable pub enqueue_bytes : String → Bytes → Entry → HistoryStore → HistoryStore
enqueue_bytes id kept e s =
    put id
      (record e {
        pending = e.pending ++ kept;
        reserved_bytes = e.reserved_bytes + length kept;
        queued = true;
      })
      (record s { pending_bytes = s.pending_bytes + length kept })

-- The part of a text that is kept, with the entry marked when it is not all of it.
unfoldable pub append_kept :
    Limits → String → Bytes → Bytes → ℕ → Entry → HistoryStore → HistoryStore
append_kept limits id bytes kept maximum e s =
    let marked = if ltb (length kept) (length bytes) then cut_short limits maximum e else e in
    if is_nil kept then put id marked s else enqueue_bytes id kept marked s

-- `append`, for a store that is not closing.
unfoldable pub append : Limits → String → Bytes → HistoryStore → HistoryStore
append limits id bytes s = elim (get string_discrete id s.entries) [
  | none ↦ s
  | some e ↦
      if not e.archived.capture_output || not e.accepting
      then s
      else append_kept limits id bytes (utf8_prefix bytes (room_for limits e s))
          (room_for limits e s) e s
]

-- Writing the waiting bytes: whether it succeeds, and the length of the file, if it can be read,
-- after a failed write and without one.
pub record Writing : Type 0 where
  pub complete : Bool
  pub stat : Option ℕ
  pub untouched : Option ℕ

unfoldable pub complete_write : String → ℕ → Entry → HistoryStore → HistoryStore
complete_write id size e s =
    put id
      (record e {
        log_bytes = e.log_bytes + size;
        archived = record e.archived { captured_output_bytes = e.log_bytes + size };
      })
      (record s { bytes = s.bytes + size })

unfoldable pub stop_writing : Entry → Entry
stop_writing e = record e {
  accepting = false;
  write_failed = true;
  archived = record e.archived { output_truncated = true; warning = some archive_write_failed };
}

unfoldable pub failed_write : String → Option ℕ → Entry → HistoryStore → HistoryStore
failed_write id none e s = put id (stop_writing e) s
failed_write id (some size) e s =
    put id
      (record (stop_writing e) {
        log_bytes = size;
        archived = record (stop_writing e).archived { captured_output_bytes = size };
      })
      (record s { bytes = s.bytes + size - e.log_bytes })

-- The write itself, when room has been made or not.
unfoldable pub write_in :
    Writing → String → ℕ → Entry → HistoryStore × Result (Unit {0}) → HistoryStore
write_in writing id size e (roomy, err _) = failed_write id writing.untouched e roomy
write_in writing id size e (roomy, ok _) =
    if writing.complete
    then complete_write id size e roomy
    else failed_write id writing.stat e roomy

unfoldable pub write_chunk :
    Limits → Disk → Writing → String → ℕ → Entry → HistoryStore → HistoryStore
write_chunk limits disk writing id size e s =
    if e.write_failed
    then s
    else write_in writing id size e (make_room limits disk.unlinked (size + max_meta) 0 (some id) s)

-- The task that `append` puts in the queue.
unfoldable pub flush_task : Limits → Disk → Writing → String → HistoryStore → HistoryStore
flush_task limits disk writing id s = elim (get string_discrete id s.entries) [
  | none ↦ s
  | some e ↦
      let taken = record e { pending = []; queued = false } in
      let after = write_chunk limits disk writing id (length e.pending) taken (put id taken s) in
      record after { pending_bytes = after.pending_bytes - length e.pending }
]
