-- ===== src/Runtime/HistoryStore/Saving.antt =====
-- save and start of src/runtime/history-store.ts.
use mcp_dev_runtime.Base.{
  ℕ, ◌+◌, ◌-◌, Bool, true, false, not, ◌&&◌, none, some, [], ltb, if◌then◌else◌, String,
}
use mcp_dev_runtime.Base.JsMap.{string_discrete, set, delete}
use mcp_dev_runtime.Runtime.Errors.{Result, ok, err, internal}
use mcp_dev_runtime.Runtime.HistoryStore.Filter.{Outcome}
use mcp_dev_runtime.Runtime.HistoryStore.{
  HistoryRecord, Entry, Limits, HistoryStore, max_meta, add, without, make_room,
}

-- The entry of an id is an object that is shared with the map: a change of it is one in the map.
unfoldable pub put : String → Entry → HistoryStore → HistoryStore
put id e s = record s { entries = set string_discrete id e s.entries }

-- What the disk does: whether the files of an archive could be unlinked, and whether its files
-- could be opened, flushed and written.
pub record Disk : Type 0 where
  pub unlinked : String → Bool
  pub opened : Bool
  pub synced : Bool
  pub replaced : Bool

-- The metadata file is replaced, when room has been made or not.
unfoldable pub save_in :
    Disk → String → Entry → ℕ → HistoryStore × Result (Unit {0}) → HistoryStore × Result (Unit {0})
save_in disk id e size (roomy, err thrown) = (roomy, err thrown)
save_in disk id e size (roomy, ok _) =
    if disk.replaced
    then (
      put id (record e { meta_bytes = size })
          (record roomy { bytes = roomy.bytes + size - e.meta_bytes }),
      ok tt,
    )
    else (roomy, err internal)

-- `save`; `size` is the length of the record's JSON text.
unfoldable pub save :
    Limits → Disk → String → Entry → ℕ → HistoryStore → HistoryStore × Result (Unit {0})
save limits disk id e size s =
    if ltb max_meta size
    then (s, err internal)
    else save_in disk id e size (make_room limits disk.unlinked size 0 (some id) s)

-- The record of a new archive.
unfoldable pub new_record : ℕ → Outcome → Bool → HistoryRecord
new_record seq outcome capture = record {
  seq = seq;
  outcome = outcome;
  total_output_bytes = 0;
  captured_output_bytes = 0;
  capture_output = capture;
  output_truncated = false;
  warning = none;
}

unfoldable pub new_entry : HistoryRecord → Entry
new_entry r = record {
  archived = r;
  meta_bytes = 0;
  log_bytes = 0;
  reserved_bytes = 0;
  pending = [];
  queued = false;
  accepting = r.capture_output;
  write_failed = false;
}

-- The task fails: what it put in the maps is taken out again.
unfoldable pub undo_start : String → HistoryStore → HistoryStore
undo_start id s = record s {
  active = without id s.active;
  entries = delete string_discrete id s.entries;
}

-- What saving came to.
unfoldable pub started_or_not : String → HistoryStore × Result (Unit {0}) → HistoryStore × Bool
started_or_not id (saved, ok _) = (saved, true)
started_or_not id (saved, err _) = (undo_start id saved, false)

-- The files of a new entry are written.
unfoldable pub write_files : Limits → Disk → String → ℕ → HistoryStore × Entry → HistoryStore × Bool
write_files limits disk id size (s, e) =
    if e.archived.capture_output && not disk.opened
    then (undo_start id s, false)
    else started_or_not id (save limits disk id e size s)

unfoldable pub registered : String → Outcome → Bool → HistoryStore → HistoryStore × Entry
registered id outcome capture s =
    let e = new_entry (new_record (s.sequence + 1) outcome capture) in
    (
      record s {
        sequence = s.sequence + 1;
        entries = set string_discrete id e s.entries;
        active = add id s.active;
      },
      e,
    )

-- The new entry, when room has been made or not.
unfoldable pub start_in :
    Limits
    → Disk
    → String
    → Outcome
    → Bool
    → ℕ
    → HistoryStore × Result (Unit {0})
    → HistoryStore × Bool
start_in limits disk id outcome capture size (s, err _) = (s, false)
start_in limits disk id outcome capture size (s, ok _) =
    write_files limits disk id size (registered id outcome capture s)

-- The task of `start`, and whether the archive is there.
unfoldable pub start_task :
    Limits → Disk → String → Outcome → Bool → ℕ → HistoryStore → HistoryStore × Bool
start_task limits disk id outcome capture size s =
    start_in limits disk id outcome capture size (make_room limits disk.unlinked max_meta 1 none s)
