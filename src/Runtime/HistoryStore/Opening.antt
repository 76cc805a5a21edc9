-- ===== src/Runtime/HistoryStore/Opening.antt =====
-- The archives that initialize of src/runtime/history-store.ts finds in the directory.
use mcp_dev_runtime.Base.{
  ℕ, ◌+◌, true, false, ◌&&◌, ◌||◌, max, none, some, [], ◌∷◌, ltb, if◌then◌else◌, String, codes,
}
use mcp_dev_runtime.Base.JsMap.{JsMap, string_discrete, set}
use mcp_dev_runtime.Runtime.Errors.{Result}
use mcp_dev_runtime.Runtime.HistoryStore.Filter.{closed_state}
use mcp_dev_runtime.Runtime.HistoryStore.{
  archive_log_shortened, previous_instance_outcome_unconfirmed, HistoryRecord, Entry, Limits,
  HistoryStore, make_room,
}
use mcp_dev_runtime.Runtime.HistoryStore.Saving.{Disk}

-- The files of an archive: its validated record, the size of that file, and the size of its log, which
-- is 0 if there is none.
pub record Found : Type 0 where
  pub archived : HistoryRecord
  pub meta_bytes : ℕ
  pub log_bytes : ℕ

-- The store before it is initialised.
abbrev pub empty : HistoryStore
empty = record {
  entries = [];
  active = [];
  sequence = 0;
  bytes = 0;
  pending_bytes = 0;
  evicted = 0;
}

unfoldable pub shortened : ℕ → HistoryRecord → HistoryRecord
shortened log_bytes r =
    if r.capture_output && ltb log_bytes r.captured_output_bytes
    then record r { warning = some archive_log_shortened; output_truncated = true }
    else r

-- `!closedState(r.state)`: what became of the process is not known.
unfoldable pub unconfirmed : HistoryRecord → HistoryRecord
unconfirmed r = if closed_state r.outcome.state then r else record r {
  outcome = record r.outcome { state = codes "unknown"; exit_code = none };
  output_truncated = r.output_truncated || r.capture_output;
  warning = some previous_instance_outcome_unconfirmed;
}

unfoldable pub found_entry : Found → Entry
found_entry f =
    let r = unconfirmed (shortened f.log_bytes f.archived) in
    record {
      archived = record r {
        captured_output_bytes = f.log_bytes;
        total_output_bytes = max r.total_output_bytes f.log_bytes;
      };
      meta_bytes = f.meta_bytes;
      log_bytes = f.log_bytes;
      reserved_bytes = f.log_bytes;
      pending = [];
      queued = false;
      accepting = false;
      write_failed = false;
    }

unfoldable pub load : String → Found → HistoryStore → HistoryStore
load id f s = record s {
  entries = set string_discrete id (found_entry f) s.entries;
  bytes = s.bytes + (f.meta_bytes + f.log_bytes);
  sequence = max s.sequence f.archived.seq;
}

-- The loop over the files of the directory.
unfoldable pub load_all : JsMap String Found → HistoryStore → HistoryStore
load_all [] s = s
load_all ((id, f) ∷ files) s = load_all files (load id f s)

-- The store is ready if this returns; `disk` is as it is for the files that are removed.
unfoldable pub initialize : Limits → Disk → JsMap String Found → HistoryStore × Result (Unit {0})
initialize limits disk files = make_room limits disk.unlinked 0 0 none (load_all files empty)
