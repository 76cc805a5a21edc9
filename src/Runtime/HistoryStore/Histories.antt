-- ===== src/Runtime/HistoryStore/Histories.antt =====
-- The stores of src/runtime/history-store.ts that any sequence of calls and tasks reaches.
use mcp_dev_runtime.Base.{ℕ, Bool, none, ◌≡◌, String, Bytes}
use mcp_dev_runtime.Base.JsMap.{JsMap, string_discrete, get, IsMap}
use mcp_dev_runtime.Runtime.HistoryStore.Filter.{Outcome}
use mcp_dev_runtime.Runtime.HistoryStore.{Limits, HistoryStore}
use mcp_dev_runtime.Runtime.HistoryStore.Saving.{Disk, start_task}
use mcp_dev_runtime.Runtime.HistoryStore.Appending.{append, Writing, flush_task}
use mcp_dev_runtime.Runtime.HistoryStore.Finishing.{Ended, finish_task, clear}
use mcp_dev_runtime.Runtime.HistoryStore.Opening.{Found, initialize}
use mcp_dev_runtime.Runtime.HistoryStore.Validity.{IsValid}
use mcp_dev_runtime.Runtime.HistoryStore.Validity.Appends.{append-IsValid}
use mcp_dev_runtime.Runtime.HistoryStore.Validity.Writes.{IsWritingFor, flush_task-IsValid}
use mcp_dev_runtime.Runtime.HistoryStore.Validity.Saves.{HasEnded, finish_task-IsQuietValid}
use mcp_dev_runtime.Runtime.HistoryStore.Validity.Starts.{start_task-IsValid}
use mcp_dev_runtime.Runtime.HistoryStore.Validity.Opens.{initialize-IsValid}
use mcp_dev_runtime.Runtime.HistoryStore.Validity.Clears.{clear-IsValid}
use mcp_dev_runtime.Runtime.Errors.{ok}

-- A store that has been initialised, with what archives the directory has, and calls and tasks in any
-- order: an archive is started under a new id, its end is recorded when its output has been written, and
-- the disk may fail in each task.
pub data IsReached (limits : Limits) : HistoryStore → Type 0 where
  opened :
      (disk : Disk) (files : JsMap String Found)
      → IsMap string_discrete files
      → (initialize limits disk files).1 ≡ ok tt
      → IsReached limits (initialize limits disk files).0
  started :
      (disk : Disk) (id : String) (outcome : Outcome) (capture : Bool) (size : ℕ) (s : HistoryStore)
      → get string_discrete id s.entries ≡ none
      → IsReached limits s
      → IsReached limits (start_task limits disk id outcome capture size s).0
  appended :
      (id : String) (bytes : Bytes) (s : HistoryStore)
      → IsReached limits s
      → IsReached limits (append limits id bytes s)
  flushed :
      (disk : Disk) (writing : Writing) (id : String) (s : HistoryStore)
      → IsWritingFor s id writing
      → IsReached limits s
      → IsReached limits (flush_task limits disk writing id s)
  finished :
      (disk : Disk) (id : String) (result : Ended) (size : ℕ) (s : HistoryStore)
      → HasEnded s id
      → IsReached limits s
      → IsReached limits (finish_task limits disk id result size s)
  cleared :
      (disk : Disk) (s : HistoryStore) → IsReached limits s → IsReached limits (clear disk s).0

-- In every store that an initialised one comes to by calls and tasks, the archives and their bytes are
-- within the limits of the store, what is counted is what they take on disk and have waiting, no archive
-- that takes output has reserved more than the limit of a log, and only an active archive takes output
-- or has some waiting. The conditions are those of the steps: the files that are found have different
-- names and room is made for them, a new archive has a new id, the output of an archive is written
-- before its end is recorded, and a write that fails adds no more than was to be written.
pub reached-IsValid : (limits : Limits) (s : HistoryStore) → IsReached limits s → IsValid limits 0 s
reached-IsValid limits _ (opened disk files unique ready) =
    initialize-IsValid limits disk files unique ready
reached-IsValid limits _ (started disk id outcome capture size s new r) =
    start_task-IsValid limits disk id outcome capture size s new (reached-IsValid limits s r)
reached-IsValid limits _ (appended id bytes s r) =
    append-IsValid limits 0 id bytes s (reached-IsValid limits s r)
reached-IsValid limits _ (flushed disk writing id s w r) =
    flush_task-IsValid limits disk writing id s w (reached-IsValid limits s r)
reached-IsValid limits _ (finished disk id result size s done r) =
    (finish_task-IsQuietValid limits disk id result size s done (reached-IsValid limits s r)).0
reached-IsValid limits _ (cleared disk s r) =
    clear-IsValid disk limits s (reached-IsValid limits s r)
