-- ===== src/Runtime/HistoryStore/Finishing.antt =====
-- finish and clear of src/runtime/history-store.ts.
use mcp_dev_runtime.Base.{
  ℕ, Bool, false, not, ◌&&◌, ◌||◌, none, some, List, [], ◌∷◌, ltb, if◌then◌else◌, String,
}
use mcp_dev_runtime.Base.JsMap.{string_discrete, get, keys}
use mcp_dev_runtime.Runtime.Errors.{Result, ok, err, history_busy}
use mcp_dev_runtime.Runtime.PatchParser.Grammar.{is_nil}
use mcp_dev_runtime.Runtime.HistoryStore.Filter.{Outcome}
use mcp_dev_runtime.Runtime.HistoryStore.{
  archive_finalize_failed, Entry, Limits, HistoryStore, without, remove,
}
use mcp_dev_runtime.Runtime.HistoryStore.Saving.{put, Disk, save}

-- The result of an execution.
pub record Ended : Type 0 where
  pub outcome : Outcome
  pub total_output_bytes : ℕ

unfoldable pub ended : Ended → Entry → Entry
ended result e = record e {
  accepting = false;
  archived = record e.archived {
    outcome = result.outcome;
    total_output_bytes = result.total_output_bytes;
  };
}

-- `output_truncated ||= …`
unfoldable pub truncated_if : Bool → Entry → Entry
truncated_if b e = record e {
  archived = record e.archived { output_truncated = e.archived.output_truncated || b };
}

unfoldable pub finalize_failed : Entry → Entry
finalize_failed e =
    let e' = truncated_if e.archived.capture_output e in
    record e' { archived = record e'.archived { warning = some archive_finalize_failed } }

unfoldable pub saved_or_not : String → Entry → HistoryStore × Result (Unit {0}) → HistoryStore
saved_or_not id e (s, ok _) = s
saved_or_not id e (s, err _) = put id (finalize_failed e) s

unfoldable pub finish_entry :
    Limits → Disk → String → Ended → Entry → ℕ → HistoryStore → HistoryStore
finish_entry limits disk id result e size s =
    let checked =
      truncated_if (e.archived.capture_output && ltb e.log_bytes result.total_output_bytes) e in
    if e.archived.capture_output && not disk.synced
    then put id (finalize_failed e) s
    else saved_or_not id checked (save limits disk id checked size (put id checked s))

-- The task of `finish`.
unfoldable pub finish_task : Limits → Disk → String → Ended → ℕ → HistoryStore → HistoryStore
finish_task limits disk id result size s = elim (get string_discrete id s.entries) [
  | none ↦ s
  | some e ↦
      let after = finish_entry limits disk id result (ended result e) size s in
      record after { active = without id after.active }
]

-- The task of `clear`: the first removal that fails ends it.
unfoldable pub remove_all : Disk → List String → HistoryStore → HistoryStore × Result (Unit {0})
remove_all disk [] s = (s, ok tt)
remove_all disk (id ∷ ids) s =
    let (removed, outcome) = remove disk.unlinked id s in
    let rest = remove_all disk ids removed in
    elim outcome [ err thrown ↦ (removed, err thrown) | ok _ ↦ rest ]

unfoldable pub clear : Disk → HistoryStore → HistoryStore × Result (Unit {0})
clear disk s =
    if not (is_nil s.active)
    then (s, err history_busy)
    else ((remove_all disk (keys s.entries) s).0, ok tt)
