-- ===== src/Runtime/HistoryStore/Checks.antt =====
-- Tests of the history store, and its theorems at concrete inputs.
use mcp_dev_runtime.Base.{
  ℕ, min, [], ◌∷◌, take, drop, Bytes, true, false, none, some, ◌≡◌, refl, arith, String, codes,
  whole,
}
use mcp_dev_runtime.Base.JsMap.{JsMap, string_discrete, get, set}
use mcp_dev_runtime.Base.Text.{equal}
use mcp_dev_runtime.Runtime.HistoryStore.Filter.{
  Outcome, HistoryFilter, closed_state, matches_filter, differs, lacks_label, refuses_outcome,
}
use mcp_dev_runtime.Runtime.HistoryStore.{Limits, Entry, HistoryStore, make_room, fits}
use mcp_dev_runtime.Base.Sorting.{insert_by, sort_by}
use mcp_dev_runtime.Runtime.Errors.{ok}
use mcp_dev_runtime.Runtime.Utf8.{utf8_prefix, back_to_boundary, continuation}
use mcp_dev_runtime.Runtime.OutputLog.{LogChunk}
use mcp_dev_runtime.Runtime.HistoryStore.Listing.{
  records, eligible, is_listed, is_behind, stands_before, last,
}
use mcp_dev_runtime.Runtime.HistoryStore.Listing.Paging.{AreNumbered, eligible-last}
use mcp_dev_runtime.Runtime.HistoryStore.Archives.{
  read_archive, read_bytes, fill, starts_within, chunk_of,
}
use mcp_dev_runtime.Runtime.HistoryStore.Archives.Contents.{
  IsFile, IsArchived, read_archive-IsArchived,
}
use mcp_dev_runtime.Runtime.HistoryStore.Capacity.{HasRoom, make_room-HasRoom}
use mcp_dev_runtime.Runtime.HistoryStore.Saving.{Disk, start_task, new_record}
use mcp_dev_runtime.Runtime.HistoryStore.Appending.{append, Writing, flush_task}
use mcp_dev_runtime.Runtime.HistoryStore.Validity.{IsValid}
use mcp_dev_runtime.Runtime.HistoryStore.Validity.Writes.{IsWritingFor}
use mcp_dev_runtime.Runtime.HistoryStore.Opening.{Found, initialize, load_all, load, found_entry}
use mcp_dev_runtime.Runtime.HistoryStore.Histories.{
  IsReached, opened, started, appended, flushed, reached-IsValid,
}

abbrev running : Outcome
running = record { state = codes "running"; exit_code = none; workdir = codes "/w"; label = none }

abbrev exited : Outcome
exited = record {
  state = codes "exited";
  exit_code = some (whole 0);
  workdir = codes "/w";
  label = none;
}

exited-closed_state : closed_state exited.state ≡ true
unfolding closed_state equal
exited-closed_state = refl

running-closed_state : closed_state running.state ≡ false
unfolding closed_state equal
running-closed_state = refl

abbrev limits : Limits
limits = record {
  max_records = 2;
  max_total_bytes = 30000;
  max_log_bytes = 4;
  max_pending_bytes = 3;
}

abbrev disk : Disk
disk = record { unlinked = λ _. true; opened = true; synced = true; replaced = true }

-- An archive of an earlier run, of which the log is longer than the limit of a log is now.
abbrev files : JsMap String Found
files = ("z", record { archived = new_record 7 running true; meta_bytes = 90; log_bytes = 9 }) ∷ []

abbrev opened_store : HistoryStore
opened_store = (initialize limits disk files).0

opened-IsReached : IsReached limits opened_store
unfolding get initialize load_all load found_entry make_room fits set string_discrete
opened-IsReached = opened disk files (refl, tt) refl

opened_absent : get string_discrete "a" opened_store.entries ≡ none
unfolding get initialize load_all load found_entry make_room fits set string_discrete
opened_absent = refl

-- An archive of 100 bytes of metadata behind it.
abbrev one : HistoryStore
one = (start_task limits disk "a" running true 100 opened_store).0

one-IsReached : IsReached limits one
one-IsReached = started disk "a" running true 100 opened_store opened_absent opened-IsReached

one-IsValid : IsValid limits 0 one
one-IsValid = reached-IsValid limits one one-IsReached

make_room-HasRoom_example :
    HasRoom limits (λ _. true) 29950 0 none one (make_room limits (λ _. true) 29950 0 none one)
make_room-HasRoom_example = make_room-HasRoom limits (λ _. true) 29950 0 none one one-IsValid.sound

-- Four bytes of which three are taken.
abbrev two : HistoryStore
two = append limits "a" (codes "four") one

abbrev written : Writing
written = record { complete = true; stat = none; untouched = none }

written-IsWritingFor : (s : HistoryStore) (id : String) → IsWritingFor s id written
written-IsWritingFor s id e g = record {
  stat_ge = λ n h. absurd (ground (arith, h));
  stat_le = λ n h. absurd (ground (arith, h));
  same = λ n h. absurd (ground (arith, h));
}

reached-IsValid_example : IsValid limits 0 (flush_task limits disk written "a" two)
reached-IsValid_example = reached-IsValid limits (flush_task limits disk written "a" two) (
    flushed disk written "a" two (written-IsWritingFor two "a")
      (appended "a" (codes "four") one one-IsReached))

abbrev archived : ℕ → Outcome → Entry
archived seq outcome = record {
  archived = record {
    seq = seq;
    outcome = outcome;
    total_output_bytes = 0;
    captured_output_bytes = 0;
    capture_output = true;
    output_truncated = false;
    warning = none;
  };
  meta_bytes = 100;
  log_bytes = 0;
  reserved_bytes = 0;
  pending = [];
  queued = false;
  accepting = false;
  write_failed = false;
}

abbrev three : HistoryStore
three = record {
  entries = ("a", archived 1 exited) ∷ ("b", archived 3 running) ∷ ("c", archived 2 exited) ∷ [];
  active = [];
  sequence = 3;
  bytes = 300;
  pending_bytes = 0;
  evicted = 0;
}

abbrev any : HistoryFilter
any = record { state = none; workdir = none; label = none; outcome = none }

three-AreNumbered : AreNumbered (records three)
unfolding records
three-AreNumbered = (
  (λ e. ground (arith, e), (λ e. ground (arith, e), tt)),
  ((λ e. ground (arith, e), tt), (tt, tt)),
)

three_second : last (take 2 (eligible true 3 100 any three)) ≡ some (archived 2 exited).archived
unfolding eligible records is_listed is_behind stands_before matches_filter differs lacks_label
    refuses_outcome sort_by insert_by last
three_second = refl

eligible-last_example : eligible true 3 2 any three ≡ drop 2 (eligible true 3 100 any three)
eligible-last_example =
    eligible-last true 3 100 2 any three (archived 2 exited).archived three-AreNumbered three_second

-- A log that is read two bytes at a time.
abbrev log : ℕ → ℕ → Bytes
log at n = take (min n 2) (drop at (codes "abcde"))

log-IsFile : IsFile log (λ b. true) (codes "abcde")
log-IsFile = record {
  got = λ at n. min n 2;
  few = λ at n. omega arith;
  some = λ at n h k. omega arith;
  same = λ at n. refl;
}

abbrev part : LogChunk
part = record {
  output = codes "bcd";
  output_start = 1;
  next_output_cursor = 4;
  has_more = true;
  retained_from = 0;
  output_gap = false;
  total_output_bytes = 5;
}

log_read : read_archive log (λ b. true) 5 (whole 1) 3 ≡ ok part
unfolding read_archive read_bytes fill starts_within chunk_of utf8_prefix back_to_boundary
    continuation
log_read = refl

read_archive-IsArchived_example : IsArchived log (λ b. true) (codes "abcde") 5 1 3 part
read_archive-IsArchived_example =
    read_archive-IsArchived log (λ b. true) (codes "abcde") log-IsFile 5 1 3 part (omega arith)
      log_read
