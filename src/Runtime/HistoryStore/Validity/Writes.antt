-- ===== src/Runtime/HistoryStore/Validity/Writes.antt =====
-- The task of append keeps the invariant of the store of src/runtime/history-store.ts.
use mcp_dev_runtime.Base.{
  ℕ, ◌+◌, ◌-◌, ◌≤◌, false, Option, none, some, [], ◌≡◌, inl, inr, refl, arith, String, Option-cases,
  if_cases,
}
use mathlib.Core.Bool.{false≢true}
use mcp_dev_runtime.Base.JsMap.{string_discrete, get}
use mcp_dev_runtime.Base.JsMap.Laws.{get-set}
use mcp_dev_runtime.Runtime.Errors.{Result, ok, err}
use mcp_dev_runtime.Runtime.HistoryStore.{Entry, Limits, HistoryStore, make_room, max_meta}
use mcp_dev_runtime.Runtime.HistoryStore.Reductions.{waiting_bytes}
use mcp_dev_runtime.Runtime.HistoryStore.Saving.{put, Disk}
use mcp_dev_runtime.Runtime.HistoryStore.Appending.{
  Writing, complete_write, stop_writing, failed_write, write_in, write_chunk, flush_task,
}
use mcp_dev_runtime.Runtime.HistoryStore.Validity.{IsValid, changed-IsValid}
use mcp_dev_runtime.Runtime.HistoryStore.Validity.Rooms.{
  make_room-IsValid, make_room-fits, make_room-kept,
}

-- What the file system promises: a write that fails has added no more than was to be written, and the
-- file is as long as before if nothing was written.
pub record IsWriting (w : Writing) (log_bytes size : ℕ) : Type 0 where
  pub stat_ge : (n : ℕ) → w.stat ≡ some n → log_bytes ≤ n
  pub stat_le : (n : ℕ) → w.stat ≡ some n → n ≤ log_bytes + size
  pub same : (n : ℕ) → w.untouched ≡ some n → n ≡ log_bytes

module _ (limits : Limits) (id : String) (size : ℕ) (e : Entry) (taken : waiting_bytes e ≡ 0)
    (reserved : e.log_bytes + size ≤ e.reserved_bytes) where
  complete_write-IsValid :
      (s : HistoryStore)
      → IsValid limits size s
      → get string_discrete id s.entries ≡ some e
      → s.bytes + size ≤ limits.max_total_bytes
      → IsValid limits size (complete_write id size e s)
  unfolding complete_write put
  complete_write-IsValid s v g room =
      let w = v.entries id e g in
      changed-IsValid limits id e _ (s.bytes + size) s.pending_bytes size size s v g
        (record {
          reserved = omega (arith, taken, reserved);
          bounded = w.bounded;
          taking = w.taking;
          settled = λ idle. taken;
        })
        (omega arith) room refl v.pending_le

  failed_write-IsValid :
      (s : HistoryStore) (stat : Option ℕ)
      → IsValid limits size s
      → get string_discrete id s.entries ≡ some e
      → ((n : ℕ)
          → stat ≡ some n
          → (e.log_bytes ≤ n)
            × (n ≤ e.log_bytes + size)
            × (s.bytes + (n - e.log_bytes) ≤ limits.max_total_bytes))
      → IsValid limits size (failed_write id stat e s)
  unfolding failed_write stop_writing put
  failed_write-IsValid s none v g within =
      let w = v.entries id e g in
      changed-IsValid limits id e _ s.bytes s.pending_bytes size size s v g
        (record {
          reserved = w.reserved;
          bounded = λ q. absurd (false≢true q);
          taking = λ q. absurd (false≢true q);
          settled = w.settled;
        })
        refl v.bytes_le refl v.pending_le
  failed_write-IsValid s (some n) v g within =
      let w = v.entries id e g in
      let (ge, le, room) = within n refl in
      changed-IsValid limits id e _ (s.bytes + n - e.log_bytes) s.pending_bytes size size s v g
        (record {
          reserved = omega (arith, taken, reserved, le);
          bounded = λ q. absurd (false≢true q);
          taking = λ q. absurd (false≢true q);
          settled = λ idle. taken;
        })
        (omega (arith, ge)) (omega (arith, ge, room)) refl v.pending_le

  write_in-IsValid :
      (writing : Writing) (r : HistoryStore × Result (Unit {0}))
      → IsWriting writing e.log_bytes size
      → IsValid limits size r.0
      → get string_discrete id r.0.entries ≡ some e
      → (r.1 ≡ ok tt → r.0.bytes + size ≤ limits.max_total_bytes)
      → IsValid limits size (write_in writing id size e r)
  unfolding write_in
  write_in-IsValid writing (s, err _) w v g room =
      failed_write-IsValid s writing.untouched v g (λ n read.
        let same = w.same n read in
        (omega (arith, same), omega (arith, same), omega (arith, same, v.bytes_le)))
  write_in-IsValid writing (s, ok tt) w v g room =
      if_cases (IsValid limits size) writing.complete (complete_write id size e s)
        (failed_write id writing.stat e s) (λ done. complete_write-IsValid s v g (room refl))
        (λ not_done. failed_write-IsValid s writing.stat v g (λ n read.
          let le = w.stat_le n read in (w.stat_ge n read, le, omega (arith, le, room refl))))

  write_chunk-IsValid :
      (disk : Disk) (writing : Writing) (s : HistoryStore)
      → IsWriting writing e.log_bytes size
      → IsValid limits size s
      → get string_discrete id s.entries ≡ some e
      → IsValid limits size (write_chunk limits disk writing id size e s)
  unfolding write_chunk
  write_chunk-IsValid disk writing s w v g =
      if_cases (IsValid limits size) e.write_failed s _ (λ before. v)
        (λ fine.
          write_in-IsValid writing (make_room limits disk.unlinked (size + max_meta) 0 (some id) s)
            w (make_room-IsValid limits disk.unlinked (size + max_meta) 0 size (some id) s v)
            (make_room-kept limits disk.unlinked (size + max_meta) 0 size id s v e g)
            (λ made.
              let f =
                make_room-fits limits disk.unlinked (size + max_meta) 0 size (some id) s v made in
              omega (arith, f.0)))

-- The hypothesis on the disk, for the archive of an id.
abbrev pub IsWritingFor : HistoryStore → String → Writing → Type 0
IsWritingFor s id w =
    (e : Entry)
    → get string_discrete id s.entries ≡ some e
    → IsWriting w e.log_bytes (waiting_bytes e)

-- What an archive has waiting is taken out to be written.
take_pending-IsValid :
    (limits : Limits) (id : String) (e : Entry) (s : HistoryStore)
    → IsValid limits 0 s
    → get string_discrete id s.entries ≡ some e
    → IsValid limits (waiting_bytes e) (put id (record e { pending = []; queued = false }) s)
unfolding put
take_pending-IsValid limits id e s v g =
    let w = v.entries id e g in
    changed-IsValid limits id e (record e { pending = []; queued = false }) s.bytes s.pending_bytes
      0 (waiting_bytes e) s v g
      (record {
        reserved = omega (arith, w.reserved);
        bounded = w.bounded;
        taking = w.taking;
        settled = λ idle. refl;
      })
      refl v.bytes_le (omega arith) v.pending_le

get-put :
    (id : String) (e : Entry) (s : HistoryStore)
    → get string_discrete id (put id e s).entries ≡ some e
unfolding put
get-put id e s = ground (arith, get-set string_discrete id id e s.entries)

-- The bytes that a task had taken are no longer counted as waiting.
release-IsValid :
    (limits : Limits) (held : ℕ) (s : HistoryStore)
    → IsValid limits held s
    → IsValid limits 0 (record s { pending_bytes = s.pending_bytes - held })
release-IsValid limits held s v = record {
  sound = record { unique = v.sound.unique; counted = v.sound.counted };
  bytes_le = v.bytes_le;
  records_le = v.records_le;
  waiting = omega (arith, v.waiting);
  pending_le = omega (arith, v.pending_le);
  entries = v.entries;
}

-- The task that writes the waiting bytes of an archive keeps the invariant, whatever the write comes
-- to: the files stay within the limit of all archives, and what was taken is no longer counted as
-- waiting.
pub flush_task-IsValid :
    (limits : Limits) (disk : Disk) (writing : Writing) (id : String) (s : HistoryStore)
    → IsWritingFor s id writing
    → IsValid limits 0 s
    → IsValid limits 0 (flush_task limits disk writing id s)
unfolding flush_task
flush_task-IsValid limits disk writing id s w v =
    elim (Option-cases (get string_discrete id s.entries)) [
      | inl absent ↦ rw (absent, flush_task) v
      | inr (e, g) ↦
          let taken = record e { pending = []; queued = false } in
          rw (g, flush_task)
            (release-IsValid limits (waiting_bytes e)
              (write_chunk limits disk writing id (waiting_bytes e) taken (put id taken s))
              (write_chunk-IsValid limits id (waiting_bytes e) taken refl
                (v.entries id e g).reserved disk writing (put id taken s) (w e g)
                (take_pending-IsValid limits id e s v g) (get-put id taken s)))
    ]
