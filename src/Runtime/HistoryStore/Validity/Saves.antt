-- ===== src/Runtime/HistoryStore/Validity/Saves.antt =====
-- save and the task of finish keep the invariant of the store of src/runtime/history-store.ts.
use mcp_dev_runtime.Base.{
  ℕ, ◌+◌, ◌-◌, ◌≤◌, true, false, not, ◌&&◌, Option, none, some, List, [], ◌∷◌, ite, ◌≡◌, inl, inr,
  refl, sym, ap, subst, ◌∙◌, arith, length, String, Option-cases, if_cases, ite_cases, ltb, Bytes,
}
use mathlib.Core.Bool.{false≢true}
use mcp_dev_runtime.Base.JsMap.{string_discrete, get}
use mcp_dev_runtime.Base.JsMap.Laws.{get-set}
use mcp_dev_runtime.Base.JsMap.Totals.{weight-le-total}
use mcp_dev_runtime.Runtime.Errors.{Result, ok, err, ToolError, internal}
use mcp_dev_runtime.Runtime.HistoryStore.{
  Entry, Limits, HistoryStore, stored, has, without, make_room, max_meta,
}
use mcp_dev_runtime.Runtime.HistoryStore.Reductions.{waiting_bytes}
use mcp_dev_runtime.Runtime.HistoryStore.Saving.{put, Disk, save, save_in}
use mcp_dev_runtime.Runtime.HistoryStore.Finishing.{
  Ended, ended, truncated_if, finalize_failed, saved_or_not, finish_entry, finish_task,
}
use mcp_dev_runtime.Runtime.HistoryStore.Validity.{IsValid, changed-IsValid}
use mcp_dev_runtime.Runtime.HistoryStore.Validity.Appends.{marked-IsValid}
use mcp_dev_runtime.Runtime.HistoryStore.Validity.Rooms.{
  make_room-IsValid, make_room-fits, make_room-kept,
}

-- The archive of an id takes no output and has none waiting.
abbrev pub IsQuiet : HistoryStore → String → Type 0
IsQuiet s id =
    (e : Entry)
    → get string_discrete id s.entries ≡ some e
    → (e.accepting ≡ false) × (waiting_bytes e ≡ 0)

-- A store in which that holds, and the invariant.
abbrev pub IsQuietValid : Limits → String → HistoryStore → Type 0
IsQuietValid limits id s = IsValid limits 0 s × IsQuiet s id

get-put_lem :
    (id : String) (e : Entry) (s : HistoryStore)
    → get string_discrete id (put id e s).entries ≡ some e
unfolding put
get-put_lem id e s = ground (arith, get-set string_discrete id id e s.entries)

entry-IsQuiet :
    (id : String) (e : Entry) (s : HistoryStore)
    → e.accepting ≡ false
    → waiting_bytes e ≡ 0
    → get string_discrete id s.entries ≡ some e
    → IsQuiet s id
entry-IsQuiet id e s quiet empty g = λ e' h.
    let same : e ≡ e' = ap (λ (o : Option Entry). elim o [ none ↦ e | some x ↦ x ]) (sym g ∙ h) in
    subst (λ x. (x.accepting ≡ false) × (waiting_bytes x ≡ 0)) same (quiet, empty)

module _ (limits : Limits) (id : String) (e : Entry) (size : ℕ) where
  -- What saving comes to: the store is valid, and an archive that is not saved is as before.
  abbrev pub IsSaved : HistoryStore × Result (Unit {0}) → Type 0
  IsSaved r =
      IsValid limits 0 r.0
      × ((x : ToolError) → r.1 ≡ err x → get string_discrete id r.0.entries ≡ some e)
      × (r.1 ≡ ok tt → get string_discrete id r.0.entries ≡ some (record e { meta_bytes = size }))

  unsaved :
      (s : HistoryStore) (x : ToolError)
      → IsValid limits 0 s
      → get string_discrete id s.entries ≡ some e
      → IsSaved (s, err x)
  unsaved s x v g = (v, (λ y q. g), λ q. absurd (ground (arith, q)))

  save_in-IsSaved :
      (disk : Disk) (r : HistoryStore × Result (Unit {0}))
      → IsValid limits 0 r.0
      → get string_discrete id r.0.entries ≡ some e
      → (r.1 ≡ ok tt → r.0.bytes + size ≤ limits.max_total_bytes)
      → IsSaved (save_in disk id e size r)
  unfolding save_in put
  save_in-IsSaved disk (s, err x) v g room = unsaved s x v g
  save_in-IsSaved disk (s, ok _) v g room =
      let w = v.entries id e g in
      let changed = record e { meta_bytes = size } in
      let there = weight-le-total stored string_discrete id e s.entries g in
      if_cases IsSaved disk.replaced _ _
        (λ done. (
          changed-IsValid limits id e changed (s.bytes + size - e.meta_bytes) s.pending_bytes 0 0 s
              v g
              (record {
                reserved = w.reserved;
                bounded = w.bounded;
                taking = w.taking;
                settled = w.settled;
              })
              (omega (arith, v.sound.counted, there)) (omega (arith, room refl)) refl v.pending_le,
          (λ y q. absurd (ground (arith, q))),
          λ q. get-put_lem id changed (record s { bytes = s.bytes + size - e.meta_bytes }),
        ))
        (λ broken. unsaved s internal v g)

  pub save-IsSaved :
      (disk : Disk) (s : HistoryStore)
      → IsValid limits 0 s
      → get string_discrete id s.entries ≡ some e
      → IsSaved (save limits disk id e size s)
  unfolding save
  save-IsSaved disk s v g =
      if_cases IsSaved (ltb max_meta size) _ _ (λ large. unsaved s internal v g)
        (λ fine.
          save_in-IsSaved disk (make_room limits disk.unlinked size 0 (some id) s)
            (make_room-IsValid limits disk.unlinked size 0 0 (some id) s v)
            (make_room-kept limits disk.unlinked size 0 0 id s v e g)
            (λ made. (make_room-fits limits disk.unlinked size 0 0 (some id) s v made).0))

module _ (limits : Limits) (id : String) (e : Entry) (quiet : e.accepting ≡ false)
    (empty : waiting_bytes e ≡ 0) where
  -- A change of the record of a quiet archive.
  mark-IsQuietValid :
      (e' : Entry) (s : HistoryStore)
      → IsValid limits 0 s
      → get string_discrete id s.entries ≡ some e
      → (e'.accepting ≡ e.accepting)
        × (e'.pending ≡ e.pending)
        × (stored e' ≡ stored e)
        × (e'.log_bytes ≡ e.log_bytes)
        × (e'.reserved_bytes ≡ e.reserved_bytes)
      → IsQuietValid limits id (put id e' s)
  unfolding put
  mark-IsQuietValid e' s v g (taking, pending, size, log, reserved) = (
    marked-IsValid limits 0 id e e' s v g (λ q. sym taking ∙ q) (size, log, pending, reserved),
    entry-IsQuiet id e' (put id e' s) (taking ∙ quiet)
        (ap (λ (l : Bytes). length l) pending ∙ empty) (get-put_lem id e' s),
  )

  saved_or_not-IsQuietValid :
      (size : ℕ) (r : HistoryStore × Result (Unit {0}))
      → IsSaved limits id e size r
      → IsQuietValid limits id (saved_or_not id e r)
  unfolding saved_or_not finalize_failed truncated_if
  saved_or_not-IsQuietValid size (s, ok _) (v, kept, done) =
      (v, entry-IsQuiet id (record e { meta_bytes = size }) s quiet empty (done refl))
  saved_or_not-IsQuietValid size (s, err x) (v, kept, done) =
      mark-IsQuietValid (finalize_failed e) s v (kept x refl) (refl, refl, refl, refl, refl)

pub has-without :
    (k id : String) (ids : List String)
    → has k (without id ids) ≡ ite (string_discrete id k) false (has k ids)
unfolding has without
has-without k id [] = ground arith
has-without k id (a ∷ ids) = ground (arith, has-without k id ids)

-- An archive that takes no output and has none waiting need not be active.
inactive-IsValid :
    (limits : Limits) (id : String) (s : HistoryStore)
    → IsQuietValid limits id s
    → IsValid limits 0 (record s { active = without id s.active })
inactive-IsValid limits id s (v, quiet) = record {
  sound = record { unique = v.sound.unique; counted = v.sound.counted };
  bytes_le = v.bytes_le;
  records_le = v.records_le;
  waiting = v.waiting;
  pending_le = v.pending_le;
  entries = λ k e g.
      let w = v.entries k e g in
      let n = has-without k id s.active in
      record {
        reserved = w.reserved;
        bounded = w.bounded;
        taking = λ q.
            n
            ∙ ite_cases (λ b. b ≡ true) (string_discrete id k) false (has k s.active)
                (λ same. absurd (
                  false≢true (
                    sym
                      (quiet e
                        (subst (λ x. get string_discrete x s.entries ≡ some e) (sym same) g)).0
                    ∙ q)))
                (λ other. w.taking q);
        settled = λ q.
            ite_cases (λ b. b ≡ false → waiting_bytes e ≡ 0) (string_discrete id k) false
              (has k s.active)
              (λ same _.
                (quiet e (subst (λ x. get string_discrete x s.entries ≡ some e) (sym same) g)).1)
              (λ other idle. w.settled idle) (sym n ∙ q);
      };
}

-- No output of an archive waits to be written: the tasks of its output come before the one of its end.
abbrev pub HasEnded : HistoryStore → String → Type 0
HasEnded s id = (e : Entry) → get string_discrete id s.entries ≡ some e → waiting_bytes e ≡ 0

finish_entry-IsQuietValid :
    (limits : Limits) (disk : Disk) (id : String) (result : Ended) (e e' : Entry) (size : ℕ)
    (s : HistoryStore)
    → IsValid limits 0 s
    → get string_discrete id s.entries ≡ some e
    → waiting_bytes e ≡ 0
    → (e'.accepting ≡ false)
      × (e'.pending ≡ e.pending)
      × (stored e' ≡ stored e)
      × (e'.log_bytes ≡ e.log_bytes)
      × (e'.reserved_bytes ≡ e.reserved_bytes)
    → IsQuietValid limits id (finish_entry limits disk id result e' size s)
unfolding finish_entry truncated_if finalize_failed
finish_entry-IsQuietValid limits disk id result e e' size s v g empty
      (quiet, pending, stores, log, reserved) =
    let checked =
      truncated_if (e'.archived.capture_output && ltb e'.log_bytes result.total_output_bytes) e' in
    let idle = ap (λ (l : Bytes). length l) pending ∙ empty in
    let put_valid : (x : Entry)
        → (x.accepting ≡ false)
          × (x.pending ≡ e.pending)
          × (stored x ≡ stored e)
          × (x.log_bytes ≡ e.log_bytes)
          × (x.reserved_bytes ≡ e.reserved_bytes)
        → IsValid limits 0 (put id x s) =
      λ x (a, b, c, d, f).
        marked-IsValid limits 0 id e x s v g (λ q. absurd (false≢true (sym a ∙ q))) (c, d, b, f) in
    if_cases (IsQuietValid limits id) (e'.archived.capture_output && not disk.synced) _ _
      (λ broken. (
        put_valid (finalize_failed e') (quiet, pending, stores, log, reserved),
        entry-IsQuiet id (finalize_failed e') (put id (finalize_failed e') s) quiet idle
            (get-put_lem id (finalize_failed e') s),
      ))
      (λ flushed.
        saved_or_not-IsQuietValid limits id checked quiet idle size
          (save limits disk id checked size (put id checked s))
          (save-IsSaved limits id checked size disk (put id checked s)
            (put_valid checked (quiet, pending, stores, log, reserved)) (get-put_lem id checked s)))

-- The task that ends an archive keeps the invariant, whatever the disk does: the archive is no longer
-- active, and nothing of its output waits or is taken any more. The tasks of its output have run.
pub finish_task-IsQuietValid :
    (limits : Limits) (disk : Disk) (id : String) (result : Ended) (size : ℕ) (s : HistoryStore)
    → HasEnded s id
    → IsValid limits 0 s
    → IsQuietValid limits id (finish_task limits disk id result size s)
unfolding finish_task ended
finish_task-IsQuietValid limits disk id result size s done v =
    elim (Option-cases (get string_discrete id s.entries)) [
      | inl absent ↦ rw (absent, finish_task) (v, λ e h. absurd (ground (arith, absent, h)))
      | inr (e, g) ↦
          let q =
            finish_entry-IsQuietValid limits disk id result e (ended result e) size s v g (done e g)
              (refl, refl, refl, refl, refl) in
          rw (g, finish_task)
            (
              inactive-IsValid limits id
                  (finish_entry limits disk id result (ended result e) size s) q,
              q.1,
            )
    ]
