-- ===== src/Runtime/HistoryStore/Validity/Appends.antt =====
-- append and its task keep the invariant of the store of src/runtime/history-store.ts.
use mcp_dev_runtime.Base.{
  ℕ, ◌+◌, ◌≤◌, true, not, ◌||◌, some, [], ◌∷◌, ◌++◌, ◌≡◌, inl, inr, refl, sym, ap, ◌∙◌, arith,
  length, length-append, String, Bytes, Bool-cases, Option-cases, ltb, if_cases,
}
use mathlib.Core.Bool.{false≢true}
use mcp_dev_runtime.Base.JsMap.{string_discrete, get}
use mcp_dev_runtime.Runtime.Utf8.{utf8_prefix, utf8_prefix-le}
use mcp_dev_runtime.Runtime.PatchParser.Grammar.{is_nil}
use mcp_dev_runtime.Runtime.HistoryStore.{Entry, Limits, HistoryStore, stored}
use mcp_dev_runtime.Runtime.HistoryStore.Reductions.{waiting_bytes}
use mcp_dev_runtime.Runtime.HistoryStore.Saving.{put}
use mcp_dev_runtime.Runtime.HistoryStore.Appending.{
  room_for, cut_short, enqueue_bytes, append_kept, append,
}
use mcp_dev_runtime.Runtime.HistoryStore.Validity.{IsValid, changed-IsValid}

module _ (limits : Limits) (held : ℕ) where
  -- An entry that is marked, with what it holds, has waiting and has reserved left as it is.
  pub marked-IsValid :
      (id : String) (e e' : Entry) (s : HistoryStore)
      → IsValid limits held s
      → get string_discrete id s.entries ≡ some e
      → (e'.accepting ≡ true → e.accepting ≡ true)
      → (stored e' ≡ stored e)
        × (e'.log_bytes ≡ e.log_bytes)
        × (e'.pending ≡ e.pending)
        × (e'.reserved_bytes ≡ e.reserved_bytes)
      → IsValid limits held (put id e' s)
  unfolding put
  marked-IsValid id e e' s v g taking (size, log, pending, reserved) =
      let w = v.entries id e g in
      let same : waiting_bytes e' ≡ waiting_bytes e = ap (λ (l : Bytes). length l) pending in
      changed-IsValid limits id e e' s.bytes s.pending_bytes held held s v g
        (record {
          reserved = omega (arith, same, log, reserved, w.reserved);
          bounded = λ q. omega (arith, reserved, w.bounded (taking q));
          taking = λ q. w.taking (taking q);
          settled = λ idle. same ∙ w.settled idle;
        })
        (omega (arith, size)) v.bytes_le (omega (arith, same)) v.pending_le

  enqueue_bytes-IsValid :
      (id : String) (kept : Bytes) (e e' : Entry) (s : HistoryStore)
      → IsValid limits held s
      → get string_discrete id s.entries ≡ some e
      → e.accepting ≡ true
      → length kept ≤ room_for limits e s
      → (stored e' ≡ stored e)
        × (e'.log_bytes ≡ e.log_bytes)
        × (e'.pending ≡ e.pending)
        × (e'.reserved_bytes ≡ e.reserved_bytes)
      → IsValid limits held (enqueue_bytes id kept e' s)
  unfolding enqueue_bytes put room_for
  enqueue_bytes-IsValid id kept e e' s v g taking room (size, log, pending, reserved) =
      let w = v.entries id e g in
      let longer : length (e'.pending ++ kept) ≡ length e.pending + length kept =
        length-append e'.pending kept ∙ ap (λ (l : Bytes). length l + length kept) pending in
      changed-IsValid limits id e
        (record e' {
          pending = e'.pending ++ kept;
          reserved_bytes = e'.reserved_bytes + length kept;
          queued = true;
        })
        s.bytes (s.pending_bytes + length kept) held held s v g
        (record {
          reserved = omega (arith, longer, log, reserved, w.reserved);
          bounded = λ q. omega (arith, reserved, w.bounded taking, room);
          taking = λ q. w.taking taking;
          settled = λ idle. absurd (false≢true (sym idle ∙ w.taking taking));
        })
        (omega (arith, size)) v.bytes_le (omega (arith, longer)) (omega (arith, room, v.pending_le))

  append_kept-IsValid :
      (id : String) (bytes kept : Bytes) (maximum : ℕ) (e : Entry) (s : HistoryStore)
      → IsValid limits held s
      → get string_discrete id s.entries ≡ some e
      → e.accepting ≡ true
      → length kept ≤ room_for limits e s
      → IsValid limits held (append_kept limits id bytes kept maximum e s)
  unfolding append_kept cut_short is_nil
  append_kept-IsValid id bytes [] maximum e s v g taking room =
      if_cases (λ m. IsValid limits held (put id m s)) (ltb 0 (length bytes))
        (cut_short limits maximum e) e
        (λ cut.
          marked-IsValid id e (cut_short limits maximum e) s v g (λ q. taking)
            (refl, refl, refl, refl))
        (λ whole. marked-IsValid id e e s v g (λ q. taking) (refl, refl, refl, refl))
  append_kept-IsValid id bytes (b ∷ kept) maximum e s v g taking room =
      if_cases (λ m. IsValid limits held (enqueue_bytes id (b ∷ kept) m s))
        (ltb (length (b ∷ kept)) (length bytes)) (cut_short limits maximum e) e
        (λ cut.
          enqueue_bytes-IsValid id (b ∷ kept) e (cut_short limits maximum e) s v g taking room
            (refl, refl, refl, refl))
        (λ whole.
          enqueue_bytes-IsValid id (b ∷ kept) e e s v g taking room (refl, refl, refl, refl))

  -- Appending a text keeps the invariant: what an archive holds and has waiting stays within the limit
  -- of a log, and what waits in all within the limit of the queue.
  pub append-IsValid :
      (id : String) (bytes : Bytes) (s : HistoryStore)
      → IsValid limits held s
      → IsValid limits held (append limits id bytes s)
  unfolding append
  append-IsValid id bytes s v = elim (Option-cases (get string_discrete id s.entries)) [
    | inl absent ↦ rw (absent, append) v
    | inr (e, g) ↦ elim (Bool-cases (not e.archived.capture_output || not e.accepting)) [
      | inl deaf ↦ rw (g, deaf, append) v
      | inr hears ↦
          rw (g, hears, append)
            (append_kept-IsValid id bytes (utf8_prefix bytes (room_for limits e s))
              (room_for limits e s) e s v g (ground (arith, hears))
              (utf8_prefix-le bytes (room_for limits e s)))
    ]
  ]
