-- ===== src/Runtime/HistoryStore/Validity/Starts.antt =====
-- The task of start keeps the invariant of the store of src/runtime/history-store.ts.
use mcp_dev_runtime.Base.{
  ℕ, ◌+◌, ◌≤◌, Bool, true, false, not, ◌&&◌, Option, none, some, List, [], ◌∷◌, ◌++◌, ite, ◌≡◌, inl,
  inr, refl, sym, ap, subst, ◌∙◌, arith, length, String, Bool-cases, Option-cases, if_cases,
  ite_cases,
}
use mcp_dev_runtime.Base.JsMap.{string_discrete, get}
use mcp_dev_runtime.Base.JsMap.Laws.{
  get-set, get-delete, set-IsMap, delete-IsMap, length-set_new, length-delete-le,
}
use mcp_dev_runtime.Base.JsMap.Totals.{total-set_new, total-delete}
use mcp_dev_runtime.Runtime.Errors.{Result, ok, err}
use mcp_dev_runtime.Runtime.HistoryStore.Filter.{Outcome}
use mcp_dev_runtime.Runtime.HistoryStore.{
  Entry, Limits, HistoryStore, stored, has, add, without, make_room, max_meta,
}
use mcp_dev_runtime.Runtime.HistoryStore.Reductions.{waiting_bytes}
use mcp_dev_runtime.Runtime.HistoryStore.Capacity.{make_room-HasRoom}
use mcp_dev_runtime.Runtime.HistoryStore.Saving.{
  Disk, save, new_record, new_entry, undo_start, started_or_not, write_files, registered, start_in,
  start_task,
}
use mcp_dev_runtime.Runtime.HistoryStore.Validity.{IsEntry, IsValid}
use mcp_dev_runtime.Runtime.HistoryStore.Validity.Rooms.{make_room-IsValid, make_room-fits}
use mcp_dev_runtime.Runtime.HistoryStore.Validity.Saves.{IsSaved, save-IsSaved, has-without}

has-append :
    (k id : String) (ids : List String)
    → has k (ids ++ (id ∷ [])) ≡ ite (string_discrete id k) true (has k ids)
unfolding has
has-append k id [] = refl
has-append k id (a ∷ ids) = ground (arith, has-append k id ids)

has-add :
    (k id : String) (ids : List String)
    → has k (add id ids) ≡ ite (string_discrete id k) true (has k ids)
unfolding add
has-add k id ids = elim (Bool-cases (has id ids)) [
  | inl there ↦ ground (arith, there)
  | inr new ↦ ground (arith, new, has-append k id ids)
]

still_absent :
    (limits : Limits) (unlinked : String → Bool) (id : String) (s : HistoryStore)
    → get string_discrete id s.entries ≡ none
    → IsValid limits 0 s
    → get string_discrete id (make_room limits unlinked max_meta 1 none s).0.entries ≡ none
still_absent limits unlinked id s absent v =
    elim (Option-cases
      (get string_discrete id (make_room limits unlinked max_meta 1 none s).0.entries)) [
        | inl gone ↦ gone
        | inr (e, there) ↦
            let before =
              (make_room-HasRoom limits unlinked max_meta 1 none s v.sound).0.unchanged id e
                there in
            absurd (ground (arith, absent, before))
      ]

module _ (id : String) (outcome : Outcome) (capture : Bool) (s : HistoryStore) where
  registered_there :
      get string_discrete id (registered id outcome capture s).0.entries
      ≡ some (registered id outcome capture s).1
  unfolding registered
  registered_there =
      get-set string_discrete id id _ s.entries
      ∙ ite_cases (λ o. o ≡ some (new_entry (new_record (s.sequence + 1) outcome capture)))
          (string_discrete id id) _ _ (λ _. refl) (λ n. absurd (n refl))

  stored-registered : stored (registered id outcome capture s).1 ≡ 0
  unfolding registered new_entry
  stored-registered = refl

  waiting_bytes-registered : waiting_bytes (registered id outcome capture s).1 ≡ 0
  unfolding registered new_entry
  waiting_bytes-registered = refl

module _ (limits : Limits) (id : String) where
  registered-IsValid :
      (outcome : Outcome) (capture : Bool) (s : HistoryStore)
      → IsValid limits 0 s
      → get string_discrete id s.entries ≡ none
      → length s.entries + 1 ≤ limits.max_records
      → IsValid limits 0 (registered id outcome capture s).0
  unfolding registered new_entry new_record
  registered-IsValid outcome capture s v absent room =
      let e = (registered id outcome capture s).1 in
      record {
        sound = record {
          unique = set-IsMap string_discrete id e s.entries v.sound.unique;
          counted =
              omega (
                arith,
                v.sound.counted,
                total-set_new stored string_discrete id e s.entries absent,
              );
        };
        bytes_le = v.bytes_le;
        records_le = omega (arith, room, length-set_new string_discrete id e s.entries absent);
        waiting =
            omega
              (arith, v.waiting, total-set_new waiting_bytes string_discrete id e s.entries absent);
        pending_le = v.pending_le;
        entries = λ k w g.
            let n = has-add k id s.active in
            (ite_cases (λ o. o ≡ some w → IsEntry limits (has k (add id s.active)) w)
                (string_discrete id k) (some e) (get string_discrete k s.entries)
                (λ same q.
                  let eq : e ≡ w = ap (λ (o : Option Entry). elim o [ none ↦ e | some x ↦ x ]) q in
                  let active : has k (add id s.active) ≡ true =
                    n
                    ∙ ite_cases (λ b. b ≡ true) (string_discrete id k) true (has k s.active)
                        (λ _. refl) (λ o. absurd (o same)) in
                  subst (IsEntry limits (has k (add id s.active))) eq (record {
                    reserved = omega arith;
                    bounded = λ _. omega arith;
                    taking = λ _. active;
                    settled = λ _. refl;
                  }))
                (λ other q.
                  let as_before : has k (add id s.active) ≡ has k s.active =
                    n
                    ∙ ite_cases (λ b. b ≡ has k s.active) (string_discrete id k) true
                        (has k s.active) (λ o. absurd (other o)) (λ _. refl) in
                  subst (λ b. IsEntry limits b w) (sym as_before) (v.entries k w q)))
              (sym (get-set string_discrete k id e s.entries) ∙ g);
      }

  undo_start-IsValid :
      (e : Entry) (s : HistoryStore)
      → IsValid limits 0 s
      → get string_discrete id s.entries ≡ some e
      → stored e ≡ 0
      → waiting_bytes e ≡ 0
      → IsValid limits 0 (undo_start id s)
  unfolding undo_start
  undo_start-IsValid e s v g nothing empty = record {
    sound = record {
      unique = delete-IsMap string_discrete id s.entries v.sound.unique;
      counted =
          omega
            (arith, v.sound.counted, nothing, total-delete stored string_discrete id e s.entries g);
    };
    bytes_le = v.bytes_le;
    records_le = omega (arith, v.records_le, length-delete-le string_discrete id s.entries);
    waiting =
        omega
          (arith, v.waiting, empty, total-delete waiting_bytes string_discrete id e s.entries g);
    pending_le = v.pending_le;
    entries = λ k w h.
        ite_cases (λ o. o ≡ some w → IsEntry limits (has k (without id s.active)) w)
          (string_discrete id k) none (get string_discrete k s.entries)
          (λ same q. absurd (ground (arith, q)))
          (λ other q.
            let as_before : has k (without id s.active) ≡ has k s.active =
              has-without k id s.active
              ∙ ite_cases (λ b. b ≡ has k s.active) (string_discrete id k) false (has k s.active)
                  (λ o. absurd (other o)) (λ _. refl) in
            subst (λ b. IsEntry limits b w) (sym as_before) (v.entries k w q))
          (sym (get-delete string_discrete k id s.entries v.sound.unique) ∙ h);
  }

  started_or_not-IsValid :
      (e : Entry) (size : ℕ) (r : HistoryStore × Result (Unit {0}))
      → IsSaved limits id e size r
      → stored e ≡ 0
      → waiting_bytes e ≡ 0
      → IsValid limits 0 (started_or_not id r).0
  unfolding started_or_not
  started_or_not-IsValid e size (s, ok _) (v, kept, done) nothing empty = v
  started_or_not-IsValid e size (s, err x) (v, kept, done) nothing empty =
      undo_start-IsValid e s v (kept x refl) nothing empty

  write_files-IsValid :
      (disk : Disk) (size : ℕ) (s : HistoryStore) (e : Entry)
      → IsValid limits 0 s
      → get string_discrete id s.entries ≡ some e
      → stored e ≡ 0
      → waiting_bytes e ≡ 0
      → IsValid limits 0 (write_files limits disk id size (s, e)).0
  unfolding write_files
  write_files-IsValid disk size s e v g nothing empty =
      if_cases (λ (r : HistoryStore × Bool). IsValid limits 0 r.0)
        (e.archived.capture_output && not disk.opened) _ _
        (λ broken. undo_start-IsValid e s v g nothing empty)
        (λ fine.
          started_or_not-IsValid e size (save limits disk id e size s)
            (save-IsSaved limits id e size disk s v g) nothing empty)

  start_in-IsValid :
      (disk : Disk) (outcome : Outcome) (capture : Bool) (size : ℕ)
      (r : HistoryStore × Result (Unit {0}))
      → IsValid limits 0 r.0
      → get string_discrete id r.0.entries ≡ none
      → (r.1 ≡ ok tt → length r.0.entries + 1 ≤ limits.max_records)
      → IsValid limits 0 (start_in limits disk id outcome capture size r).0
  unfolding start_in
  start_in-IsValid disk outcome capture size (s, err _) v absent room = v
  start_in-IsValid disk outcome capture size (s, ok _) v absent room =
      let entered = registered id outcome capture s in
      write_files-IsValid disk size entered.0 entered.1
        (registered-IsValid outcome capture s v absent (room refl))
        (registered_there id outcome capture s) (stored-registered id outcome capture s)
        (waiting_bytes-registered id outcome capture s)

-- The task that starts an archive under a new id keeps the invariant, whatever the disk does: there is
-- room for its record, and an archive whose files could not be written is taken out again.
pub start_task-IsValid :
    (limits : Limits) (disk : Disk) (id : String) (outcome : Outcome) (capture : Bool) (size : ℕ)
    (s : HistoryStore)
    → get string_discrete id s.entries ≡ none
    → IsValid limits 0 s
    → IsValid limits 0 (start_task limits disk id outcome capture size s).0
unfolding start_task
start_task-IsValid limits disk id outcome capture size s absent v =
    start_in-IsValid limits id disk outcome capture size
      (make_room limits disk.unlinked max_meta 1 none s)
      (make_room-IsValid limits disk.unlinked max_meta 1 0 none s v)
      (still_absent limits disk.unlinked id s absent v)
      (λ made. (make_room-fits limits disk.unlinked max_meta 1 0 none s v made).1)
