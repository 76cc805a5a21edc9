-- ===== src/Runtime/HistoryStore/Validity/Opens.antt =====
-- initialize makes a valid store of src/runtime/history-store.ts.
use mcp_dev_runtime.Base.{
  ◌+◌, Bool, true, false, Option, none, some, [], ◌∷◌, ◌≡◌, inl, inr, refl, sym, ap, ◌∙◌, subst,
  arith, ite_cases, String, length,
}
use mathlib.Core.Bool.{false≢true}
use mcp_dev_runtime.Base.JsMap.{JsMap, string_discrete, get, IsMap}
use mcp_dev_runtime.Base.JsMap.Laws.{get-set, set-IsMap}
use mcp_dev_runtime.Base.JsMap.Totals.{total, total-set_new}
use mcp_dev_runtime.Runtime.Errors.{ok}
use mcp_dev_runtime.Runtime.HistoryStore.{Entry, Limits, HistoryStore, stored, has, fits, make_room}
use mcp_dev_runtime.Runtime.HistoryStore.Saving.{Disk}
use mcp_dev_runtime.Runtime.HistoryStore.Opening.{
  Found, empty, found_entry, load, load_all, initialize,
}
use mcp_dev_runtime.Runtime.HistoryStore.Reductions.{IsSound, waiting_bytes}
use mcp_dev_runtime.Runtime.HistoryStore.Capacity.{make_room-HasRoom}
use mcp_dev_runtime.Runtime.HistoryStore.Validity.{IsValid}
use mcp_dev_runtime.Base.{and-eq_true, leb→le, leb}

-- An archive of an earlier run.
record IsOld (e : Entry) : Type 0 where
  closed : e.accepting ≡ false
  reserved : e.reserved_bytes ≡ e.log_bytes
  empty : waiting_bytes e ≡ 0

-- A store of archives of earlier runs.
record IsLoaded (s : HistoryStore) : Type 0 where
  sound : IsSound s
  idle : s.active ≡ []
  nothing : s.pending_bytes ≡ 0
  waiting : total waiting_bytes s.entries ≡ 0
  old : (id : String) (e : Entry) → get string_discrete id s.entries ≡ some e → IsOld e

empty-IsLoaded : IsLoaded empty
unfolding get
empty-IsLoaded = record {
  sound = record { unique = tt; counted = refl };
  idle = refl;
  nothing = refl;
  waiting = refl;
  old = λ id e g. absurd (ground (arith, g));
}

found_entry-IsOld : (f : Found) → IsOld (found_entry f)
unfolding found_entry
found_entry-IsOld f = record { closed = refl; reserved = refl; empty = refl }

load-IsLoaded :
    (id : String) (f : Found) (s : HistoryStore)
    → get string_discrete id s.entries ≡ none
    → IsLoaded s
    → IsLoaded (load id f s)
unfolding load found_entry
load-IsLoaded id f s new l = record {
  sound = record {
    unique = set-IsMap string_discrete id (found_entry f) s.entries l.sound.unique;
    counted = omega (
      arith,
      l.sound.counted,
      total-set_new stored string_discrete id (found_entry f) s.entries new,
    );
  };
  idle = l.idle;
  nothing = l.nothing;
  waiting = omega (
    arith,
    l.waiting,
    total-set_new waiting_bytes string_discrete id (found_entry f) s.entries new,
  );
  old = λ k e g.
      ite_cases (λ o. o ≡ some e → IsOld e) (string_discrete id k) (some (found_entry f))
        (get string_discrete k s.entries)
        (λ same q.
          subst IsOld (ap (λ (o : Option Entry). elim o [ none ↦ found_entry f | some x ↦ x ]) q)
            (found_entry-IsOld f))
        (λ other q. l.old k e q) (sym (get-set string_discrete k id (found_entry f) s.entries) ∙ g);
}

-- None of the files stands in the store.
abbrev AreNew : JsMap String Found → HistoryStore → Type 0
AreNew [] s = Unit {0}
AreNew ((id, f) ∷ files) s = (get string_discrete id s.entries ≡ none) × AreNew files s

AreNew-load :
    (id : String) (f : Found) (files : JsMap String Found) (s : HistoryStore)
    → get string_discrete id files ≡ none
    → AreNew files s
    → AreNew files (load id f s)
unfolding load get
AreNew-load id f [] s apart new = tt
AreNew-load id f ((k, g) ∷ files) s apart new = (
  ground (arith, apart, new.0, get-set string_discrete k id (found_entry f) s.entries),
  AreNew-load id f files s (ground (arith, apart)) new.1,
)

load_all-IsLoaded :
    (files : JsMap String Found) (s : HistoryStore)
    → IsMap string_discrete files
    → AreNew files s
    → IsLoaded s
    → IsLoaded (load_all files s)
unfolding load_all
load_all-IsLoaded [] s unique new l = l
load_all-IsLoaded ((id, f) ∷ files) s unique new l =
    load_all-IsLoaded files (load id f s) unique.1 (AreNew-load id f files s unique.0 new.1)
      (load-IsLoaded id f s new.0 l)

AreNew-empty : (files : JsMap String Found) → AreNew files empty
unfolding get
AreNew-empty [] = tt
AreNew-empty ((id, f) ∷ files) = (refl, AreNew-empty files)

-- With room made, such a store is valid.
roomy-IsValid :
    (limits : Limits) (unlinked : String → Bool) (s : HistoryStore)
    → IsLoaded s
    → (make_room limits unlinked 0 0 none s).1 ≡ ok tt
    → IsValid limits 0 (make_room limits unlinked 0 0 none s).0
unfolding fits has
roomy-IsValid limits unlinked s l made =
    let (r, ends) = make_room-HasRoom limits unlinked 0 0 none s l.sound in
    let s' = (make_room limits unlinked 0 0 none s).0 in
    let fit : fits limits 0 0 s' ≡ true = elim ends [
      | inl (_, fit) ↦ fit
      | inr (not_made, _) ↦ absurd (not_made made)
    ] in
    let both : (leb (s'.bytes + 0) limits.max_total_bytes ≡ true)
        × (leb (length s'.entries + 0) limits.max_records ≡ true) =
      and-eq_true _ _ fit in
    let still : total waiting_bytes s'.entries ≡ total waiting_bytes s.entries =
      r.waiting (λ id e g idle. (l.old id e g).empty) in
    record {
      sound = r.sound;
      bytes_le = omega (arith, leb→le (s'.bytes + 0) limits.max_total_bytes both.0);
      records_le = omega (arith, leb→le (length s'.entries + 0) limits.max_records both.1);
      waiting = omega (arith, r.pending, l.nothing, still, l.waiting);
      pending_le = omega (arith, r.pending, l.nothing);
      entries = λ id e g.
          let o = l.old id e (r.unchanged id e g) in
          record {
            reserved = omega (arith, o.reserved, o.empty);
            bounded = λ q. absurd (false≢true (sym o.closed ∙ q));
            taking = λ q. absurd (false≢true (sym o.closed ∙ q));
            settled = λ idle. o.empty;
          };
    }

-- A store that is ready after it was initialised is valid, whatever archives were in the directory.
pub initialize-IsValid :
    (limits : Limits) (disk : Disk) (files : JsMap String Found)
    → IsMap string_discrete files
    → (initialize limits disk files).1 ≡ ok tt
    → IsValid limits 0 (initialize limits disk files).0
unfolding initialize
initialize-IsValid limits disk files unique ready =
    roomy-IsValid limits disk.unlinked (load_all files empty)
      (load_all-IsLoaded files empty unique (AreNew-empty files) empty-IsLoaded) ready
