-- ===== src/Runtime/HistoryStore.antt =====
-- HistoryStore of src/runtime/history-store.ts: the archive of finished and running executions. The
-- tasks of its queue are steps; what the disk does in a step is an argument.
pub mod Filter
pub mod Outcomes
pub mod Reductions
pub mod Capacity
pub mod Saving
pub mod Appending
pub mod Finishing
pub mod Opening
pub mod Validity
pub mod Histories
pub mod Listing
pub mod Archives
mod Checks
use mcp_dev_runtime.Base.{
  ℕ, zero, suc, ◌+◌, ◌-◌, ◌≤◌, min, max, Bool, true, false, not, ◌&&◌, ◌||◌, Option, none, some,
  List, [], ◌∷◌, ◌++◌, ltb, leb, if◌then◌else◌, length, String, Number, Bytes, ite, map,
}
use mcp_dev_runtime.Base.Text.{Text}
use mcp_dev_runtime.Base.JsMap.{JsMap, string_discrete, get, set, delete, keys}
use mcp_dev_runtime.Runtime.Errors.{
  Result, ok, err, ToolError, history_capacity, history_busy, internal,
}
use mcp_dev_runtime.Runtime.Utf8.{utf8_prefix}
use mcp_dev_runtime.Runtime.HistoryStore.Filter.{Outcome}

pub data Warning : Type 0 where
  archive_queue_limit archive_log_limit archive_write_failed archive_finalize_failed : Warning
  archive_log_shortened previous_instance_outcome_unconfirmed : Warning

-- The fields that the store itself reads or writes.
pub record HistoryRecord : Type 0 where
  pub seq : ℕ
  pub outcome : Outcome
  pub total_output_bytes : ℕ
  pub captured_output_bytes : ℕ
  pub capture_output : Bool
  pub output_truncated : Bool
  pub warning : Option Warning

pub record Entry : Type 0 where
  pub archived : HistoryRecord
  pub meta_bytes : ℕ
  pub log_bytes : ℕ
  pub reserved_bytes : ℕ
  pub pending : Bytes
  pub queued : Bool
  pub accepting : Bool
  pub write_failed : Bool

pub record Limits : Type 0 where
  pub max_records : ℕ
  pub max_total_bytes : ℕ
  pub max_log_bytes : ℕ
  pub max_pending_bytes : ℕ

pub record HistoryStore : Type 0 where
  pub entries : JsMap String Entry
  pub active : List String
  pub sequence : ℕ
  pub bytes : ℕ
  pub pending_bytes : ℕ
  pub evicted : ℕ

abbrev pub max_meta : ℕ
max_meta = 24576

-- active.has(id)
unfoldable pub has : String → List String → Bool
has id [] = false
has id (a ∷ ids) = ite (string_discrete a id) true (has id ids)

-- active.add(id)
unfoldable pub add : String → List String → List String
add id ids = if has id ids then ids else ids ++ (id ∷ [])

-- active.delete(id)
unfoldable pub without : String → List String → List String
without id [] = []
without id (a ∷ ids) = ite (string_discrete a id) (without id ids) (a ∷ without id ids)

-- The bytes on disk of an entry.
abbrev pub stored : Entry → ℕ
stored e = e.meta_bytes + e.log_bytes

-- `remove`. `unlinked` says whether the files of the archive could be unlinked.
unfoldable pub evict : String → Entry → HistoryStore → HistoryStore
evict id e s = record s {
  entries = delete string_discrete id s.entries;
  bytes = s.bytes - stored e;
  evicted = s.evicted + 1;
}

unfoldable pub remove : (String → Bool) → String → HistoryStore → HistoryStore × Result (Unit {0})
remove unlinked id s = elim (get string_discrete id s.entries) [
  | none ↦ (s, ok tt)
  | some e ↦
      if has id s.active
      then (s, ok tt)
      else if unlinked id
      then (evict id e s, ok tt)
      else (s, err internal)
]

-- `[...this.entries].sort((a, b) => a[1].record.seq - b[1].record.seq)`, which is stable
unfoldable pub insert : String × Entry → List (String × Entry) → List (String × Entry)
insert x [] = x ∷ []
insert x (y ∷ ys) =
    let rest = insert x ys in if leb x.1.archived.seq y.1.archived.seq then x ∷ y ∷ ys else y ∷ rest

unfoldable pub sort : List (String × Entry) → List (String × Entry)
sort [] = []
sort (x ∷ xs) = insert x (sort xs)

unfoldable pub fits : Limits → ℕ → ℕ → HistoryStore → Bool
fits limits extra_bytes extra_records s =
    leb (s.bytes + extra_bytes) limits.max_total_bytes
    && leb (length s.entries + extra_records) limits.max_records

-- `id === protect`
unfoldable pub is_protected : Option String → String → Bool
is_protected none id = false
is_protected (some p) id = ite (string_discrete p id) true false

module _ (limits : Limits) (unlinked : String → Bool) (extra_bytes extra_records : ℕ)
    (protect : Option String) where
  unfoldable pub room_loop : List String → HistoryStore → HistoryStore × Result (Unit {0})
  room_loop [] s =
      (s, if fits limits extra_bytes extra_records s then ok tt else err history_capacity)
  room_loop (id ∷ ids) s =
      if is_protected protect id || has id s.active
      then room_loop ids s
      else let (removed, outcome) = remove unlinked id s in
        elim outcome [
          | err e ↦ (removed, err e)
          | ok _ ↦
              if fits limits extra_bytes extra_records removed
              then (removed, ok tt)
              else room_loop ids removed
        ]

  unfoldable pub make_room : HistoryStore → HistoryStore × Result (Unit {0})
  make_room s =
      if fits limits extra_bytes extra_records s
      then (s, ok tt)
      else room_loop (keys (sort s.entries)) s
