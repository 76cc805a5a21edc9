-- ===== src/Runtime/HistoryStore/Listing.antt =====
-- list of src/runtime/history-store.ts: the pages of the archived executions.
pub mod Paging
use mcp_dev_runtime.Base.{
  ℕ, ◌-◌, Bool, true, false, not, ◌&&◌, ◌||◌, Option, none, some, List, [], ◌∷◌, map, ltb, leb,
  if◌then◌else◌, length, take, keep, Number, whole, other, max_safe_integer,
}
use mcp_dev_runtime.Base.JsMap.{values}
use mcp_dev_runtime.Base.Sorting.{sort_by}
use mcp_dev_runtime.Base.Text.{Text, equal}
use mcp_dev_runtime.Runtime.Errors.{Result, ok, err, history_unavailable, invalid_cursor}
use mcp_dev_runtime.Runtime.HistoryStore.{HistoryRecord, Entry, HistoryStore}
use mcp_dev_runtime.Runtime.HistoryStore.Filter.{HistoryFilter, matches_filter}

-- The fields that tell whether the store can be used.
pub record Phase : Type 0 where
  pub closed : Bool
  pub locked : Bool
  pub initialized : Bool
  pub disabled : Bool

-- `available`, when the queue is empty
unfoldable pub available : Phase → Result (Unit {0})
available p =
    if p.closed || not p.locked || not p.initialized || p.disabled
    then err history_unavailable
    else ok tt

-- A cursor of the list; `filters` is the JSON of the filters and the order.
pub record ListCursor : Type 0 where
  pub instance_id : Text
  pub filters : Text
  pub ceiling : Number
  pub after : Number

-- The bounds that a cursor gives, if its numbers are safe integers from 0 on.
unfoldable pub bounds_in : Number → Number → Result (ℕ × ℕ)
bounds_in (whole ceiling) (whole after) =
    if leb ceiling max_safe_integer && leb after max_safe_integer
    then ok (ceiling, after)
    else err invalid_cursor
bounds_in _ _ = err invalid_cursor

-- The ceiling and the place behind which the page starts: without a cursor, with one that could not
-- be decoded, and with one that could.
unfoldable pub list_bounds : Text → Text → Bool → ℕ → Option (Option ListCursor) → Result (ℕ × ℕ)
list_bounds instance_id filters descending sequence none =
    ok (sequence, if descending then max_safe_integer else 0)
list_bounds instance_id filters descending sequence (some none) = err invalid_cursor
list_bounds instance_id filters descending sequence (some (some c)) =
    if equal c.instance_id instance_id && equal c.filters filters
    then bounds_in c.ceiling c.after
    else err invalid_cursor

-- `order === 'desc' ? r.seq < after : r.seq > after`
unfoldable pub is_behind : Bool → ℕ → HistoryRecord → Bool
is_behind true after r = ltb r.seq after
is_behind false after r = ltb after r.seq

-- The comparison of the sort.
unfoldable pub stands_before : Bool → HistoryRecord → HistoryRecord → Bool
stands_before true a b = leb b.seq a.seq
stands_before false a b = leb a.seq b.seq

unfoldable pub is_listed : Bool → ℕ → ℕ → HistoryFilter → HistoryRecord → Bool
is_listed descending ceiling after f r =
    leb r.seq ceiling && is_behind descending after r && matches_filter r.outcome f

unfoldable pub records : HistoryStore → List HistoryRecord
records s = map (λ e. e.archived) (values s.entries)

unfoldable pub eligible : Bool → ℕ → ℕ → HistoryFilter → HistoryStore → List HistoryRecord
eligible descending ceiling after f s =
    sort_by (stands_before descending) (keep (is_listed descending ceiling after f) (records s))

-- selected.at(-1)
unfoldable pub last : List HistoryRecord → Option HistoryRecord
last [] = none
last (r ∷ []) = some r
last (r ∷ q ∷ rs) = last (q ∷ rs)

pub record ListPage : Type 0 where
  pub sessions : List HistoryRecord
  pub next_cursor : Option ListCursor

unfoldable pub cursor_behind : Text → Text → ℕ → Option HistoryRecord → Option ListCursor
cursor_behind instance_id filters ceiling none = none
cursor_behind instance_id filters ceiling (some r) = some (record {
  instance_id = instance_id;
  filters = filters;
  ceiling = whole ceiling;
  after = whole r.seq;
})

unfoldable pub page_of : Text → Text → ℕ → ℕ → List HistoryRecord → ListPage
page_of instance_id filters ceiling limit found =
    let selected = take limit found in
    record {
      sessions = selected;
      next_cursor =
          if ltb (length selected) (length found)
          then cursor_behind instance_id filters ceiling (last selected)
          else none;
    }

unfoldable pub list :
    Text
    → Text
    → Phase
    → Bool
    → HistoryFilter
    → ℕ
    → Option (Option ListCursor)
    → HistoryStore
    → Result ListPage
list instance_id filters phase descending f limit cursor s = elim (available phase) [
  | err e ↦ err e
  | ok _ ↦ elim (list_bounds instance_id filters descending s.sequence cursor) [
    | err e ↦ err e
    | ok (ceiling, after) ↦
        ok (page_of instance_id filters ceiling limit (eligible descending ceiling after f s))
  ]
]
