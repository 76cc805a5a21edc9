-- ===== src/Runtime/HistoryStore/Filter.antt =====
-- matchesFilter of src/runtime/history-store.ts.
use mcp_dev_runtime.Base.{
  Bool, true, false, not, ◌&&◌, ◌||◌, Option, none, some, [], ◌∷◌, Number, whole, other, ◌==◌,
  codes, if◌then◌else◌,
}
use mcp_dev_runtime.Base.Text.{Text, equal, starts_with}
use mcp_dev_runtime.Runtime.PatchParser.Grammar.{is_nil}

-- The fields of a record that the filter reads.
pub record Outcome : Type 0 where
  pub state : Text
  pub exit_code : Option Number
  pub workdir : Text
  pub label : Option Text

pub data OutcomeFilter : Type 0 where
  success failure unknown : OutcomeFilter

pub record HistoryFilter : Type 0 where
  pub state : Option Text
  pub workdir : Option Text
  pub label : Option Text
  pub outcome : Option OutcomeFilter

-- `!['running', 'terminating'].includes(state)`
unfoldable pub closed_state : Text → Bool
closed_state state = not (equal state (codes "running") || equal state (codes "terminating"))

-- s.includes(t)
unfoldable pub includes : Text → Text → Bool
includes t [] = is_nil t
includes t (c ∷ s) = starts_with t (c ∷ s) || includes t s

-- `f && x !== f`, for a text f that may be missing; the empty text is falsy
unfoldable pub differs : Option Text → Text → Bool
differs none x = false
differs (some f) x = not (is_nil f) && not (equal x f)

-- `r.exit_code === 0`
unfoldable pub is_zero : Option Number → Bool
is_zero (some (whole n)) = n == 0
is_zero (some other) = false
is_zero none = false

-- `r.state === 'exited' && r.exit_code === 0`
unfoldable pub succeeded : Outcome → Bool
succeeded r = equal r.state (codes "exited") && is_zero r.exit_code

unfoldable pub label_text : Option Text → Text
label_text none = []
label_text (some t) = t

-- `f.label && !(r.label ?? '').includes(f.label)`
unfoldable pub lacks_label : Option Text → Outcome → Bool
lacks_label none r = false
lacks_label (some f) r = not (is_nil f) && not (includes f (label_text r.label))

-- The three tests on `f.outcome`.
unfoldable pub refuses_outcome : Option OutcomeFilter → Outcome → Bool
refuses_outcome none r = false
refuses_outcome (some success) r = not (succeeded r)
refuses_outcome (some failure) r =
    not (closed_state r.state && not (equal r.state (codes "unknown")) && not (succeeded r))
refuses_outcome (some unknown) r = not (equal r.state (codes "unknown"))

unfoldable pub matches_filter : Outcome → HistoryFilter → Bool
matches_filter r f =
    if differs f.state r.state
    then false
    else if differs f.workdir r.workdir
    then false
    else if lacks_label f.label r
    then false
    else if refuses_outcome f.outcome r
    then false
    else true
