-- ===== src/Runtime/HistoryStore/Outcomes.antt =====
-- The outcome filters of src/runtime/history-store.ts against each other.
use mcp_dev_runtime.Base.{
  Bool, true, false, none, some, ◌≡◌, ◌↔◌, inl, inr, refl, arith, Bool-cases, codes, subst, sym,
}
use mcp_dev_runtime.Base.Text.{Text, equal, equal_iff}
use mcp_dev_runtime.Runtime.HistoryStore.Filter.{
  Outcome, OutcomeFilter, success, failure, unknown, HistoryFilter, closed_state, succeeded,
  refuses_outcome, matches_filter, differs, lacks_label,
}

-- The filter that asks for an outcome and nothing else.
abbrev pub by_outcome : OutcomeFilter → HistoryFilter
by_outcome o = record { state = none; workdir = none; label = none; outcome = some o }

abbrev pub Only : Outcome → OutcomeFilter → Type 0
Only r o = (q : OutcomeFilter) → (matches_filter r (by_outcome q) ≡ true) ↔ (q ≡ o)

not_both : (s : Text) → equal s (codes "exited") ≡ true → equal s (codes "unknown") ≡ false
unfolding equal
not_both s e =
    subst (λ t. equal t (codes "unknown") ≡ false) (sym ((equal_iff s (codes "exited")).0 e)) refl

unknown-closed : (s : Text) → equal s (codes "unknown") ≡ true → closed_state s ≡ true
unfolding equal closed_state
unknown-closed s e =
    subst (λ t. closed_state t ≡ true) (sym ((equal_iff s (codes "unknown")).0 e)) refl

exited-closed : (s : Text) → equal s (codes "exited") ≡ true → closed_state s ≡ true
unfolding equal closed_state
exited-closed s e =
    subst (λ t. closed_state t ≡ true) (sym ((equal_iff s (codes "exited")).0 e)) refl

is_outcome : OutcomeFilter → OutcomeFilter → Bool
is_outcome success success = true
is_outcome failure failure = true
is_outcome unknown unknown = true
is_outcome _ _ = false

is_outcome_iff : (q o : OutcomeFilter) → (is_outcome q o ≡ true) ↔ (q ≡ o)
unfolding is_outcome
is_outcome_iff success success = ground arith
is_outcome_iff success failure = ground arith
is_outcome_iff success unknown = ground arith
is_outcome_iff failure success = ground arith
is_outcome_iff failure failure = ground arith
is_outcome_iff failure unknown = ground arith
is_outcome_iff unknown success = ground arith
is_outcome_iff unknown failure = ground arith
is_outcome_iff unknown unknown = ground arith

only :
    (r : Outcome) (o : OutcomeFilter)
    → (matches_filter r (by_outcome success) ≡ is_outcome success o)
    → (matches_filter r (by_outcome failure) ≡ is_outcome failure o)
    → (matches_filter r (by_outcome unknown) ≡ is_outcome unknown o)
    → Only r o
only r o s f u success = rw s (is_outcome_iff success o)
only r o s f u failure = rw f (is_outcome_iff failure o)
only r o s f u unknown = rw u (is_outcome_iff unknown o)

-- A record of an execution that has ended is found by exactly one of the three outcome filters.
pub outcome_unique : (r : Outcome) → closed_state r.state ≡ true → (o : OutcomeFilter) × Only r o
unfolding matches_filter differs lacks_label refuses_outcome succeeded is_outcome
outcome_unique r closed = elim (Bool-cases (equal r.state (codes "unknown"))) [
  | inl u ↦
      let other : equal r.state (codes "exited") ≡ false = ground (arith, not_both r.state, u) in
      (
        unknown,
        only r unknown (rw (other, refuses_outcome) refl) (rw (closed, u, refuses_outcome) refl)
            (rw (u, refuses_outcome) refl),
      )
  | inr known ↦ elim (Bool-cases (succeeded r)) [
    | inl s ↦
        (success, only r success (ground (arith, s)) (ground (arith, s)) (ground (arith, known)))
    | inr f ↦ (
      failure,
      only r failure (ground (arith, f)) (ground (arith, f, closed, known)) (ground (arith, known)),
    )
  ]
]

-- A record of an execution that is not known to have ended is found by none of them.
pub active_unmatched :
    (r : Outcome) (q : OutcomeFilter)
    → closed_state r.state ≡ false
    → matches_filter r (by_outcome q) ≡ false
unfolding matches_filter differs lacks_label refuses_outcome succeeded
active_unmatched r success going = ground (arith, exited-closed r.state, going)
active_unmatched r failure going = ground (arith, going)
active_unmatched r unknown going = ground (arith, unknown-closed r.state, going)
