-- ===== src/Runtime/PatchEngine/Yielding.antt =====
-- What an action returns, if it does: for the code that waits, of src/runtime/patch-engine.ts and of
-- src/skills.
use mcp_dev_runtime.Base.{Bool, true, false, ◌≡◌, refl}
use mcp_dev_runtime.Runtime.Errors.{ToolError}
use mcp_dev_runtime.Runtime.PatchEngine.Actions.{
  Failure, Outcome, done, failed, Io, returns, throws, go_on, ◌>>=◌, ◌>>◌, refuse_if,
}

abbrev pub IsDone : {A : Type 0} → (A → Type 0) → Outcome A → Type 0
IsDone P (done a) = P a
IsDone P (failed e) = Unit

pub is_anything : {A : Type 0} (o : Outcome A) → IsDone (λ _. Unit) o
is_anything (done a) = tt
is_anything (failed e) = tt

module _ {S : Type 0} where
  -- What an action returns, if it does.
  pub record Yields {A : Type 0} (P : A → Type 0) (m : Io S A) : Type 0 where
    pub gives : (s : S) → IsDone P (m s).1

  pub returns-Yields : {A : Type 0} (P : A → Type 0) (a : A) → P a → Yields P (returns a)
  unfolding returns
  returns-Yields P a p = record { gives = λ s. p }

  pub go_on-IsDone :
      {A B : Type 0} (Q : A → Type 0) (P : B → Type 0) (next : A → Io S B) (r : S × Outcome A)
      → IsDone Q r.1
      → ((a : A) → Q a → Yields P (next a))
      → IsDone P (go_on next r).1
  unfolding go_on
  go_on-IsDone Q P next (s, done a) q k = (k a q).gives s
  go_on-IsDone Q P next (s, failed e) q k = tt

  pub bind-Yields :
      {A B : Type 0} (Q : A → Type 0) (P : B → Type 0) {m : Io S A} {next : A → Io S B}
      → Yields Q m
      → ((a : A) → Q a → Yields P (next a))
      → Yields P (m >>= next)
  unfolding ◌>>=◌
  bind-Yields Q P {m = m} {next = next} y k = record {
    gives = λ s. go_on-IsDone Q P next (m s) (y.gives s) k;
  }

  pub any-Yields :
      {A B : Type 0} (P : B → Type 0) (m : Io S A) {next : A → Io S B}
      → ((a : A) → Yields P (next a))
      → Yields P (m >>= next)
  any-Yields P m k =
      bind-Yields (λ _. Unit) P {m = m} (record { gives = λ s. is_anything (m s).1 }) (λ a _. k a)

  pub refuse_if-Yields : (b : Bool) (e : ToolError) → Yields (λ _. b ≡ false) (refuse_if b e)
  unfolding refuse_if throws returns
  refuse_if-Yields true e = record { gives = λ s. tt }
  refuse_if-Yields false e = record { gives = λ s. refl }

  pub refused-Yields :
      {B : Type 0} (P : B → Type 0) (b : Bool) (e : ToolError) {next : Io S B}
      → (b ≡ false → Yields P next)
      → Yields P (refuse_if b e >> next)
  refused-Yields P b e k = bind-Yields (λ _. b ≡ false) P (refuse_if-Yields b e) (λ _ h. k h)

-- A choice by an outcome that waits for it.
pub outcome_cases :
    {A B : Type 0} (P : A → Type 0) (o : Outcome B) {x : Failure → A} {y : B → A}
    → ((e : Failure) → P (x e))
    → ((b : B) → P (y b))
    → P (elim o [ failed e ↦ x e | done b ↦ y b ])
outcome_cases P (failed e) f g = f e
outcome_cases P (done b) f g = g b
