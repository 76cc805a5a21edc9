-- ===== src/Runtime/PatchEngine/Actions.antt =====
-- Code that waits and may throw, as src/runtime/patch-engine.ts runs it: a step from one state of the
-- world to the next, with what it returns or throws.
use mcp_dev_runtime.Base.{Bool, true, false, if◌then◌else◌}
use mcp_dev_runtime.Runtime.Errors.{ToolError, Result, ok, err}

-- The codes of system errors that the code tells apart.
pub data Code : Type 0 where
  enoent eexist another : Code

pub data Failure : Type 0 where
  tool : ToolError → Failure
  system : Code → Failure

-- `missing`
unfoldable pub missing : Failure → Bool
missing (system enoent) = true
missing _ = false

pub data Outcome (A : Type 0) : Type 0 where
  done : A → Outcome A
  failed : Failure → Outcome A

abbrev pub Io : Type 0 → Type 0 → Type 0
Io S A = S → S × Outcome A

module _ {S : Type 0} where
  unfoldable pub returns : {A : Type 0} → A → Io S A
  returns a s = (s, done a)

  unfoldable pub throws : {A : Type 0} → Failure → Io S A
  throws e s = (s, failed e)

  unfoldable pub go_on : {A B : Type 0} → (A → Io S B) → S × Outcome A → S × Outcome B
  go_on next (s, done a) = next a s
  go_on next (s, failed e) = (s, failed e)

  infixl 5 ◌>>=◌
  unfoldable pub ◌>>=◌ : {A B : Type 0} → Io S A → (A → Io S B) → Io S B
  (m >>= next) s = go_on next (m s)

  infixl 5 ◌>>◌
  abbrev pub ◌>>◌ : {B : Type 0} → Io S (Unit {0}) → Io S B → Io S B
  m >> next = m >>= (λ _. next)

  unfoldable pub as_value : {A : Type 0} → S × Outcome A → S × Outcome (Outcome A)
  as_value (s, o) = (s, done o)

  -- What a call comes to, to go on with in either case.
  unfoldable pub attempt : {A : Type 0} → Io S A → Io S (Outcome A)
  attempt m s = as_value (m s)

  -- An outcome is returned, or thrown again.
  unfoldable pub settle : {A : Type 0} → Outcome A → Io S A
  settle (done a) = returns a
  settle (failed e) = throws e

  -- `if (test) throw`
  unfoldable pub refuse_if : Bool → ToolError → Io S (Unit {0})
  refuse_if test e = if test then throws (tool e) else returns tt

  unfoldable pub from_result : {A : Type 0} → Result A → Io S A
  from_result (ok a) = returns a
  from_result (err e) = throws (tool e)
