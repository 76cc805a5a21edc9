-- ===== src/Runtime/Errors.antt =====
-- ToolError of src/runtime/errors.ts: a code is a constructor; messages and details are not kept.
-- What may throw returns a `Result`.
use native.Mathlib.Omega.{arith}
use mathlib.Core.Path.{◌≡◌, refl}

pub data ToolError : Type 0 where
  invalid_cursor invalid_query request_id_conflict request_cache_full : ToolError
  invalid_patch context_mismatch overlapping_hunks : ToolError
  server_closing session_limit unknown_session session_busy stdin_closed session_ended : ToolError
  invalid_argument archived_session_read_only invalid_history_id : ToolError
  history_capacity history_unavailable history_not_found history_busy output_not_recorded :
      ToolError
  patch_too_large invalid_workdir not_a_file file_too_large target_exists file_changed : ToolError
  not_a_directory duplicate_path not_text invalid_path partial_apply patch_io_error : ToolError
  skills_closed skills_busy skills_timeout invalid_skill_cursor catalog_changed : ToolError
  skill_response_limit skill_changed skill_not_available ambiguous_skill : ToolError
  explicit_skill_required skill_too_large cursor_expired invalid_arguments : ToolError
  invalid_skill_path resource_outside_skill invalid_skill_file invalid_skill_text : ToolError
  invalid_skill_metadata invalid_resource history_log_corrupt history_log_shortened : ToolError
  internal : ToolError

-- What a call comes to: it throws, or it returns a value.
pub data Result {ℓ} (Value : Type ℓ) : Type ℓ where
  err : ToolError → Result Value
  ok : Value → Result Value

-- The next statement runs only if this one has not thrown.
infixl 5 ◌>>=◌
abbrev pub ◌>>=◌ {ℓ} : {A B : Type ℓ} → Result A → (A → Result B) → Result B
err thrown >>= next = err thrown
ok value >>= next = next value

infixl 5 ◌>>◌
abbrev pub ◌>>◌ {ℓ} : {B : Type ℓ} → Result (Unit {ℓ}) → Result B → Result B
this >> next = this >>= (λ _. next)

-- A chain that succeeds has a first step that does.
pub bind-ok :
    {A B : Type 0} (m : Result A) (f : A → Result B) (b : B)
    → (m >>= f) ≡ ok b
    → (a : A) × (m ≡ ok a) × (f a ≡ ok b)
bind-ok (ok a) f b e = (a, refl, e)
bind-ok (err x) f b e = absurd (ground (arith, e))

pub ok_injective : {A : Type 0} (a b : A) → ok a ≡ ok b → a ≡ b
ok_injective a b e = cc
