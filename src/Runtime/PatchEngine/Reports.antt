-- ===== src/Runtime/PatchEngine/Reports.antt =====
-- The report that applyOnce of src/runtime/patch-engine.ts makes of one operation.
pub mod Single
pub mod Loop
use mcp_dev_runtime.Base.{
  ℕ, zero, suc, Bool, true, false, not, ◌||◌, ◌&&◌, Option, none, some, List, [], ◌∷◌, ◌++◌, ltb,
  if◌then◌else◌, if_cases, length, append-nil, append_assoc, ◌≡◌, refl, sym, ◌∙◌, arith, ap, Bytes,
  subst,
}
use mcp_dev_runtime.Base.Text.{Text, equal}
use mcp_dev_runtime.Runtime.Errors.{
  ToolError, Result, ok, err, not_a_file, file_too_large, target_exists, file_changed,
  duplicate_path, patch_too_large, invalid_workdir, not_text,
}
use mcp_dev_runtime.Runtime.PatchParser.Grammar.{
  Operation, add, delete, update, Hunk, Chunk, parse_patch,
}
use mcp_dev_runtime.Runtime.PatchParser.Update.{update_text}
use mcp_dev_runtime.Runtime.PatchEngine.Actions.{
  Failure, tool, missing, Outcome, done, failed, Io, returns, throws, go_on, ◌>>=◌, ◌>>◌, attempt,
  as_value, settle, refuse_if, from_result,
}
use mcp_dev_runtime.Runtime.PatchEngine.{
  Stat, Fs, Host, Limits, Snapshot, Prepared, Identity, link_of, content_at, take_snapshot,
  is_missing, assert_missing, beside, canonical, changed_from, verify_source, is_new, verify_target,
  verify, verify_all, snapshot_for, target_of, data_for, updated, content_text, content_of, keys_of,
  has_any, bytes_of, is_update, prepare_one, prepare_loop, prepare, actual_key, hash_of, added,
}
use mcp_dev_runtime.Runtime.PatchEngine.Committing.{
  PatchChange, deleted, created, rewritten, moved, Progress, Job, change, lift_fs, push_change,
  mark_removed, set_removed, ensure_parent, write_atomic, source_kept, commit_move, commit_update,
  commit_as, commit_one, commit_loop, data_of, mode_of, actual_of, no_progress, Answer, applied,
  refused, stopped, report, is_partial, commit,
}
use mcp_dev_runtime.Runtime.PatchEngine.Reading.{Keeps, bind-Keeps}
use mcp_dev_runtime.Runtime.PatchEngine.Untouched.{verify-Keeps}
use mcp_dev_runtime.Runtime.PatchEngine.Writing.{
  reported, lift-Keeps, lift_fs-ReadsKeep, ensure_parent-Keeps, write_atomic-Keeps,
  source_kept-Keeps,
}

-- The change that an operation comes to when it is carried out.
unfoldable pub updated_as : Prepared → Option Text → PatchChange
updated_as p none = rewritten p.source
updated_as p (some move) = moved p.source p.target true

unfoldable pub change_as : Prepared → Operation → PatchChange
change_as p add = created p.target
change_as p delete = deleted p.source
change_as p update = updated_as p p.hunk.move

abbrev pub change_of : Prepared → PatchChange
change_of p = change_as p p.hunk.operation

-- What an action adds to the changes, for each way that it ends.
abbrev pub Added :
    {W : Type 0}
    → (Outcome (Unit {0}) → List PatchChange → Type 0)
    → List PatchChange
    → Job W × Outcome (Unit {0})
    → Type 0
Added R before r = (more : List PatchChange) × (reported r.0 ≡ before ++ more) × R r.1 more

pub record Adds {W : Type 0} (R : Outcome (Unit {0}) → List PatchChange → Type 0)
    (m : Io (Job W) (Unit {0})) : Type 0 where
  pub adds : (s : Job W) → Added R (reported s) (m s)

-- With a move reported as not finished, what an action makes of it.
abbrev IsFinish : {W : Type 0} → Prepared → List PatchChange → Job W × Outcome (Unit {0}) → Type 0
IsFinish p before (s, done u) = reported s ≡ before ++ (moved p.source p.target true ∷ [])
IsFinish p before (s, failed e) = reported s ≡ before ++ (moved p.source p.target false ∷ [])

pub record Finishes {W : Type 0} (p : Prepared) (m : Io (Job W) (Unit {0})) : Type 0 where
  pub finishes :
      (s : Job W) (before : List PatchChange)
      → reported s ≡ before ++ (moved p.source p.target false ∷ [])
      → IsFinish p before (m s)

mark_removed-append :
    (before : List PatchChange) (from to : Text) (removed : Bool)
    → mark_removed (before ++ (moved from to removed ∷ [])) ≡ before ++ (moved from to true ∷ [])
unfolding mark_removed
mark_removed-append [] from to removed = refl
mark_removed-append (c ∷ []) from to removed = refl
mark_removed-append (c ∷ d ∷ cs) from to removed =
    ap (λ t. c ∷ t) (mark_removed-append (d ∷ cs) from to removed)

module _ {W : Type 0} where
  -- An action that adds nothing, before one that does.
  go_on-Added :
      {A : Type 0} (R : Outcome (Unit {0}) → List PatchChange → Type 0)
      (next : A → Io (Job W) (Unit {0})) (before : List PatchChange) (r : Job W × Outcome A)
      → reported r.0 ≡ before
      → ((e : Failure) → R (failed e) [])
      → ((a : A) → Adds R (next a))
      → Added R before (go_on next r)
  unfolding go_on
  go_on-Added R next before (t, done a) same stops adds =
      subst (λ cs. Added R cs (next a t)) same ((adds a).adds t)
  go_on-Added R next before (t, failed e) same stops adds =
      ([], same ∙ sym (append-nil before), stops e)

  pub Keeps-then :
      {A : Type 0} (R : Outcome (Unit {0}) → List PatchChange → Type 0) {m : Io (Job W) A}
      {next : A → Io (Job W) (Unit {0})}
      → Keeps reported m
      → ((e : Failure) → R (failed e) [])
      → ((a : A) → Adds R (next a))
      → Adds R (m >>= next)
  unfolding ◌>>=◌
  Keeps-then R {m = m} {next = next} k stops adds = record {
    adds = λ s. go_on-Added R next (reported s) (m s) (k.kept s) stops adds;
  }

  pub push_change-Adds :
      (R : Outcome (Unit {0}) → List PatchChange → Type 0) (c : PatchChange)
      → R (done tt) (c ∷ [])
      → Adds {W = W} R (push_change c)
  unfolding push_change change
  push_change-Adds R c r = record { adds = λ s. (c ∷ [], refl, r) }

  go_on-IsFinish :
      (p : Prepared) (before : List PatchChange) {A : Type 0} (next : A → Io (Job W) (Unit {0}))
      (r : Job W × Outcome A)
      → reported r.0 ≡ before ++ (moved p.source p.target false ∷ [])
      → ((a : A) → Finishes p (next a))
      → IsFinish p before (go_on next r)
  unfolding go_on
  go_on-IsFinish p before next (t, done a) half k = (k a).finishes t before half
  go_on-IsFinish p before next (t, failed e) half k = half

  pub Keeps-Finishes :
      (p : Prepared) {A : Type 0} {m : Io (Job W) A} {next : A → Io (Job W) (Unit {0})}
      → Keeps reported m
      → ((a : A) → Finishes p (next a))
      → Finishes p (m >>= next)
  unfolding ◌>>=◌
  Keeps-Finishes p {m = m} {next = next} k f = record {
    finishes = λ s before half. go_on-IsFinish p before next (m s) (k.kept s ∙ half) f;
  }

  pub set_removed-Finishes : (p : Prepared) → Finishes {W = W} p set_removed
  unfolding set_removed change
  set_removed-Finishes p = record {
    finishes =
        λ s before half. ap mark_removed half ∙ mark_removed-append before p.source p.target false;
  }

  module _ (p : Prepared) (R : Outcome (Unit {0}) → List PatchChange → Type 0)
      (whole : R (done tt) (moved p.source p.target true ∷ []))
      (half : (e : Failure) → R (failed e) (moved p.source p.target false ∷ [])) where
    finished :
        (before : List PatchChange) (r : Job W × Outcome (Unit {0}))
        → IsFinish p before r
        → Added R before r
    finished before (s, done u) f = (moved p.source p.target true ∷ [], f, whole)
    finished before (s, failed e) f = (moved p.source p.target false ∷ [], f, half e)

    pub push_then-Adds :
        {m : Io (Job W) (Unit {0})}
        → Finishes p m
        → Adds R (push_change (moved p.source p.target false) >> m)
    unfolding push_change change ◌>>=◌ go_on
    push_then-Adds {m = m} f = record {
      adds = λ s. finished (reported s) (m _) (f.finishes _ (reported s) refl);
    }
