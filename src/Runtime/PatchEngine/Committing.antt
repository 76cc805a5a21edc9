-- ===== src/Runtime/PatchEngine/Committing.antt =====
-- The second half of applyOnce of src/runtime/patch-engine.ts: the files are written. The arrays that
-- the code fills meanwhile are a part of the state, so that they are there when it throws.
use mcp_dev_runtime.Base.{
  ℕ, zero, suc, Bool, true, false, not, ◌||◌, Option, none, some, List, [], ◌∷◌, ◌++◌,
  if◌then◌else◌, length, Bytes,
}
use mcp_dev_runtime.Base.Text.{Text, equal}
use mcp_dev_runtime.Runtime.Errors.{
  ToolError, not_a_directory, file_changed, partial_apply, patch_io_error,
}
use mcp_dev_runtime.Runtime.PatchParser.Grammar.{Operation, add, delete, update, is_nil}
use mcp_dev_runtime.Runtime.PatchEngine.Actions.{
  Failure, tool, system, enoent, eexist, missing, Outcome, done, failed, Io, returns, throws, ◌>>=◌,
  ◌>>◌, attempt, settle, refuse_if,
}
use mcp_dev_runtime.Runtime.PatchEngine.{
  Stat, Fs, Host, Limits, Snapshot, Prepared, take_snapshot, verify, verify_all, prepare,
}

pub data PatchChange : Type 0 where
  deleted : Text → PatchChange
  created : Text → PatchChange
  rewritten : Text → PatchChange
  moved : Text → Text → Bool → PatchChange

-- `changes`, `createdDirectories` and `warnings`
pub record Progress : Type 0 where
  pub changes : List PatchChange
  pub directories : List Text
  pub warnings : List Text

-- The state of the world and of the arrays.
abbrev pub Job : Type 0 → Type 0
Job W = W × Progress

-- `change.source_removed = true`, of the last change
unfoldable pub mark_removed : List PatchChange → List PatchChange
mark_removed [] = []
mark_removed (moved from to removed ∷ []) = moved from to true ∷ []
mark_removed (c ∷ []) = c ∷ []
mark_removed (c ∷ d ∷ cs) = c ∷ mark_removed (d ∷ cs)

module _ {W : Type 0} where
  abbrev pub with_progress : {A : Type 0} → Progress → W × Outcome A → Job W × Outcome A
  with_progress arrays (w, o) = ((w, arrays), o)

  -- A call of the file system leaves the arrays as they are.
  abbrev pub lift : {A : Type 0} → Io W A → Io (Job W) A
  lift m (w, arrays) = with_progress arrays (m w)

  unfoldable pub change : (Progress → Progress) → Io (Job W) (Unit {0})
  change f (w, arrays) = ((w, f arrays), done tt)

  unfoldable pub lift_fs : Fs W → Fs (Job W)
  lift_fs fs = record {
    lstat = λ p. lift (fs.lstat p);
    stat = λ p. lift (fs.stat p);
    readlink = λ p. lift (fs.readlink p);
    realpath = λ p. lift (fs.realpath p);
    read_file = λ p. lift (fs.read_file p);
    mkdir = λ p. lift (fs.mkdir p);
    unlink = λ p. lift (fs.unlink p);
    link = λ p q. lift (fs.link p q);
    rename = λ p q. lift (fs.rename p q);
    open_new = λ p mode. lift (fs.open_new p mode);
    write_file = λ p bytes. lift (fs.write_file p bytes);
    chmod = λ p mode. lift (fs.chmod p mode);
    close = λ p. lift (fs.close p);
  }

  unfoldable pub push_change : PatchChange → Io (Job W) (Unit {0})
  push_change c = change (λ arrays. record arrays { changes = arrays.changes ++ (c ∷ []) })

  unfoldable pub push_directory : Text → Io (Job W) (Unit {0})
  push_directory path =
      change (λ arrays. record arrays { directories = arrays.directories ++ (path ∷ []) })

  unfoldable pub warn : Text → Io (Job W) (Unit {0})
  warn path = change (λ arrays. record arrays { warnings = arrays.warnings ++ (path ∷ []) })

  unfoldable pub set_removed : Io (Job W) (Unit {0})
  set_removed = change (λ arrays. record arrays { changes = mark_removed arrays.changes })

abbrev pub no_progress : Progress
no_progress = record { changes = []; directories = []; warnings = [] }

-- What `applyOnce` comes to: the answer, an error before anything was written, or the error that it
-- makes of one that was thrown while it wrote.
pub data Answer : Type 0 where
  applied : Progress → Answer
  refused : Failure → Answer
  stopped : ToolError → Bool → Progress → Answer

-- `changes.length > 0 || createdDirectories.length > 0`
unfoldable pub is_partial : Progress → Bool
is_partial arrays = not (is_nil arrays.changes) || not (is_nil arrays.directories)

unfoldable pub code_of : Failure → ToolError
code_of (tool e) = e
code_of (system c) = patch_io_error

module _ {W : Type 0} (host : Host) (limits : Limits) (disk : Fs W) where
  abbrev pub fs : Fs (Job W)
  fs = lift_fs disk

  -- What `stat` of a parent comes to: whether it is there.
  unfoldable pub is_parent : Outcome Stat → Io (Job W) Bool
  is_parent (done s) = if s.is_directory then returns true else throws (tool not_a_directory)
  is_parent (failed e) = if missing e then returns false else throws e

  unfoldable pub made : Text → Outcome (Unit {0}) → Io (Job W) (Unit {0})
  made path (done u) = push_directory path
  made path (failed (system eexist)) = returns tt
  made path (failed e) = throws e

  unfoldable pub make_missing : Text → Io (Job W) (Unit {0}) → Bool → Io (Job W) (Unit {0})
  make_missing path above true = returns tt
  make_missing path above false = do above; result ← attempt (fs.mkdir path); made path result

  -- `ensureParent`; a path has no more parents than `rounds`.
  unfoldable pub ensure_parent : ℕ → Text → Io (Job W) (Unit {0})
  ensure_parent zero filename = throws (system enoent)
  ensure_parent (suc rounds) filename = do
    found ← attempt (fs.stat (host.dirname filename))
    there ← is_parent found
    make_missing (host.dirname filename) (ensure_parent rounds (host.dirname filename)) there

  unfoldable pub or_mode : Option ℕ → ℕ
  or_mode none = 438
  or_mode (some mode) = mode

  unfoldable pub set_mode : Text → Option ℕ → Io (Job W) (Unit {0})
  set_mode tmp none = returns tt
  set_mode tmp (some mode) = fs.chmod tmp mode

  unfoldable pub put_in_place : Text → Text → Bool → Io (Job W) (Unit {0})
  put_in_place tmp filename true = fs.link tmp filename
  put_in_place tmp filename false = fs.rename tmp filename

  -- With the file open; if this throws, it is closed.
  unfoldable pub write_open : Text → Bytes → Option ℕ → Io (Job W) (Unit {0})
  write_open tmp bytes mode = do fs.write_file tmp bytes; set_mode tmp mode; fs.close tmp

  unfoldable pub close_after : Text → Outcome (Unit {0}) → Io (Job W) (Unit {0})
  close_after tmp (done u) = returns tt
  close_after tmp (failed e) = do ignored ← attempt (fs.close tmp); throws e

  unfoldable pub write_temporary : Text → Text → Bytes → Option ℕ → Bool → Io (Job W) (Unit {0})
  write_temporary tmp filename bytes mode exclusive = do
    fs.open_new tmp (or_mode mode)
    written ← attempt (write_open tmp bytes mode)
    close_after tmp written
    put_in_place tmp filename exclusive

  unfoldable pub unlinked : Text → Outcome (Unit {0}) → Io (Job W) (Unit {0})
  unlinked tmp (done u) = returns tt
  unlinked tmp (failed e) = if missing e then returns tt else warn tmp

  unfoldable pub write_atomic : Text → Bytes → Option ℕ → Bool → Io (Job W) (Unit {0})
  write_atomic filename bytes mode exclusive = do
    let tmp = host.temporary filename
    result ← attempt (write_temporary tmp filename bytes mode exclusive)
    cleaned ← attempt (fs.unlink tmp)
    unlinked tmp cleaned
    settle result

  unfoldable pub data_of : Prepared → Bytes
  data_of p = elim p.new_data [ none ↦ [] | some bytes ↦ bytes ]

  unfoldable pub mode_of : Option Snapshot → Option ℕ
  mode_of none = none
  mode_of (some s) = some s.mode

  unfoldable pub source_kept : Text → Option Snapshot → Io (Job W) (Unit {0})
  source_kept source none = returns tt
  source_kept source (some before) = do
    now ← take_snapshot host limits fs source true
    refuse_if (not (equal now.signature before.signature)) file_changed

  unfoldable pub commit_move : Prepared → Io (Job W) (Unit {0})
  commit_move p = do
    ensure_parent (length p.target) p.target
    write_atomic p.target (data_of p) (mode_of p.snapshot) true
    push_change (moved p.source p.target false)
    source_kept p.source p.snapshot
    fs.unlink p.source
    set_removed

  unfoldable pub actual_of : Prepared → Text
  actual_of p = elim p.snapshot [ none ↦ p.source | some s ↦ s.actual ]

  unfoldable pub commit_update : Prepared → Option Text → Io (Job W) (Unit {0})
  commit_update p none = do
    write_atomic (actual_of p) (data_of p) (mode_of p.snapshot) false
    push_change (rewritten p.source)
  commit_update p (some move) = commit_move p

  unfoldable pub commit_as : Prepared → Operation → Io (Job W) (Unit {0})
  commit_as p delete = do fs.unlink p.source; push_change (deleted p.source)
  commit_as p add = do
    ensure_parent (length p.target) p.target
    write_atomic p.target (data_of p) none true
    push_change (created p.target)
  commit_as p update = commit_update p p.hunk.move

  unfoldable pub commit_one : Prepared → Io (Job W) (Unit {0})
  commit_one p = do verify host limits fs p; commit_as p p.hunk.operation

  unfoldable pub commit_loop : List Prepared → Io (Job W) (Unit {0})
  commit_loop [] = returns tt
  commit_loop (p ∷ ps) = do commit_one p; commit_loop ps

  unfoldable pub report : Job W × Outcome (Unit {0}) → W × Answer
  report ((w, arrays), done u) = (w, applied arrays)
  report ((w, arrays), failed e) = (
    w,
    stopped (if is_partial arrays then partial_apply else code_of e) (is_partial arrays) arrays,
  )

  unfoldable pub commit : List Prepared → W × Outcome (Unit {0}) → W × Answer
  commit ps (w, failed e) = (w, refused e)
  commit ps (w, done u) = report (commit_loop ps (w, no_progress))

  unfoldable pub apply_prepared : W × Outcome (List Prepared) → W × Answer
  apply_prepared (w, failed e) = (w, refused e)
  apply_prepared (w, done ps) = commit ps (verify_all host limits disk ps w)

  unfoldable pub apply_once : Text → Text → W → W × Answer
  apply_once patch cwd w = apply_prepared (prepare host limits disk patch cwd w)
