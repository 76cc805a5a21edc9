-- ===== src/Runtime/PatchEngine/Writing.antt =====
-- ensureParent and writeAtomic of src/runtime/patch-engine.ts, and the reported changes.
use mcp_dev_runtime.Base.{
  ℕ, zero, suc, Bool, true, false, Option, none, some, List, ◌≡◌, refl, Bytes,
}
use mcp_dev_runtime.Base.Text.{Text}
use mcp_dev_runtime.Runtime.Errors.{file_changed}
use mcp_dev_runtime.Runtime.PatchEngine.Actions.{tool, missing, Outcome, done, failed, Io}
use mcp_dev_runtime.Runtime.PatchEngine.{Stat, Fs, Host, Limits, Snapshot}
use mcp_dev_runtime.Runtime.PatchEngine.Committing.{
  PatchChange, Progress, Job, with_progress, lift, change, lift_fs, push_directory, warn, is_parent,
  made, make_missing, ensure_parent, set_mode, put_in_place, write_open, close_after,
  write_temporary, unlinked, write_atomic, source_kept,
}
use mcp_dev_runtime.Runtime.PatchEngine.Actions.{system, enoent, eexist, another}
use mcp_dev_runtime.Runtime.PatchEngine.Reading.{
  Keeps, bind-Keeps, attempt-Keeps, returns-Keeps, throws-Keeps, settle-Keeps, if-Keeps,
  refuse_if-Keeps, ReadsKeep, take_snapshot-Keeps,
}

-- The changes reported so far.
abbrev pub reported : {W : Type 0} → Job W → List PatchChange
reported (w, arrays) = arrays.changes

module _ {W : Type 0} where
  with_progress_same :
      {A : Type 0} (arrays : Progress) (r : W × Outcome A)
      → reported (with_progress arrays r).0 ≡ arrays.changes
  with_progress_same arrays (w, o) = refl

  pub lift-Keeps : {A : Type 0} (m : Io W A) → Keeps reported (lift m)
  lift-Keeps m = record { kept = λ s. with_progress_same s.1 (m s.0) }

  pub lift_fs-ReadsKeep : (disk : Fs W) → ReadsKeep reported (lift_fs disk)
  unfolding lift_fs
  lift_fs-ReadsKeep disk = record {
    lstat = λ p. lift-Keeps (disk.lstat p);
    stat = λ p. lift-Keeps (disk.stat p);
    readlink = λ p. lift-Keeps (disk.readlink p);
    realpath = λ p. lift-Keeps (disk.realpath p);
    read_file = λ p. lift-Keeps (disk.read_file p);
  }

  push_directory-Keeps : (path : Text) → Keeps reported (push_directory {W = W} path)
  unfolding push_directory change
  push_directory-Keeps path = record { kept = λ s. refl }

  warn-Keeps : (path : Text) → Keeps reported (warn {W = W} path)
  unfolding warn change
  warn-Keeps path = record { kept = λ s. refl }

module _ {W : Type 0} (host : Host) (limits : Limits) (disk : Fs W) where
  is_parent-Keeps : (o : Outcome Stat) → Keeps reported (is_parent host limits disk o)
  unfolding is_parent
  is_parent-Keeps (done s) =
      if-Keeps reported s.is_directory (returns-Keeps reported true) (throws-Keeps reported _)
  is_parent-Keeps (failed e) =
      if-Keeps reported (missing e) (returns-Keeps reported false) (throws-Keeps reported e)

  made-Keeps :
      (path : Text) (o : Outcome (Unit {0})) → Keeps reported (made host limits disk path o)
  unfolding made
  made-Keeps path (done u) = push_directory-Keeps path
  made-Keeps path (failed (system eexist)) = returns-Keeps reported tt
  made-Keeps path (failed (system enoent)) = throws-Keeps reported _
  made-Keeps path (failed (system another)) = throws-Keeps reported _
  made-Keeps path (failed (tool e)) = throws-Keeps reported _

  make_missing-Keeps :
      (path : Text) (above : Io (Job W) (Unit {0})) (b : Bool)
      → Keeps reported above
      → Keeps reported (make_missing host limits disk path above b)
  unfolding make_missing lift_fs
  make_missing-Keeps path above true k = returns-Keeps reported tt
  make_missing-Keeps path above false k = bind-Keeps reported k (λ _.
      bind-Keeps reported (attempt-Keeps reported (lift-Keeps (disk.mkdir path))) (made-Keeps path))

  pub ensure_parent-Keeps :
      (rounds : ℕ) (filename : Text)
      → Keeps reported (ensure_parent host limits disk rounds filename)
  unfolding ensure_parent lift_fs
  ensure_parent-Keeps zero filename = throws-Keeps reported _
  ensure_parent-Keeps (suc rounds) filename =
      bind-Keeps reported (attempt-Keeps reported (lift-Keeps (disk.stat (host.dirname filename))))
        (λ found. bind-Keeps reported (is_parent-Keeps found) (λ there.
          make_missing-Keeps (host.dirname filename)
            (ensure_parent host limits disk rounds (host.dirname filename)) there
            (ensure_parent-Keeps rounds (host.dirname filename))))

  set_mode-Keeps :
      (tmp : Text) (mode : Option ℕ) → Keeps reported (set_mode host limits disk tmp mode)
  unfolding set_mode lift_fs
  set_mode-Keeps tmp none = returns-Keeps reported tt
  set_mode-Keeps tmp (some mode) = lift-Keeps (disk.chmod tmp mode)

  put_in_place-Keeps :
      (tmp filename : Text) (exclusive : Bool)
      → Keeps reported (put_in_place host limits disk tmp filename exclusive)
  unfolding put_in_place lift_fs
  put_in_place-Keeps tmp filename true = lift-Keeps (disk.link tmp filename)
  put_in_place-Keeps tmp filename false = lift-Keeps (disk.rename tmp filename)

  write_open-Keeps :
      (tmp : Text) (bytes : Bytes) (mode : Option ℕ)
      → Keeps reported (write_open host limits disk tmp bytes mode)
  unfolding write_open lift_fs
  write_open-Keeps tmp bytes mode =
      bind-Keeps reported (lift-Keeps (disk.write_file tmp bytes))
        (λ _. bind-Keeps reported (set_mode-Keeps tmp mode) (λ _. lift-Keeps (disk.close tmp)))

  close_after-Keeps :
      (tmp : Text) (o : Outcome (Unit {0})) → Keeps reported (close_after host limits disk tmp o)
  unfolding close_after lift_fs
  close_after-Keeps tmp (done u) = returns-Keeps reported tt
  close_after-Keeps tmp (failed e) =
      bind-Keeps reported (attempt-Keeps reported (lift-Keeps (disk.close tmp)))
        (λ _. throws-Keeps reported e)

  write_temporary-Keeps :
      (tmp filename : Text) (bytes : Bytes) (mode : Option ℕ) (exclusive : Bool)
      → Keeps reported (write_temporary host limits disk tmp filename bytes mode exclusive)
  unfolding write_temporary lift_fs
  write_temporary-Keeps tmp filename bytes mode exclusive =
      bind-Keeps reported (lift-Keeps (disk.open_new tmp _)) (λ _.
        bind-Keeps reported (attempt-Keeps reported (write_open-Keeps tmp bytes mode)) (λ written.
          bind-Keeps reported (close_after-Keeps tmp written)
            (λ _. put_in_place-Keeps tmp filename exclusive)))

  unlinked-Keeps :
      (tmp : Text) (o : Outcome (Unit {0})) → Keeps reported (unlinked host limits disk tmp o)
  unfolding unlinked
  unlinked-Keeps tmp (done u) = returns-Keeps reported tt
  unlinked-Keeps tmp (failed e) =
      if-Keeps reported (missing e) (returns-Keeps reported tt) (warn-Keeps tmp)

  pub write_atomic-Keeps :
      (filename : Text) (bytes : Bytes) (mode : Option ℕ) (exclusive : Bool)
      → Keeps reported (write_atomic host limits disk filename bytes mode exclusive)
  unfolding write_atomic lift_fs
  write_atomic-Keeps filename bytes mode exclusive =
      bind-Keeps reported
        (attempt-Keeps reported
          (write_temporary-Keeps (host.temporary filename) filename bytes mode exclusive))
        (λ result.
          bind-Keeps reported
            (attempt-Keeps reported (lift-Keeps (disk.unlink (host.temporary filename))))
            (λ cleaned.
              bind-Keeps reported (unlinked-Keeps (host.temporary filename) cleaned)
                (λ _. settle-Keeps reported result)))

  pub source_kept-Keeps :
      (source : Text) (o : Option Snapshot) → Keeps reported (source_kept host limits disk source o)
  unfolding source_kept
  source_kept-Keeps source none = returns-Keeps reported tt
  source_kept-Keeps source (some before) =
      bind-Keeps reported
        (take_snapshot-Keeps reported host limits (lift_fs disk) (lift_fs-ReadsKeep disk) source
          true)
        (λ now. refuse_if-Keeps reported _ file_changed)
