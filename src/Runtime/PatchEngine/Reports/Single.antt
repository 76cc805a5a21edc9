-- ===== src/Runtime/PatchEngine/Reports/Single.antt =====
-- The changes that one operation of src/runtime/patch-engine.ts reports, as far as it gets.
use mcp_dev_runtime.Base.{
  Bool, true, false, Option, none, some, List, [], ◌∷◌, length, append-nil, ◌≡◌, refl, sym, ◌∙◌, ap,
  subst,
}
use mcp_dev_runtime.Base.Text.{Text}
use mcp_dev_runtime.Runtime.PatchParser.Grammar.{Operation, add, delete, update}
use mcp_dev_runtime.Runtime.PatchEngine.Actions.{
  Failure, Outcome, done, failed, Io, go_on, ◌>>=◌, ◌>>◌,
}
use mcp_dev_runtime.Runtime.PatchEngine.{Fs, Host, Limits, Prepared, verify}
use mcp_dev_runtime.Runtime.PatchEngine.Committing.{
  PatchChange, deleted, created, rewritten, moved, Job, lift_fs, push_change, set_removed,
  ensure_parent, write_atomic, source_kept, commit_move, commit_update, commit_as, commit_one,
  data_of, mode_of,
}
use mcp_dev_runtime.Runtime.PatchEngine.Reading.{Keeps, bind-Keeps}
use mcp_dev_runtime.Runtime.PatchEngine.Untouched.{verify-Keeps}
use mcp_dev_runtime.Runtime.PatchEngine.Writing.{
  reported, lift-Keeps, lift_fs-ReadsKeep, ensure_parent-Keeps, write_atomic-Keeps,
  source_kept-Keeps,
}
use mcp_dev_runtime.Runtime.PatchEngine.Reports.{
  updated_as, change_as, change_of, Added, Adds, Keeps-then, push_change-Adds, Keeps-Finishes,
  set_removed-Finishes, push_then-Adds,
}

-- An operation that moves a file.
unfoldable pub is_move_of : Operation → Option Text → Bool
is_move_of update (some move) = true
is_move_of _ _ = false

abbrev pub is_move : Prepared → Bool
is_move p = is_move_of p.hunk.operation p.hunk.move

module _ {W : Type 0} where
  after_assoc :
      {A B C : Type 0} (n : A → Io (Job W) B) (next : B → Io (Job W) C) (r : Job W × Outcome A)
      → go_on (λ a. n a >>= next) r ≡ go_on next (go_on n r)
  unfolding go_on ◌>>=◌
  after_assoc n next (s, done a) = refl
  after_assoc n next (s, failed e) = refl

  bind_assoc :
      {A B C : Type 0} (m : Io (Job W) A) (n : A → Io (Job W) B) (next : B → Io (Job W) C)
      (s : Job W)
      → (m >>= (λ a. n a >>= next)) s ≡ (m >>= n >>= next) s
  unfolding ◌>>=◌
  bind_assoc m n next s = after_assoc n next (m s)

module _ {W : Type 0} (host : Host) (limits : Limits) (disk : Fs W) where
  -- The first part of a move, up to the new file being there.
  unfoldable pub placing : Prepared → Io (Job W) (Unit {0})
  placing p = do
    verify host limits (lift_fs disk) p
    ensure_parent host limits disk (length p.target) p.target
    write_atomic host limits disk p.target (data_of host limits disk p)
        (mode_of host limits disk p.snapshot) true

  -- The rest of it.
  unfoldable leaving : Prepared → Io (Job W) (Unit {0})
  leaving p = do
    push_change (moved p.source p.target false)
    source_kept host limits disk p.source p.snapshot
    (lift_fs disk).unlink p.source
    set_removed

  -- The changes of an operation that fails when it is run from a job: none, unless it is a move whose
  -- new file was put in place; then that move, of which the old file may be left.
  pub data IsUnfinished (p : Prepared) (s : Job W) : List PatchChange → Type 0 where
    untouched : is_move p ≡ false → IsUnfinished p s []
    unplaced : (t : Job W) (e : Failure) → placing p s ≡ (t, failed e) → IsUnfinished p s []
    half_moved :
        (t : Job W)
        → is_move p ≡ true
        → placing p s ≡ (t, done tt)
        → IsUnfinished p s (moved p.source p.target false ∷ [])

  abbrev pub IsDoneAs : Prepared → Job W → Outcome (Unit {0}) → List PatchChange → Type 0
  IsDoneAs p s (done u) cs = cs ≡ change_of p ∷ []
  IsDoneAs p s (failed e) cs = IsUnfinished p s cs

  verify_same : (p : Prepared) → Keeps reported (verify host limits (lift_fs disk) p)
  verify_same p = verify-Keeps reported host limits (lift_fs disk) (lift_fs-ReadsKeep disk) p

  placing-Keeps : (p : Prepared) → Keeps reported (placing p)
  unfolding placing
  placing-Keeps p = bind-Keeps reported (verify_same p) (λ _.
      bind-Keeps reported (ensure_parent-Keeps host limits disk (length p.target) p.target)
        (λ _. write_atomic-Keeps host limits disk p.target _ _ true))

  leaving-Adds :
      (p : Prepared) (s t : Job W)
      → change_of p ≡ moved p.source p.target true
      → is_move p ≡ true
      → placing p s ≡ (t, done tt)
      → Adds (IsDoneAs p s) (leaving p)
  unfolding leaving lift_fs
  leaving-Adds p s t as_move moves placed =
      push_then-Adds p (IsDoneAs p s) (ap (λ c. c ∷ []) (sym as_move))
        (λ e. half_moved t moves placed)
        (Keeps-Finishes p (source_kept-Keeps host limits disk p.source p.snapshot)
          (λ _. Keeps-Finishes p (lift-Keeps (disk.unlink p.source)) (λ _. set_removed-Finishes p)))

  left-Added :
      (p : Prepared) (s : Job W) (r : Job W × Outcome (Unit {0}))
      → change_of p ≡ moved p.source p.target true
      → is_move p ≡ true
      → placing p s ≡ r
      → reported r.0 ≡ reported s
      → Added (IsDoneAs p s) (reported s) (go_on (λ _. leaving p) r)
  unfolding go_on
  left-Added p s (t, failed e) as_move moves run same =
      ([], same ∙ sym (append-nil (reported s)), unplaced t e run)
  left-Added p s (t, done u) as_move moves run same =
      subst (λ cs. Added (IsDoneAs p s) cs (leaving p t)) same
        ((leaving-Adds p s t as_move moves run).adds t)

  -- A move puts the new file in place and then leaves the old one.
  commit_move-parts :
      (p : Prepared) (s : Job W)
      → (verify host limits (lift_fs disk) p >> commit_move host limits disk p) s
        ≡ (placing p >> leaving p) s
  unfolding commit_move placing leaving
  commit_move-parts p s =
      ap (λ m. (verify host limits (lift_fs disk) p >> m) s)
        (λ i t.
          bind_assoc (ensure_parent host limits disk (length p.target) p.target)
            (λ _.
              write_atomic host limits disk p.target (data_of host limits disk p)
                (mode_of host limits disk p.snapshot) true)
            (λ _. leaving p) t i)
      ∙ bind_assoc (verify host limits (lift_fs disk) p)
          (λ _.
            ensure_parent host limits disk (length p.target) p.target
            >> write_atomic host limits disk p.target (data_of host limits disk p)
                (mode_of host limits disk p.snapshot) true)
          (λ _. leaving p) s

  move-Added :
      (p : Prepared) (s : Job W)
      → change_of p ≡ moved p.source p.target true
      → is_move p ≡ true
      → Added
          (IsDoneAs p s)
          (reported s)
          ((verify host limits (lift_fs disk) p >> commit_move host limits disk p) s)
  unfolding ◌>>=◌
  move-Added p s as_move moves =
      subst (Added (IsDoneAs p s) (reported s)) (sym (commit_move-parts p s))
        (left-Added p s (placing p s) as_move moves refl ((placing-Keeps p).kept s))

  -- An operation that is no move has changed nothing until it is done.
  Keeps-untouched :
      {A : Type 0} (p : Prepared) (s : Job W) {m : Io (Job W) A} {next : A → Io (Job W) (Unit {0})}
      → is_move p ≡ false
      → Keeps reported m
      → ((a : A) → Adds (IsDoneAs p s) (next a))
      → Adds (IsDoneAs p s) (m >>= next)
  Keeps-untouched p s stays k adds = Keeps-then (IsDoneAs p s) k (λ _. untouched stays) adds

  last-Adds :
      (p : Prepared) (s : Job W) (c : PatchChange)
      → change_of p ≡ c
      → Adds {W = W} (IsDoneAs p s) (push_change c)
  last-Adds p s c e = push_change-Adds (IsDoneAs p s) c (ap (λ d. d ∷ []) (sym e))

  commit_update-Added :
      (p : Prepared) (s : Job W) (move : Option Text)
      → change_of p ≡ updated_as p move
      → is_move p ≡ is_move_of update move
      → Added
          (IsDoneAs p s)
          (reported s)
          ((verify host limits (lift_fs disk) p >> commit_update host limits disk p move) s)
  unfolding commit_update updated_as is_move_of
  commit_update-Added p s none e stays =
      (Keeps-untouched p s stays (verify_same p) (λ _.
          Keeps-untouched p s stays (write_atomic-Keeps host limits disk _ _ _ false)
            (λ _. last-Adds p s (rewritten p.source) e))).adds
        s
  commit_update-Added p s (some move) e moves = move-Added p s e moves

  commit_as-Added :
      (p : Prepared) (s : Job W) (o : Operation)
      → change_of p ≡ change_as p o
      → is_move p ≡ is_move_of o p.hunk.move
      → Added
          (IsDoneAs p s)
          (reported s)
          ((verify host limits (lift_fs disk) p >> commit_as host limits disk p o) s)
  unfolding commit_as change_as lift_fs is_move_of
  commit_as-Added p s delete e stays =
      (Keeps-untouched p s stays (verify_same p) (λ _.
          Keeps-untouched p s stays (lift-Keeps (disk.unlink p.source))
            (λ _. last-Adds p s (deleted p.source) e))).adds
        s
  commit_as-Added p s add e stays =
      (Keeps-untouched p s stays (verify_same p) (λ _.
          Keeps-untouched p s stays
            (ensure_parent-Keeps host limits disk (length p.target) p.target)
            (λ _.
              Keeps-untouched p s stays (write_atomic-Keeps host limits disk p.target _ none true)
                (λ _. last-Adds p s (created p.target) e)))).adds
        s
  commit_as-Added p s update e moves = commit_update-Added p s p.hunk.move e moves

  pub commit_one-Added :
      (p : Prepared) (s : Job W)
      → Added (IsDoneAs p s) (reported s) (commit_one host limits disk p s)
  unfolding commit_one
  commit_one-Added p s = commit_as-Added p s p.hunk.operation refl refl
