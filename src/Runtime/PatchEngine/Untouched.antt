-- ===== src/Runtime/PatchEngine/Untouched.antt =====
-- The preparation and the checks of src/runtime/patch-engine.ts, before the first file is written.
use mcp_dev_runtime.Base.{
  ℕ, Bool, true, false, Option, none, some, List, [], ◌∷◌, ◌++◌, length, ◌≡◌, ◌∙◌,
}
use mcp_dev_runtime.Base.Text.{Text}
use mcp_dev_runtime.Runtime.Errors.{file_changed, not_text}
use mcp_dev_runtime.Runtime.PatchParser.Grammar.{
  Operation, add, delete, update, Hunk, Chunk, parse_patch,
}
use mcp_dev_runtime.Runtime.PatchParser.Update.{update_text}
use mcp_dev_runtime.Runtime.PatchEngine.Actions.{tool, Outcome, done, failed}
use mcp_dev_runtime.Runtime.PatchEngine.{
  Fs, Host, Limits, Snapshot, Prepared, changed_from, verify_source, is_new, verify_target, verify,
  verify_all, snapshot_for, data_for, updated, keys_of, is_update, prepare_one, prepare_loop,
  prepare,
}
use mcp_dev_runtime.Config.{expand_path}
use mcp_dev_runtime.Runtime.PatchEngine.{target_of}
use mcp_dev_runtime.Runtime.PatchEngine.Committing.{
  Answer, applied, refused, stopped, Job, report, commit, apply_prepared, apply_once,
}
use mcp_dev_runtime.Runtime.PatchEngine.Reading.{
  Keeps, bind-Keeps, attempt-Keeps, returns-Keeps, throws-Keeps, if-Keeps, refuse_if-Keeps,
  from_result-Keeps, refused-Keeps, ReadsKeep, take_snapshot-Keeps, assert_missing-Keeps,
  canonical-Keeps,
}

module _ {S X : Type 0} (view : S → X) (host : Host) (limits : Limits) (fs : Fs S)
    (reads : ReadsKeep view fs) where
  changed_from-Keeps :
      (before : Snapshot) (o : Outcome Snapshot) → Keeps view (changed_from host limits fs before o)
  unfolding changed_from
  changed_from-Keeps before (failed e) = throws-Keeps view (tool file_changed)
  changed_from-Keeps before (done now) = refuse_if-Keeps view _ file_changed

  verify_source-Keeps :
      (p : Prepared) (o : Option Snapshot) → Keeps view (verify_source host limits fs p o)
  unfolding verify_source
  verify_source-Keeps p none = returns-Keeps view tt
  verify_source-Keeps p (some before) =
      bind-Keeps view
        (attempt-Keeps view
          (take_snapshot-Keeps view host limits fs reads p.source (is_update p.hunk.operation)))
        (changed_from-Keeps before)

  verify_target-Keeps : (p : Prepared) (b : Bool) → Keeps view (verify_target host limits fs p b)
  unfolding verify_target
  verify_target-Keeps p false = returns-Keeps view tt
  verify_target-Keeps p true =
      bind-Keeps view (assert_missing-Keeps view host limits fs reads p.target) (λ _.
        bind-Keeps view (canonical-Keeps view host limits fs reads (length p.target) p.target)
          (λ now. refuse_if-Keeps view _ file_changed))

  pub verify-Keeps : (p : Prepared) → Keeps view (verify host limits fs p)
  unfolding verify
  verify-Keeps p =
      bind-Keeps view (verify_source-Keeps p p.snapshot)
        (λ _. verify_target-Keeps p (is_new p.hunk))

  verify_all-Keeps : (ps : List Prepared) → Keeps view (verify_all host limits fs ps)
  unfolding verify_all
  verify_all-Keeps [] = returns-Keeps view tt
  verify_all-Keeps (p ∷ ps) = bind-Keeps view (verify-Keeps p) (λ _. verify_all-Keeps ps)

  snapshot_for-Keeps :
      (o : Operation) (source : Text) → Keeps view (snapshot_for host limits fs o source)
  unfolding snapshot_for
  snapshot_for-Keeps add source = returns-Keeps view none
  snapshot_for-Keeps delete source =
      bind-Keeps view (take_snapshot-Keeps view host limits fs reads source false)
        (λ s. returns-Keeps view (some s))
  snapshot_for-Keeps update source =
      bind-Keeps view (take_snapshot-Keeps view host limits fs reads source true)
        (λ s. returns-Keeps view (some s))

  updated-Keeps :
      (chunks : List Chunk) (o : Option Text) → Keeps view (updated host limits fs chunks o)
  unfolding updated
  updated-Keeps chunks none = throws-Keeps view (tool not_text)
  updated-Keeps chunks (some text) =
      bind-Keeps view (from_result-Keeps view (update_text text chunks))
        (λ after. returns-Keeps view (some (host.encode after)))

  data_for-Keeps :
      (hunk : Hunk) (o : Operation) (s : Option Snapshot)
      → Keeps view (data_for host limits fs hunk o s)
  unfolding data_for
  data_for-Keeps hunk add s = returns-Keeps view _
  data_for-Keeps hunk delete s = returns-Keeps view none
  data_for-Keeps hunk update s = updated-Keeps hunk.chunks _

  target_of-Keeps :
      (cwd source : Text) (move : Option Text)
      → Keeps view (target_of host limits fs cwd source move)
  unfolding target_of
  target_of-Keeps cwd source none = returns-Keeps view source
  target_of-Keeps cwd source (some move) = from_result-Keeps view (expand_path host.paths move cwd)

  prepare_one-Keeps :
      (cwd : Text) (touched : List Text) (total : ℕ) (hunk : Hunk)
      → Keeps view (prepare_one host limits fs cwd touched total hunk)
  unfolding prepare_one
  prepare_one-Keeps cwd touched total hunk =
      bind-Keeps view (from_result-Keeps view (expand_path host.paths hunk.path cwd)) (λ source.
        bind-Keeps view (target_of-Keeps cwd source hunk.move) (λ target.
          bind-Keeps view (snapshot_for-Keeps hunk.operation source) (λ snapshot.
            bind-Keeps view
              (if-Keeps view (is_new hunk) (assert_missing-Keeps view host limits fs reads target)
                (returns-Keeps view tt))
              (λ _.
                bind-Keeps view (canonical-Keeps view host limits fs reads (length target) target)
                  (λ canonical_target. refused-Keeps view _ _ (
                    bind-Keeps view (data_for-Keeps hunk hunk.operation snapshot)
                      (λ new_data. refused-Keeps view _ _ (returns-Keeps view _))))))))

  prepare_loop-Keeps :
      (cwd : Text) (touched : List Text) (total : ℕ) (hunks : List Hunk)
      → Keeps view (prepare_loop host limits fs cwd touched total hunks)
  unfolding prepare_loop
  prepare_loop-Keeps cwd touched total [] = returns-Keeps view []
  prepare_loop-Keeps cwd touched total (hunk ∷ hunks) =
      bind-Keeps view (prepare_one-Keeps cwd touched total hunk) (λ r.
        bind-Keeps view (prepare_loop-Keeps cwd (keys_of r.0 ++ touched) r.1 hunks)
          (λ ps. returns-Keeps view (r.0 ∷ ps)))

  prepare-Keeps : (patch cwd : Text) → Keeps view (prepare host limits fs patch cwd)
  unfolding prepare
  prepare-Keeps patch cwd = refused-Keeps view _ _ (
      bind-Keeps view (reads.stat cwd) (λ s. refused-Keeps view _ _ (
        bind-Keeps view (from_result-Keeps view (parse_patch patch))
          (λ hunks. refused-Keeps view _ _ (prepare_loop-Keeps cwd [] 0 hunks)))))

module _ {W X : Type 0} (view : W → X) (host : Host) (limits : Limits) (disk : Fs W)
    (reads : ReadsKeep view disk) where
  -- An answer that nothing was written for goes with an untouched view.
  abbrev pub IsUntouched : W → W × Answer → Type 0
  IsUntouched w (w', refused e) = view w' ≡ view w
  IsUntouched w (w', applied arrays) = Unit
  IsUntouched w (w', stopped code partial arrays) = Unit

  report-IsUntouched :
      (w : W) (r : Job W × Outcome (Unit {0})) → IsUntouched w (report host limits disk r)
  unfolding report
  report-IsUntouched w ((w', arrays), done u) = tt
  report-IsUntouched w ((w', arrays), failed e) = tt

  commit-IsUntouched :
      (w : W) (ps : List Prepared) (r : W × Outcome (Unit {0}))
      → view r.0 ≡ view w
      → IsUntouched w (commit host limits disk ps r)
  unfolding commit
  commit-IsUntouched w ps (w', failed e) same = same
  commit-IsUntouched w ps (w', done u) same = report-IsUntouched w _

  apply_prepared-IsUntouched :
      (w : W) (r : W × Outcome (List Prepared))
      → view r.0 ≡ view w
      → IsUntouched w (apply_prepared host limits disk r)
  unfolding apply_prepared
  apply_prepared-IsUntouched w (w', failed e) same = same
  apply_prepared-IsUntouched w (w', done ps) same =
      commit-IsUntouched w ps (verify_all host limits disk ps w')
        ((verify_all-Keeps view host limits disk reads ps).kept w' ∙ same)

  -- If the calls that read keep a view of the world, a patch that is refused for its text, its paths,
  -- its sizes or the state of its files, at its preparation or when all files are checked again, leaves
  -- that view as it was.
  pub apply_once-IsUntouched :
      (patch cwd : Text) (w : W) → IsUntouched w (apply_once host limits disk patch cwd w)
  unfolding apply_once
  apply_once-IsUntouched patch cwd w =
      apply_prepared-IsUntouched w (prepare host limits disk patch cwd w)
        ((prepare-Keeps view host limits disk reads patch cwd).kept w)
