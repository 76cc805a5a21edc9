-- ===== src/Runtime/PatchEngine/Reports/Loop.antt =====
-- The report of src/runtime/patch-engine.ts on a whole patch.
use mcp_dev_runtime.Base.{
  List, [], ◌∷◌, ◌++◌, append-nil, append_assoc, ◌≡◌, refl, sym, ◌∙◌, ap, subst, if◌then◌else◌,
}
use mcp_dev_runtime.Runtime.Errors.{partial_apply}
use mcp_dev_runtime.Runtime.PatchEngine.Actions.{
  Failure, Outcome, done, failed, go_on, returns, ◌>>=◌,
}
use mcp_dev_runtime.Runtime.PatchEngine.{Fs, Host, Limits, Prepared}
use mcp_dev_runtime.Runtime.PatchEngine.Committing.{
  PatchChange, Job, commit_one, commit_loop, no_progress, Answer, applied, refused, stopped,
  is_partial, code_of, report,
}
use mcp_dev_runtime.Runtime.PatchEngine.Writing.{reported}
use mcp_dev_runtime.Runtime.PatchEngine.Reports.{change_of, Added}
use mcp_dev_runtime.Runtime.PatchEngine.Reports.Single.{IsUnfinished, IsDoneAs, commit_one-Added}

module _ {W : Type 0} (host : Host) (limits : Limits) (disk : Fs W) where
  -- `IsReport s ps o t cs`: the operations are run in order from the job `s`, up to the first one that
  -- fails; this ends in `t` with `o`, and `cs` are the changes of those that were carried out, with
  -- what the one that failed has changed.
  pub data IsReport
      : Job W → List Prepared → Outcome (Unit {0}) → Job W → List PatchChange → Type 0 where
    all_done : {s : Job W} → IsReport s [] (done tt) s []
    one_done :
        {s t u : Job W} {p : Prepared} {ps : List Prepared} {o : Outcome (Unit {0})}
        {cs : List PatchChange}
        → commit_one host limits disk p s ≡ (t, done tt)
        → IsReport t ps o u cs
        → IsReport s (p ∷ ps) o u (change_of p ∷ cs)
    one_failed :
        {s t : Job W} {p : Prepared} {ps : List Prepared} {e : Failure} {cs : List PatchChange}
        → commit_one host limits disk p s ≡ (t, failed e)
        → IsUnfinished host limits disk p s cs
        → IsReport s (p ∷ ps) (failed e) t cs

  -- What the answer to a list of operations reports of their run. A failed answer is said to be partial
  -- just if files were changed or directories made, and then it has the code for that.
  abbrev pub IsAnswer : W → List Prepared → W × Answer → Type 0
  IsAnswer w ps (v, applied arrays) =
      IsReport (w, no_progress) ps (done tt) (v, arrays) arrays.changes
  IsAnswer w ps (v, refused e) = ⊥
  IsAnswer w ps (v, stopped code partial arrays) =
      (e : Failure) × IsReport (w, no_progress) ps (failed e) (v, arrays) arrays.changes
      × (partial ≡ is_partial arrays)
      × (code ≡ (if partial then partial_apply else code_of e))

  -- A run from a job adds the changes of its report to those of the job.
  abbrev Reports : Job W → List Prepared → Job W × Outcome (Unit {0}) → Type 0
  Reports s ps r =
      (more : List PatchChange) × (reported r.0 ≡ reported s ++ more) × IsReport s ps r.1 r.0 more

  more-Reports :
      (p : Prepared) (ps : List Prepared) (s : Job W) (r : Job W × Outcome (Unit {0}))
      → commit_one host limits disk p s ≡ r
      → Added (IsDoneAs host limits disk p s) (reported s) r
      → ((t : Job W) → Reports t ps (commit_loop host limits disk ps t))
      → Reports s (p ∷ ps) (go_on (λ _. commit_loop host limits disk ps) r)
  unfolding go_on
  more-Reports p ps s (t, done u) run (cs, same, one) rest =
      let (ds, later, r) = rest t in
      (
        change_of p ∷ ds,
        later
            ∙ ap (λ l. l ++ ds) (same ∙ ap (λ l. reported s ++ l) one)
            ∙ append_assoc (reported s) (change_of p ∷ []) ds,
        one_done run r,
      )
  more-Reports p ps s (t, failed e) run (cs, same, one) rest = (cs, same, one_failed run one)

  commit_loop-Reports :
      (ps : List Prepared) (s : Job W) → Reports s ps (commit_loop host limits disk ps s)
  unfolding commit_loop ◌>>=◌ returns
  commit_loop-Reports [] s = ([], sym (append-nil (reported s)), all_done)
  commit_loop-Reports (p ∷ ps) s =
      more-Reports p ps s (commit_one host limits disk p s) refl
        (commit_one-Added host limits disk p s) (commit_loop-Reports ps)

  report-IsAnswer :
      (ps : List Prepared) (w : W) (r : Job W × Outcome (Unit {0}))
      → Reports (w, no_progress) ps r
      → IsAnswer w ps (report host limits disk r)
  unfolding report
  report-IsAnswer ps w ((v, arrays), done u) (cs, same, r) =
      subst (IsReport (w, no_progress) ps (done tt) (v, arrays)) (sym same) r
  report-IsAnswer ps w ((v, arrays), failed e) (cs, same, r) =
      (e, subst (IsReport (w, no_progress) ps (failed e) (v, arrays)) (sym same) r, refl, refl)

  -- Whatever the calls of the file system do, the operations are run in order up to the first one that
  -- fails, and the answer names what was changed, in order: every operation that was carried out,
  -- and of the one that failed nothing, unless it is a move whose new file was put in place; that one is
  -- named as not finished, and never before its file is there. The error is that of the operation that
  -- failed; it is said to be partial just if something was changed or made, and has the code for that.
  pub commit_loop-IsAnswer :
      (ps : List Prepared) (w : W)
      → IsAnswer w ps (report host limits disk (commit_loop host limits disk ps (w, no_progress)))
  commit_loop-IsAnswer ps w =
      report-IsAnswer ps w (commit_loop host limits disk ps (w, no_progress))
        (commit_loop-Reports ps (w, no_progress))
