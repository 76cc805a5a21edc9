-- ===== src/Runtime/PatchEngine/Reading.antt =====
-- The calls of src/runtime/patch-engine.ts that read: snapshot, assertMissing and canonical.
use mcp_dev_runtime.Base.{
  ℕ, zero, suc, Bool, true, false, not, ◌||◌, none, some, if◌then◌else◌, if_cases, ◌≡◌, refl, ◌∙◌,
}
use mcp_dev_runtime.Base.Text.{Text, equal}
use mcp_dev_runtime.Runtime.Errors.{ToolError, Result, ok, err, target_exists}
use mcp_dev_runtime.Runtime.PatchEngine.Actions.{
  Failure, tool, missing, Outcome, done, failed, Io, returns, throws, go_on, ◌>>=◌, ◌>>◌, attempt,
  as_value, settle, refuse_if, from_result,
}
use mcp_dev_runtime.Runtime.PatchEngine.{
  Stat, Fs, Host, Limits, link_of, content_at, take_snapshot, is_missing, assert_missing, beside,
  canonical,
}

module _ {S X : Type 0} (view : S → X) where
  -- An action keeps what is looked at, whether it returns or throws.
  pub record Keeps {A : Type 0} (m : Io S A) : Type 0 where
    pub kept : (s : S) → view (m s).0 ≡ view s

  go_on_same :
      {A B : Type 0} (next : A → Io S B) (r : S × Outcome A)
      → ((a : A) → Keeps (next a))
      → view (go_on next r).0 ≡ view r.0
  unfolding go_on
  go_on_same next (s, done a) k = (k a).kept s
  go_on_same next (s, failed e) k = refl

  pub bind-Keeps :
      {A B : Type 0} {m : Io S A} {next : A → Io S B}
      → Keeps m
      → ((a : A) → Keeps (next a))
      → Keeps (m >>= next)
  unfolding ◌>>=◌
  bind-Keeps {m = m} {next = next} km kn = record {
    kept = λ s. go_on_same next (m s) kn ∙ km.kept s;
  }

  as_value_same : {A : Type 0} (r : S × Outcome A) → view (as_value r).0 ≡ view r.0
  unfolding as_value
  as_value_same (s, o) = refl

  pub attempt-Keeps : {A : Type 0} {m : Io S A} → Keeps m → Keeps (attempt m)
  unfolding attempt
  attempt-Keeps {m = m} k = record { kept = λ s. as_value_same (m s) ∙ k.kept s }

  pub returns-Keeps : {A : Type 0} (a : A) → Keeps (returns a)
  unfolding returns
  returns-Keeps a = record { kept = λ s. refl }

  pub throws-Keeps : {A : Type 0} (e : Failure) → Keeps (throws {A = A} e)
  unfolding throws
  throws-Keeps e = record { kept = λ s. refl }

  pub settle-Keeps : {A : Type 0} (o : Outcome A) → Keeps (settle o)
  unfolding settle
  settle-Keeps (done a) = returns-Keeps a
  settle-Keeps (failed e) = throws-Keeps e

  pub if-Keeps :
      {A : Type 0} (b : Bool) {m m' : Io S A} → Keeps m → Keeps m' → Keeps (if b then m else m')
  if-Keeps b {m = m} {m' = m'} k k' = if_cases Keeps b m m' (λ _. k) (λ _. k')

  pub refuse_if-Keeps : (b : Bool) (e : ToolError) → Keeps (refuse_if b e)
  unfolding refuse_if
  refuse_if-Keeps b e = if-Keeps b (throws-Keeps (tool e)) (returns-Keeps tt)

  pub from_result-Keeps : {A : Type 0} (r : Result A) → Keeps (from_result r)
  unfolding from_result
  from_result-Keeps (ok a) = returns-Keeps a
  from_result-Keeps (err e) = throws-Keeps (tool e)

  -- An action whose test comes first.
  pub refused-Keeps :
      {B : Type 0} (b : Bool) (e : ToolError) {next : Io S B}
      → Keeps next
      → Keeps (refuse_if b e >> next)
  refused-Keeps b e k = bind-Keeps (refuse_if-Keeps b e) (λ _. k)

  -- The calls that read a file system.
  pub record ReadsKeep (fs : Fs S) : Type 0 where
    pub lstat : (p : Text) → Keeps (fs.lstat p)
    pub stat : (p : Text) → Keeps (fs.stat p)
    pub readlink : (p : Text) → Keeps (fs.readlink p)
    pub realpath : (p : Text) → Keeps (fs.realpath p)
    pub read_file : (p : Text) → Keeps (fs.read_file p)

  module _ (host : Host) (limits : Limits) (fs : Fs S) (reads : ReadsKeep fs) where
    link_of-Keeps : (filename : Text) (b : Bool) → Keeps (link_of host limits fs filename b)
    unfolding link_of
    link_of-Keeps filename false = returns-Keeps none
    link_of-Keeps filename true =
        bind-Keeps (reads.readlink filename) (λ to. returns-Keeps (some to))

    content_at-Keeps :
        (filename : Text) (l : Stat) (b : Bool) → Keeps (content_at host limits fs filename l b)
    unfolding content_at
    content_at-Keeps filename l false = returns-Keeps (filename, l, none)
    content_at-Keeps filename l true = bind-Keeps (reads.realpath filename) (λ actual.
        bind-Keeps (reads.stat actual) (λ s. refused-Keeps _ _ (
          refused-Keeps _ _ (
            bind-Keeps (reads.read_file actual)
              (λ content. refused-Keeps _ _ (returns-Keeps (actual, s, some content)))))))

    pub take_snapshot-Keeps :
        (filename : Text) (b : Bool) → Keeps (take_snapshot host limits fs filename b)
    unfolding take_snapshot
    take_snapshot-Keeps filename b = bind-Keeps (reads.lstat filename) (λ l. refused-Keeps _ _ (
        bind-Keeps (link_of-Keeps filename l.is_symbolic_link)
          (λ link. bind-Keeps (content_at-Keeps filename l b) (λ found. returns-Keeps _))))

    is_missing-Keeps : (o : Outcome Stat) → Keeps (is_missing host limits fs o)
    unfolding is_missing
    is_missing-Keeps (done s) = throws-Keeps (tool target_exists)
    is_missing-Keeps (failed e) = if-Keeps (missing e) (returns-Keeps tt) (throws-Keeps e)

    pub assert_missing-Keeps : (filename : Text) → Keeps (assert_missing host limits fs filename)
    unfolding assert_missing
    assert_missing-Keeps filename =
        bind-Keeps (attempt-Keeps (reads.lstat filename)) is_missing-Keeps

    beside-Keeps :
        (filename : Text) (parent : Io S Text) (o : Outcome Text)
        → Keeps parent
        → Keeps (beside host limits fs filename parent o)
    unfolding beside
    beside-Keeps filename parent (done path) k = returns-Keeps path
    beside-Keeps filename parent (failed e) k =
        if-Keeps (not (missing e) || equal (host.dirname filename) filename) (throws-Keeps e)
          (bind-Keeps k (λ dir. returns-Keeps (host.rejoin dir filename)))

    pub canonical-Keeps :
        (rounds : ℕ) (filename : Text) → Keeps (canonical host limits fs rounds filename)
    unfolding canonical
    canonical-Keeps zero filename = reads.realpath filename
    canonical-Keeps (suc rounds) filename =
        bind-Keeps (attempt-Keeps (reads.realpath filename)) (λ found.
          beside-Keeps filename (canonical host limits fs rounds (host.dirname filename)) found
            (canonical-Keeps rounds (host.dirname filename)))
