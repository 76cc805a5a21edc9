-- ===== src/Runtime/PatchEngine/Preparing.antt =====
-- The plan that applyOnce of src/runtime/patch-engine.ts prepares.
use mcp_dev_runtime.Base.{ℕ, suc, ◌+◌, ◌≤◌, false, List, [], ◌∷◌, ◌++◌, length, ◌≡◌, refl, arith}
use mcp_dev_runtime.Base.Sorting.{All, Pairwise}
use mcp_dev_runtime.Base.JsMap.Listing.{sum_of}
use mcp_dev_runtime.Base.Text.{Text}
use mcp_dev_runtime.Runtime.PatchParser.Grammar.{Hunk}
use mcp_dev_runtime.Runtime.PatchEngine.Yielding.{
  IsDone, Yields, returns-Yields, bind-Yields, any-Yields, refused-Yields,
}
use mcp_dev_runtime.Runtime.PatchEngine.Actions.{Outcome, done, failed, Io}
use mcp_dev_runtime.Runtime.PatchEngine.{
  Fs, Host, Limits, Prepared, content_of, keys_of, has_path, has_any, bytes_of, prepare_one,
  prepare_loop, prepare,
}

-- The bytes that an operation reads and writes.
unfoldable pub weight_of : Prepared → ℕ
weight_of p = bytes_of (content_of p.snapshot) + bytes_of p.new_data

-- No path of an operation is among these.
abbrev pub IsApart : List Text → Prepared → Type 0
IsApart paths p = has_any (keys_of p) paths ≡ false

abbrev pub AreApart : Prepared → Prepared → Type 0
AreApart p q = has_any (keys_of q) (keys_of p) ≡ false

-- A path that is in neither list is not in both together.
has_path-append :
    (key : Text) (ps qs : List Text)
    → has_path key (ps ++ qs) ≡ false
    → (has_path key ps ≡ false) × (has_path key qs ≡ false)
unfolding has_path
has_path-append key [] qs h = (refl, h)
has_path-append key (p ∷ ps) qs h = ground (arith, h, has_path-append key ps qs)

has_any-append :
    (keys ps qs : List Text)
    → has_any keys (ps ++ qs) ≡ false
    → (has_any keys ps ≡ false) × (has_any keys qs ≡ false)
unfolding has_any
has_any-append [] ps qs h = (refl, refl)
has_any-append (key ∷ keys) ps qs h =
    ground (arith, h, has_path-append key ps qs, has_any-append keys ps qs)

split_apart :
    (paths touched : List Text) (ps : List Prepared)
    → All (IsApart (paths ++ touched)) ps
    → All (IsApart paths) ps × All (IsApart touched) ps
split_apart paths touched [] a = (tt, tt)
split_apart paths touched (p ∷ ps) (h, hs) =
    let (u, v) = has_any-append (keys_of p) paths touched h in
    let (us, vs) = split_apart paths touched ps hs in ((u, us), (v, vs))

module _ {S : Type 0} (host : Host) (limits : Limits) (fs : Fs S) where
  -- An operation whose paths are new, and within what is left.
  record IsFit (touched : List Text) (total : ℕ) (r : Prepared × ℕ) : Type 0 where
    apart : IsApart touched r.0
    sum : r.1 ≡ total + weight_of r.0
    within : r.1 ≤ limits.max_total_file_bytes

  prepare_one-IsFit :
      (cwd : Text) (touched : List Text) (total : ℕ) (hunk : Hunk)
      → Yields (IsFit touched total) (prepare_one host limits fs cwd touched total hunk)
  unfolding prepare_one weight_of keys_of
  prepare_one-IsFit cwd touched total hunk = any-Yields (IsFit touched total) _ (λ source.
      any-Yields (IsFit touched total) _ (λ target. any-Yields (IsFit touched total) _ (λ snapshot.
        any-Yields (IsFit touched total) _ (λ _.
          any-Yields (IsFit touched total) _ (λ canonical_target.
            refused-Yields (IsFit touched total) _ _ (λ apart.
              any-Yields (IsFit touched total) _ (λ new_data.
                refused-Yields (IsFit touched total) _ _ (λ fits.
                  returns-Yields (IsFit touched total) _
                    (record { apart = apart; sum = refl; within = ground (arith, fits) })))))))))

  -- Operations whose paths are apart from each other and from these, and within what is left.
  pub record IsPlan (touched : List Text) (total count : ℕ) (ps : List Prepared) : Type 0 where
    pub new : All (IsApart touched) ps
    pub apart : Pairwise AreApart ps
    pub within : total + sum_of weight_of ps ≤ limits.max_total_file_bytes
    pub counted : length ps ≡ count

  prepare_loop-IsPlan :
      (cwd : Text) (touched : List Text) (total : ℕ) (hunks : List Hunk)
      → total ≤ limits.max_total_file_bytes
      → Yields
          (IsPlan touched total (length hunks))
          (prepare_loop host limits fs cwd touched total hunks)
  unfolding prepare_loop
  prepare_loop-IsPlan cwd touched total [] h =
      returns-Yields (IsPlan touched total 0) []
        (record { new = tt; apart = tt; within = omega (arith, h); counted = refl })
  prepare_loop-IsPlan cwd touched total (hunk ∷ hunks) h =
      bind-Yields (IsFit touched total) (IsPlan touched total (suc (length hunks)))
        (prepare_one-IsFit cwd touched total hunk)
        (λ r f.
          bind-Yields (IsPlan (keys_of r.0 ++ touched) r.1 (length hunks))
            (IsPlan touched total (suc (length hunks)))
            (prepare_loop-IsPlan cwd (keys_of r.0 ++ touched) r.1 hunks f.within)
            (λ ps plan.
              let (u, v) = split_apart (keys_of r.0) touched ps plan.new in
              returns-Yields (IsPlan touched total (suc (length hunks))) (r.0 ∷ ps) (record {
                new = (f.apart, v);
                apart = (u, plan.apart);
                within = omega (arith, f.sum, plan.within);
                counted = omega (arith, plan.counted);
              })))

  -- What a preparation returns.
  pub record IsPrepared (ps : List Prepared) : Type 0 where
    pub apart : Pairwise AreApart ps
    pub bytes_le : sum_of weight_of ps ≤ limits.max_total_file_bytes
    pub files_le : length ps ≤ limits.max_files

  as_prepared :
      (hunks : List Hunk) (o : Outcome (List Prepared))
      → length hunks ≤ limits.max_files
      → IsDone (IsPlan [] 0 (length hunks)) o
      → IsDone IsPrepared o
  as_prepared hunks (done ps) few plan = record {
    apart = plan.apart;
    bytes_le = omega (arith, plan.within);
    files_le = omega (arith, plan.counted, few);
  }
  as_prepared hunks (failed e) few plan = tt

  planned :
      (hunks : List Hunk) {m : Io S (List Prepared)}
      → length hunks ≤ limits.max_files
      → Yields (IsPlan [] 0 (length hunks)) m
      → Yields IsPrepared m
  planned hunks {m = m} few y = record { gives = λ s. as_prepared hunks (m s).1 few (y.gives s) }

  -- A preparation that returns has operations no two of which share a source, a destination or a real
  -- file, whatever the files are; there are no more of them, and no more bytes read and to be written,
  -- than the limits allow.
  pub prepare-IsPrepared : (patch cwd : Text) → Yields IsPrepared (prepare host limits fs patch cwd)
  unfolding prepare
  prepare-IsPrepared patch cwd = refused-Yields IsPrepared _ _ (λ _. any-Yields IsPrepared _ (λ s.
      refused-Yields IsPrepared _ _ (λ _. any-Yields IsPrepared _ (λ hunks.
        refused-Yields IsPrepared _ _ (λ few.
          planned hunks (ground (arith, few))
            (prepare_loop-IsPlan cwd [] 0 hunks (omega arith)))))))
