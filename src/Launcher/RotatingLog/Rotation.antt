-- ===== src/Launcher/RotatingLog/Rotation.antt =====
-- What rotate of src/launcher/rotating-log.ts keeps.
use mcp_dev_runtime.Base.{
  ℕ, zero, suc, ◌<◌, false, none, [], ◌++◌, ◌≡◌, ◌≢◌, inl, inr, refl, sym, ap, ◌∙◌, arith,
  append-nil, Bytes, ◌==◌, ==_iff, Bool-cases, Option-cases,
}
use mcp_dev_runtime.Launcher.RotatingLog.{
  Files, content, unlink, rename, store, shift, rotated, RotatingLog, rotate,
}

-- The bytes in the files, the oldest first.
abbrev pub retained : ℕ → Files → Bytes
retained zero files = content (files 0)
retained (suc n) files = content (files (suc n)) ++ retained n files

rename_to :
    (n : ℕ) (files : Files) → files (suc n) ≡ none → rename n (suc n) files (suc n) ≡ files n
unfolding rename
rename_to n files free = elim (Option-cases (files n)) [
  | inl e ↦ ground (arith, e, free)
  | inr (bytes, e) ↦ ground (arith, e)
]

rename_from : (n : ℕ) (files : Files) → rename n (suc n) files n ≡ none
unfolding rename
rename_from n files = elim (Option-cases (files n)) [
  | inl e ↦ ground (arith, e)
  | inr (bytes, e) ↦ ground (arith, e)
]

rename_else : (n k : ℕ) (files : Files) → k ≢ n → k ≢ suc n → rename n (suc n) files k ≡ files k
unfolding rename
rename_else n k files a b = elim (Option-cases (files n)) [
  | inl e ↦ ground (arith, e)
  | inr (bytes, e) ↦ ground (arith, e, a, b)
]

-- Files behind the ones that are renamed stay.
shift_beyond : (n k : ℕ) (files : Files) → n < k → shift n files k ≡ files k
unfolding shift
shift_beyond zero k files h = refl
shift_beyond (suc n) k files h =
    shift_beyond n k (rename n (suc n) files) (omega arith)
    ∙ rename_else n k files (λ e. absurd (omega (arith, e))) (λ e. absurd (omega (arith, e)))

shift_next : (n k : ℕ) (files : Files) → files n ≡ none → k < n → shift n files (suc k) ≡ files k
unfolding shift
shift_next zero k files free h = absurd (omega arith)
shift_next (suc n) k files free h = elim (Bool-cases (k == n)) [
  | inl last ↦
      let e = (==_iff k n).0 last in
      ap (λ i. shift n (rename n (suc n) files) (suc i)) e
      ∙ shift_beyond n (suc n) (rename n (suc n) files) (omega arith)
      ∙ rename_to n files free
      ∙ ap files (sym e)
  | inr before ↦
      shift_next n k (rename n (suc n) files) (rename_from n files) (ground (arith, before))
      ∙ rename_else n k files (λ e. absurd (ground (arith, e, before)))
          (λ e. absurd (omega (arith, e)))
]

rotated_many :
    (n : ℕ) (files : Files) → rotated (suc (suc n)) files ≡ shift (suc n) (unlink (suc n) files)
unfolding rotated
rotated_many n files =
    let many : (suc (suc n) == 1) ≡ false = ground arith in
    rw many (ap (λ m. shift m (unlink m files)) {y = suc n} (omega arith))

rotated_next : (n k : ℕ) (files : Files) → k < suc n → rotated (suc (suc n)) files (suc k) ≡ files k
unfolding unlink
rotated_next n k files h =
    ap (λ f. f (suc k)) (rotated_many n files)
    ∙ shift_next (suc n) k (unlink (suc n) files) (ground arith) h
    ∙ ground (arith, h)

-- The bytes in the files, when each has taken the place of the one before and the first is new.
retained-next :
    (n : ℕ) (files before : Files)
    → ((k : ℕ) → k < suc n → files (suc k) ≡ before k)
    → content (files 0) ≡ []
    → retained (suc n) files ≡ retained n before
retained-next zero files before next new =
    ap (λ b. b ++ content (files 0)) (ap content (next 0 (omega arith)))
    ∙ ap (λ b. content (before 0) ++ b) new
    ∙ append-nil (content (before 0))
retained-next (suc n) files before next new =
    ap (λ b. b ++ retained (suc n) files) (ap content (next (suc n) (omega arith)))
    ∙ ap (λ b. content (before (suc n)) ++ b)
        (retained-next n files before (λ k h. next k (omega arith)) new)

-- Rotating gives up the bytes of the oldest file, and keeps all others in their order.
pub retained-rotate :
    (n : ℕ) (log : RotatingLog)
    → log.files ≡ suc n
    → content (log.on_disk n) ++ retained n (rotate log).on_disk ≡ retained n log.on_disk
unfolding rotate rotated store content
retained-rotate zero log e = append-nil (content (log.on_disk 0))
retained-rotate (suc n) log e =
    ap (λ b. content (log.on_disk (suc n)) ++ b)
      (retained-next n (rotate log).on_disk log.on_disk
        (λ k h.
          ground arith ∙ ap (λ f. rotated f log.on_disk (suc k)) e ∙ rotated_next n k log.on_disk h)
        refl)
