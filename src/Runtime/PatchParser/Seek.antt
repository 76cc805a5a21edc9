-- ===== src/Runtime/PatchParser/Seek.antt =====
-- seekSequence of src/runtime/patch-parser.ts: four passes over the lines, from the exact match to
-- the match of normalized lines.
use mcp_dev_runtime.Base.{
  ℕ, zero, suc, ◌+◌, ◌-◌, ◌<◌, ◌≤◌, max, Bool, true, false, ◌&&◌, ◌||◌, Option, none, some, List,
  [], ◌∷◌, ◌≡◌, ◌⊎◌, inl, inr, Bool-cases, refl, subst, ==_iff, arith, ◌==◌, leb, ltb,
  if◌then◌else◌, length, map, drop,
}
use mcp_dev_runtime.Base.Text.{Text, equal, trim, trim_end}
use mcp_dev_runtime.Runtime.PatchParser.Grammar.{is_nil}

-- The punctuation that `normalize` makes ASCII.
unfoldable pub normalize_char : ℕ → ℕ
normalize_char c =
    if (leb 0x2010 c && leb c 0x2015) || c == 0x2212
    then b'-'
    else if leb 0x2018 c && leb c 0x201b
    then b'\''
    else if leb 0x201c c && leb c 0x201f
    then b'"'
    else if c == 0xa0 || (leb 0x2002 c && leb c 0x200a) || c == 0x202f || c == 0x205f || c == 0x3000
    then b' '
    else c

unfoldable pub normalize : Text → Text
normalize s = map normalize_char (trim s)

abbrev pub Transform : Type 0
Transform = Text → Text

abbrev pub same : Transform
same s = s

abbrev pub transforms : List Transform
transforms = same ∷ trim_end ∷ trim ∷ normalize ∷ []

-- `expected.every((p, j) => transform(lines[i + j]!) === p)`, on the lines from `i` on
unfoldable pub matches : Transform → List Text → List Text → Bool
matches f [] lines = true
matches f (p ∷ pattern) [] = false
matches f (p ∷ pattern) (line ∷ lines) = equal (f line) (f p) && matches f pattern lines

-- The loop over the positions, by how many are left.
unfoldable pub scan : Transform → List Text → List Text → ℕ → ℕ → Option ℕ
scan f pattern lines i zero = none
scan f pattern lines i (suc left) =
    let later = scan f pattern lines (i + 1) left in
    if matches f pattern (drop i lines) then some i else later

unfoldable pub passes : List Transform → List Text → List Text → ℕ → Option ℕ
passes [] pattern lines first = none
passes (f ∷ fs) pattern lines first =
    elim (scan f pattern lines first (length lines + 1 - (first + length pattern))) [
      | some i ↦ some i
      | none ↦ passes fs pattern lines first
    ]

-- `eof ? Math.max(start, lines.length - pattern.length) : start`
abbrev pub first_position : ℕ → List Text → List Text → Bool → ℕ
first_position start lines pattern eof =
    if eof then max start (length lines - length pattern) else start

-- `none` is -1.
unfoldable pub seek_sequence : List Text → List Text → ℕ → Bool → Option ℕ
seek_sequence lines pattern start eof =
    if is_nil pattern
    then some start
    else if ltb (length lines) (length pattern)
    then none
    else passes transforms pattern lines (first_position start lines pattern eof)

-- No position from `first` on matches under `f`.
abbrev pub Nowhere : Transform → List Text → List Text → ℕ → Type 0
Nowhere f pattern lines first =
    (i : ℕ)
    → first ≤ i
    → i + length pattern ≤ length lines
    → matches f pattern (drop i lines) ≡ false

-- The first match of the first pass that has one.
abbrev pub IsFirstMatch : List Transform → List Text → List Text → ℕ → Option ℕ → Type 0
IsFirstMatch [] pattern lines first r = r ≡ none
IsFirstMatch (f ∷ fs) pattern lines first r =
    ((i : ℕ) × (r ≡ some i)
      × (first ≤ i)
      × (i + length pattern ≤ length lines)
      × (matches f pattern (drop i lines) ≡ true)
      × ((k : ℕ) → first ≤ k → k < i → matches f pattern (drop k lines) ≡ false))
    ⊎ (Nowhere f pattern lines first × IsFirstMatch fs pattern lines first r)

-- The outcome of a scan.
abbrev Scanned : Transform → List Text → List Text → ℕ → ℕ → Option ℕ → Type 0
Scanned f pattern lines first left r =
    ((i : ℕ) × (r ≡ some i)
      × (first ≤ i)
      × (i < first + left)
      × (matches f pattern (drop i lines) ≡ true)
      × ((k : ℕ) → first ≤ k → k < i → matches f pattern (drop k lines) ≡ false))
    ⊎ ((r ≡ none)
        × ((k : ℕ) → first ≤ k → k < first + left → matches f pattern (drop k lines) ≡ false))

-- No match at `first`, and none behind it up to a bound.
extend :
    (f : Transform) (pattern lines : List Text) (first k bound : ℕ)
    → matches f pattern (drop first lines) ≡ false
    → (first + 1 ≤ k → k < bound → matches f pattern (drop k lines) ≡ false)
    → first ≤ k
    → k < bound
    → matches f pattern (drop k lines) ≡ false
extend f pattern lines first k bound here later p q = elim (Bool-cases (first == k)) [
  | inl at ↦ subst (λ n. matches f pattern (drop n lines) ≡ false) ((==_iff first k).0 at) here
  | inr beyond ↦ later (ground arith) q
]

scan-Scanned :
    (f : Transform) (pattern lines : List Text) (first left : ℕ)
    → Scanned f pattern lines first left (scan f pattern lines first left)
unfolding scan
scan-Scanned f pattern lines first zero = inr (refl, λ k p q. absurd (omega arith))
scan-Scanned f pattern lines first (suc left) =
    elim (Bool-cases (matches f pattern (drop first lines))) [
      | inl here ↦
          inl (first, rw here, omega arith, omega arith, here, λ k p q. absurd (omega arith))
      | inr later ↦ elim (scan-Scanned f pattern lines (first + 1) left) [
        | inl (i, e, lo, hi, at, before) ↦ inl (
          i,
          rw later e,
          omega arith,
          omega arith,
          at,
          λ k p q. extend f pattern lines first k i later (before k) p q,
        )
        | inr (e, nowhere) ↦ inr (
          rw later e,
          λ k p q.
              extend f pattern lines first k (first + suc left) later
                (λ a b. nowhere k a (omega arith)) p q,
        )
      ]
    ]

passes-IsFirstMatch :
    (fs : List Transform) (pattern lines : List Text) (first : ℕ)
    → IsFirstMatch fs pattern lines first (passes fs pattern lines first)
unfolding passes
passes-IsFirstMatch [] pattern lines first = refl
passes-IsFirstMatch (f ∷ fs) pattern lines first =
    elim (scan-Scanned f pattern lines first (length lines + 1 - (first + length pattern))) [
      | inl (i, e, lo, hi, at, before) ↦ rw (e, passes) (inl (i, refl, lo, omega arith, at, before))
      | inr (e, nowhere) ↦
          rw (e, passes)
            (inr (λ k p q. nowhere k p (omega arith), passes-IsFirstMatch fs pattern lines first))
    ]

-- What is found for a nonempty pattern: the first position, from the given start or, at the end of
-- the file, from the last place that the pattern fits, at which the lines match, in the first of the four passes (exact, without
-- trailing space, without surrounding space, normalized) that has a match; nothing is found
-- exactly if no pass has one.
pub seek_sequence-IsFirstMatch :
    (lines pattern : List Text) (start : ℕ) (eof : Bool)
    → is_nil pattern ≡ false
    → IsFirstMatch transforms pattern lines
        (first_position start lines pattern eof)
        (seek_sequence lines pattern start eof)
unfolding seek_sequence
seek_sequence-IsFirstMatch lines pattern start eof filled =
    elim (Bool-cases (ltb (length lines) (length pattern))) [
      | inr fits ↦
          rw (filled, fits)
            (passes-IsFirstMatch transforms pattern lines (first_position start lines pattern eof))
      | inl long ↦
          let never : (f : Transform)
              → Nowhere f pattern lines (first_position start lines pattern eof) =
            λ f i p q. absurd (ground arith) in
          rw (filled, long)
            (inr (never same, inr (never trim_end, inr (never trim, inr (never normalize, refl)))))
    ]
