-- ===== src/Runtime/PatchParser/Lines.antt =====
-- splitLines of src/runtime/patch-parser.ts, and the line ends of a file.
use mcp_dev_runtime.Base.{
  ℕ, zero, suc, ◌<◌, ◌≤◌, Bool, true, false, Option, none, some, List, [], ◌∷◌, ◌++◌, ◌≡◌, inl, inr,
  Option-cases, Bool-cases, refl, sym, ap, ◌∙◌, arith, append_assoc, append-nil, ◌==◌,
  if◌then◌else◌, length, length-append,
}
use mcp_dev_runtime.Base.Text.{Text}

pub record Line : Type 0 where
  pub text : Text
  pub eol : Text

-- The text before the first line feed and the text behind it: `indexOf('\\n', offset)`.
unfoldable pub break_line : Text → Option (Text × Text)
break_line [] = none
break_line (c ∷ s) =
    if c == 10
    then some ([], s)
    else elim (break_line s) [ none ↦ none | some (before, after) ↦ some (c ∷ before, after) ]

-- `end > offset && text[end - 1] === '\\r'`
unfoldable pub ends_cr : Text → Bool
ends_cr [] = false
ends_cr (c ∷ []) = c == 13
ends_cr (c ∷ d ∷ s) = ends_cr (d ∷ s)

unfoldable pub drop_last {ℓ} : {A : Type ℓ} → List A → List A
drop_last [] = []
drop_last (c ∷ []) = []
drop_last (c ∷ d ∷ s) = c ∷ drop_last (d ∷ s)

abbrev pub crlf : Text
crlf = 13 ∷ 10 ∷ []

abbrev pub lf : Text
lf = 10 ∷ []

-- A line that a line feed ends.
unfoldable pub ended_line : Text → Line
ended_line before =
    if ends_cr before
    then record { text = drop_last before; eol = crlf }
    else record { text = before; eol = lf }

-- The loop of `splitLines`. A round takes a character at least.
unfoldable pub split_loop : ℕ → Text → List Line
split_loop zero text = []
split_loop (suc rounds) [] = []
split_loop (suc rounds) (c ∷ s) = elim (break_line (c ∷ s)) [
  | none ↦ record { text = c ∷ s; eol = [] } ∷ []
  | some (before, after) ↦ ended_line before ∷ split_loop rounds after
]

unfoldable pub split_lines : Text → List Line
split_lines text = split_loop (length text) text

-- output.map(l => l.text + l.eol).join('')
abbrev pub join_lines : List Line → Text
join_lines [] = []
join_lines (l ∷ ls) = (l.text ++ l.eol) ++ join_lines ls

break_line-some :
    (s before after : Text) → break_line s ≡ some (before, after) → s ≡ before ++ (10 ∷ after)
unfolding break_line
break_line-some [] before after h = absurd (ground arith)
break_line-some (c ∷ s) before after h = elim (Bool-cases (c == 10)) [
  | inl feed ↦ ground arith
  | inr other ↦ elim (Option-cases (break_line s)) [
    | inl e ↦ absurd (ground arith)
    | inr ((b, a), e) ↦ ground (arith, break_line-some s b a e)
  ]
]

drop_last-cr : (s : Text) → ends_cr s ≡ true → drop_last s ++ (13 ∷ []) ≡ s
unfolding ends_cr drop_last
drop_last-cr [] h = absurd (ground arith)
drop_last-cr (c ∷ []) h = ground arith
drop_last-cr (c ∷ d ∷ s) h = ap (λ l. c ∷ l) (drop_last-cr (d ∷ s) h)

ended_line-text : (s : Text) → (ended_line s).text ++ (ended_line s).eol ≡ s ++ lf
unfolding ended_line
ended_line-text s = elim (Bool-cases (ends_cr s)) [
  | inl cr ↦
      rw cr (sym (append_assoc (drop_last s) (13 ∷ []) lf) ∙ ap (λ l. l ++ lf) (drop_last-cr s cr))
  | inr plain ↦ rw plain
]

length-after :
    (s before after : Text) → break_line s ≡ some (before, after) → length after < length s
length-after s before after e = omega (
  arith,
  ap (λ (l : Text). length l) (break_line-some s before after e),
  length-append before (10 ∷ after),
)

split_loop-join : (rounds : ℕ) (s : Text) → length s ≤ rounds → join_lines (split_loop rounds s) ≡ s
unfolding split_loop
split_loop-join zero [] h = refl
split_loop-join zero (c ∷ s) h = absurd (omega arith)
split_loop-join (suc rounds) [] h = refl
split_loop-join (suc rounds) (c ∷ s) h = elim (Option-cases (break_line (c ∷ s))) [
  | inl e ↦
      let whole : split_loop (suc rounds) (c ∷ s) ≡ record { text = c ∷ s; eol = [] } ∷ [] =
        rw (e, split_loop) in
      ap join_lines whole ∙ simp append-nil
  | inr ((before, after), e) ↦
      let round : split_loop (suc rounds) (c ∷ s) ≡ ended_line before ∷ split_loop rounds after =
        rw (e, split_loop) in
      ap join_lines round
      ∙ ap (λ l. l ++ join_lines (split_loop rounds after)) (ended_line-text before)
      ∙ append_assoc before lf (join_lines (split_loop rounds after))
      ∙ ap (λ l. before ++ (10 ∷ l))
          (split_loop-join rounds after (omega (arith, length-after (c ∷ s) before after e)))
      ∙ sym (break_line-some (c ∷ s) before after e)
]

-- Splitting a text into lines loses nothing: the lines with their line ends are the text.
pub split_lines-join : (s : Text) → join_lines (split_lines s) ≡ s
unfolding split_lines
split_lines-join s = split_loop-join (length s) s (omega arith)
