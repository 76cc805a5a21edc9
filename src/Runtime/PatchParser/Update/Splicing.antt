-- ===== src/Runtime/PatchParser/Update/Splicing.antt =====
-- The output loop of updateText against splicing the replacements in from the last to the first.
use mcp_dev_runtime.Base.{
  ℕ, ◌+◌, ◌≤◌, false, List, [], ◌∷◌, ◌++◌, ltb, ◌≡◌, refl, sym, ap, ◌∙◌, arith, length, take, drop,
  length-take,
}
use mcp_dev_runtime.Base.Slices.{slice, drop-append_le, take-append_le, take-take, drop-take}
use mcp_dev_runtime.Runtime.Errors.{ok}
use mcp_dev_runtime.Runtime.PatchParser.Lines.{Line}
use mcp_dev_runtime.Runtime.PatchParser.Update.{Replacement, emit}

-- The replacements stand in order behind `previous`, apart from each other, and within the file.
abbrev pub AreOrdered : ℕ → ℕ → List Replacement → Type 0
AreOrdered previous size [] = previous ≤ size
AreOrdered previous size (r ∷ rs) = (previous ≤ r.at) × AreOrdered (r.at + r.remove) size rs

-- Replacing one stretch of lines.
abbrev pub splice : List Line → Replacement → List Line
splice source r = take r.at source ++ (r.lines ++ drop (r.at + r.remove) source)

-- All of them, from the last to the first, so that the positions are those of the source.
abbrev pub splice_all : List Line → List Replacement → List Line
splice_all source [] = source
splice_all source (r ∷ rs) = splice (splice_all source rs) r

ordered-le :
    (previous size : ℕ) (rs : List Replacement) → AreOrdered previous size rs → previous ≤ size
ordered-le previous size [] o = o
ordered-le previous size (r ∷ rs) o =
    let p = o.0 in let q = ordered-le (r.at + r.remove) size rs o.1 in omega arith

-- Nothing changes before the first replacement.
take-splice_all :
    (source : List Line) (n : ℕ) (rs : List Replacement)
    → AreOrdered n (length source) rs
    → take n (splice_all source rs) ≡ take n source
take-splice_all source n [] o = refl
take-splice_all source n (r ∷ rs) o =
    let inner = splice_all source rs in
    let size = ordered-le (r.at + r.remove) (length source) rs o.1 in
    let same : take r.at inner ≡ take r.at source =
      sym (take-take r.at (r.at + r.remove) inner (omega arith))
      ∙ ap (take r.at) (take-splice_all source (r.at + r.remove) rs o.1)
      ∙ take-take r.at (r.at + r.remove) source (omega arith) in
    take-append_le n (take r.at inner) _
      (omega (arith, ap (λ (l : List Line). length l) same, length-take r.at source, o.0))
    ∙ ap (take n) same
    ∙ take-take n r.at source o.0

-- In particular not before a replacement that comes before the others.
take-splice_rest :
    (source : List Line) (r : Replacement) (rs : List Replacement)
    → AreOrdered (r.at + r.remove) (length source) rs
    → take r.at (splice_all source rs) ≡ take r.at source
take-splice_rest source r rs o =
    sym (take-take r.at (r.at + r.remove) (splice_all source rs) (omega arith))
    ∙ ap (take r.at) (take-splice_all source (r.at + r.remove) rs o)
    ∙ take-take r.at (r.at + r.remove) source (omega arith)

length-splice_rest :
    (source : List Line) (r : Replacement) (rs : List Replacement)
    → AreOrdered (r.at + r.remove) (length source) rs
    → length (take r.at (splice_all source rs)) ≡ r.at
length-splice_rest source r rs o =
    let size = ordered-le (r.at + r.remove) (length source) rs o in
    omega (
      arith,
      ap (λ (l : List Line). length l) (take-splice_rest source r rs o),
      length-take r.at source,
    )

-- What follows `previous` of the spliced lines.
drop-splice :
    (source : List Line) (previous : ℕ) (r : Replacement) (rs : List Replacement)
    → AreOrdered previous (length source) (r ∷ rs)
    → drop previous (splice (splice_all source rs) r)
      ≡ slice previous r.at source ++ (r.lines ++ drop (r.at + r.remove) (splice_all source rs))
drop-splice source previous r rs o =
    let inner = splice_all source rs in
    drop-append_le previous (take r.at inner) (r.lines ++ drop (r.at + r.remove) inner)
      (omega (arith, length-splice_rest source r rs o.1, o.0))
    ∙ ap (λ (l : List Line). l ++ (r.lines ++ drop (r.at + r.remove) inner))
        (ap (drop previous) (take-splice_rest source r rs o.1) ∙ drop-take previous r.at source)

pub emit-drop :
    (source : List Line) (previous : ℕ) (rs : List Replacement)
    → AreOrdered previous (length source) rs
    → emit source previous rs ≡ ok (drop previous (splice_all source rs))
unfolding emit
emit-drop source previous [] o = refl
emit-drop source previous (r ∷ rs) o =
    let in_order : ltb r.at previous ≡ false = ground (arith, o.0) in
    rw (in_order, emit-drop source (r.at + r.remove) rs o.1, drop-splice source previous r rs o)
      refl
