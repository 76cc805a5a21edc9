-- ===== src/Runtime/PatchParser/Update/Placement.antt =====
-- Where updateText puts the chunks: in order, apart from each other, and within the file.
use mcp_dev_runtime.Base.{
  ℕ, suc, ◌+◌, ◌≤◌, Bool, true, false, Option, none, some, List, [], ◌∷◌, ◌≡◌, inl, inr, refl, sym,
  ap, ◌∙◌, arith, Bool-cases, Option-cases, length, map, subst,
}
use mcp_dev_runtime.Base.Text.{Text}
use mcp_dev_runtime.Runtime.Errors.{ok, bind-ok, ok_injective}
use mcp_dev_runtime.Runtime.PatchParser.Grammar.{Chunk, is_nil}
use mcp_dev_runtime.Runtime.PatchParser.Lines.{Line}
use mcp_dev_runtime.Runtime.PatchParser.Seek.{
  Transform, transforms, first_position, IsFirstMatch, seek_sequence, seek_sequence-IsFirstMatch,
}
use mcp_dev_runtime.Runtime.PatchParser.Update.{
  Replacement, found, search_start, chunk_at, place, place_all, finish, default_eol,
  had_final_newline, update_lines,
}
use mcp_dev_runtime.Runtime.PatchParser.Update.Splicing.{AreOrdered, splice_all, emit-drop}

-- A place that is found is in the part that is searched.
first_match-within :
    (fs : List Transform) (pattern lines : List Text) (first : ℕ) (r : Option ℕ) (i : ℕ)
    → IsFirstMatch fs pattern lines first r
    → r ≡ some i
    → (first ≤ i) × (i + length pattern ≤ length lines)
first_match-within [] pattern lines first r i m e = absurd (ground (arith, m, e))
first_match-within (f ∷ fs) pattern lines first r i (inl (k, p, lo, fits, hit, before)) e =
    ground (arith, p, e, lo, fits)
first_match-within (f ∷ fs) pattern lines first r i (inr (nowhere, m)) e =
    first_match-within fs pattern lines first r i m e

first_position-le :
    (start : ℕ) (lines pattern : List Text) (eof : Bool)
    → start ≤ first_position start lines pattern eof
first_position-le start lines pattern true = omega arith
first_position-le start lines pattern false = omega arith

found-ok : (o : Option ℕ) (i : ℕ) → found o ≡ ok i → o ≡ some i
found-ok none i e = absurd (ground (arith, e))
found-ok (some k) i e = ap some (ok_injective k i e)

seek-within :
    (lines pattern : List Text) (start : ℕ) (eof : Bool) (i : ℕ)
    → is_nil pattern ≡ false
    → found (seek_sequence lines pattern start eof) ≡ ok i
    → (start ≤ i) × (i + length pattern ≤ length lines)
seek-within lines pattern start eof i filled e =
    let w =
      first_match-within transforms pattern lines (first_position start lines pattern eof)
        (seek_sequence lines pattern start eof) i
        (seek_sequence-IsFirstMatch lines pattern start eof filled) (found-ok _ i e) in
    (omega (arith, w.0, first_position-le start lines pattern eof), w.1)

search_start-within :
    (content : List Text) (context : Option Text) (from start : ℕ)
    → from ≤ length content
    → search_start content context from ≡ ok start
    → (from ≤ start) × (start ≤ length content)
unfolding search_start is_nil
search_start-within content none from start h e = ground (arith, ok_injective from start e)
search_start-within content (some context) from start h e =
    let b =
      bind-ok (found (seek_sequence content (context ∷ []) from false)) (λ at. ok (at + 1)) start
        e in
    let w = seek-within content (context ∷ []) from false b.0 refl b.1 in
    ground (arith, w, ok_injective (b.0 + 1) start b.2)

nil-length : (ls : List Text) → is_nil ls ≡ true → length ls ≡ 0
unfolding is_nil
nil-length [] e = refl
nil-length (l ∷ ls) e = absurd (ground (arith, e))

chunk_at-within :
    (content : List Text) (chunk : Chunk) (start at : ℕ)
    → start ≤ length content
    → chunk_at content chunk start ≡ ok at
    → (start ≤ at) × (at + length chunk.old ≤ length content)
unfolding chunk_at
chunk_at-within content chunk start at h e = elim (Bool-cases (is_nil chunk.old)) [
  | inr filled ↦
      seek-within content chunk.old start chunk.eof at filled (sym (rw (filled, chunk_at)) ∙ e)
  | inl empty ↦ elim (Option-cases chunk.context) [
    | inl c ↦
        let there : chunk_at content chunk start ≡ ok (length content) = rw (empty, c, chunk_at) in
        ground (arith, h, nil-length chunk.old empty, ok_injective _ at (sym there ∙ e))
    | inr (context, c) ↦
        let there : chunk_at content chunk start ≡ ok start = rw (empty, c, chunk_at) in
        ground (arith, h, nil-length chunk.old empty, ok_injective _ at (sym there ∙ e))
  ]
]

length-texts : (source : List Line) → length (map (λ l. l.text) source) ≡ length source
length-texts [] = refl
length-texts (l ∷ ls) = ap suc (length-texts ls)

place-within :
    (source : List Line) (eol : Text) (chunk : Chunk) (from : ℕ) (r : Replacement)
    → from ≤ length source
    → place source eol chunk from ≡ ok r
    → (from ≤ r.at) × (r.at + r.remove ≤ length source)
unfolding place
place-within source eol chunk from r h e =
    let content : List Text = map (λ l. l.text) source in
    let s = bind-ok (search_start content chunk.context from) _ r e in
    let c = bind-ok (chunk_at content chunk s.0) _ r s.2 in
    let a =
      search_start-within content chunk.context from s.0 (omega (arith, h, length-texts source))
        s.1 in
    let b = chunk_at-within content chunk s.0 c.0 a.1 c.1 in
    let same = ok_injective _ r c.2 in
    let at : c.0 ≡ r.at = ap (λ (x : Replacement). x.at) same in
    let remove : length chunk.old ≡ r.remove = ap (λ (x : Replacement). x.remove) same in
    omega (arith, a.0, b.0, b.1, at, remove, length-texts source)

place_all-AreOrdered :
    (source : List Line) (eol : Text) (chunks : List Chunk) (from : ℕ) (rs : List Replacement)
    → from ≤ length source
    → place_all source eol chunks from ≡ ok rs
    → AreOrdered from (length source) rs
unfolding place_all
place_all-AreOrdered source eol [] from rs h e =
    subst (AreOrdered from (length source)) (ok_injective [] rs e) h
place_all-AreOrdered source eol (chunk ∷ chunks) from rs h e =
    let p = bind-ok (place source eol chunk from) _ rs e in
    let q = bind-ok (place_all source eol chunks (p.0.at + p.0.remove)) _ rs p.2 in
    let w = place-within source eol chunk from p.0 h p.1 in
    subst (AreOrdered from (length source)) (ok_injective (p.0 ∷ q.0) rs q.2)
      (w.0, place_all-AreOrdered source eol chunks (p.0.at + p.0.remove) q.0 w.1 q.1)

-- Updating lines by chunks that can be placed never finds two chunks that overlap: it gives the
-- source with the lines of the chunks in place of those that they expect, as if each had been
-- replaced alone from the last chunk to the first, and then the line ends of the file put in.
pub update_lines_splices :
    (source : List Line) (chunks : List Chunk) (rs : List Replacement)
    → place_all source (default_eol source) chunks 0 ≡ ok rs
    → AreOrdered 0 (length source) rs
      × (update_lines source chunks
          ≡ ok (finish (default_eol source) (had_final_newline source) (splice_all source rs)))
unfolding update_lines
update_lines_splices source chunks rs e =
    let o = place_all-AreOrdered source (default_eol source) chunks 0 rs (omega arith) e in
    (o, rw (e, emit-drop source 0 rs o) refl)
