-- ===== src/Runtime/PatchParser/RoundTrip/Hunks.antt =====
-- parsePatch of src/runtime/patch-parser.ts reads back the file operations of the grammar.
use mathlib.Core.Bool.{false≢true}
use mcp_dev_runtime.Base.{
  ℕ, zero, suc, ◌<◌, ◌≤◌, Bool, true, false, ◌&&◌, Option, none, some, List, [], ◌∷◌, ◌++◌, ◌≡◌,
  ◌≢◌, ◌⊎◌, inl, inr, Option-cases, refl, sym, ap, ◌∙◌, arith, append_assoc, length, map,
  length-append,
}
use mcp_dev_runtime.Base.Text.{
  Text, equal, starts_with, strip, strip-append, strip-some, not-equal_nil,
}
use mcp_dev_runtime.Runtime.Errors.{ok}
use mcp_dev_runtime.Runtime.PatchParser.Grammar.{
  update, move_to, at_sign, at_context, header, stops_chunk, more_lines, update_chunks, move_target,
  hunk_body, added_lines, is_nil, is_none,
}
use mcp_dev_runtime.Runtime.PatchParser.Syntax.{
  BodyLine, print_line, Marker, absent, bare, context, print_marker, ChunkSource, print_eof,
  print_chunk, print_chunks, chunk_of, updates, print_move, hunk_of, Marked, AreChunks, IsMove,
  IsHunk,
}
use mcp_dev_runtime.Runtime.PatchParser.RoundTrip.{
  Stops, EndsWell, one_chunk-print, print_chunk-more, body_first,
}

-- A line that starts a file operation, or the end: where the chunks of a file stop.
abbrev pub Ends : List Text → Type 0
Ends [] = Unit {0}
Ends (line ∷ rest) = header line ≡ true

Ends-more : (rest : List Text) → Ends rest → more_lines rest ≡ false
unfolding more_lines
Ends-more [] h = refl
Ends-more (line ∷ rest) h = rw h

Ends-Stops : (rest : List Text) → Ends rest → Stops rest
unfolding stops_chunk
Ends-Stops [] h = tt
Ends-Stops (line ∷ rest) h = rw h

-- Behind a chunk stands another chunk with a marker, or what ends the file.
chunks-Stops :
    (cs : List ChunkSource) (rest : List Text)
    → AreChunks false cs
    → Ends rest
    → Stops (print_chunks cs ++ rest)
chunks-Stops [] rest w e = Ends-Stops rest e
chunks-Stops (c ∷ cs) rest w e = go c.marker c.body c.eof w.0
  where
    go :
        (marker : Marker) (body : List BodyLine) (eof : Bool)
        → Marked false marker
        → Stops (
            print_chunk (record { marker = marker; body = body; eof = eof })
            ++ print_chunks cs
            ++ rest)
    go absent body eof m = absurd (m refl)
    go bare body eof m = unfold stops_chunk header starts_with equal in refl
    go (context t) body eof m = unfold stops_chunk header starts_with equal in refl

chunks-EndsWell :
    (eof : Bool) (cs : List ChunkSource) (rest : List Text)
    → ((eof ≡ false) ⊎ (cs ≡ []))
    → Ends rest
    → EndsWell eof (print_chunks cs ++ rest)
chunks-EndsWell eof cs rest (inl open') e = inl open'
chunks-EndsWell eof cs rest (inr last) e = inr (rw last (Ends-more rest e))

more-print_chunk :
    (c : ChunkSource) (rest : List Text) → c.body ≢ [] → more_lines (print_chunk c ++ rest) ≡ true
more-print_chunk c rest filled = go c.marker c.body c.eof filled
  where
    go :
        (marker : Marker) (body : List BodyLine) (eof : Bool)
        → body ≢ []
        → more_lines (print_chunk (record { marker = marker; body = body; eof = eof }) ++ rest)
          ≡ true
    go marker [] eof filled = absurd (filled refl)
    go marker (line ∷ body) eof filled =
        ap more_lines
          (append_assoc (print_marker marker) (map print_line (line ∷ body) ++ print_eof eof) rest)
        ∙ print_chunk-more marker line ((map print_line body ++ print_eof eof) ++ rest)

update_chunks-print :
    (rounds : ℕ) (first : Bool) (cs : List ChunkSource) (rest : List Text)
    → AreChunks first cs
    → Ends rest
    → length cs < rounds
    → update_chunks rounds first (print_chunks cs ++ rest) ≡ ok (map chunk_of cs, rest)
unfolding update_chunks
update_chunks-print zero first cs rest w e h = absurd (omega arith)
update_chunks-print (suc rounds) first [] rest w e h = rw (Ends-more rest e)
update_chunks-print (suc rounds) first (c ∷ cs) rest w e h =
    let behind = print_chunks cs ++ rest in
    ap (update_chunks (suc rounds) first) (append_assoc (print_chunk c) (print_chunks cs) rest)
    ∙ rw (more-print_chunk c behind w.1) (
        rw
          (one_chunk-print first c behind w.0 w.1 (chunks-EndsWell c.eof cs rest w.2 e)
            (chunks-Stops cs rest w.3 e))
          (rw (update_chunks-print rounds false cs rest w.3 e (omega arith))))

not-move-header : (line : Text) → header line ≡ true → strip move_to line ≡ none
not-move-header line h = elim (Option-cases (strip move_to line)) [
  | inl e ↦ e
  | inr (t, e) ↦ absurd (
      false≢true (
        sym (ap header (strip-some move_to line t e) ∙ (unfold header starts_with equal in refl))
        ∙ h))
]

move_target-none :
    (line : Text) (rest : List Text)
    → strip move_to line ≡ none
    → move_target (line ∷ rest) ≡ ok (none, line ∷ rest)
unfolding move_target strip
move_target-none line rest e = rw e

move_target-chunk :
    (c : ChunkSource) (rest : List Text)
    → c.body ≢ []
    → move_target (print_chunk c ++ rest) ≡ ok (none, print_chunk c ++ rest)
move_target-chunk c rest filled = go c.marker c.body c.eof filled
  where
    go :
        (marker : Marker) (body : List BodyLine) (eof : Bool)
        → body ≢ []
        → (let lines = print_chunk (record { marker = marker; body = body; eof = eof }) ++ rest in
            move_target lines ≡ ok (none, lines))
    go absent [] eof filled = absurd (filled refl)
    go absent (line ∷ body) eof filled = move_target-none (print_line line) _ (body_first line).3
    go bare body eof filled = move_target-none at_sign _ (unfold strip in refl)
    go (context t) body eof filled = move_target-none (at_context ++ t) _ (unfold strip in refl)

move_target-print :
    (move : Option Text) (cs : List ChunkSource) (rest : List Text)
    → IsMove move
    → AreChunks true cs
    → Ends rest
    → move_target (print_move move ++ (print_chunks cs ++ rest))
      ≡ ok (move, print_chunks cs ++ rest)
unfolding strip
move_target-print (some target) cs rest m w e =
    unfold move_target in rw (strip-append move_to target) (rw (not-equal_nil target m))
move_target-print none [] [] m w e = unfold move_target in refl
move_target-print none [] (line ∷ rest) m w e = move_target-none line rest (not-move-header line e)
move_target-print none (c ∷ cs) rest m w e =
    ap move_target (append_assoc (print_chunk c) (print_chunks cs) rest)
    ∙ move_target-chunk c (print_chunks cs ++ rest) w.1
    ∙ ap (λ l. ok (none, l)) (sym (append_assoc (print_chunk c) (print_chunks cs) rest))

pub added_lines-print :
    (lines rest : List Text)
    → Ends rest
    → added_lines (map (λ t. b'+' ∷ t) lines ++ rest) ≡ ok (lines, rest)
unfolding added_lines header starts_with equal strip
added_lines-print [] [] e = refl
added_lines-print [] (line ∷ rest) e = rw e
added_lines-print (t ∷ lines) rest e = rw (added_lines-print lines rest e)

-- Each chunk is printed as a line at least.
length-print_chunks :
    (cs : List ChunkSource) (first : Bool)
    → AreChunks first cs
    → length cs ≤ length (print_chunks cs)
length-print_chunks [] first w = omega arith
length-print_chunks (c ∷ cs) first w = omega (
  arith,
  length-print_chunks cs false w.3,
  length-append (print_chunk c) (print_chunks cs),
  length-append (print_marker c.marker) (map print_line c.body ++ print_eof c.eof),
  length-append (map print_line c.body) (print_eof c.eof),
  length-body c.body w.1,
)
  where
    length-body : (body : List BodyLine) → body ≢ [] → 0 < length (map print_line body)
    length-body [] h = absurd (h refl)
    length-body (line ∷ body) h = omega arith

nonempty-chunks :
    (cs : List ChunkSource) (move : Option Text)
    → ((cs ≢ []) ⊎ (move ≢ none))
    → (is_nil (map chunk_of cs) && is_none move) ≡ false
unfolding is_nil
nonempty-chunks [] none (inl h) = absurd (h refl)
nonempty-chunks [] none (inr h) = absurd (h refl)
nonempty-chunks [] (some target) h = refl
nonempty-chunks (c ∷ cs) move h = refl

pub hunk_body-updates :
    (path : Text) (move : Option Text) (cs : List ChunkSource) (rest : List Text)
    → IsHunk (updates path move cs)
    → Ends rest
    → hunk_body update path (print_move move ++ (print_chunks cs ++ rest))
      ≡ ok (hunk_of (updates path move cs), rest)
unfolding hunk_body
hunk_body-updates path move cs rest w e = rw (move_target-print move cs rest w.1 w.2 e) (
    rw
      (update_chunks-print (suc (length (print_chunks cs ++ rest))) true cs rest w.2 e
        (omega (arith, length-print_chunks cs true w.2, length-append (print_chunks cs) rest)))
      (rw (nonempty-chunks cs move w.3)))
