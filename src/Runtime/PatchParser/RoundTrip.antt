-- ===== src/Runtime/PatchParser/RoundTrip.antt =====
-- parsePatch of src/runtime/patch-parser.ts reads back the chunks of the grammar.
pub mod Hunks
pub mod Patches
use mathlib.Core.List.{map-append}
use mcp_dev_runtime.Base.{
  ℕ, zero, suc, ◌+◌, ◌<◌, ◌≤◌, Bool, true, false, ◌&&◌, ◌||◌, not, Option, none, some, List, [],
  ◌∷◌, ◌++◌, ◌≡◌, ◌≢◌, ◌⊎◌, inl, inr, refl, sym, ap, ◌∙◌, arith, append_assoc, append-nil,
  if◌then◌else◌, length, map, codes, length-append,
}
use mcp_dev_runtime.Base.Text.{Text, equal, starts_with, strip, strip-append, equal_iff}
use mcp_dev_runtime.Runtime.Errors.{Result, ok, err, ◌>>=◌}
use mcp_dev_runtime.Runtime.PatchParser.Grammar.{
  PatchLine, Chunk, Operation, add, delete, update, Hunk, add_file, delete_file, update_file,
  move_to, end_of_file, at_sign, at_context, is_path, unlines, header, stops_chunk, push_line,
  chunk_lines, open_chunk, close_chunk, one_chunk, more_lines, update_chunks, move_target,
  hunk_body, one_hunk, hunks_loop, parse_lines, added_lines, operation_of, is_nil, is_none,
  empty_chunk,
}
use mcp_dev_runtime.Runtime.PatchParser.Syntax.{
  BodyLine, keeps, removes, inserts, print_line, Marker, absent, bare, context, print_marker,
  ChunkSource, print_eof, print_chunk, print_chunks, old_lines, new_lines, context_of, chunk_of,
  HunkSource, adds, deletes, updates, print_move, print_hunk, print_hunks, hunk_of, Marked,
  AreChunks, IsMove, IsHunk, AreHunks,
}

abbrev pub push_body : Chunk → List BodyLine → Chunk
push_body chunk body = record chunk {
  old = chunk.old ++ old_lines body;
  replacement = chunk.replacement ++ new_lines (length chunk.old) body;
}

chunk_line :
    (chunk : Chunk) (line : BodyLine) (rest : List Text)
    → chunk_lines chunk (print_line line ∷ rest) ≡ chunk_lines (push_body chunk (line ∷ [])) rest
unfolding chunk_lines stops_chunk header starts_with equal push_line
chunk_line chunk (keeps t) rest = refl
chunk_line chunk (removes t) rest = rw append-nil
chunk_line chunk (inserts t) rest = rw append-nil

length-snoc : (xs : List Text) (x : Text) → length (xs ++ x ∷ []) ≡ suc (length xs)
length-snoc xs x = omega (arith, length-append xs (x ∷ []))

push_body-push_body :
    (chunk : Chunk) (line : BodyLine) (body : List BodyLine)
    → push_body (push_body chunk (line ∷ [])) body ≡ push_body chunk (line ∷ body)
push_body-push_body chunk (keeps t) body = simp (append_assoc, length-snoc)
push_body-push_body chunk (removes t) body = simp (append_assoc, length-snoc, append-nil)
push_body-push_body chunk (inserts t) body = simp (append_assoc, append-nil)

chunk_lines-body :
    (body : List BodyLine) (chunk : Chunk) (rest : List Text)
    → chunk_lines chunk (map print_line body ++ rest) ≡ chunk_lines (push_body chunk body) rest
chunk_lines-body [] chunk rest = simp append-nil
chunk_lines-body (line ∷ body) chunk rest =
    chunk_line chunk line (map print_line body ++ rest)
    ∙ chunk_lines-body body (push_body chunk (line ∷ [])) rest
    ∙ ap (λ c. chunk_lines c rest) (push_body-push_body chunk line body)

-- Lines at which a chunk stops.
abbrev pub Stops : List Text → Type 0
Stops [] = Unit {0}
Stops (line ∷ rest) = stops_chunk line ≡ true

chunk_lines_end :
    (chunk : Chunk) (eof : Bool) (rest : List Text)
    → chunk.eof ≡ false
    → Stops rest
    → chunk_lines chunk (print_eof eof ++ rest) ≡ ok (record chunk { eof = eof }, rest)
unfolding chunk_lines
chunk_lines_end chunk true rest e s = unfold stops_chunk header starts_with equal in refl
chunk_lines_end chunk false [] e s = ap (λ b. ok (record chunk { eof = b }, [])) e
chunk_lines_end chunk false (line ∷ rest) e s =
    rw s (ap (λ b. ok (record chunk { eof = b }, line ∷ rest)) e)

-- The first line of a body opens no chunk and is no header.
pub body_first :
    (line : BodyLine)
    → (equal (print_line line) at_sign ≡ false)
      × (strip at_context (print_line line) ≡ none)
      × (header (print_line line) ≡ false)
      × (strip move_to (print_line line) ≡ none)
unfolding equal strip header starts_with
body_first (keeps t) = (refl, refl, refl, refl)
body_first (removes t) = (refl, refl, refl, refl)
body_first (inserts t) = (refl, refl, refl, refl)

open_chunk-marker :
    (first : Bool) (marker : Marker) (line : BodyLine) (rest : List Text)
    → Marked first marker
    → open_chunk first (print_marker marker ++ (print_line line ∷ rest))
      ≡ ok (context_of marker, print_line line ∷ rest)
unfolding open_chunk
open_chunk-marker true absent line rest m = let (a, b, c, d) = body_first line in rw (a, b)
open_chunk-marker false absent line rest m = absurd (m refl)
open_chunk-marker first bare line rest m = unfold equal in refl
open_chunk-marker first (context t) line rest m = unfold equal in rw (strip-append at_context t)

body_filled :
    (body : List BodyLine)
    → body ≢ []
    → (is_nil (old_lines body) && is_nil (new_lines 0 body)) ≡ false
unfolding is_nil
body_filled [] h = absurd (h refl)
body_filled (keeps t ∷ body) h = refl
body_filled (removes t ∷ body) h = refl
body_filled (inserts t ∷ body) h = ground arith

-- A chunk that ends the file is not followed by another chunk.
abbrev pub EndsWell : Bool → List Text → Type 0
EndsWell eof rest = (eof ≡ false) ⊎ (more_lines rest ≡ false)

close_chunk-source :
    (c : ChunkSource) (rest : List Text)
    → c.body ≢ []
    → EndsWell c.eof rest
    → close_chunk (chunk_of c) rest ≡ ok (chunk_of c, rest)
unfolding close_chunk
close_chunk-source c rest filled last = ground (arith, body_filled c.body filled)

module _ (first : Bool) (marker : Marker) (line : BodyLine) (body : List BodyLine) (eof : Bool)
    (rest : List Text) where
  abbrev source : ChunkSource
  source = record { marker = marker; body = line ∷ body; eof = eof }

  one_chunk-source :
      Marked first marker
      → EndsWell eof rest
      → Stops rest
      → one_chunk first (print_chunk source ++ rest) ≡ ok (chunk_of source, rest)
  unfolding one_chunk
  one_chunk-source m last s =
      ap (one_chunk first) (
        append_assoc (print_marker marker) (map print_line (line ∷ body) ++ print_eof eof) rest
        ∙ ap (λ l. print_marker marker ++ l)
            (append_assoc (map print_line (line ∷ body)) (print_eof eof) rest))
      ∙ rw (open_chunk-marker first marker line (map print_line body ++ (print_eof eof ++ rest)) m)
          (rw
            (chunk_lines-body (line ∷ body) (empty_chunk (context_of marker))
              (print_eof eof ++ rest))
            (rw
              (chunk_lines_end (push_body (empty_chunk (context_of marker)) (line ∷ body)) eof rest
                refl s)
              (close_chunk-source source rest (λ e. ground arith) last)))

pub one_chunk-print :
    (first : Bool) (c : ChunkSource) (rest : List Text)
    → Marked first c.marker
    → c.body ≢ []
    → EndsWell c.eof rest
    → Stops rest
    → one_chunk first (print_chunk c ++ rest) ≡ ok (chunk_of c, rest)
one_chunk-print first c rest m filled last s = go c.marker c.body c.eof m filled last
  where
    go :
        (marker : Marker) (body : List BodyLine) (eof : Bool)
        → Marked first marker
        → body ≢ []
        → EndsWell eof rest
        → one_chunk first (print_chunk (record { marker = marker; body = body; eof = eof }) ++ rest)
          ≡ ok (chunk_of (record { marker = marker; body = body; eof = eof }), rest)
    go marker [] eof m filled last = absurd (filled refl)
    go marker (line ∷ body) eof m filled last =
        one_chunk-source first marker line body eof rest m last s

-- The first line of a chunk is no header, so that the loop over the chunks goes on.
pub print_chunk-more :
    (marker : Marker) (line : BodyLine) (rest : List Text)
    → more_lines (print_marker marker ++ (print_line line ∷ rest)) ≡ true
unfolding more_lines
print_chunk-more absent line rest = let (a, b, c, d) = body_first line in rw c
print_chunk-more bare line rest = unfold header starts_with equal in refl
print_chunk-more (context t) line rest = unfold header starts_with equal in refl
