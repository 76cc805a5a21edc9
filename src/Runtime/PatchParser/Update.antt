-- ===== src/Runtime/PatchParser/Update.antt =====
-- updateText of src/runtime/patch-parser.ts.
pub mod Placement
pub mod Splicing
use mcp_dev_runtime.Base.{
  ℕ, zero, suc, ◌+◌, Bool, true, false, ◌&&◌, ◌||◌, not, Option, none, some, List, [], ◌∷◌, ◌++◌,
  ltb, leb, if◌then◌else◌, length, map, get_or, drop,
}
use mcp_dev_runtime.Base.Slices.{slice}
use mcp_dev_runtime.Base.Text.{Text, equal}
use mcp_dev_runtime.Runtime.Errors.{Result, ok, err, context_mismatch, overlapping_hunks, ◌>>=◌}
use mcp_dev_runtime.Runtime.PatchParser.Grammar.{PatchLine, Chunk, is_nil}
use mcp_dev_runtime.Runtime.PatchParser.Lines.{Line, lf, split_lines, join_lines}
use mcp_dev_runtime.Runtime.PatchParser.Seek.{seek_sequence}

-- counts.set(l.eol, (counts.get(l.eol) ?? 0) + 1)
unfoldable pub count_eol : Text → List (Text × ℕ) → List (Text × ℕ)
count_eol eol [] = (eol, 1) ∷ []
count_eol eol ((e, n) ∷ counts) =
    if equal e eol then (e, n + 1) ∷ counts else (e, n) ∷ count_eol eol counts

unfoldable pub tally : List (Text × ℕ) → List Line → List (Text × ℕ)
tally counts [] = counts
tally counts (l ∷ ls) = tally (if is_nil l.eol then counts else count_eol l.eol counts) ls

-- The first entry of the counts in falling order: of the largest ones, the first to appear.
unfoldable pub most : Text × ℕ → List (Text × ℕ) → Text
most best [] = best.0
most best (e ∷ counts) = most (if ltb best.1 e.1 then e else best) counts

unfoldable pub most_frequent : List (Text × ℕ) → Text
most_frequent [] = lf
most_frequent (e ∷ counts) = most e counts

unfoldable pub default_eol : List Line → Text
default_eol source = most_frequent (tally [] source)

-- `source.length === 0 || source.at(-1)!.eol !== ''`
unfoldable pub had_final_newline : List Line → Bool
had_final_newline [] = true
had_final_newline (l ∷ []) = not (is_nil l.eol)
had_final_newline (l ∷ k ∷ ls) = had_final_newline (k ∷ ls)

pub record Replacement : Type 0 where
  pub at : ℕ
  pub remove : ℕ
  pub lines : List Line

-- A kept line is the source line with its bytes; the numbers of kept lines are below the number of
-- old lines, so that the line is there.
unfoldable pub new_line : List Line → ℕ → Text → PatchLine → Line
new_line source at eol l = elim l.old_index [
  | none ↦ record { text = l.text; eol = eol }
  | some k ↦ get_or source (at + k) (record { text = []; eol = [] })
]

abbrev pub found : Option ℕ → Result ℕ
found none = err context_mismatch
found (some i) = ok i

-- Where the search for the lines of a chunk starts.
unfoldable pub search_start : List Text → Option Text → ℕ → Result ℕ
search_start content none search_from = ok search_from
search_start content (some context) search_from = do
  at ← found (seek_sequence content (context ∷ []) search_from false)
  ok (at + 1)

-- Where a chunk applies.
unfoldable pub chunk_at : List Text → Chunk → ℕ → Result ℕ
chunk_at content chunk start =
    if not (is_nil chunk.old)
    then found (seek_sequence content chunk.old start chunk.eof)
    else ok (elim chunk.context [ some context ↦ start | none ↦ length content ])

unfoldable pub place : List Line → Text → Chunk → ℕ → Result Replacement
place source eol chunk search_from = do
  start ← search_start (map (λ l. l.text) source) chunk.context search_from
  at ← chunk_at (map (λ l. l.text) source) chunk start
  ok (record {
    at = at;
    remove = length chunk.old;
    lines = map (new_line source at eol) chunk.replacement;
  })

-- The loop over the chunks.
unfoldable pub place_all : List Line → Text → List Chunk → ℕ → Result (List Replacement)
place_all source eol [] search_from = ok []
place_all source eol (chunk ∷ chunks) search_from = do
  r ← place source eol chunk search_from
  rs ← place_all source eol chunks (r.at + r.remove)
  ok (r ∷ rs)

-- The loop that puts the output together.
unfoldable pub emit : List Line → ℕ → List Replacement → Result (List Line)
emit source previous [] = ok (drop previous source)
emit source previous (r ∷ rs) =
    let more = (do
      rest ← emit source (r.at + r.remove) rs
      ok (slice previous r.at source ++ (r.lines ++ rest))) in
    if ltb r.at previous then err overlapping_hunks else more

-- Every line but the last gets a line end, and the last one has one if the file had one.
abbrev with_eol : Text → Line → Line
with_eol eol l = if is_nil l.eol then record l { eol = eol } else l

unfoldable pub finish : Text → Bool → List Line → List Line
finish eol final [] = []
finish eol final (l ∷ []) = (if final then with_eol eol l else record l { eol = [] }) ∷ []
finish eol final (l ∷ k ∷ ls) = with_eol eol l ∷ finish eol final (k ∷ ls)

unfoldable pub update_lines : List Line → List Chunk → Result (List Line)
update_lines source chunks = do
  rs ← place_all source (default_eol source) chunks 0
  output ← emit source 0 rs
  ok (finish (default_eol source) (had_final_newline source) output)

pub update_text : Text → List Chunk → Result Text
unfolding update_lines
update_text text [] = ok text
update_text text (chunk ∷ chunks) = do
  output ← update_lines (split_lines text) (chunk ∷ chunks)
  ok (join_lines output)
