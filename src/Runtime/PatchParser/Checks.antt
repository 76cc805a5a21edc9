-- ===== src/Runtime/PatchParser/Checks.antt =====
-- Tests of the patch parser, and its theorems at concrete inputs.
use mcp_dev_runtime.Base.{
  true, false, none, List, [], ◌∷◌, ◌≡◌, inl, inr, refl, arith, map, codes, length,
}
use mcp_dev_runtime.Base.Text.{Text, equal}
use mcp_dev_runtime.Runtime.Errors.{ok}
use mcp_dev_runtime.Runtime.PatchParser.Grammar.{
  Chunk, parse_lines, is_path, all_plain, is_terminator, is_nil,
}
use mcp_dev_runtime.Runtime.PatchParser.Syntax.{
  keeps, removes, inserts, absent, bare, context, HunkSource, adds, updates, print_hunks, hunk_of,
  chunk_of, AreHunks,
}
use mcp_dev_runtime.Runtime.PatchParser.RoundTrip.Patches.{parse_lines-print}
use mcp_dev_runtime.Runtime.PatchParser.Lines.{Line}
use mcp_dev_runtime.Runtime.PatchParser.Seek.{
  transforms, first_position, IsFirstMatch, seek_sequence, passes, scan, matches,
  seek_sequence-IsFirstMatch,
}
use mcp_dev_runtime.Runtime.PatchParser.Update.{
  Replacement, place_all, place, search_start, chunk_at, most_frequent, tally, count_eol, most,
  new_line, default_eol, had_final_newline, finish, update_lines,
}
use mcp_dev_runtime.Runtime.PatchParser.Update.Splicing.{AreOrdered, splice_all}
use mcp_dev_runtime.Runtime.PatchParser.Update.Placement.{update_lines_splices}

-- A new file, and an update of two chunks of which the second has a line to look for.
abbrev hunks : List HunkSource
hunks =
    adds (codes "a.txt") (codes "one" ∷ codes "two" ∷ [])
    ∷ updates (codes "b.txt") none (
        record { marker = absent; body = keeps (codes "x") ∷ inserts (codes "y") ∷ []; eof = false }
        ∷ record { marker = context (codes "f"); body = removes (codes "z") ∷ []; eof = true }
        ∷ [])
    ∷ []

hunks-AreHunks : AreHunks hunks
unfolding is_path equal all_plain is_terminator
hunks-AreHunks = (
  refl,
  (
    (
      refl,
      tt,
      (
        tt,
        (λ e. absurd (ground (arith, e))),
        inl refl,
        ((λ e. absurd (ground (arith, e))), (λ e. absurd (ground (arith, e))), inr refl, tt),
      ),
      inl (λ e. absurd (ground (arith, e))),
    ),
    tt,
  ),
)

parse_lines-print_example : parse_lines (print_hunks hunks) ≡ ok (map hunk_of hunks)
parse_lines-print_example = parse_lines-print hunks hunks-AreHunks (λ e. absurd (ground (arith, e)))

abbrev three_texts : List Text
three_texts = codes "a" ∷ codes " b" ∷ codes "c" ∷ []

seek_sequence-IsFirstMatch_example :
    IsFirstMatch transforms
      (codes "b" ∷ [])
      three_texts
      (first_position 1 three_texts (codes "b" ∷ []) false)
      (seek_sequence three_texts (codes "b" ∷ []) 1 false)
unfolding is_nil
seek_sequence-IsFirstMatch_example =
    seek_sequence-IsFirstMatch three_texts (codes "b" ∷ []) 1 false refl

-- "a", "b" and "c" without a line feed behind it; the chunk puts "d" in place of "b".
abbrev file : List Line
file =
    record { text = codes "a"; eol = codes "\r\n" }
    ∷ record { text = codes "b"; eol = codes "\r\n" }
    ∷ record { text = codes "c"; eol = [] }
    ∷ []

abbrev chunks : List Chunk
chunks = map chunk_of (
    record { marker = bare; body = removes (codes "b") ∷ inserts (codes "d") ∷ []; eof = false }
    ∷ [])

abbrev replacements : List Replacement
replacements =
    record { at = 1; remove = 1; lines = record { text = codes "d"; eol = codes "\r\n" } ∷ [] } ∷ []

update_lines_splices_example :
    AreOrdered 0 (length file) replacements
    × (update_lines file chunks
        ≡ ok (finish (default_eol file) (had_final_newline file) (splice_all file replacements)))
unfolding place_all place search_start chunk_at seek_sequence passes scan matches equal default_eol
    most_frequent tally count_eol most new_line is_nil
update_lines_splices_example = update_lines_splices file chunks replacements refl
