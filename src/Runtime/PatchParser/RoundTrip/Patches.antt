-- ===== src/Runtime/PatchParser/RoundTrip/Patches.antt =====
-- parsePatch of src/runtime/patch-parser.ts reads back a whole patch.
use mcp_dev_runtime.Base.{
  ℕ, zero, suc, ◌<◌, ◌≤◌, List, [], ◌∷◌, ◌++◌, ◌≡◌, ◌≢◌, refl, ap, ◌∙◌, arith, append_assoc, length,
  map, length-append,
}
use mcp_dev_runtime.Base.Text.{Text, equal, starts_with, strip}
use mcp_dev_runtime.Runtime.Errors.{ok}
use mcp_dev_runtime.Runtime.PatchParser.Grammar.{
  update, add_file, delete_file, update_file, header, hunk_body, one_hunk, hunks_loop, parse_lines,
  operation_of, is_nil,
}
use mcp_dev_runtime.Runtime.PatchParser.Syntax.{
  print_chunks, HunkSource, adds, deletes, updates, print_move, print_hunk, print_hunks, hunk_of,
  IsHunk, AreHunks,
}
use mcp_dev_runtime.Runtime.PatchParser.RoundTrip.Hunks.{Ends, hunk_body-updates, added_lines-print}

hunks-Ends : (hs : List HunkSource) → Ends (print_hunks hs)
unfolding header starts_with equal
hunks-Ends [] = tt
hunks-Ends (adds path lines ∷ hs) = refl
hunks-Ends (deletes path ∷ hs) = refl
hunks-Ends (updates path move cs ∷ hs) = refl

-- The line that names the operation, and the lines behind it.
hunk_line : HunkSource → Text
hunk_line (adds path lines) = add_file ++ path
hunk_line (deletes path) = delete_file ++ path
hunk_line (updates path move cs) = update_file ++ path

hunk_rest : HunkSource → List Text
hunk_rest (adds path lines) = map (λ t. b'+' ∷ t) lines
hunk_rest (deletes path) = []
hunk_rest (updates path move cs) = print_move move ++ print_chunks cs

one_hunk-print :
    (h : HunkSource) (rest : List Text)
    → IsHunk h
    → Ends rest
    → one_hunk (hunk_line h) (hunk_rest h ++ rest) ≡ ok (hunk_of h, rest)
unfolding one_hunk hunk_line hunk_rest operation_of strip hunk_body
one_hunk-print (adds path lines) rest w e = rw w (rw (added_lines-print lines rest e))
one_hunk-print (deletes path) rest w e = rw w
one_hunk-print (updates path move cs) rest w e = rw w.0 (
    ap (hunk_body update path) (append_assoc (print_move move) (print_chunks cs) rest)
    ∙ hunk_body-updates path move cs rest w e)

print_hunk-parts : (h : HunkSource) → print_hunk h ≡ hunk_line h ∷ hunk_rest h
unfolding hunk_line hunk_rest
print_hunk-parts (adds path lines) = refl
print_hunk-parts (deletes path) = refl
print_hunk-parts (updates path move cs) = refl

hunks_loop-print :
    (rounds : ℕ) (hs : List HunkSource)
    → AreHunks hs
    → length hs < rounds
    → hunks_loop rounds (print_hunks hs) ≡ ok (map hunk_of hs)
unfolding hunks_loop
hunks_loop-print zero hs w l = absurd (omega arith)
hunks_loop-print (suc rounds) [] w l = refl
hunks_loop-print (suc rounds) (h ∷ hs) w l =
    ap (λ ls. hunks_loop (suc rounds) (ls ++ print_hunks hs)) (print_hunk-parts h)
    ∙ rw (one_hunk-print h (print_hunks hs) w.0 (hunks-Ends hs))
        (rw (hunks_loop-print rounds hs w.1 (omega arith)))

length-print_hunks : (hs : List HunkSource) → length hs ≤ length (print_hunks hs)
length-print_hunks [] = omega arith
length-print_hunks (h ∷ hs) = omega (
  arith,
  length-print_hunks hs,
  length-append (print_hunk h) (print_hunks hs),
  ap (λ (l : List Text). length l) (print_hunk-parts h),
)

-- Every patch of the grammar with one file operation at least is accepted, and read as what it
-- stands for; the rounds given to the loops are enough.
pub parse_lines-print :
    (hs : List HunkSource)
    → AreHunks hs
    → hs ≢ []
    → parse_lines (print_hunks hs) ≡ ok (map hunk_of hs)
unfolding parse_lines is_nil
parse_lines-print [] w n = absurd (n refl)
parse_lines-print (h ∷ hs) w n = rw (
    hunks_loop-print (suc (length (print_hunks (h ∷ hs)))) (h ∷ hs) w
      (omega (arith, length-print_hunks (h ∷ hs))))
