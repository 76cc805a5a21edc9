-- ===== src/Runtime/PatchParser/Syntax.antt =====
-- The patches that src/runtime/patch-parser.ts accepts, as a grammar of its own: what a writer of
-- patches has in mind, the lines that stand for it, and what the program makes of it.
use mcp_dev_runtime.Base.{
  ℕ, suc, Bool, true, false, Option, none, some, List, [], ◌∷◌, ◌++◌, ◌≡◌, ◌≢◌, ◌⊎◌, map,
}
use mcp_dev_runtime.Base.Text.{Text}
use mcp_dev_runtime.Runtime.PatchParser.Grammar.{
  PatchLine, Chunk, add, delete, update, Hunk, add_file, delete_file, update_file, move_to,
  end_of_file, at_sign, at_context, is_path, unlines,
}

pub data BodyLine : Type 0 where
  keeps removes inserts : Text → BodyLine

abbrev pub print_line : BodyLine → Text
print_line (keeps t) = b' ' ∷ t
print_line (removes t) = b'-' ∷ t
print_line (inserts t) = b'+' ∷ t

-- How a chunk is opened: by no line at all, by `@@`, or by `@@ ` and a line to look for.
pub data Marker : Type 0 where
  absent bare : Marker
  context : Text → Marker

abbrev pub print_marker : Marker → List Text
print_marker absent = []
print_marker bare = at_sign ∷ []
print_marker (context t) = (at_context ++ t) ∷ []

pub record ChunkSource : Type 0 where
  pub marker : Marker
  pub body : List BodyLine
  pub eof : Bool

abbrev pub print_eof : Bool → List Text
print_eof true = end_of_file ∷ []
print_eof false = []

abbrev pub print_chunk : ChunkSource → List Text
print_chunk c = print_marker c.marker ++ (map print_line c.body ++ print_eof c.eof)

abbrev pub print_chunks : List ChunkSource → List Text
print_chunks [] = []
print_chunks (c ∷ cs) = print_chunk c ++ print_chunks cs

-- The lines that a body expects in the file.
abbrev pub old_lines : List BodyLine → List Text
old_lines [] = []
old_lines (keeps t ∷ b) = t ∷ old_lines b
old_lines (removes t ∷ b) = t ∷ old_lines b
old_lines (inserts t ∷ b) = old_lines b

-- The lines that replace them; a kept line is numbered among the expected ones.
abbrev pub new_lines : ℕ → List BodyLine → List PatchLine
new_lines n [] = []
new_lines n (keeps t ∷ b) = record { text = t; old_index = some n } ∷ new_lines (suc n) b
new_lines n (removes t ∷ b) = new_lines (suc n) b
new_lines n (inserts t ∷ b) = record { text = t; old_index = none } ∷ new_lines n b

abbrev pub context_of : Marker → Option Text
context_of absent = none
context_of bare = none
context_of (context t) = some t

abbrev pub chunk_of : ChunkSource → Chunk
chunk_of c = record {
  context = context_of c.marker;
  old = old_lines c.body;
  replacement = new_lines 0 c.body;
  eof = c.eof;
}

pub data HunkSource : Type 0 where
  adds : Text → List Text → HunkSource
  deletes : Text → HunkSource
  updates : Text → Option Text → List ChunkSource → HunkSource

abbrev pub print_move : Option Text → List Text
print_move none = []
print_move (some target) = (move_to ++ target) ∷ []

abbrev pub print_hunk : HunkSource → List Text
print_hunk (adds path lines) = (add_file ++ path) ∷ map (λ t. b'+' ∷ t) lines
print_hunk (deletes path) = (delete_file ++ path) ∷ []
print_hunk (updates path move cs) = (update_file ++ path) ∷ (print_move move ++ print_chunks cs)

abbrev pub print_hunks : List HunkSource → List Text
print_hunks [] = []
print_hunks (h ∷ hs) = print_hunk h ++ print_hunks hs

abbrev pub hunk_of : HunkSource → Hunk
hunk_of (adds path lines) = record {
  operation = add;
  path = path;
  move = none;
  text = some (unlines lines);
  chunks = [];
}
hunk_of (deletes path) = record {
  operation = delete;
  path = path;
  move = none;
  text = none;
  chunks = [];
}
hunk_of (updates path move cs) = record {
  operation = update;
  path = path;
  move = move;
  text = none;
  chunks = map chunk_of cs;
}

-- Every chunk has a body, only the first one may have no marker, and only the last one the mark
-- of the end of the file.
abbrev pub Marked : Bool → Marker → Type 0
Marked true m = Unit {0}
Marked false m = m ≢ absent

abbrev pub AreChunks : Bool → List ChunkSource → Type 0
AreChunks first [] = Unit
AreChunks first (c ∷ cs) =
    Marked first c.marker × (c.body ≢ []) × ((c.eof ≡ false) ⊎ (cs ≡ [])) × AreChunks false cs

abbrev pub IsMove : Option Text → Type 0
IsMove none = Unit {0}
IsMove (some target) = target ≢ []

abbrev pub IsHunk : HunkSource → Type 0
IsHunk (adds path lines) = is_path path ≡ true
IsHunk (deletes path) = is_path path ≡ true
IsHunk (updates path move cs) =
    (is_path path ≡ true) × IsMove move × AreChunks true cs × ((cs ≢ []) ⊎ (move ≢ none))

abbrev pub AreHunks : List HunkSource → Type 0
AreHunks [] = Unit {0}
AreHunks (h ∷ hs) = IsHunk h × AreHunks hs
