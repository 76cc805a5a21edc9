-- ===== src/Runtime/PatchParser/Grammar.antt =====
-- parsePatch of src/runtime/patch-parser.ts. The lines between the envelope are consumed from the
-- front: `i < lines.length - 1` says that one is left.
use mcp_dev_runtime.Base.{
  ℕ, zero, suc, Bool, true, false, not, ◌&&◌, ◌||◌, Option, none, some, List, [], ◌∷◌, ◌++◌, ◌==◌,
  if◌then◌else◌, length, codes,
}
use mcp_dev_runtime.Base.Text.{Text, equal, starts_with, strip, trim, split, unix_lines}
use mcp_dev_runtime.Runtime.Errors.{Result, ok, err, invalid_patch, internal, ◌>>=◌}

pub record PatchLine : Type 0 where
  pub text : Text
  pub old_index : Option ℕ

pub record Chunk : Type 0 where
  pub context : Option Text
  pub old : List Text
  pub replacement : List PatchLine
  pub eof : Bool

pub data Operation : Type 0 where
  add delete update : Operation

pub record Hunk : Type 0 where
  pub operation : Operation
  pub path : Text
  pub move : Option Text
  pub text : Option Text
  pub chunks : List Chunk

abbrev pub add_file : Text
add_file = codes "*** Add File: "

abbrev pub delete_file : Text
delete_file = codes "*** Delete File: "

abbrev pub update_file : Text
update_file = codes "*** Update File: "

abbrev pub end_patch : Text
end_patch = codes "*** End Patch"

abbrev pub move_to : Text
move_to = codes "*** Move to: "

abbrev pub end_of_file : Text
end_of_file = codes "*** End of File"

abbrev pub at_sign : Text
at_sign = codes "@@"

abbrev pub at_context : Text
at_context = codes "@@ "

-- /^\*\*\* (?:Add File: |Delete File: |Update File: |End Patch$)/
unfoldable pub header : Text → Bool
header line =
    starts_with add_file line
    || starts_with delete_file line
    || starts_with update_file line
    || equal line end_patch

-- What `.` does not match.
unfoldable pub is_terminator : ℕ → Bool
is_terminator c = c == 10 || c == 13 || c == 0x2028 || c == 0x2029

unfoldable pub all_plain : Text → Bool
all_plain [] = true
all_plain (c ∷ t) = not (is_terminator c) && not (c == 0) && all_plain t

-- A path is one character at least, with no line terminator (`.+`) and no NUL.
unfoldable pub is_path : Text → Bool
is_path s = not (equal s []) && all_plain s

-- /^\*\*\* (Add|Delete|Update) File: (.+)$/
unfoldable pub operation_of : Text → Option (Operation × Text)
operation_of line = elim (strip add_file line) [
  | some path ↦ some (add, path)
  | none ↦ elim (strip delete_file line) [
    | some path ↦ some (delete, path)
    | none ↦ elim (strip update_file line) [ some path ↦ some (update, path) | none ↦ none ]
  ]
]

-- The loop over the lines of an added file.
unfoldable pub added_lines : List Text → Result (List Text × List Text)
added_lines [] = ok ([], [])
added_lines (line ∷ rest) =
    let more = added_lines rest in
    if header line then ok ([], line ∷ rest) else elim (strip (codes "+") line) [
      | none ↦ err invalid_patch
      | some text ↦ (do (added, left) ← more; ok (text ∷ added, left))
    ]

-- A line of a chunk: kept, removed or added, by its first character.
unfoldable pub push_line : Chunk → Text → Option Chunk
push_line chunk [] = none
push_line chunk (prefix ∷ text) =
    if prefix == 32
    then some (record chunk {
      replacement =
          chunk.replacement ++ (record { text = text; old_index = some (length chunk.old) } ∷ []);
      old = chunk.old ++ (text ∷ []);
    })
    else if prefix == 45
    then some (record chunk { old = chunk.old ++ (text ∷ []) })
    else if prefix == 43
    then some (record chunk {
      replacement = chunk.replacement ++ (record { text = text; old_index = none } ∷ []);
    })
    else none

-- Where the lines of a chunk stop: `header(line)`, `@@` or `@@ …`.
unfoldable pub stops_chunk : Text → Bool
stops_chunk line = header line || equal line at_sign || starts_with at_context line

-- The loop over the lines of a chunk.
unfoldable pub chunk_lines : Chunk → List Text → Result (Chunk × List Text)
chunk_lines chunk [] = ok (chunk, [])
chunk_lines chunk (line ∷ rest) =
    if stops_chunk line
    then ok (chunk, line ∷ rest)
    else if equal line end_of_file
    then ok (record chunk { eof = true }, rest)
    else elim (push_line chunk line) [
      | none ↦ err invalid_patch
      | some chunk' ↦ chunk_lines chunk' rest
    ]

-- The line that opens a chunk; only the first chunk of a file may do without.
unfoldable pub open_chunk : Bool → List Text → Result (Option Text × List Text)
open_chunk first [] = ok (none, [])
open_chunk first (line ∷ rest) =
    if equal line at_sign then ok (none, rest) else elim (strip at_context line) [
      | some context ↦ ok (some context, rest)
      | none ↦ if first then ok (none, line ∷ rest) else err invalid_patch
    ]

unfoldable pub is_nil {ℓ} : {A : Type ℓ} → List A → Bool
is_nil [] = true
is_nil (x ∷ xs) = false

-- `i < lines.length - 1 && !header(lines[i]!)`
unfoldable pub more_lines : List Text → Bool
more_lines [] = false
more_lines (line ∷ rest) = not (header line)

-- What a finished chunk must satisfy.
unfoldable pub close_chunk : Chunk → List Text → Result (Chunk × List Text)
close_chunk chunk left =
    if is_nil chunk.old && is_nil chunk.replacement
    then err invalid_patch
    else if chunk.eof && more_lines left
    then err invalid_patch
    else ok (chunk, left)

abbrev pub empty_chunk : Option Text → Chunk
empty_chunk context = record { context = context; old = []; replacement = []; eof = false }

unfoldable pub one_chunk : Bool → List Text → Result (Chunk × List Text)
one_chunk first lines = do
  (context, body) ← open_chunk first lines
  (chunk, left) ← chunk_lines (empty_chunk context) body
  close_chunk chunk left

-- The loop over the chunks of a file. A chunk takes a line at least, so as many rounds as lines,
-- and one more, are enough.
unfoldable pub update_chunks : ℕ → Bool → List Text → Result (List Chunk × List Text)
update_chunks zero first lines = err internal
update_chunks (suc rounds) first lines =
    let more = (do
      (chunk, left) ← one_chunk first lines
      (chunks, rest) ← update_chunks rounds false left
      ok (chunk ∷ chunks, rest)) in
    if more_lines lines then more else ok ([], lines)

unfoldable pub move_target : List Text → Result (Option Text × List Text)
move_target [] = ok (none, [])
move_target (line ∷ rest) = elim (strip move_to line) [
  | none ↦ ok (none, line ∷ rest)
  | some target ↦ if equal target [] then err invalid_patch else ok (some target, rest)
]

abbrev pub is_none {ℓ} : {A : Type ℓ} → Option A → Bool
is_none none = true
is_none (some a) = false

-- added.length ? added.join('\n') + '\n' : ''
unfoldable pub unlines : List Text → Text
unlines [] = []
unlines (line ∷ rest) = line ++ (10 ∷ unlines rest)

-- The lines behind the line that names the operation.
unfoldable pub hunk_body : Operation → Text → List Text → Result (Hunk × List Text)
hunk_body add path lines = do
  (added, left) ← added_lines lines
  ok (
    record { operation = add; path = path; move = none; text = some (unlines added); chunks = [] },
    left,
  )
hunk_body delete path lines =
    ok (record { operation = delete; path = path; move = none; text = none; chunks = [] }, lines)
hunk_body update path lines = do
  (move, body) ← move_target lines
  (chunks, left) ← update_chunks (suc (length body)) true body
  if is_nil chunks && is_none move
      then err invalid_patch
      else ok (
        record { operation = update; path = path; move = move; text = none; chunks = chunks },
        left,
      )

-- One round of the loop over the file operations.
unfoldable pub one_hunk : Text → List Text → Result (Hunk × List Text)
one_hunk line rest = elim (operation_of line) [
  | none ↦ err invalid_patch
  | some (operation, path) ↦
      if is_path path then hunk_body operation path rest else err invalid_patch
]

-- The loop over the file operations; each takes the line that names it.
unfoldable pub hunks_loop : ℕ → List Text → Result (List Hunk)
hunks_loop zero lines = err internal
hunks_loop (suc rounds) [] = ok []
hunks_loop (suc rounds) (line ∷ rest) = do
  (hunk, left) ← one_hunk line rest
  hunks ← hunks_loop rounds left
  ok (hunk ∷ hunks)

-- The lines between `*** Begin Patch` and `*** End Patch`.
unfoldable pub split_last : Text → List Text → List Text × Text
split_last line [] = ([], line)
split_last line (next ∷ rest) = let (body, last) = split_last next rest in (line ∷ body, last)

unfoldable pub envelope : List Text → Result (List Text)
envelope [] = err invalid_patch
envelope (first ∷ []) = err invalid_patch
envelope (first ∷ line ∷ rest) =
    let (body, last) = split_last line rest in
    if equal first (codes "*** Begin Patch") && equal last end_patch
    then ok body
    else err invalid_patch

unfoldable pub parse_lines : List Text → Result (List Hunk)
parse_lines body = do
  hunks ← hunks_loop (suc (length body)) body
  if is_nil hunks then err invalid_patch else ok hunks

unfoldable pub parse_patch : Text → Result (List Hunk)
parse_patch patch = do body ← envelope (split 10 (unix_lines (trim patch))); parse_lines body
