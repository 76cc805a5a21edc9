-- ===== src/Runtime/PatchEngine.antt =====
-- PatchEngine of src/runtime/patch-engine.ts: how a patch is prepared, checked and applied. The calls of
-- node:fs are a record of actions on the state of the world, in which anything may have changed between
-- two of them; paths, hashes and encodings are functions of the host. The host is not Windows.
pub mod Actions
pub mod Committing
pub mod Reading
pub mod Untouched
pub mod Yielding
pub mod Preparing
pub mod Writing
pub mod Reports
mod Checks
use Prim.Native.Nat.{bit_and}
use mcp_dev_runtime.Base.{
  ℕ, zero, suc, ◌+◌, Bool, true, false, not, ◌&&◌, ◌||◌, Option, none, some, List, [], ◌∷◌, ◌++◌,
  ltb, leb, ◌==◌, if◌then◌else◌, length, String, Bytes, get_or,
}
use mcp_dev_runtime.Base.Text.{Text, equal}
use mcp_dev_runtime.Config.{Paths, expand_path}
use mcp_dev_runtime.Runtime.Errors.{
  ToolError, not_a_file, file_too_large, target_exists, file_changed, patch_too_large,
  invalid_workdir, duplicate_path, not_text,
}
use mcp_dev_runtime.Runtime.PatchParser.Grammar.{
  Operation, add, delete, update, Hunk, Chunk, parse_patch,
}
use mcp_dev_runtime.Runtime.PatchParser.Update.{update_text}
use Actions.{
  Failure, tool, system, enoent, eexist, missing, Outcome, done, failed, Io, returns, throws, ◌>>=◌,
  ◌>>◌, attempt, settle, refuse_if, from_result,
}

-- What lstat and stat tell; `identity` is the device, inode, mode, size and times.
pub record Stat : Type 0 where
  pub is_file : Bool
  pub is_directory : Bool
  pub is_symbolic_link : Bool
  pub size : ℕ
  pub mode : ℕ
  pub identity : List ℕ

pub record Fs (S : Type 0) : Type 0 where
  pub lstat : Text → Io S Stat
  pub stat : Text → Io S Stat
  pub readlink : Text → Io S Text
  pub realpath : Text → Io S Text
  pub read_file : Text → Io S Bytes
  pub mkdir : Text → Io S (Unit {0})
  pub unlink : Text → Io S (Unit {0})
  pub link : Text → Text → Io S (Unit {0})
  pub rename : Text → Text → Io S (Unit {0})
  pub open_new : Text → ℕ → Io S (Unit {0})
  pub write_file : Text → Bytes → Io S (Unit {0})
  pub chmod : Text → ℕ → Io S (Unit {0})
  pub close : Text → Io S (Unit {0})

-- What `signature` is made of.
pub record Identity : Type 0 where
  pub link : Option Text
  pub actual : Text
  pub l : List ℕ
  pub s : List ℕ
  pub hash : Option String

-- The functions of the host: `temporary` is the path of a new
-- temporary file beside a file, `decode` reads UTF-8 bytes, if they are.
pub record Host : Type 0 where
  pub paths : Paths
  pub dirname : Text → Text
  pub rejoin : Text → Text → Text
  pub temporary : Text → Text
  pub stringify : Identity → Text
  pub hash : Bytes → String
  pub decode : Bytes → Option Text
  pub encode : Text → Bytes

pub record Limits : Type 0 where
  pub max_patch_bytes : ℕ
  pub max_files : ℕ
  pub max_file_bytes : ℕ
  pub max_total_file_bytes : ℕ

pub record Snapshot : Type 0 where
  pub path : Text
  pub actual : Text
  pub signature : Text
  pub content : Option Bytes
  pub mode : ℕ

pub record Prepared : Type 0 where
  pub hunk : Hunk
  pub source : Text
  pub target : Text
  pub snapshot : Option Snapshot
  pub new_data : Option Bytes
  pub canonical_target : Text

unfoldable pub is_add : Operation → Bool
is_add add = true
is_add _ = false

unfoldable pub is_update : Operation → Bool
is_update update = true
is_update _ = false

abbrev is_given : Option Text → Bool
is_given none = false
is_given (some t) = true

-- `touched.has(key)`
unfoldable pub has_path : Text → List Text → Bool
has_path key [] = false
has_path key (t ∷ touched) = equal key t || has_path key touched

unfoldable pub has_any : List Text → List Text → Bool
has_any [] touched = false
has_any (key ∷ keys) touched = has_path key touched || has_any keys touched

unfoldable pub bytes_of : Option Bytes → ℕ
bytes_of none = 0
bytes_of (some bytes) = length bytes

unfoldable pub content_of : Option Snapshot → Option Bytes
content_of none = none
content_of (some s) = s.content

-- bytes.includes(0)
unfoldable pub has_zero : Bytes → Bool
has_zero [] = false
has_zero (b ∷ bs) = b == 0 || has_zero bs

-- `isUtf8(bytes) && !bytes.includes(0)`, and the text
unfoldable pub text_of : Option Text → Bytes → Option Text
text_of none bytes = none
text_of (some text) bytes = if has_zero bytes then none else some text

-- `hunk.operation === 'add' || hunk.move`
unfoldable pub is_new : Hunk → Bool
is_new hunk = is_add hunk.operation || is_given hunk.move

-- `hunk.operation === 'delete' ? source : snapshot?.actual ?? canonicalTarget`
unfoldable pub actual_key : Operation → Text → Option Snapshot → Text → Text
actual_key delete source snapshot canonical_target = source
actual_key _ source none canonical_target = canonical_target
actual_key _ source (some s) canonical_target = s.actual

unfoldable pub keys_of : Prepared → List Text
keys_of p =
    p.source
    ∷ actual_key p.hunk.operation p.source p.snapshot p.canonical_target
    ∷ p.target
    ∷ p.canonical_target
    ∷ []

module _ {S : Type 0} (host : Host) (limits : Limits) (fs : Fs S) where
  unfoldable pub link_of : Text → Bool → Io S (Option Text)
  link_of filename false = returns none
  link_of filename true = do to ← fs.readlink filename; returns (some to)

  -- The content, its path and what `stat` tells of it, if it is wanted.
  unfoldable pub content_at : Text → Stat → Bool → Io S (Text × Stat × Option Bytes)
  content_at filename l false = returns (filename, l, none)
  content_at filename l true = do
    actual ← fs.realpath filename
    s ← fs.stat actual
    refuse_if (not s.is_file) not_a_file
    refuse_if (ltb limits.max_file_bytes s.size) file_too_large
    content ← fs.read_file actual
    refuse_if (ltb limits.max_file_bytes (length content)) file_too_large
    returns (actual, s, some content)

  abbrev hash_of : Option Bytes → Option String
  hash_of none = none
  hash_of (some bytes) = some (host.hash bytes)

  unfoldable pub take_snapshot : Text → Bool → Io S Snapshot
  take_snapshot filename read_content = do
    l ← fs.lstat filename
    refuse_if (not l.is_file && not l.is_symbolic_link) not_a_file
    link ← link_of filename l.is_symbolic_link
    (actual, s, content) ← content_at filename l read_content
    returns (record {
      path = filename;
      actual = actual;
      signature = host.stringify (record {
        link = link;
        actual = actual;
        l = l.identity;
        s = s.identity;
        hash = hash_of content;
      });
      content = content;
      mode = bit_and s.mode 4095;
    })

  unfoldable pub is_missing : Outcome Stat → Io S (Unit {0})
  is_missing (done s) = throws (tool target_exists)
  is_missing (failed e) = if missing e then returns tt else throws e

  unfoldable pub assert_missing : Text → Io S (Unit {0})
  assert_missing filename = do found ← attempt (fs.lstat filename); is_missing found

  unfoldable pub beside : Text → Io S Text → Outcome Text → Io S Text
  beside filename parent (done path) = returns path
  beside filename parent (failed e) =
      if not (missing e) || equal (host.dirname filename) filename
      then throws e
      else do dir ← parent; returns (host.rejoin dir filename)

  -- `canonical`, which goes on to the parent; a path has no more parents than `rounds`.
  unfoldable pub canonical : ℕ → Text → Io S Text
  canonical zero filename = fs.realpath filename
  canonical (suc rounds) filename = do
    found ← attempt (fs.realpath filename)
    beside filename (canonical rounds (host.dirname filename)) found

  unfoldable pub changed_from : Snapshot → Outcome Snapshot → Io S (Unit {0})
  changed_from before (failed e) = throws (tool file_changed)
  changed_from before (done now) =
      refuse_if (not (equal now.signature before.signature)) file_changed

  unfoldable pub verify_source : Prepared → Option Snapshot → Io S (Unit {0})
  verify_source p none = returns tt
  verify_source p (some before) = do
    now ← attempt (take_snapshot p.source (is_update p.hunk.operation))
    changed_from before now

  unfoldable pub verify_target : Prepared → Bool → Io S (Unit {0})
  verify_target p false = returns tt
  verify_target p true = do
    assert_missing p.target
    now ← canonical (length p.target) p.target
    refuse_if (not (equal now p.canonical_target)) file_changed

  unfoldable pub verify : Prepared → Io S (Unit {0})
  verify p = do verify_source p p.snapshot; verify_target p (is_new p.hunk)

  unfoldable pub verify_all : List Prepared → Io S (Unit {0})
  verify_all [] = returns tt
  verify_all (p ∷ ps) = do verify p; verify_all ps

  unfoldable pub target_of : Text → Text → Option Text → Io S Text
  target_of cwd source none = returns source
  target_of cwd source (some move) = from_result (expand_path host.paths move cwd)

  unfoldable pub snapshot_for : Operation → Text → Io S (Option Snapshot)
  snapshot_for add source = returns none
  snapshot_for delete source = do s ← take_snapshot source false; returns (some s)
  snapshot_for update source = do s ← take_snapshot source true; returns (some s)

  -- A text of the hunk is there for an add.
  unfoldable pub added : Option Text → Option Bytes
  added none = none
  added (some text) = some (host.encode text)

  unfoldable pub updated : List Chunk → Option Text → Io S (Option Bytes)
  updated chunks none = throws (tool not_text)
  updated chunks (some text) = do
    after ← from_result (update_text text chunks)
    returns (some (host.encode after))

  unfoldable pub content_text : Option Bytes → Option Text
  content_text none = none
  content_text (some bytes) = text_of (host.decode bytes) bytes

  unfoldable pub data_for : Hunk → Operation → Option Snapshot → Io S (Option Bytes)
  data_for hunk add snapshot = returns (added hunk.text)
  data_for hunk delete snapshot = returns none
  data_for hunk update snapshot = updated hunk.chunks (content_text (content_of snapshot))

  -- A round of the preparation: the operation, if its paths are new and it fits what is left.
  unfoldable pub prepare_one : Text → List Text → ℕ → Hunk → Io S (Prepared × ℕ)
  prepare_one cwd touched total hunk = do
    source ← from_result (expand_path host.paths hunk.path cwd)
    target ← target_of cwd source hunk.move
    snapshot ← snapshot_for hunk.operation source
    if is_new hunk then assert_missing target else returns tt
    canonical_target ← canonical (length target) target
    let planned : Prepared = record {
      hunk = hunk;
      source = source;
      target = target;
      snapshot = snapshot;
      new_data = none;
      canonical_target = canonical_target;
    }
    refuse_if (has_any (keys_of planned) touched) duplicate_path
    new_data ← data_for hunk hunk.operation snapshot
    let sum = total + (bytes_of (content_of snapshot) + bytes_of new_data)
    refuse_if (ltb limits.max_total_file_bytes sum) patch_too_large
    returns (record planned { new_data = new_data }, sum)

  unfoldable pub prepare_loop : Text → List Text → ℕ → List Hunk → Io S (List Prepared)
  prepare_loop cwd touched total [] = returns []
  prepare_loop cwd touched total (hunk ∷ hunks) = do
    (p, sum) ← prepare_one cwd touched total hunk
    ps ← prepare_loop cwd (keys_of p ++ touched) sum hunks
    returns (p ∷ ps)

  -- The first half of `applyOnce`: nothing is written.
  unfoldable pub prepare : Text → Text → Io S (List Prepared)
  prepare patch cwd = do
    refuse_if (ltb limits.max_patch_bytes (length (host.encode patch))) patch_too_large
    s ← fs.stat cwd
    refuse_if (not s.is_directory) invalid_workdir
    hunks ← from_result (parse_patch patch)
    refuse_if (ltb limits.max_files (length hunks)) patch_too_large
    prepare_loop cwd [] 0 hunks
