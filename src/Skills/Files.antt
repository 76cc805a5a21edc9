-- ===== src/Skills/Files.antt =====
-- src/skills/io.ts: the paths and the files of skills. What the disk answers is an action, so
-- anything may happen to the files between two of them.
use mcp_dev_runtime.Base.{
  ℕ, zero, suc, ◌+◌, ◌-◌, min, Bool, true, false, not, ◌&&◌, ◌||◌, Option, none, some, List, [],
  ◌∷◌, ◌++◌, ltb, leb, ◌==◌, if◌then◌else◌, length, take, Bytes,
}
use mcp_dev_runtime.Base.Text.{Text, equal, starts_with, split}
use mcp_dev_runtime.Runtime.Errors.{
  Result, ok, err, invalid_workdir, invalid_skill_path, resource_outside_skill, invalid_skill_file,
  skill_too_large, skill_changed, invalid_skill_text, invalid_resource,
}
use mcp_dev_runtime.Runtime.PatchEngine.Actions.{
  Outcome, done, failed, Io, returns, throws, ◌>>=◌, ◌>>◌, attempt, settle, refuse_if, tool,
  another, system,
}

-- What `stat` tells of a file; the parts of the fingerprint but the size are the texts they print as.
pub record Stats : Type 0 where
  pub dev : Text
  pub ino : Text
  pub size : ℕ
  pub mtime : Text
  pub ctime : Text
  pub is_file : Bool
  pub is_directory : Bool
  pub is_symbolic_link : Bool

-- The functions of the host on paths and texts.
pub record Host : Type 0 where
  pub windows : Bool
  pub has_drive : Text → Bool
  pub is_absolute : Text → Bool
  pub join : Text → Text → Text
  pub relative : Text → Text → Text
  pub dirname : Text → Text
  pub separator : ℕ
  pub print : ℕ → Text
  pub encode : Text → Bytes
  pub decode : Bytes → Bool → Option Text

-- The calls of the file system; `read` reads from an open file at most a length at a position.
pub record Disk (S : Type 0) : Type 0 where
  pub realpath : Text → Io S Text
  pub lstat : Text → Io S Stats
  pub stat : Text → Io S Stats
  pub open_file : Text → Io S ℕ
  pub fstat : ℕ → Io S Stats
  pub read : ℕ → ℕ → ℕ → Io S Bytes
  pub close : ℕ → Io S (Unit {0})

unfoldable pub has_code : (ℕ → Bool) → Text → Bool
has_code test [] = false
has_code test (c ∷ t) = test c || has_code test t

-- `inside`, on the relative path
unfoldable pub inside : Host → Text → Text → Bool
inside host root candidate =
    let rel = host.relative root candidate in
    equal rel []
    || (not (equal rel (46 ∷ 46 ∷ []))
        && not (starts_with (46 ∷ 46 ∷ host.separator ∷ []) rel)
        && not (host.is_absolute rel))

-- `validPath`: at most 4096 code units, none of them 0 or an end of a line
unfoldable pub valid_path : Text → Bool
valid_path value =
    leb (length value) 4096 && not (has_code (λ c. c == 0 || c == 13 || c == 10) value)

unfoldable pub fingerprint : Host → Stats → Text
fingerprint host s =
    s.dev ++ (58 ∷ s.ino) ++ (58 ∷ host.print s.size) ++ (58 ∷ s.mtime) ++ (58 ∷ s.ctime)

-- A part of the path of a resource that is empty or starts with a dot.
unfoldable pub is_hidden : Text → Bool
is_hidden [] = true
is_hidden (c ∷ t) = c == 46

unfoldable pub some_hidden : List Text → Bool
some_hidden [] = false
some_hidden (part ∷ parts) = is_hidden part || some_hidden parts

unfoldable pub resource_path : Host → Text → Text → Result Text
resource_path host root resource =
    if equal resource []
      || not (valid_path resource)
      || host.is_absolute resource
      || has_code (λ c. c == 92) resource
      || has_code (λ c. c == 58) resource
      || some_hidden (split 47 resource)
    then err invalid_resource
    else ok (host.join root resource)

pub record Identity : Type 0 where
  pub file : Text
  pub stamp : Text
  pub size : ℕ

pub record Contents : Type 0 where
  pub text : Text
  pub partial : Bool
  pub file : Text
  pub stamp : Text

-- `/[\x00-\x08\x0b\x0c\x0e-\x1f]/`
unfoldable pub is_control : ℕ → Bool
is_control c = leb c 8 || c == 11 || c == 12 || (leb 14 c && leb c 31)

module _ {S : Type 0} (host : Host) (disk : Disk S) where
  abbrev directory_or : Outcome Text → Io S Text
  directory_or (done resolved) = returns resolved
  directory_or (failed e) = throws (tool invalid_workdir)

  unfoldable pub canonical_directory : Text → Io S Text
  canonical_directory value = do
    refuse_if (host.windows && not (host.has_drive value)) invalid_workdir
    refuse_if (not (host.is_absolute value) || not (valid_path value)) invalid_workdir
    found ← attempt (do
      resolved ← disk.realpath value
      s ← disk.stat resolved
      if s.is_directory then returns resolved else throws (system another))
    directory_or found

  -- `root && !inside(root, resolved)`
  unfoldable pub leaves : Option Text → Text → Bool
  leaves none resolved = false
  leaves (some root) resolved = not (equal root []) && not (inside host root resolved)

  unfoldable pub file_identity : Text → Option Text → Io S Identity
  file_identity file root = do
    refuse_if (not (valid_path file)) invalid_skill_path
    resolved ← disk.realpath file
    refuse_if (leaves root resolved) resource_outside_skill
    s ← disk.lstat resolved
    refuse_if (not s.is_file) invalid_skill_file
    returns (record { file = resolved; stamp = fingerprint host s; size = s.size })

  -- `stamp is the same && await realpath(file) === identity.file`
  unfoldable pub resolves_to : Bool → Text → Text → Io S Bool
  resolves_to false file expected = returns false
  resolves_to true file expected = do
    resolved ← disk.realpath file
    returns (equal resolved expected)

  -- The loop that fills `data`; a round reads at least a byte.
  unfoldable pub fill : ℕ → ℕ → ℕ → Bytes → Io S Bytes
  fill zero handle capacity bytes = returns bytes
  fill (suc rounds) handle capacity bytes = elim (ltb (length bytes) capacity) [
    | false ↦ returns bytes
    | true ↦ do
      part ← disk.read handle (capacity - length bytes) (length bytes)
      elim part [ [] ↦ returns bytes | b ∷ bs ↦ fill rounds handle capacity (bytes ++ (b ∷ bs)) ]
  ]

  unfoldable pub text_or : Option Text → Io S Text
  text_or none = throws (tool invalid_skill_text)
  text_or (some text) = returns text

  unfoldable pub read_open : Text → ℕ → Bool → Identity → ℕ → Io S Contents
  read_open file maximum prefix_only identity handle = do
    before ← disk.fstat handle
    refuse_if (not before.is_file || not (equal (fingerprint host before) identity.stamp))
        skill_changed
    bytes ← fill (min before.size maximum + 1) handle (min before.size maximum + 1) []
    after ← disk.fstat handle
    same ← resolves_to (equal (fingerprint host after) identity.stamp) file identity.file
    refuse_if (not same) skill_changed
    refuse_if (ltb maximum (length bytes) && not prefix_only) skill_too_large
    text ←
        text_or (host.decode (take (min (length bytes) maximum) bytes) (ltb maximum (length bytes)))
    refuse_if (has_code is_control text) invalid_skill_text
    returns (record {
      text = text;
      partial = ltb maximum (length bytes);
      file = identity.file;
      stamp = identity.stamp;
    })

  unfoldable pub read_text : Text → ℕ → Option Text → Bool → Io S Contents
  read_text file maximum root prefix_only = do
    identity ← file_identity file root
    refuse_if (not prefix_only && ltb maximum identity.size) skill_too_large
    handle ← disk.open_file identity.file
    outcome ← attempt (read_open file maximum prefix_only identity handle)
    disk.close handle
    settle outcome
