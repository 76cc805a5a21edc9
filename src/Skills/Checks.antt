-- ===== src/Skills/Checks.antt =====
-- The theorems on src/skills at concrete inputs.
use mcp_dev_runtime.Base.{
  ℕ, ◌+◌, ◌-◌, ◌*◌, ◌==◌, ◌≡◌, ◌≢◌, refl, true, false, none, some, [], ◌∷◌, map, length, take,
  if◌then◌else◌, codes, Bytes, whole, arith,
}
use mcp_dev_runtime.Base.Text.{equal, split}
use mcp_dev_runtime.Runtime.Errors.{ok}
use mcp_dev_runtime.Runtime.PatchEngine.Actions.{
  done, failed, system, another, returns, go_on, ◌>>=◌,
}
use mcp_dev_runtime.Runtime.PatchEngine.Reading.{Keeps, returns-Keeps}
use mcp_dev_runtime.Runtime.PatchEngine.Yielding.{Yields}
use mcp_dev_runtime.Skills.Files.{Host, Disk, Stats, has_code}
use mcp_dev_runtime.Skills.Metadata.{Metadata, Reader, draft_of}
use mcp_dev_runtime.Skills.Sidecar.{
  Yaml, boolean, object, ended, entry, lookup, or_restricted, read_sidecar, read_policy,
  read_interface, read_dependencies, fields_of, is_bad_policy, is_restricted, allows, changes,
}
use mcp_dev_runtime.Skills.Metadata.Permission.{IsOpen, draft_of-IsOpen}
use mcp_dev_runtime.Skills.Metadata.{load_metadata}
use mcp_dev_runtime.Skills.Metadata.Loading.{IsLoaded, load_metadata-IsLoaded}
use mcp_dev_runtime.Skills.Service.Reading.{SkillChunk, ReadArgs, read_skill}
use mcp_dev_runtime.Skills.Service.Reading.Responses.{IsAnswer, read_skill-IsAnswer}
use mcp_dev_runtime.Skills.Scan.{Scanner, Walker, Child, walk, first_walk}
use mcp_dev_runtime.Skills.Scopes.{RootEntry, user}
use mcp_dev_runtime.Skills.Scan.Walking.{IsWalked, walk-IsWalked}
use mcp_dev_runtime.Skills.Service.{
  Cursor, Codec, Entry, World, read, encode, decode, decode_split, decode_parts, checked_cursor,
  is_accepted, is_kind, is_offset, request,
}
use mcp_dev_runtime.Skills.Service.Requests.{running, request-Keeps}
use mcp_dev_runtime.Skills.Service.Cursors.{IsCodec, IsAuthentic, decode-encode, decode-IsAuthentic}
use mcp_dev_runtime.Skills.Service.Catalogs.{Setting, build_catalog}
use mcp_dev_runtime.Skills.Service.Catalogs.Gathering.{IsBounded, build_catalog-IsBounded}
use mcp_dev_runtime.Skills.Service.Reading.{chunk_end}
use mcp_dev_runtime.Skills.Service.Reading.Chunks.{IsCut, chunk_end-IsCut}
use mcp_dev_runtime.Skills.Service.Discovery.{fill_page, row_of}
use mcp_dev_runtime.Skills.Service.Discovery.Pages.{IsPage, fill_page-IsPage}

-- Paths of one part, and texts of ASCII characters.
abbrev host : Host
host = record {
  windows = false;
  has_drive = λ t. false;
  is_absolute = λ t. true;
  join = λ s t. t;
  relative = λ s t. t;
  dirname = λ t. t;
  separator = 47;
  print = λ n. n ∷ [];
  encode = λ t. t;
  decode = λ bytes stream. some bytes;
}

abbrev policy : Yaml
policy = object (entry (codes "allow_implicit_invocation") (boolean true) ended)

abbrev reader : Reader
reader = record {
  parse = λ t. some (object (entry (codes "policy") policy ended));
  hash = λ t. t;
  basename = λ t. t;
}

draft_of-IsOpen_example : IsOpen reader (done (some (codes "policy:")))
unfolding draft_of or_restricted read_sidecar fields_of read_policy lookup equal is_bad_policy
    is_restricted allows changes read_interface read_dependencies returns go_on ◌>>=◌
draft_of-IsOpen_example = draft_of-IsOpen host reader none (done (some (codes "policy:"))) refl

abbrev plain : Stats
plain = record {
  dev = [];
  ino = [];
  size = 5;
  mtime = [];
  ctime = [];
  is_file = true;
  is_directory = false;
  is_symbolic_link = false;
}

abbrev disk : {S : Type 0} → Disk S
disk = record {
  realpath = λ t s. (s, done t);
  lstat = λ t s. (s, done plain);
  stat = λ t s. (s, done plain);
  open_file = λ t s. (s, done 3);
  fstat = λ h s. (s, done plain);
  read = λ h n at s. (s, done (take n (codes "---")));
  close = λ h s. (s, done tt);
}

abbrev skill_file : Child
skill_file = record { name = codes "SKILL.md"; directory = false; link = false }

load_metadata-IsLoaded_example :
    Yields {S = ℕ}
      (IsLoaded host)
      (load_metadata host reader disk (codes "/s/SKILL.md") (codes "/s"))
load_metadata-IsLoaded_example =
    load_metadata-IsLoaded host reader disk (codes "/s/SKILL.md") (codes "/s")

-- The state is the number of items that were given.
abbrev walker : Walker ℕ
walker = record {
  opendir = λ t s. (s, done 4);
  next = λ h s. (s + 1, done (if s == 0 then some skill_file else none));
  now = λ s. (s, done 0);
  yield_loop = λ s. (s, done tt);
}

abbrev scan : Scanner ℕ
scan = record {
  host = host;
  reader = reader;
  disk = disk;
  walker = walker;
  check = λ s. (s, done tt);
  disabled = [];
}

walk-IsWalked_example : Yields IsWalked (walk scan 2049 (codes "/") 5000 0 (first_walk (codes "/")))
walk-IsWalked_example =
    walk-IsWalked scan 2049 (codes "/") 5000 0 (first_walk (codes "/")) (omega arith) (omega arith)

request-Keeps_example :
    Keeps {S = World ℕ} running {A = ℕ} (request (λ w. w.elsewhere) (λ checks. returns 5))
request-Keeps_example =
    request-Keeps (λ w. w.elsewhere) (λ checks. returns 5) (λ checks k. returns-Keeps running 5)

abbrev cursor : Cursor
cursor = record {
  kind = read;
  scope = codes "scope";
  revision = codes "r";
  offset = whole 7;
  query = none;
  key = some (codes "key");
}

-- Bytes are moved behind the code of the dot.
abbrev codec : Codec
codec = record {
  to_base64 = map (λ n. n + 47);
  from_base64 = map (λ n. n - 47);
  stringify = λ c. 1 ∷ [];
  parse = λ b. some cursor;
  hmac = λ t. 2 ∷ t;
}

codec_inverse : (b : Bytes) → map (λ n. n - 47) (map (λ n. n + 47) b) ≡ b
codec_inverse [] = refl
codec_inverse (n ∷ b) = ground (arith, codec_inverse b)

codec_dotless : (b : Bytes) → has_code (λ c. c == 46) (map (λ n. n + 47) b) ≡ false
unfolding has_code
codec_dotless [] = refl
codec_dotless (n ∷ b) = ground (arith, codec_dotless b)

codec_filled : (b : Bytes) → b ≢ [] → map (λ n. n + 47) b ≢ []
codec_filled [] h = λ e. h refl
codec_filled (n ∷ b) h = λ e. ground (arith, e)

codec-IsCodec : IsCodec codec cursor
codec-IsCodec = record {
  inverse = codec_inverse;
  dotless = codec_dotless;
  filled = codec_filled;
  printed = λ e. ground (arith, e);
  parsed = refl;
  digested = λ t e. ground (arith, e);
}

decode-encode_example : decode codec (encode codec cursor) read (codes "scope") ≡ ok cursor
unfolding is_accepted is_kind is_offset equal
decode-encode_example = decode-encode codec read (codes "scope") cursor codec-IsCodec refl

decode-IsAuthentic_example : IsAuthentic codec (48 ∷ 46 ∷ 49 ∷ 95 ∷ []) read (codes "scope") cursor
unfolding decode decode_split decode_parts checked_cursor split equal is_accepted is_kind is_offset
decode-IsAuthentic_example =
    decode-IsAuthentic codec (48 ∷ 46 ∷ 49 ∷ 95 ∷ []) read (codes "scope") cursor refl

abbrev metadata : Metadata
metadata = record {
  name = codes "a";
  description = codes "b";
  short_description = none;
  compatibility = none;
  implicit_allowed = true;
  dependencies = [];
  warnings = [];
  metadata_revision = [];
}

abbrev skill : RootEntry
skill = record {
  metadata = metadata;
  id = codes "skill:1";
  file = codes "f";
  skill_root = codes "s";
  relative = codes "f";
  stamp = [];
}

abbrev setting : Setting ℕ
setting = record {
  host = host;
  reader = reader;
  disk = disk;
  walker = record {
    opendir = λ t w. (w, done 4);
    next = λ h w. (w, done none);
    now = λ w. (w, done 0);
    yield_loop = λ w. (w, done tt);
  };
  now = λ w. w.elsewhere;
  join_scan = λ id w.
      (w, done (record { canonical = []; entries = skill ∷ []; complete = true; warnings = [] }));
  join_catalog = λ id w. (w, failed (system another));
  key_of = λ t. "key";
  home = codes "/home";
  codex_home = none;
  extra_roots = [];
  disabled_paths = [];
  entry_size = λ e. 100;
  snapshot_size = λ s. 100;
  paths_text = λ ps. [];
  catalog_text = λ roots complete parts. [];
}

build_catalog-IsBounded_example :
    Yields
      (λ catalog. IsBounded setting.entry_size catalog.entries)
      (build_catalog setting (λ w. (w, done tt)) false (codes "/w"))
build_catalog-IsBounded_example =
    build_catalog-IsBounded setting (λ w. (w, done tt)) false (codes "/w")

abbrev read_args : ReadArgs
read_args = record {
  workdir = codes "/w";
  skill = codes "a";
  resource = codes "SKILL.md";
  cursor = none;
  explicit = true;
}

abbrev chunk_size : SkillChunk → ℕ
chunk_size chunk = length chunk.contents + 500

read_skill-IsAnswer_example :
    Yields (IsAnswer chunk_size) (read_skill setting codec chunk_size (some read_args))
read_skill-IsAnswer_example = read_skill-IsAnswer setting codec chunk_size (some read_args)

-- A response is as long as its part, and 24573 bytes.
abbrev size : ℕ → ℕ → ℕ
size start end = end - start + 24573

chunk_end-IsCut_example : IsCut size (codes "abcde") 1 (chunk_end size (codes "abcde") 1)
chunk_end-IsCut_example = chunk_end-IsCut size (codes "abcde") 1 (omega arith)

abbrev found : Entry
found = record { found = skill; source_root = codes "r"; canonical_root = codes "r"; scope = user }

fill_page-IsPage_example :
    IsPage
      (row_of host)
      (λ rows end. length rows * 3000)
      5
      (found ∷ found ∷ [])
      0
      []
      (fill_page (row_of host) (λ rows end. length rows * 3000) 5 (found ∷ found ∷ []) 0 [])
fill_page-IsPage_example =
    fill_page-IsPage (row_of host) (λ rows end. length rows * 3000) 5 (found ∷ found ∷ []) 0 []
