-- ===== src/Runtime/PatchEngine/Checks.antt =====
-- Examples for the patch engine of src/runtime/patch-engine.ts, on files in one directory.
use mcp_dev_runtime.Base.{
  true, false, Option, none, some, List, [], ◌∷◌, ◌++◌, refl, length, if◌then◌else◌, codes, Bytes,
}
use mcp_dev_runtime.Base.Text.{Text, equal}
use mcp_dev_runtime.Runtime.PatchParser.Grammar.{add}
use mcp_dev_runtime.Runtime.PatchEngine.Actions.{
  Outcome, done, failed, system, enoent, eexist, another, Io,
}
use mcp_dev_runtime.Runtime.PatchEngine.{Stat, Fs, Host, Limits, Prepared, prepare}
use mcp_dev_runtime.Runtime.PatchEngine.Committing.{apply_once, commit_loop, report, no_progress}
use mcp_dev_runtime.Runtime.PatchEngine.Reading.{ReadsKeep}
use mcp_dev_runtime.Runtime.PatchEngine.Untouched.{IsUntouched, apply_once-IsUntouched}
use mcp_dev_runtime.Runtime.PatchEngine.Preparing.{IsPrepared, prepare-IsPrepared}
use mcp_dev_runtime.Runtime.PatchEngine.Yielding.{Yields}
use mcp_dev_runtime.Runtime.PatchEngine.Reports.Loop.{IsAnswer, commit_loop-IsAnswer}

abbrev Files : Type 0
Files = List (Text × Bytes)

abbrev root : Text
root = codes "/"

abbrev find : Text → Files → Option Bytes
find path [] = none
find path ((name, bytes) ∷ files) = if equal path name then some bytes else find path files

abbrev without : Text → Files → Files
without path [] = []
without path ((name, bytes) ∷ files) =
    let rest = without path files in if equal path name then rest else (name, bytes) ∷ rest

abbrev directory_stat : Stat
directory_stat = record {
  is_file = false;
  is_directory = true;
  is_symbolic_link = false;
  size = 0;
  mode = 493;
  identity = [];
}

abbrev file_stat : Bytes → Stat
file_stat bytes = record {
  is_file = true;
  is_directory = false;
  is_symbolic_link = false;
  size = length bytes;
  mode = 420;
  identity = bytes;
}

abbrev stat_in : Option Bytes → Outcome Stat
stat_in none = failed (system enoent)
stat_in (some bytes) = done (file_stat bytes)

abbrev stat_at : Text → Io Files Stat
stat_at path files =
    (files, if equal path root then done directory_stat else stat_in (find path files))

abbrev path_in : Text → Option Bytes → Outcome Text
path_in path none = failed (system enoent)
path_in path (some bytes) = done path

abbrev bytes_in : Option Bytes → Outcome Bytes
bytes_in none = failed (system enoent)
bytes_in (some bytes) = done bytes

abbrev copied : Text → Files → Option Bytes → Files × Outcome (Unit {0})
copied to files none = (files, failed (system enoent))
copied to files (some bytes) = ((to, bytes) ∷ without to files, done tt)

abbrev small_disk : Fs Files
small_disk = record {
  lstat = stat_at;
  stat = stat_at;
  readlink = λ path files. (files, failed (system another));
  realpath =
      λ path files. (files, if equal path root then done root else path_in path (find path files));
  read_file = λ path files. (files, bytes_in (find path files));
  mkdir = λ path files. (files, failed (system eexist));
  unlink = λ path files. (without path files, done tt);
  link = λ from to files. copied to files (find from files);
  rename = λ from to files. copied to (without from files) (find from files);
  open_new = λ path mode files. ((path, []) ∷ files, done tt);
  write_file = λ path bytes files. ((path, bytes) ∷ without path files, done tt);
  chmod = λ path mode files. (files, done tt);
  close = λ path files. (files, done tt);
}

abbrev small_host : Host
small_host = record {
  paths = record { home = root; join = λ a b. a ++ b; resolve = λ base path. path };
  dirname = λ path. root;
  rejoin = λ dir path. path;
  temporary = λ path. path ++ codes ".tmp";
  stringify = λ i. i.actual ++ i.s;
  hash = λ bytes. "";
  decode = some;
  encode = λ text. text;
}

abbrev small_limits : Limits
small_limits = record {
  max_patch_bytes = 100;
  max_files = 4;
  max_file_bytes = 10;
  max_total_file_bytes = 20;
}

abbrev one_file : Files
one_file = (codes "/a", 65 ∷ []) ∷ []

small_reads : ReadsKeep {X = Files} (λ files. files) small_disk
small_reads = record {
  lstat = λ p. record { kept = λ files. refl };
  stat = λ p. record { kept = λ files. refl };
  readlink = λ p. record { kept = λ files. refl };
  realpath = λ p. record { kept = λ files. refl };
  read_file = λ p. record { kept = λ files. refl };
}

-- A patch that adds a file that is there.
abbrev bad_patch : Text
bad_patch = codes "*** Begin Patch\n*** Add File: /a\n+B\n*** End Patch"

apply_once-IsUntouched_example :
    IsUntouched {X = Files}
      (λ files. files)
      small_host
      small_limits
      small_disk
      small_reads
      one_file
      (apply_once small_host small_limits small_disk bad_patch root one_file)
apply_once-IsUntouched_example =
    apply_once-IsUntouched (λ files. files) small_host small_limits small_disk small_reads bad_patch
      root one_file

prepare-IsPrepared_example :
    Yields
      (IsPrepared small_host small_limits small_disk)
      (prepare small_host small_limits small_disk bad_patch root)
prepare-IsPrepared_example = prepare-IsPrepared small_host small_limits small_disk bad_patch root

abbrev add_b : Prepared
add_b = record {
  hunk = record {
    operation = add;
    path = codes "/b";
    move = none;
    text = some (66 ∷ []);
    chunks = [];
  };
  source = codes "/b";
  target = codes "/b";
  snapshot = none;
  new_data = some (66 ∷ []);
  canonical_target = codes "/b";
}

-- The second of two files cannot be added, since the first one is there.
commit_loop-IsAnswer_example :
    IsAnswer small_host small_limits small_disk one_file (add_b ∷ add_b ∷ []) (
      report small_host small_limits small_disk (
        commit_loop small_host small_limits small_disk
          (add_b ∷ add_b ∷ [])
          (one_file, no_progress)))
commit_loop-IsAnswer_example =
    commit_loop-IsAnswer small_host small_limits small_disk (add_b ∷ add_b ∷ []) one_file
