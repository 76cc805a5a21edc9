-- ===== src/Launcher/RotatingLog.antt =====
-- RotatingLog of src/launcher/rotating-log.ts, on files that can be opened, renamed and written.
pub mod Rotation
pub mod Parts
pub mod Writing
mod Checks
use mcp_dev_runtime.Base.{
  ℕ, zero, suc, ◌+◌, ◌-◌, Bool, true, false, ◌&&◌, not, Option, none, some, List, [], ◌∷◌, ◌++◌,
  Bytes, ◌==◌, ltb, if◌then◌else◌, length, drop,
}
use mcp_dev_runtime.Runtime.Errors.{Result, ok, err, internal, ◌>>=◌}
use mcp_dev_runtime.Runtime.Utf8.{utf8_prefix}
use mcp_dev_runtime.Runtime.PatchParser.Grammar.{is_nil}

-- The file `<filename>.<n>`, which for 0 is `<filename>` itself, if there is one.
abbrev pub Files : Type 0
Files = ℕ → Option Bytes

unfoldable pub content : Option Bytes → Bytes
content none = []
content (some bytes) = bytes

unfoldable pub unlink : ℕ → Files → Files
unlink n files k = if k == n then none else files k

-- A file that is missing is not renamed.
unfoldable pub rename : ℕ → ℕ → Files → Files
rename from to files k = elim (files from) [
  | none ↦ files k
  | some bytes ↦ if k == to then some bytes else if k == from then none else files k
]

unfoldable pub store : ℕ → Bytes → Files → Files
store n bytes files k = if k == n then some bytes else files k

pub record RotatingLog : Type 0 where
  pub on_disk : Files
  pub opened : Bool
  pub size : ℕ
  pub rotations : ℕ
  pub written : ℕ
  pub max_bytes : ℕ
  pub files : ℕ

-- `for(let n=this.files-2;n>=0;n--)`, with n + 1 rounds left
unfoldable pub shift : ℕ → Files → Files
shift zero files = files
shift (suc n) files = shift n (rename n (suc n) files)

unfoldable pub rotated : ℕ → Files → Files
rotated files on_disk =
    if files == 1 then unlink 0 on_disk else shift (files - 1) (unlink (files - 1) on_disk)

unfoldable pub rotate : RotatingLog → RotatingLog
rotate log = record log {
  on_disk = store 0 [] (rotated log.files log.on_disk);
  opened = true;
  size = 0;
  rotations = log.rotations + 1;
}

unfoldable pub open_file : RotatingLog → RotatingLog
open_file log =
    if log.opened
    then log
    else let bytes = content (log.on_disk 0) in
      let open_log = record log {
        on_disk = store 0 bytes log.on_disk;
        opened = true;
        size = length bytes;
      } in
      if ltb log.max_bytes (length bytes) then rotate open_log else open_log

unfoldable pub write_part : Bytes → RotatingLog → RotatingLog
write_part part log = record log {
  on_disk = store 0 (content (log.on_disk 0) ++ part) log.on_disk;
  size = log.size + length part;
  written = log.written + length part;
}

-- The part of the data that is written next, with the log rotated when it takes none.
unfoldable pub next_part : Bytes → RotatingLog → RotatingLog × Bytes
next_part bytes log =
    let roomy = if log.size == log.max_bytes then rotate log else log in
    let part = utf8_prefix bytes (roomy.max_bytes - roomy.size) in
    if is_nil part
    then (rotate roomy, utf8_prefix bytes (rotate roomy).max_bytes)
    else (roomy, part)

-- The loop of `put`, on the data from `offset` on. A round writes a byte at least.
unfoldable pub put_loop : ℕ → Bytes → RotatingLog → RotatingLog × Bool
put_loop zero bytes log = (log, is_nil bytes)
put_loop (suc rounds) [] log = (log, true)
put_loop (suc rounds) (b ∷ bytes) log =
    let (roomy, part) = next_part (b ∷ bytes) log in
    let rest = put_loop rounds (drop (length part) (b ∷ bytes)) (write_part part roomy) in
    if is_nil part then (roomy, false) else rest

-- `put`; false says that it throws.
unfoldable pub put : Bytes → RotatingLog → RotatingLog × Bool
put bytes log = put_loop (length bytes) bytes (open_file log)
