-- ===== src/Skills/Metadata.antt =====
-- src/skills/metadata.ts: the metadata of a skill, from the head of its SKILL.md and from an
-- optional agents/openai.yaml. The YAML parser is the host's.
pub mod Permission
pub mod Loading
use mcp_dev_runtime.Base.{
  ℕ, zero, suc, ◌+◌, ◌-◌, min, Bool, true, false, not, ◌&&◌, ◌||◌, Option, none, some, List, [],
  ◌∷◌, ◌++◌, ltb, leb, ◌==◌, if◌then◌else◌, length, take, Bytes, codes,
}
use mcp_dev_runtime.Base.Text.{Text, equal, is_space, split, trim, unix_lines}
use mcp_dev_runtime.Runtime.Errors.{ToolError, invalid_skill_metadata}
use mcp_dev_runtime.Runtime.Utf8.{utf8_prefix}
use mcp_dev_runtime.Runtime.PatchEngine.Actions.{
  Outcome, done, failed, Io, returns, throws, ◌>>=◌, ◌>>◌, attempt, refuse_if, tool, system,
  another, missing, go_on,
}
use mcp_dev_runtime.Skills.Files.{Host, Disk, Stats, Contents, read_text}
use mcp_dev_runtime.Skills.Limits.{metadata_bytes}
use mcp_dev_runtime.Skills.Sidecar.{
  Draft, Fields, Items, Warning, Yaml, allows, array, boolean, bounded, changes, collapse,
  count_items, dependencies_omitted, ended, entry, field, fields_of, first_items, has_items,
  is_bad_policy, is_restricted, item, keep_first, lookup, no_items, null, number, object, or_else,
  or_restricted, product_restriction, push_dependency, read_dependencies, read_interface, read_list,
  read_policy, read_sidecar, read_tools, sidecar_invalid, stop, text,
}

pub record Metadata : Type 0 where
  pub name : Text
  pub description : Text
  pub short_description : Option Text
  pub compatibility : Option Text
  pub implicit_allowed : Bool
  pub dependencies : List Text
  pub warnings : List Warning
  pub metadata_revision : Text

-- text.replace(/^\uFEFF/, '')
unfoldable pub without_mark : Text → Text
without_mark [] = []
without_mark (c ∷ t) = if c == 0xfeff then t else c ∷ t

unfoldable pub is_delimiter : Text → Bool
is_delimiter line = equal (trim line) (codes "---")

-- The lines before the first delimiter, if there is one.
unfoldable pub before_delimiter : List Text → Option (List Text)
before_delimiter [] = none
before_delimiter (line ∷ lines) = elim (is_delimiter line) [
  | true ↦ some []
  | false ↦ elim (before_delimiter lines) [ none ↦ none | some header ↦ some (line ∷ header) ]
]

unfoldable pub frontmatter : List Text → Option (List Text)
frontmatter [] = none
frontmatter (line ∷ lines) = if is_delimiter line then before_delimiter lines else none

-- lines.join('\n')
unfoldable pub join_lines : List Text → Text
join_lines [] = []
join_lines (line ∷ []) = line
join_lines (line ∷ next ∷ lines) = line ++ (10 ∷ join_lines (next ∷ lines))

pub record Head : Type 0 where
  pub name : Option Text
  pub description : Option Text
  pub compatibility : Option Text
  pub short_description : Option Text

-- A required field that was read is there.
unfoldable pub the : Option Text → Text
the none = []
the (some t) = t

-- What the host's parser and hash make of a text: the value of a document without errors and
-- warnings, and the digest in hexadecimal.
pub record Reader : Type 0 where
  pub parse : Text → Option Yaml
  pub hash : Text → Text
  pub basename : Text → Text

-- The draft of a document, of a missing sidecar, or of one that could not be read.
unfoldable pub draft_of : Host → Reader → Option Text → Outcome (Option Text) → Draft
draft_of host reader short outcome =
    let start : Draft = record {
      implicit_allowed = true;
      sidecar_revision = codes "absent";
      short_description = short;
      dependencies = [];
      warnings = [];
    } in
    elim outcome [
      | failed e ↦ or_restricted (start, failed e)
      | done none ↦ start
      | done (some t) ↦
          or_restricted
            (read_sidecar host (reader.parse t) (record start { sidecar_revision = reader.hash t }))
    ]

module _ {S : Type 0} (host : Host) (reader : Reader) (disk : Disk S) where
  unfoldable pub read_short : Option Yaml → Io S (Option Text)
  read_short none = returns none
  read_short (some v) = do
    fields ← fields_of (some v)
    field host (lookup (codes "short-description") fields) 1024 false

  unfoldable pub read_head : Text → Text → Io S Head
  read_head header skill_root = do
    value ← fields_of (reader.parse header)
    name ← field host (or_else (reader.basename skill_root) (lookup (codes "name") value)) 256 true
    description ← field host (lookup (codes "description") value) 4096 true
    compatibility ← field host (lookup (codes "compatibility") value) 1024 false
    short ← read_short (lookup (codes "metadata") value)
    returns (record {
      name = name;
      description = description;
      compatibility = compatibility;
      short_description = short;
    })

  unfoldable pub or_invalid : {A : Type 0} → Outcome A → Io S A
  or_invalid (done a) = returns a
  or_invalid (failed e) = throws (tool invalid_skill_metadata)

  unfoldable pub header_or : Option (List Text) → Io S Text
  header_or none = throws (tool invalid_skill_metadata)
  header_or (some header) = returns (join_lines header)

  -- Whether `lstat` finds the file; only a missing file is none.
  unfoldable pub exists_as : Outcome Stats → Io S Bool
  exists_as (done s) = returns true
  exists_as (failed e) = if missing e then returns false else throws e

  -- The text of the sidecar, if there is one.
  unfoldable pub sidecar_text : Text → Text → Io S (Option Text)
  sidecar_text sidecar skill_root = do
    found ← attempt (disk.lstat sidecar)
    exists ← exists_as found
    if exists
        then (do
          read ← read_text host disk sidecar metadata_bytes (some skill_root) false
          returns (some read.text))
        else returns none

  unfoldable pub load_metadata : Text → Text → Io S Metadata
  load_metadata file skill_root = do
    read ← read_text host disk file metadata_bytes (some skill_root) true
    header ← header_or (frontmatter (split 10 (unix_lines (without_mark read.text))))
    outcome ← attempt (read_head header skill_root)
    head ← or_invalid outcome
    sidecar ← attempt (
        sidecar_text (host.join (host.join skill_root (codes "agents")) (codes "openai.yaml"))
          skill_root)
    let draft = draft_of host reader head.short_description sidecar
    returns (record {
      name = the head.name;
      description = the head.description;
      short_description = draft.short_description;
      compatibility = head.compatibility;
      implicit_allowed = draft.implicit_allowed;
      dependencies = draft.dependencies;
      warnings = draft.warnings;
      metadata_revision = reader.hash (header ++ (0 ∷ draft.sidecar_revision));
    })

-- `displayDescription`: the description as it is shown, in bytes, and whether it was cut
unfoldable pub display_description : Host → Metadata → Bytes × Bool
display_description host m =
    let description = utf8_prefix (host.encode m.description) 512 in
    (description, ltb (length description) (length (host.encode m.description)))
