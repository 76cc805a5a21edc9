-- ===== src/Skills/Service/Discovery.antt =====
-- The method `discover` of src/skills/service.ts: a page of the skills of a workdir. The ranking of
-- the search index, in floating-point numbers, is an argument.
pub mod Pages
use mcp_dev_runtime.Base.{
  ℕ, zero, suc, ◌+◌, Bool, true, false, not, ◌&&◌, ◌||◌, Option, none, some, List, [], ◌∷◌, ◌++◌,
  ltb, leb, ◌==◌, if◌then◌else◌, length, take, drop, keep, map, Bytes, whole,
}
use mcp_dev_runtime.Base.Text.{Text, equal}
use mcp_dev_runtime.Runtime.Errors.{
  ToolError, invalid_arguments, catalog_changed, invalid_skill_cursor, skill_response_limit,
}
use mcp_dev_runtime.Runtime.Utf8.{utf8_prefix}
use mcp_dev_runtime.Runtime.PatchEngine.Actions.{Io, returns, throws, ◌>>=◌, ◌>>◌, refuse_if, tool}
use mcp_dev_runtime.Skills.Limits.{discovery_bytes}
use mcp_dev_runtime.Skills.Files.{Host, canonical_directory}
use mcp_dev_runtime.Skills.Metadata.{display_description}
use mcp_dev_runtime.Skills.Scopes.{RootScope, Warning}
use mcp_dev_runtime.Skills.Service.{
  Entry, Catalog, Cursor, Codec, World, list, updates, request, encode, decoded, offset_of,
  is_given,
}
use mcp_dev_runtime.Skills.Service.Catalogs.{Setting, catalog, disabled_paths, is_disabled}

pub record DiscoverArgs : Type 0 where
  pub workdir : Text
  pub query : Option Text
  pub limit : ℕ
  pub cursor : Option Text
  pub refresh : Bool

-- A shown skill; the dependencies are given with whether they are complete.
pub record SkillRow : Type 0 where
  pub id : Text
  pub name : Text
  pub description : Bytes × Bool
  pub scope : RootScope
  pub origin : Bytes
  pub origin_truncated : Bool
  pub implicit_allowed : Bool
  pub compatibility : Option Bytes
  pub dependencies : Option (List Text × Bool)

pub record Discovery : Type 0 where
  pub workdir : Text
  pub project_root : Text
  pub catalog_revision : Text
  pub catalog_complete : Bool
  pub skills : List SkillRow
  pub warnings : List Warning
  pub next_cursor : Option Text

unfoldable pub shown_compatibility : Host → Option Text → Option Bytes
shown_compatibility host none = none
shown_compatibility host (some t) = some (utf8_prefix (host.encode t) 256)

unfoldable pub shown_dependencies : List Text → Option (List Text × Bool)
shown_dependencies [] = none
shown_dependencies (d ∷ ds) = some (take 4 (d ∷ ds), leb (length (d ∷ ds)) 4)

unfoldable pub row_of : Host → Entry → SkillRow
row_of host e =
    let metadata = e.found.metadata in
    let origin = host.encode (host.join e.source_root e.found.relative) in
    record {
      id = e.found.id;
      name = metadata.name;
      description = display_description host metadata;
      scope = e.scope;
      origin = utf8_prefix origin 512;
      origin_truncated = ltb 512 (length origin);
      implicit_allowed = metadata.implicit_allowed;
      compatibility = shown_compatibility host metadata.compatibility;
      dependencies = shown_dependencies metadata.dependencies;
    }

-- The loop that fills a page: `left` is what the limit leaves, and `size` the length of the response
-- with some rows, up to an end.
unfoldable pub fill_page :
    (Entry → SkillRow)
    → (List SkillRow → ℕ → ℕ)
    → ℕ
    → List Entry
    → ℕ
    → List SkillRow
    → List SkillRow × ℕ
fill_page row size zero rest end rows = (rows, end)
fill_page row size (suc left) [] end rows = (rows, end)
fill_page row size (suc left) (e ∷ rest) end rows =
    elim (ltb discovery_bytes (size (rows ++ (row e ∷ [])) (end + 1))) [
      | true ↦ (rows, end)
      | false ↦ fill_page row size left rest (end + 1) (rows ++ (row e ∷ []))
    ]

unfoldable pub is_eligible : Host → List Text → Option Text → Entry → Bool
is_eligible host disabled none e = not (is_disabled host e disabled)
is_eligible host disabled (some query) e =
    not (is_disabled host e disabled) && e.found.metadata.implicit_allowed

unfoldable pub query_text : Option Text → Text
query_text none = []
query_text (some query) = query

unfoldable pub differs : Option Text → Text → Bool
differs none expected = true
differs (some t) expected = not (equal t expected)

-- `cursor && (cursor.revision !== revision || cursor.query !== queryHash)`
unfoldable pub is_outdated : Option Cursor → Text → Text → Bool
is_outdated none revision query_hash = false
is_outdated (some c) revision query_hash =
    not (equal c.revision revision) || differs c.query query_hash

unfoldable pub has_none : List SkillRow → Bool
has_none [] = true
has_none (r ∷ rows) = false

module _ {S : Type 0} (setting : Setting S) (codec : Codec) (response_size : Discovery → ℕ)
    (rank : List Entry → Text → List Entry) where
  unfoldable pub eligible_entries : Catalog → Option Text → List Text → List Entry
  eligible_entries catalog none disabled =
      keep (is_eligible setting.host disabled none) catalog.entries
  eligible_entries catalog (some query) disabled =
      keep (is_eligible setting.host disabled (some query)) (rank catalog.entries query)

  -- The response with some rows, up to an end.
  unfoldable pub make : Text → Catalog → Text → Text → ℕ → List SkillRow → ℕ → Discovery
  make workdir catalog revision query_hash total rows end = record {
    workdir = workdir;
    project_root = catalog.scope.project_root;
    catalog_revision = revision;
    catalog_complete = catalog.scope.complete;
    skills = rows;
    warnings = catalog.scope.warnings;
    next_cursor =
        if ltb end total
        then some (
            encode codec (record {
              kind = list;
              scope = setting.reader.hash workdir;
              revision = revision;
              offset = whole end;
              query = some query_hash;
              key = none;
            }))
        else none;
  }

  unfoldable pub respond :
      Io (World S) (Unit {0})
      → (List SkillRow → ℕ → Discovery)
      → ℕ
      → List Entry
      → ℕ
      → Io (World S) Discovery
  respond check response limit eligible start = do
    let (rows, end) =
        fill_page (row_of setting.host) (λ rows end. response_size (response rows end)) limit
          (drop start eligible) start []
    refuse_if (has_none rows && ltb start (length eligible)) skill_response_limit
    refuse_if (ltb discovery_bytes (response_size (response rows end))) skill_response_limit
    check
    returns (response rows end)

  unfoldable pub discover_checked : DiscoverArgs → Io (World S) (Unit {0}) → Io (World S) Discovery
  discover_checked a check = do
    updates
        (λ s. record s { counts = record (s.counts) { discoveries = s.counts.discoveries + 1 } })
    workdir ← canonical_directory setting.host setting.disk a.workdir
    found ← catalog setting check workdir a.refresh
    disabled ← disabled_paths setting
    let query_hash = setting.reader.hash (query_text a.query)
    let eligible = eligible_entries found a.query disabled
    let revision = setting.reader.hash (found.revision ++ setting.paths_text disabled)
    cursor ← decoded codec list a.cursor (setting.reader.hash workdir)
    refuse_if (is_outdated cursor revision query_hash) catalog_changed
    refuse_if (ltb (length eligible) (offset_of cursor)) invalid_skill_cursor
    respond check (make workdir found revision query_hash (length eligible)) a.limit eligible
        (offset_of cursor)

  unfoldable pub discover : Option DiscoverArgs → Io (World S) Discovery
  discover none = throws (tool invalid_arguments)
  discover (some a) = do
    refuse_if (a.refresh && is_given a.cursor) invalid_arguments
    request setting.now (discover_checked a)
