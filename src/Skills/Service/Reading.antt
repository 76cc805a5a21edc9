-- ===== src/Skills/Service/Reading.antt =====
-- The method `read` of src/skills/service.ts: a part of a resource of a skill, cut so that the
-- response fits.
pub mod Chunks
pub mod Responses
use mcp_dev_runtime.Base.{
  ℕ, zero, suc, ◌+◌, ◌-◌, ◌/◌, min, Bool, true, false, not, ◌&&◌, ◌||◌, Option, none, some, List,
  [], ◌∷◌, ◌++◌, ltb, leb, ◌==◌, if◌then◌else◌, length, keep, get_or, String, Bytes, codes, whole,
  other, Number,
}
use mcp_dev_runtime.Base.Slices.{slice}
use mcp_dev_runtime.Base.Text.{Text, equal, starts_with}
use mcp_dev_runtime.Runtime.Errors.{
  Result, ok, err, ToolError, invalid_arguments, skill_response_limit, skill_changed,
  skill_not_available, ambiguous_skill, explicit_skill_required, skill_too_large,
  invalid_skill_cursor, cursor_expired, internal,
}
use mcp_dev_runtime.Runtime.Utf8.{continuation}
use mcp_dev_runtime.Runtime.PatchEngine.Actions.{
  Outcome, done, failed, Io, returns, throws, ◌>>=◌, ◌>>◌, attempt, refuse_if, from_result, tool,
}
use mcp_dev_runtime.Skills.Cache
use mcp_dev_runtime.Skills.Limits.{read_bytes, file_bytes, body_ttl_ms}
use mcp_dev_runtime.Skills.Files.{
  Identity, Contents, canonical_directory, file_identity, read_text, resource_path,
}
use mcp_dev_runtime.Skills.Metadata.{Metadata, load_metadata}
use mcp_dev_runtime.Skills.Sidecar.{Warning, stop}
use mcp_dev_runtime.Skills.Service.{
  Entry, Catalog, Body, Cursor, Codec, World, read, looks, updates, clock, request, encode, decoded,
  offset_of, is_given,
}
use mcp_dev_runtime.Skills.Service.Catalogs.{Setting, catalog, disabled_paths, is_disabled}

-- `size` is the length of the response for a start and an end, and `bytes` are the whole resource.
module _ (size : ℕ → ℕ → ℕ) (bytes : Bytes) (start : ℕ) where
  -- The loop on `low` and `high`; `none` if the rounds do not suffice.
  unfoldable pub narrow : ℕ → ℕ → ℕ → Option ℕ
  narrow zero low high = if ltb low high then none else some low
  narrow (suc rounds) low high = elim (ltb low high) [
    | false ↦ some low
    | true ↦ elim (leb (size start ((low + high + 1) / 2)) read_bytes) [
      | true ↦ narrow rounds ((low + high + 1) / 2) high
      | false ↦ narrow rounds low ((low + high + 1) / 2 - 1)
    ]
  ]

  -- `while (end > start && end < body.bytes.length && (body.bytes[end]! & 0xc0) === 0x80) end--`
  unfoldable pub back_to : ℕ → ℕ
  back_to zero = 0
  back_to (suc end) =
      let earlier = back_to end in
      if ltb start (suc end)
        && ltb (suc end) (length bytes)
        && continuation (get_or bytes (suc end) 0)
      then earlier
      else suc end

  unfoldable pub end_at : Option ℕ → Result ℕ
  end_at none = err internal
  end_at (some low) =
      let end = back_to low in
      if (end == start && ltb start (length bytes)) || ltb read_bytes (size start end)
      then err skill_response_limit
      else ok end

  unfoldable pub chunk_end : Result ℕ
  chunk_end = end_at (narrow 15 start (min (length bytes) (start + read_bytes)))

pub record ReadArgs : Type 0 where
  pub workdir : Text
  pub skill : Text
  pub resource : Text
  pub cursor : Option Text
  pub explicit : Bool

pub record SkillChunk : Type 0 where
  pub id : Text
  pub name : Text
  pub workdir : Text
  pub skill_root : Text
  pub resource : Text
  pub revision : Text
  pub contents : Bytes
  pub content_complete : Bool
  pub next_cursor : Option Text
  pub compatibility : Option Text
  pub dependencies : List Text
  pub warnings : List Warning

unfoldable pub is_empty : {A : Type 0} → List A → Bool
is_empty [] = true
is_empty (a ∷ rest) = false

unfoldable pub is_called : Text → Entry → Bool
is_called skill e = equal e.found.id skill || equal e.found.metadata.name skill

unfoldable pub candidates : Text → Catalog → List Entry
candidates skill catalog = keep (is_called skill) catalog.entries

unfoldable pub is_other : Option Text → Text → Bool
is_other none key = true
is_other (some k) key = not (equal k key)

-- `cursor && cursor.key !== key`
unfoldable pub is_foreign : Option Cursor → Text → Bool
is_foreign none key = false
is_foreign (some c) key = is_other c.key key

-- The cursor does not fit to the snapshot.
unfoldable pub mismatches : Option Cursor → Body → Bool
mismatches none body = false
mismatches (some c) body =
    let offset = offset_of (some c) in
    not (equal c.revision body.revision)
    || ltb (length body.bytes) offset
    || (ltb offset (length body.bytes) && continuation (get_or body.bytes offset 0))

unfoldable pub is_stale : Identity → Metadata → Body → Bool
is_stale identity metadata body =
    not (equal body.file identity.file)
    || not (equal body.stamp identity.stamp)
    || not (equal body.metadata_revision metadata.metadata_revision)

module _ {S : Type 0} (setting : Setting S) (codec : Codec) (response_size : SkillChunk → ℕ)
    (check : Io (World S) (Unit {0})) where
  unfoldable pub logical_of : Entry → Text
  logical_of e = setting.host.join e.source_root e.found.relative

  -- The three comparisons, of which the first that differs ends.
  unfoldable pub locate : Entry → Io (World S) (Unit {0})
  locate e = do
    root ← setting.disk.realpath e.source_root
    if equal root e.canonical_root then returns tt else stop
    file ← setting.disk.realpath (logical_of e)
    if equal file e.found.file then returns tt else stop
    skill_root ← setting.disk.realpath (setting.host.dirname (logical_of e))
    if equal skill_root e.found.skill_root then returns tt else stop

  unfoldable pub located_or : Outcome (Unit {0}) → Io (World S) (Unit {0})
  located_or (done located) = returns tt
  located_or (failed e) = throws (tool skill_changed)

  unfoldable pub assert_location : Entry → Io (World S) (Unit {0})
  assert_location e = do located ← attempt (locate e); located_or located

  unfoldable pub refreshed : ReadArgs → Text → Catalog → Io (World S) Catalog
  refreshed a workdir first =
      if is_empty (candidates a.skill first) && not (is_given a.cursor)
      then catalog setting check workdir true
      else returns first

  unfoldable pub the_candidate : List Entry → Io (World S) Entry
  the_candidate [] = throws (tool skill_not_available)
  the_candidate (e ∷ []) = returns e
  the_candidate (e ∷ f ∷ es) = throws (tool ambiguous_skill)

  unfoldable pub drop_body : String → Io (World S) (Unit {0})
  drop_body key = updates (λ s. record s { bodies = Cache.delete key s.bodies })

  -- A body of the cache that is not current is dropped, and refused behind a cursor.
  unfoldable pub current :
      String → Option Cursor → Identity → Metadata → Option Body → Io (World S) (Option Body)
  current key cursor identity metadata none = returns none
  current key cursor identity metadata (some body) =
      if is_stale identity metadata body
      then (do drop_body key; refuse_if (is_given cursor) skill_changed; returns none)
      else returns (some body)

  unfoldable pub loaded :
      Text → String → Text → Entry → Text → Metadata → Option Body → Io (World S) Body
  loaded scope key resource e file metadata (some body) = returns body
  loaded scope key resource e file metadata none = do
    contents ← read_text setting.host setting.disk file file_bytes (some e.found.skill_root) false
    let body : Body = record {
      bytes = setting.host.encode contents.text;
      stamp = contents.stamp;
      file = contents.file;
      metadata_revision = metadata.metadata_revision;
      scope = scope;
      id = e.found.id;
      resource = resource;
      revision = codes "sha256:" ++ setting.reader.hash contents.text;
    }
    check
    time ← clock setting.now
    updates (λ s. record s {
      bodies = Cache.set time key body (length body.bytes + 2048) body_ttl_ms s.bodies;
    })
    returns body

  unfoldable pub find_body : String → Io (World S) (Option Body)
  find_body key = do
    time ← clock setting.now
    found ← looks (λ s. (Cache.get time key s.bodies).1)
    updates (λ s. record s { bodies = (Cache.get time key s.bodies).0 })
    returns found

  -- `latest.metadata_revision !== metadata.metadata_revision || this.disabled(...)`
  unfoldable pub is_revoked : Entry → Metadata → Io (World S) Bool
  is_revoked e metadata = do
    latest ←
        load_metadata setting.host setting.reader setting.disk (logical_of e) e.found.skill_root
    if not (equal latest.metadata_revision metadata.metadata_revision)
        then returns true
        else (do paths ← disabled_paths setting; returns (is_disabled setting.host e paths))

  unfoldable pub refuse_revoked : String → Bool → Io (World S) (Unit {0})
  refuse_revoked key false = returns tt
  refuse_revoked key true = do drop_body key; throws (tool skill_changed)

  -- The response for an end.
  unfoldable pub make : ReadArgs → Text → Text → Entry → Metadata → Body → ℕ → ℕ → SkillChunk
  make a workdir key e metadata body start end = record {
    id = e.found.id;
    name = metadata.name;
    workdir = workdir;
    skill_root = e.found.skill_root;
    resource = a.resource;
    revision = body.revision;
    contents = slice start end body.bytes;
    content_complete = end == length body.bytes;
    next_cursor =
        if ltb end (length body.bytes)
        then some (
            encode codec (record {
              kind = read;
              scope = setting.reader.hash workdir;
              revision = body.revision;
              offset = whole end;
              query = none;
              key = some key;
            }))
        else none;
    compatibility = metadata.compatibility;
    dependencies = metadata.dependencies;
    warnings = metadata.warnings;
  }

  unfoldable pub file_of : Entry → Text → Io (World S) Text
  file_of e resource =
      if equal resource (codes "SKILL.md")
      then returns (logical_of e)
      else from_result (resource_path setting.host e.found.skill_root resource)

  -- From the response on.
  unfoldable pub respond :
      ReadArgs → Text → Text → Entry → Metadata → Body → ℕ → Io (World S) SkillChunk
  respond a workdir key e metadata body start = do
    end ← from_result (
        chunk_end (λ from to. response_size (make a workdir key e metadata body from to)) body.bytes
          start)
    check
    returns (make a workdir key e metadata body start end)

  unfoldable pub read_entry : ReadArgs → Text → Entry → Metadata → Io (World S) SkillChunk
  read_entry a workdir e metadata = do
    refuse_if (not (starts_with (codes "skill:") a.skill) && not (equal metadata.name a.skill))
        skill_changed
    refuse_if (not a.explicit && not metadata.implicit_allowed) explicit_skill_required
    file ← file_of e a.resource
    identity ← file_identity setting.host setting.disk file (some e.found.skill_root)
    refuse_if (ltb file_bytes identity.size) skill_too_large
    let scope = setting.reader.hash workdir
    let key = setting.reader.hash (scope ++ (0 ∷ e.found.id) ++ (0 ∷ a.resource))
    let place = setting.key_of key
    cursor ← decoded codec read a.cursor scope
    refuse_if (is_foreign cursor key) invalid_skill_cursor
    found ← find_body place
    refuse_if (is_given cursor && not (is_given found)) cursor_expired
    kept ← current place cursor identity metadata found
    body ← loaded scope place a.resource e file metadata kept
    refuse_if (mismatches cursor body) skill_changed
    assert_location e
    revoked ← is_revoked e metadata
    refuse_revoked place revoked
    respond a workdir key e metadata body (offset_of cursor)

  unfoldable pub read_checked : ReadArgs → Io (World S) SkillChunk
  read_checked a = do
    updates (λ s. record s { counts = record (s.counts) { reads = s.counts.reads + 1 } })
    workdir ← canonical_directory setting.host setting.disk a.workdir
    first ← catalog setting check workdir false
    catalog ← refreshed a workdir first
    disabled ← disabled_paths setting
    e ←
        the_candidate
          (keep (λ e. not (is_disabled setting.host e disabled)) (candidates a.skill catalog))
    assert_location e
    metadata ←
        load_metadata setting.host setting.reader setting.disk (logical_of e) e.found.skill_root
    read_entry a workdir e metadata

module _ {S : Type 0} (setting : Setting S) (codec : Codec) (response_size : SkillChunk → ℕ) where
  unfoldable pub read_skill : Option ReadArgs → Io (World S) SkillChunk
  read_skill none = throws (tool invalid_arguments)
  read_skill (some a) =
      request setting.now (λ check. read_checked setting codec response_size check a)
