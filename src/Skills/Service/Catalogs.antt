-- ===== src/Skills/Service/Catalogs.antt =====
-- The catalog of a workdir in src/skills/service.ts: disabledPaths, disabled and catalog.
pub mod Gathering
use mcp_dev_runtime.Base.{
  ℕ, zero, suc, ◌+◌, ◌*◌, ◌/◌, Bool, true, false, not, ◌&&◌, ◌||◌, Option, none, some, List, [],
  ◌∷◌, ◌++◌, ltb, leb, ◌==◌, if◌then◌else◌, length, String,
}
use mcp_dev_runtime.Base.Text.{Text, equal}
use mcp_dev_runtime.Base.JsMap.{string_discrete}
use mcp_dev_runtime.Base.JsMap
use mcp_dev_runtime.Runtime.PatchEngine.Actions.{
  Failure, Outcome, done, failed, Io, returns, ◌>>=◌, ◌>>◌, attempt, settle, missing,
}
use mcp_dev_runtime.Skills.Cache
use mcp_dev_runtime.Skills.Limits.{skills_per_catalog, scope_cache_bytes, catalog_ttl_ms}
use mcp_dev_runtime.Skills.Files.{Host, Disk}
use mcp_dev_runtime.Skills.Metadata.{Metadata, Reader}
use mcp_dev_runtime.Skills.Scan.{Scanner, Walker, some_inside, scan_root}
use mcp_dev_runtime.Skills.Scopes.{
  Warning, root_not_accessible, catalog_limit, Root, RootScope, Scope, RootEntry, RootSnapshot,
  add_warning, has_text, resolve_scope,
}
use mcp_dev_runtime.Skills.Service.{
  Entry, Catalog, SkillsService, Counts, World, looks, updates, clock,
}

-- What the service is given. A load that is under way is joined by its number; `key_of` is a text as
-- the key of a map; the last four are the sizes and the texts of JSON.
pub record Setting (S : Type 0) : Type 0 where
  pub host : Host
  pub reader : Reader
  pub disk : Disk (World S)
  pub walker : Walker (World S)
  pub now : World S → ℕ
  pub join_scan : ℕ → Io (World S) RootSnapshot
  pub join_catalog : ℕ → Io (World S) Catalog
  pub key_of : Text → String
  pub home : Text
  pub codex_home : Option Text
  pub extra_roots : List Text
  pub disabled_paths : List Text
  pub entry_size : Entry → ℕ
  pub snapshot_size : RootSnapshot → ℕ
  pub paths_text : List Text → Text
  pub catalog_text : List Root → Bool → List (Text × Text × Text × Text) → Text

-- What the loops of `catalog` change.
pub record Gathered : Type 0 where
  pub entries : List Entry
  pub seen : List Text
  pub roots : List Text
  pub measured : ℕ
  pub complete : Bool
  pub warnings : List Warning

unfoldable pub warn : Warning → Gathered → Gathered
warn w g = record g { complete = false; warnings = add_warning w g.warnings }

unfoldable pub warn_all : List Warning → Gathered → Gathered
warn_all [] g = g
warn_all (w ∷ ws) g = warn_all ws (warn w g)

-- `if (!snapshot.complete) for (const message of snapshot.warnings) warn(message)`
unfoldable pub pass_on : RootSnapshot → Gathered → Gathered
pass_on snapshot g = if snapshot.complete then g else warn_all snapshot.warnings g

unfoldable pub entry_of : Root → Text → RootEntry → Entry
entry_of root canonical skill = record {
  found = skill;
  source_root = root.logical;
  canonical_root = canonical;
  scope = root.scope;
}

unfoldable pub push_entry : Entry → ℕ → Gathered → Gathered
push_entry e bytes g = record g {
  entries = g.entries ++ (e ∷ []);
  seen = e.found.id ∷ g.seen;
  measured = g.measured + bytes;
}

-- The bytes that an entry counts for.
unfoldable pub weight : (Entry → ℕ) → Entry → ℕ
weight entry_size e = entry_size e * 4 + 1024

unfoldable pub is_full : ℕ → Gathered → Bool
is_full bytes g =
    leb skills_per_catalog (length g.entries) || ltb (scope_cache_bytes / 2) (g.measured + bytes)

-- The loop over the skills of a root.
unfoldable pub add_skills : (Entry → ℕ) → Root → Text → List RootEntry → Gathered → Gathered
add_skills entry_size root canonical [] g = g
add_skills entry_size root canonical (skill ∷ skills) g =
    let e = entry_of root canonical skill in
    let bytes = weight entry_size e in
    elim (has_text skill.id g.seen) [
      | true ↦ add_skills entry_size root canonical skills g
      | false ↦ elim (is_full bytes g) [
        | true ↦ warn catalog_limit g
        | false ↦ add_skills entry_size root canonical skills (push_entry e bytes g)
      ]
    ]

unfoldable pub parts_of : List Entry → List (Text × Text × Text × Text)
parts_of [] = []
parts_of (e ∷ es) =
    (e.found.id, e.source_root, e.found.stamp, e.found.metadata.metadata_revision) ∷ parts_of es

-- `disabled`
unfoldable pub is_disabled : Host → Entry → List Text → Bool
is_disabled host e paths =
    some_inside host paths (host.join e.source_root e.found.relative) e.found.file

module _ {S : Type 0} (setting : Setting S) where
  unfoldable pub add_path : Outcome Text → List Text → List Text
  add_path (failed e) paths = paths
  add_path (done path) paths = if has_text path paths then paths else paths ++ (path ∷ [])

  unfoldable pub resolve_paths : List Text → List Text → Io (World S) (List Text)
  resolve_paths [] paths = returns paths
  resolve_paths (file ∷ files) paths = do
    real ← attempt (setting.disk.realpath file)
    resolve_paths files (add_path real paths)

  unfoldable pub distinct_paths : List Text → List Text → List Text
  distinct_paths [] paths = paths
  distinct_paths (file ∷ files) paths = distinct_paths files (add_path (done file) paths)

  unfoldable pub disabled_paths : Io (World S) (List Text)
  disabled_paths = resolve_paths setting.disabled_paths (distinct_paths setting.disabled_paths [])

  -- A new load, under its key.
  unfoldable pub start_root_load : String → Io (World S) ℕ
  start_root_load key = do
    id ← looks (λ s. s.loads)
    updates (λ s. record s {
      root_loads = JsMap.set string_discrete key id s.root_loads;
      loads = s.loads + 1;
    })
    returns id

  -- `if (this.rootLoads.get(rootKey) === loading) this.rootLoads.delete(rootKey)`, and likewise
  abbrev drop_load : String → ℕ → JsMap.JsMap String ℕ → JsMap.JsMap String ℕ
  drop_load key id loads = elim (JsMap.get string_discrete key loads) [
    | none ↦ loads
    | some other_id ↦ if other_id == id then JsMap.delete string_discrete key loads else loads
  ]

  unfoldable pub scan_and_store :
      Io (World S) (Unit {0}) → String → Text → List Text → Io (World S) RootSnapshot
  scan_and_store check key canonical excluded = do
    updates (λ s. record s { counts = record (s.counts) { root_scans = s.counts.root_scans + 1 } })
    result ←
        scan_root
          (record {
            host = setting.host;
            reader = setting.reader;
            disk = setting.disk;
            walker = setting.walker;
            check = check;
            disabled = excluded;
          })
          canonical
    check
    time ← clock setting.now
    updates (λ s. record s {
      root_cache =
          Cache.set time key result (setting.snapshot_size result * 4 + 1024) catalog_ttl_ms
            s.root_cache;
    })
    returns result

  unfoldable pub load_root :
      Io (World S) (Unit {0}) → String → Text → List Text → Option ℕ → Io (World S) RootSnapshot
  load_root check key canonical excluded (some id) = do
    outcome ← attempt (setting.join_scan id)
    updates (λ s. record s { root_loads = drop_load key id s.root_loads })
    settle outcome
  load_root check key canonical excluded none = do
    id ← start_root_load key
    outcome ← attempt (scan_and_store check key canonical excluded)
    updates (λ s. record s { root_loads = drop_load key id s.root_loads })
    settle outcome

  unfoldable pub cached_root :
      Io (World S) (Unit {0})
      → String
      → Text
      → List Text
      → Option RootSnapshot
      → Io (World S) RootSnapshot
  cached_root check key canonical excluded (some snapshot) = returns snapshot
  cached_root check key canonical excluded none = do
    loading ← looks (λ s. JsMap.get string_discrete key s.root_loads)
    load_root check key canonical excluded loading

  unfoldable pub find_root : String → Io (World S) (Option RootSnapshot)
  find_root key = do
    time ← clock setting.now
    found ← looks (λ s. (Cache.get time key s.root_cache).1)
    updates (λ s. record s { root_cache = (Cache.get time key s.root_cache).0 })
    returns found

  unfoldable pub drop_root : Bool → String → Io (World S) (Unit {0})
  drop_root refresh key =
      updates (λ s. if refresh then record s { root_cache = Cache.delete key s.root_cache } else s)

  -- A round of the loop over the roots, for a root that was resolved and is new.
  unfoldable pub add_root :
      Io (World S) (Unit {0}) → Bool → List Text → Root → Text → Gathered → Io (World S) Gathered
  add_root check refresh excluded root canonical g = do
    let key = setting.key_of (canonical ++ (0 ∷ setting.reader.hash (setting.paths_text excluded)))
    drop_root refresh key
    found ← find_root key
    snapshot ← cached_root check key canonical excluded found
    returns (
        add_skills setting.entry_size root canonical snapshot.entries
          (pass_on snapshot (record g { roots = canonical ∷ g.roots })))

  unfoldable pub add_resolved :
      Io (World S) (Unit {0})
      → Bool
      → List Text
      → Root
      → Outcome Text
      → Gathered
      → Io (World S) Gathered
  add_resolved check refresh excluded root (failed e) g =
      returns (if missing e then g else warn root_not_accessible g)
  add_resolved check refresh excluded root (done canonical) g = elim (has_text canonical g.roots) [
    | true ↦ returns g
    | false ↦ add_root check refresh excluded root canonical g
  ]

  unfoldable pub add_roots :
      Io (World S) (Unit {0}) → Bool → List Text → List Root → Gathered → Io (World S) Gathered
  add_roots check refresh excluded [] g = returns g
  add_roots check refresh excluded (root ∷ roots) g = do
    check
    real ← attempt (setting.disk.realpath root.logical)
    next ← add_resolved check refresh excluded root real g
    add_roots check refresh excluded roots next

  unfoldable pub catalog_of : Scope → Gathered → Catalog
  catalog_of scope g = record {
    scope = record scope { complete = g.complete; warnings = g.warnings };
    entries = g.entries;
    revision =
        setting.reader.hash (setting.catalog_text scope.roots g.complete (parts_of g.entries));
  }

  abbrev pub nothing_gathered : Scope → Gathered
  nothing_gathered scope = record {
    entries = [];
    seen = [];
    roots = [];
    measured = 0;
    complete = scope.complete;
    warnings = scope.warnings;
  }

  unfoldable pub build_catalog : Io (World S) (Unit {0}) → Bool → Text → Io (World S) Catalog
  build_catalog check refresh workdir = do
    updates (λ s. record s {
      counts = record (s.counts) { catalog_builds = s.counts.catalog_builds + 1 };
    })
    scope ←
        resolve_scope setting.host setting.disk check workdir setting.home setting.codex_home
          setting.extra_roots
    excluded ← disabled_paths
    g ← add_roots check refresh excluded scope.roots (nothing_gathered scope)
    check
    setting.walker.yield_loop
    check
    time ← clock setting.now
    updates (λ s. record s {
      catalogs =
          Cache.set time (setting.key_of workdir) (catalog_of scope g) (g.measured + 2048)
            catalog_ttl_ms s.catalogs;
    })
    returns (catalog_of scope g)

  unfoldable pub find_catalog : Bool → String → Io (World S) (Option Catalog)
  find_catalog true key = returns none
  find_catalog false key = do
    time ← clock setting.now
    found ← looks (λ s. (Cache.get time key s.catalogs).1)
    updates (λ s. record s { catalogs = (Cache.get time key s.catalogs).0 })
    returns found

  unfoldable pub load_catalog :
      Io (World S) (Unit {0}) → Bool → Text → Option ℕ → Io (World S) Catalog
  load_catalog check refresh workdir (some id) = setting.join_catalog id
  load_catalog check refresh workdir none = do
    let key = setting.key_of workdir
    id ← looks (λ s. s.loads)
    updates (λ s. record s {
      catalog_loads = JsMap.set string_discrete key id s.catalog_loads;
      loads = s.loads + 1;
    })
    outcome ← attempt (build_catalog check refresh workdir)
    updates (λ s. record s { catalog_loads = drop_load key id s.catalog_loads })
    settle outcome

  unfoldable pub known_or_load :
      Io (World S) (Unit {0}) → Bool → Text → Option Catalog → Io (World S) Catalog
  known_or_load check refresh workdir (some hit) = returns hit
  known_or_load check refresh workdir none = do
    existing ← looks (λ s. JsMap.get string_discrete (setting.key_of workdir) s.catalog_loads)
    load_catalog check refresh workdir existing

  unfoldable pub catalog : Io (World S) (Unit {0}) → Text → Bool → Io (World S) Catalog
  catalog check workdir refresh = do
    check
    hit ← find_catalog refresh (setting.key_of workdir)
    known_or_load check refresh workdir hit
