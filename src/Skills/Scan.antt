-- ===== src/Skills/Scan.antt =====
-- scanRoot of src/skills/scan.ts: the walk through a root in which skills are looked for.
pub mod Walking
use mcp_dev_runtime.Base.{
  ℕ, zero, suc, ◌+◌, ◌-◌, ◌%◌, Bool, true, false, not, ◌&&◌, ◌||◌, Option, none, some, List, [],
  ◌∷◌, ◌++◌, ltb, leb, ◌==◌, if◌then◌else◌, length, take, codes, ite,
}
use mcp_dev_runtime.Base.Text.{Text, equal, starts_with}
use mcp_dev_runtime.Base.Sorting.{sort_by}
use mcp_dev_runtime.Runtime.PatchEngine.Actions.{
  Outcome, done, failed, Io, returns, throws, ◌>>=◌, ◌>>◌, attempt, missing, system, another,
}
use mcp_dev_runtime.Skills.Limits.{
  ancestors, roots_per_catalog, scan_depth, directories_per_root, entries_per_root, skills_per_root,
  scan_deadline_ms,
}
use mcp_dev_runtime.Skills.Limits
use mcp_dev_runtime.Skills.Files.{Host, Disk, Stats, Identity, inside, valid_path, file_identity}
use mcp_dev_runtime.Skills.Metadata.{Metadata, Reader, load_metadata}
use mcp_dev_runtime.Skills.Sidecar.{stop}
use mcp_dev_runtime.Skills.Scopes.{
  Ascent, Root, RootEntry, RootScope, RootSnapshot, Scope, Warning, Warning-discrete, add_warning,
  ancestor_limit, ascend, at_limit, catalog_limit, codex_directory, codex_home_ignored,
  directory_limit, directory_unreadable, distinct, entry_limit, extra, extra_roots, has_text,
  has_warning, is_marked, link_broken, marker_of, markers_unchecked, nesting_limit, not_enumerated,
  project, project_roots, resolve_scope, root_limit, root_not_accessible, scan_limit, scope_of,
  skill_skipped, unmarked, user, user_roots,
}

pub record Child : Type 0 where
  pub name : Text
  pub directory : Bool
  pub link : Bool

-- An open directory gives its items one by one; `now` is the clock, and `yield_loop` lets other
-- work run.
pub record Walker (S : Type 0) : Type 0 where
  pub opendir : Text → Io S ℕ
  pub next : ℕ → Io S (Option Child)
  pub now : Io S ℕ
  pub yield_loop : Io S (Unit {0})

-- The part of the queue that is left, the length of the whole queue, and the variables of the loop.
pub record Walk : Type 0 where
  pub left : List (Text × ℕ)
  pub queued : ℕ
  pub seen : List Text
  pub directory_count : ℕ
  pub entry_count : ℕ
  pub entries : List RootEntry
  pub complete : Bool
  pub warnings : List Warning

unfoldable pub warn : Warning → Walk → Walk
warn w s = record s { complete = false; warnings = add_warning w s.warnings }

-- a.name < b.name, by code units; equal names count as smaller
unfoldable pub precedes : Text → Text → Bool
precedes [] t = true
precedes (c ∷ s) [] = false
precedes (c ∷ s) (d ∷ t) = ltb c d || (c == d && precedes s t)

unfoldable pub sorted : List Child → List Child
sorted children = sort_by (λ a b. precedes a.name b.name) children

unfoldable pub has_skill : List Child → Bool
has_skill [] = false
has_skill (child ∷ children) = equal child.name (codes "SKILL.md") || has_skill children

unfoldable pub is_ignored : Text → Bool
is_ignored name = has_text name (
    codes "node_modules"
    ∷ codes "vendor"
    ∷ codes "__pycache__"
    ∷ codes "dist"
    ∷ codes "coverage"
    ∷ [])

unfoldable pub some_inside : Host → List Text → Text → Text → Bool
some_inside host [] a b = false
some_inside host (p ∷ disabled) a b =
    inside host p a || inside host p b || some_inside host disabled a b

-- What the loop over the items of a directory changes; `broken` says that it threw.
pub record Listing : Type 0 where
  pub children : List Child
  pub count : ℕ
  pub limited : Bool
  pub broken : Bool

unfoldable pub skips : Child → Bool
skips child =
    starts_with (codes ".") child.name || is_ignored child.name || not (valid_path child.name)

unfoldable pub with_listing : Listing → Walk → Walk
with_listing l s =
    let counted : Walk = record s { entry_count = l.count } in
    if l.limited then warn entry_limit counted else counted

unfoldable pub is_exhausted : Bool → Walk → Bool
is_exhausted late s =
    late
    || leb directories_per_root s.directory_count
    || leb entries_per_root s.entry_count
    || leb skills_per_root (length s.entries)

abbrev pub first_walk : Text → Walk
first_walk canonical = record {
  left = (canonical, 0) ∷ [];
  queued = 1;
  seen = [];
  directory_count = 0;
  entry_count = 0;
  entries = [];
  complete = true;
  warnings = [];
}

-- What a scan is given: the functions of the host and of the disk, the check of the request and the
-- paths that are disabled.
pub record Scanner (S : Type 0) : Type 0 where
  pub host : Host
  pub reader : Reader
  pub disk : Disk S
  pub walker : Walker S
  pub check : Io S (Unit {0})
  pub disabled : List Text

module _ {S : Type 0} (scan : Scanner S) where
  unfoldable pub list_items : ℕ → ℕ → Listing → Io S Listing
  list_items zero handle l = returns l
  list_items (suc rounds) handle l = do
    got ← attempt (scan.walker.next handle)
    elim got [
      | failed e ↦ returns (record l { broken = true })
      | done none ↦ returns l
      | done (some child) ↦ do
        checked ← attempt scan.check
        elim checked [
          | failed e ↦ returns (record l { broken = true })
          | done u ↦ elim (ltb entries_per_root (l.count + 1)) [
            | true ↦ returns (record l { count = l.count + 1; limited = true })
            | false ↦
                list_items rounds handle
                  (record l { count = l.count + 1; children = l.children ++ (child ∷ []) })
          ]
        ]
    ]

  unfoldable pub list_directory : Text → ℕ → Io S Listing
  list_directory directory count = do
    opened ← attempt (scan.walker.opendir directory)
    let start : Listing = record { children = []; count = count; limited = false; broken = false }
    elim opened [
      | failed e ↦ returns (record start { broken = true })
      | done handle ↦ list_items (entries_per_root + 1 - count) handle start
    ]

  -- The attempt to add the skill of a package; `none` if it is disabled.
  unfoldable pub skill_of : Text → Text → Text → Io S (Option RootEntry)
  skill_of canonical directory resolved = do
    let logical = scan.host.join directory (codes "SKILL.md")
    identity ← file_identity scan.host scan.disk logical (some resolved)
    elim (some_inside scan.host scan.disabled logical identity.file) [
      | true ↦ returns none
      | false ↦ do
        metadata ← load_metadata scan.host scan.reader scan.disk logical resolved
        after ← file_identity scan.host scan.disk logical (some resolved)
        if not (equal after.stamp identity.stamp) || not (equal after.file identity.file)
            then stop
            else returns (
                some (record {
                  metadata = metadata;
                  id = codes "skill:" ++ take 32 (scan.reader.hash identity.file);
                  file = identity.file;
                  skill_root = resolved;
                  relative = scan.host.relative canonical logical;
                  stamp = identity.stamp;
                }))
    ]

  unfoldable pub add_skill : Walk → Outcome (Option RootEntry) → Io S Walk
  add_skill s (done none) = returns s
  add_skill s (done (some e)) = do
    scan.walker.yield_loop
    returns (record s { entries = s.entries ++ (e ∷ []) })
  add_skill s (failed e) = do scan.walker.yield_loop; returns (warn skill_skipped s)

  -- Whether a child is a directory, behind a link too; `none` if the link is broken.
  unfoldable pub is_directory : Text → Child → Io S (Option Bool)
  is_directory target child = elim child.link [
    | false ↦ returns (some child.directory)
    | true ↦ do
      found ← attempt (scan.disk.stat target)
      elim found [ done s ↦ returns (some s.is_directory) | failed e ↦ returns none ]
  ]

  unfoldable pub push_children : Text → ℕ → List Child → Walk → Io S Walk
  push_children directory depth [] s = returns s
  push_children directory depth (child ∷ children) s = elim (skips child) [
    | true ↦ push_children directory depth children s
    | false ↦ do
      found ← is_directory (scan.host.join directory child.name) child
      elim found [
        | none ↦ push_children directory depth children (warn link_broken s)
        | some false ↦ push_children directory depth children s
        | some true ↦ elim (leb scan_depth depth) [
          | true ↦ push_children directory depth children (warn nesting_limit s)
          | false ↦ elim (leb directories_per_root s.queued) [
            | true ↦ returns (warn directory_limit s)
            | false ↦ push_children directory depth children (record s {
              left = s.left ++ ((scan.host.join directory child.name, depth + 1) ∷ []);
              queued = s.queued + 1;
            })
          ]
        ]
      ]
  ]

  -- What follows in a directory that could be listed; `offset` is its place in the queue.
  unfoldable pub enter : Text → ℕ → ℕ → Text → Text → List Child → Walk → Io S Walk
  enter canonical offset depth directory resolved children s = elim (has_skill children) [
    | true ↦ do outcome ← attempt (skill_of canonical directory resolved); add_skill s outcome
    | false ↦ do
      pushed ← push_children directory depth children s
      if offset % 8 == 0 then (do scan.walker.yield_loop; returns pushed) else returns pushed
  ]

  -- A round of the loop, for the directory that is taken off the queue.
  unfoldable pub visit : Text → ℕ → Text → ℕ → Walk → Io S Walk
  visit canonical offset directory depth s = do
    real ← attempt (scan.disk.realpath directory)
    elim real [
      | failed e ↦ returns (warn directory_unreadable s)
      | done resolved ↦
          elim (some_inside scan.host scan.disabled directory resolved
            || has_text resolved s.seen) [
              | true ↦ returns s
              | false ↦ do
                l ← list_directory directory s.entry_count
                let listed : Walk =
                    with_listing l (record s {
                      seen = resolved ∷ s.seen;
                      directory_count = s.directory_count + 1;
                    })
                elim l.broken [
                  | true ↦ do scan.check; returns (warn not_enumerated listed)
                  | false ↦
                      enter canonical offset depth directory resolved (sorted l.children) listed
                ]
            ]
    ]

  -- The loop over the queue; `none` if the rounds do not suffice.
  unfoldable pub walk : ℕ → Text → ℕ → ℕ → Walk → Io S (Option Walk)
  walk zero canonical until offset s = returns none
  walk (suc rounds) canonical until offset s = elim s.left [
    | [] ↦ returns (some s)
    | (directory, depth) ∷ left ↦ do
      scan.check
      time ← scan.walker.now
      elim (is_exhausted (ltb until time) s) [
        | true ↦ returns (some (warn scan_limit s))
        | false ↦ do
          visited ← visit canonical offset directory depth (record s { left = left })
          walk rounds canonical until (offset + 1) visited
      ]
  ]

  unfoldable pub snapshot_of : Text → Option Walk → Io S RootSnapshot
  snapshot_of canonical none = stop
  snapshot_of canonical (some s) = returns (record {
    canonical = canonical;
    entries = s.entries;
    complete = s.complete;
    warnings = s.warnings;
  })

  unfoldable pub scan_root : Text → Io S RootSnapshot
  scan_root canonical = do
    start ← scan.walker.now
    ended ←
        walk (directories_per_root + 1) canonical (start + scan_deadline_ms) 0
          (first_walk canonical)
    snapshot_of canonical ended
