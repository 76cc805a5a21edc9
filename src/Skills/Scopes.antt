-- ===== src/Skills/Scopes.antt =====
-- resolveScope of src/skills/scan.ts: the roots in which skills are looked for.
use mcp_dev_runtime.Base.{
  ℕ, zero, suc, Bool, true, false, not, ◌&&◌, ◌||◌, Option, none, some, List, [], ◌∷◌, ◌++◌, ltb,
  if◌then◌else◌, length, take, codes, ite,
}
use mcp_dev_runtime.Base.Text.{Text, equal}
use mcp_dev_runtime.Runtime.PatchEngine.Actions.{
  Outcome, done, failed, Io, returns, ◌>>=◌, ◌>>◌, attempt, missing,
}
use mcp_dev_runtime.Skills.Limits.{
  ancestors, roots_per_catalog, scan_depth, directories_per_root, entries_per_root, skills_per_root,
  scan_deadline_ms,
}
use mcp_dev_runtime.Skills.Limits
use mcp_dev_runtime.Skills.Files.{Host, Disk, Stats, valid_path}
use mcp_dev_runtime.Skills.Metadata.{Metadata}

pub data RootScope : Type 0 where
  project user extra : RootScope

pub record Root : Type 0 where
  pub logical : Text
  pub scope : RootScope

pub data Warning : Type 0 where
  markers_unchecked ancestor_limit codex_home_ignored root_limit scan_limit : Warning
  directory_unreadable entry_limit not_enumerated skill_skipped link_broken : Warning
  nesting_limit directory_limit root_not_accessible catalog_limit : Warning

pub record Scope : Type 0 where
  pub workdir : Text
  pub project_root : Text
  pub roots : List Root
  pub complete : Bool
  pub warnings : List Warning

pub record RootEntry : Type 0 where
  pub metadata : Metadata
  pub id : Text
  pub file : Text
  pub skill_root : Text
  pub relative : Text
  pub stamp : Text

pub record RootSnapshot : Type 0 where
  pub canonical : Text
  pub entries : List RootEntry
  pub complete : Bool
  pub warnings : List Warning

pub Warning-discrete : Discrete Warning
Warning-discrete = hlevel

unfoldable pub has_warning : Warning → List Warning → Bool
has_warning w [] = false
has_warning w (v ∷ ws) = ite (Warning-discrete v w) true (has_warning w ws)

-- The push of the function `warn`; a full list and a known warning stay.
unfoldable pub add_warning : Warning → List Warning → List Warning
add_warning w ws =
    if ltb (length ws) Limits.warnings && not (has_warning w ws) then ws ++ (w ∷ []) else ws

-- seen.has(text)
unfoldable pub has_text : Text → List Text → Bool
has_text t [] = false
has_text t (s ∷ ss) = equal s t || has_text t ss

-- The loop over the ancestors of the workdir, and what it changes.
pub record Ascent : Type 0 where
  pub project_root : Text
  pub found : Bool
  pub complete : Bool
  pub warnings : List Warning
  pub ancestors : List Text

-- The roots whose path did not come before.
unfoldable pub distinct : List Text → List Root → List Root
distinct seen [] = []
distinct seen (root ∷ roots) =
    let known = distinct seen roots in
    let new = distinct (root.logical ∷ seen) roots in
    if has_text root.logical seen then known else root ∷ new

unfoldable pub project_roots : Host → List Text → List Root
project_roots host [] = []
project_roots host (dir ∷ dirs) =
    record {
      logical = host.join (host.join dir (codes ".agents")) (codes "skills");
      scope = project;
    }
    ∷ record {
      logical = host.join (host.join dir (codes ".codex")) (codes "skills");
      scope = project;
    }
    ∷ project_roots host dirs

unfoldable pub extra_roots : List Text → List Root
extra_roots [] = []
extra_roots (path ∷ paths) = record { logical = path; scope = extra } ∷ extra_roots paths

-- The directory of codex, and whether the variable CODEX_HOME was usable.
unfoldable pub codex_directory : Host → Text → Option Text → Text × Bool
codex_directory host home none = (host.join home (codes ".codex"), true)
codex_directory host home (some codex_home) =
    if equal codex_home []
    then (host.join home (codes ".codex"), true)
    else if host.is_absolute codex_home && valid_path codex_home
    then (codex_home, true)
    else (host.join home (codes ".codex"), false)

unfoldable pub user_roots : Host → Text → Text → List Root
user_roots host home codex =
    record { logical = host.join (host.join home (codes ".agents")) (codes "skills"); scope = user }
    ∷ record { logical = host.join codex (codes "skills"); scope = user }
    ∷ record {
      logical = host.join (host.join codex (codes "skills")) (codes ".system");
      scope = user;
    }
    ∷ []

-- The second half of `resolveScope`.
unfoldable pub scope_of : Host → Text → Text → Option Text → List Text → Ascent → Scope
scope_of host workdir home codex_home extras a =
    let (codex, usable) = codex_directory host home codex_home in
    let roots = distinct [] (
      project_roots host (if a.found then a.ancestors else workdir ∷ [])
      ++ user_roots host home codex
      ++ extra_roots extras) in
    let many = ltb roots_per_catalog (length roots) in
    record {
      workdir = workdir;
      project_root = a.project_root;
      roots = take roots_per_catalog roots;
      complete = a.complete && usable && not many;
      warnings = take Limits.warnings (
          a.warnings
          ++ (if usable then [] else codex_home_ignored ∷ [])
          ++ (if many then root_limit ∷ [] else []));
    }

module _ {S : Type 0} (host : Host) (disk : Disk S) (check : Io S (Unit {0})) where
  -- Whether there is a marker of a project here; `none` if that could not be checked.
  unfoldable pub marker_of : Outcome Stats → Option Bool
  marker_of (done s) = some (s.is_directory || s.is_file)
  marker_of (failed e) = if missing e then some false else none

  unfoldable pub unmarked : Option Bool → Ascent → Ascent
  unmarked (some b) a = a
  unmarked none a = record a { complete = false; warnings = a.warnings ++ (markers_unchecked ∷ []) }

  unfoldable pub is_marked : Option Bool → Bool
  is_marked none = false
  is_marked (some marked) = marked

  -- `depth === limits.ancestors - 1`
  unfoldable pub at_limit : ℕ → Ascent → Ascent
  at_limit zero a = record a { complete = false; warnings = a.warnings ++ (ancestor_limit ∷ []) }
  at_limit (suc left) a = a

  -- `left` is the number of rounds that are left after this one.
  unfoldable pub ascend : ℕ → Text → Ascent → Io S Ascent
  ascend zero current a = returns a
  ascend (suc left) current a = do
    check
    found ← attempt (disk.lstat (host.join current (codes ".git")))
    let here : Ascent = record a { ancestors = a.ancestors ++ (current ∷ []) }
    elim (is_marked (marker_of found)) [
      | true ↦ returns (record here { project_root = current; found = true })
      | false ↦ elim (equal (host.dirname current) current) [
        | true ↦ returns (unmarked (marker_of found) here)
        | false ↦
            ascend left (host.dirname current) (at_limit left (unmarked (marker_of found) here))
      ]
    ]

  unfoldable pub resolve_scope : Text → Text → Option Text → List Text → Io S Scope
  resolve_scope workdir home codex_home extras = do
    a ← ascend ancestors workdir (record {
      project_root = workdir;
      found = false;
      complete = true;
      warnings = [];
      ancestors = [];
    })
    returns (scope_of host workdir home codex_home extras a)
