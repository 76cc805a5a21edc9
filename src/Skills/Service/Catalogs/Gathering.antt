-- ===== src/Skills/Service/Catalogs/Gathering.antt =====
-- The catalogs that src/skills/service.ts builds: what their entries have in common.
use mcp_dev_runtime.Base.{
  ℕ, ◌+◌, ◌/◌, ◌≤◌, Bool, false, List, [], ◌∷◌, ◌++◌, length, length-append, ◌≡◌, refl, ap, sym,
  ◌∙◌, arith, if_cases,
}
use mcp_dev_runtime.Base.Choices.{choose_cases}
use mcp_dev_runtime.Base.JsMap.Listing.{sum_of}
use mcp_dev_runtime.Base.Text.{Text}
use mcp_dev_runtime.Runtime.PatchEngine.Actions.{Outcome, done, failed, Io, attempt, missing}
use mcp_dev_runtime.Runtime.PatchEngine.Yielding.{Yields, returns-Yields, bind-Yields, any-Yields}
use mcp_dev_runtime.Skills.Limits.{skills_per_catalog, scope_cache_bytes}
use mcp_dev_runtime.Skills.Scopes.{
  Warning, Root, RootEntry, RootSnapshot, has_text, root_not_accessible, catalog_limit,
}
use mcp_dev_runtime.Skills.Service.{Entry, World, clock, updates}
use mcp_dev_runtime.Skills.Service.Catalogs.{
  Setting, Gathered, warn, warn_all, pass_on, entry_of, push_entry, weight, is_full, add_skills,
  add_root, add_resolved, add_roots, catalog_of, build_catalog, cached_root, find_root, drop_root,
  disabled_paths,
}

-- The ids of entries, the last one first, before others.
abbrev pub ids_of : List Entry → List Text → List Text
ids_of [] others = others
ids_of (e ∷ es) others = ids_of es (e.found.id ∷ others)

abbrev pub AreDistinct : List Text → Type 0
AreDistinct [] = Unit
AreDistinct (t ∷ ts) = (has_text t ts ≡ false) × AreDistinct ts

ids_of-append :
    (es : List Entry) (e : Entry) (others : List Text)
    → ids_of (es ++ (e ∷ [])) others ≡ e.found.id ∷ ids_of es others
ids_of-append [] e others = refl
ids_of-append (d ∷ es) e others = ids_of-append es e (d.found.id ∷ others)

module _ (entry_size : Entry → ℕ) where
  sum_of-append :
      (es : List Entry) (e : Entry)
      → sum_of (weight entry_size) (es ++ (e ∷ []))
        ≡ sum_of (weight entry_size) es + weight entry_size e
  sum_of-append [] e = omega arith
  sum_of-append (d ∷ es) e = omega (arith, sum_of-append es e)

  -- No id stands twice, and both bounds are kept.
  pub record IsBounded (entries : List Entry) : Type 0 where
    pub distinct : AreDistinct (ids_of entries [])
    pub few : length entries ≤ skills_per_catalog
    pub small : sum_of (weight entry_size) entries ≤ scope_cache_bytes / 2

  record IsGathered (g : Gathered) : Type 0 where
    pub bounded : IsBounded g.entries
    pub known : g.seen ≡ ids_of g.entries []
    pub counted : g.measured ≡ sum_of (weight entry_size) g.entries

  warn-IsGathered : (w : Warning) (g : Gathered) → IsGathered g → IsGathered (warn w g)
  unfolding warn
  warn-IsGathered w g h = record { bounded = h.bounded; known = h.known; counted = h.counted }

  warn_all-IsGathered :
      (ws : List Warning) (g : Gathered) → IsGathered g → IsGathered (warn_all ws g)
  unfolding warn_all
  warn_all-IsGathered [] g h = h
  warn_all-IsGathered (w ∷ ws) g h = warn_all-IsGathered ws (warn w g) (warn-IsGathered w g h)

  pass_on-IsGathered :
      (snapshot : RootSnapshot) (g : Gathered) → IsGathered g → IsGathered (pass_on snapshot g)
  unfolding pass_on
  pass_on-IsGathered snapshot g h =
      if_cases IsGathered snapshot.complete g (warn_all snapshot.warnings g) (λ _. h)
        (λ _. warn_all-IsGathered snapshot.warnings g h)

  push_entry-IsGathered :
      (e : Entry) (g : Gathered)
      → has_text e.found.id g.seen ≡ false
      → is_full (weight entry_size e) g ≡ false
      → IsGathered g
      → IsGathered (push_entry e (weight entry_size e) g)
  unfolding push_entry is_full
  push_entry-IsGathered e g new space h = record {
    bounded = record {
      distinct = rw (ids_of-append g.entries e []) (rw h.known at new, h.bounded.distinct);
      few = ground (arith, space, length-append g.entries (e ∷ []));
      small = ground (arith, space, sum_of-append g.entries e, h.counted);
    };
    known = ap (λ l. e.found.id ∷ l) h.known ∙ sym (ids_of-append g.entries e []);
    counted = omega (arith, sum_of-append g.entries e, h.counted);
  }

  add_skills-IsGathered :
      (root : Root) (canonical : Text) (skills : List RootEntry) (g : Gathered)
      → IsGathered g
      → IsGathered (add_skills entry_size root canonical skills g)
  unfolding add_skills entry_of
  add_skills-IsGathered root canonical [] g h = h
  add_skills-IsGathered root canonical (skill ∷ skills) g h =
      let e = entry_of root canonical skill in
      choose_cases IsGathered (has_text skill.id g.seen)
        (λ _. add_skills-IsGathered root canonical skills g h)
        (λ new.
          choose_cases IsGathered (is_full (weight entry_size e) g)
            (λ _. warn-IsGathered catalog_limit g h)
            (λ space.
              add_skills-IsGathered root canonical skills (push_entry e (weight entry_size e) g)
                (push_entry-IsGathered e g new space h)))

module _ {S : Type 0} (setting : Setting S) (check : Io (World S) (Unit {0})) (refresh : Bool)
    (excluded : List Text) where
  abbrev AreGathered : Gathered → Type 0
  AreGathered = IsGathered setting.entry_size

  add_root-IsGathered :
      (root : Root) (canonical : Text) (g : Gathered)
      → AreGathered g
      → Yields AreGathered (add_root setting check refresh excluded root canonical g)
  unfolding add_root
  add_root-IsGathered root canonical g h =
      let key =
        setting.key_of (canonical ++ (0 ∷ setting.reader.hash (setting.paths_text excluded))) in
      any-Yields _ (drop_root setting refresh key) (λ _.
        any-Yields _ (find_root setting key) (λ found.
          any-Yields _ (cached_root setting check key canonical excluded found) (λ snapshot.
            returns-Yields _ _ (
              add_skills-IsGathered setting.entry_size root canonical snapshot.entries _ (
                pass_on-IsGathered setting.entry_size snapshot _
                  (record { bounded = h.bounded; known = h.known; counted = h.counted }))))))

  add_resolved-IsGathered :
      (root : Root) (real : Outcome Text) (g : Gathered)
      → AreGathered g
      → Yields AreGathered (add_resolved setting check refresh excluded root real g)
  unfolding add_resolved
  add_resolved-IsGathered root (failed e) g h = returns-Yields _ _ (
      if_cases AreGathered (missing e) g (warn root_not_accessible g) (λ _. h)
        (λ _. warn-IsGathered setting.entry_size root_not_accessible g h))
  add_resolved-IsGathered root (done canonical) g h =
      choose_cases (Yields AreGathered) (has_text canonical g.roots) (λ _. returns-Yields _ g h)
        (λ _. add_root-IsGathered root canonical g h)

  add_roots-IsGathered :
      (roots : List Root) (g : Gathered)
      → AreGathered g
      → Yields AreGathered (add_roots setting check refresh excluded roots g)
  unfolding add_roots
  add_roots-IsGathered [] g h = returns-Yields _ g h
  add_roots-IsGathered (root ∷ roots) g h = any-Yields _ check (λ _.
      any-Yields _ (attempt (setting.disk.realpath root.logical)) (λ real.
        bind-Yields AreGathered _ (add_resolved-IsGathered root real g h)
          (λ next hn. add_roots-IsGathered roots next hn)))

module _ {S : Type 0} (setting : Setting S) (check : Io (World S) (Unit {0})) (refresh : Bool) where
  pub build_catalog-IsBounded :
      (workdir : Text)
      → Yields
          (λ catalog. IsBounded setting.entry_size catalog.entries)
          (build_catalog setting check refresh workdir)
  unfolding build_catalog catalog_of
  build_catalog-IsBounded workdir = any-Yields _ (updates _) (λ _. any-Yields _ _ (λ scope.
      any-Yields _ (disabled_paths setting) (λ paths.
        bind-Yields (IsGathered setting.entry_size) _
          (add_roots-IsGathered setting check refresh paths scope.roots _ (record {
            bounded = record { distinct = tt; few = omega arith; small = omega arith };
            known = refl;
            counted = refl;
          }))
          (λ g hg. any-Yields _ check (λ _. any-Yields _ setting.walker.yield_loop (λ _.
            any-Yields _ check (λ _.
              any-Yields _ (clock setting.now)
                (λ time. any-Yields _ (updates _) (λ _. returns-Yields _ _ hg.bounded)))))))))
