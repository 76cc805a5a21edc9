-- ===== src/Skills/Scan/Walking.antt =====
-- The rounds of scanRoot of src/skills/scan.ts, and the queue of its directories.
use mcp_dev_runtime.Base.{
  ℕ, zero, suc, ◌+◌, ◌-◌, ◌%◌, ◌≤◌, ◌<◌, false, ◌||◌, ap, Option, none, some, List, [], ◌∷◌, ◌++◌,
  ltb, leb, ◌==◌, length, length-append, ◌≡◌, refl, arith, if_cases,
}
use mcp_dev_runtime.Base.Choices.{choose_cases, option_cases, list_cases}
use mcp_dev_runtime.Base.Text.{Text}
use mcp_dev_runtime.Runtime.PatchEngine.Actions.{Outcome, done, failed, returns, ◌>>◌, attempt}
use mcp_dev_runtime.Runtime.PatchEngine.Yielding.{
  Yields, returns-Yields, bind-Yields, any-Yields, outcome_cases,
}
use mcp_dev_runtime.Skills.Limits.{scan_depth, directories_per_root, skills_per_root}
use mcp_dev_runtime.Skills.Scan.{
  Scanner, Walk, Child, Listing, warn, skips, is_directory, push_children, add_skill, skill_of,
  enter, with_listing, visit, walk, is_exhausted, sorted, has_skill, some_inside, list_directory,
}
use mcp_dev_runtime.Skills.Scopes.{
  Warning, RootEntry, has_text, scan_limit, link_broken, nesting_limit, directory_limit,
  skill_skipped, directory_unreadable, not_enumerated, entry_limit,
}

-- The directories that may still be visited.
abbrev pub room : Walk → ℕ
room s = length s.left + (directories_per_root - s.queued)

-- A round adds at most a skill, and no directories beyond the bound of the queue.
pub record IsStep (s v : Walk) : Type 0 where
  pub directories : room v ≤ room s
  pub skills : length v.entries ≤ length s.entries + 1

abbrev pub IsWalked : Option Walk → Type 0
IsWalked none = ⊥
IsWalked (some s) = length s.entries ≤ skills_per_root

same-IsStep : (s v : Walk) → room v ≤ room s → v.entries ≡ s.entries → IsStep s v
same-IsStep s v h e = record { directories = h; skills = rw e (omega arith) }

-- Warnings count for nothing.
warn-IsStep : (w : Warning) (s v : Walk) → IsStep s v → IsStep s (warn w v)
unfolding warn
warn-IsStep w s v h = record { directories = h.directories; skills = h.skills }

with_listing-IsStep : (l : Listing) (s v : Walk) → IsStep s v → IsStep s (with_listing l v)
unfolding with_listing
with_listing-IsStep l s v h =
    let counted : Walk = record v { entry_count = l.count } in
    let hc : IsStep s counted = record { directories = h.directories; skills = h.skills } in
    if_cases (IsStep s) l.limited (warn entry_limit counted) counted
      (λ _. warn-IsStep entry_limit s counted hc) (λ _. hc)

-- A step that adds no skill.
abbrev IsBare : Walk → Walk → Type 0
IsBare s w = IsStep s w × (w.entries ≡ s.entries)

module _ {S : Type 0} (scan : Scanner S) where
  push_children-IsBare :
      (directory : Text) (depth : ℕ) (children : List Child) (s v : Walk)
      → IsBare s v
      → Yields (IsBare s) (push_children scan directory depth children v)
  unfolding push_children warn
  push_children-IsBare directory depth [] s v h = returns-Yields _ v h
  push_children-IsBare directory depth (child ∷ children) s v h =
      choose_cases (Yields (IsBare s)) (skips child)
        (λ _. push_children-IsBare directory depth children s v h)
        (λ _. any-Yields _ (is_directory scan (scan.host.join directory child.name) child) (λ found.
          option_cases (Yields (IsBare s)) found
            (λ _.
              push_children-IsBare directory depth children s (warn link_broken v)
                (warned link_broken))
            (λ marked _.
              choose_cases (Yields (IsBare s)) marked
                (λ _.
                  choose_cases (Yields (IsBare s)) (leb scan_depth depth)
                    (λ _.
                      push_children-IsBare directory depth children s (warn nesting_limit v)
                        (warned nesting_limit))
                    (λ _.
                      choose_cases (Yields (IsBare s)) (leb directories_per_root v.queued)
                        (λ _. returns-Yields _ (warn directory_limit v) (warned directory_limit))
                        (λ space.
                          push_children-IsBare directory depth children s _ (pushed space))))
                (λ _. push_children-IsBare directory depth children s v h))))
    where
      warned : (w : Warning) → IsBare s (warn w v)
      warned w = (warn-IsStep w s v h.0, h.1)

      more : Walk
      more = record v {
        left = v.left ++ ((scan.host.join directory child.name, depth + 1) ∷ []);
        queued = v.queued + 1;
      }

      pushed : leb directories_per_root v.queued ≡ false → IsBare s more
      pushed space = (
        same-IsStep s more
            (ground (
              arith,
              space,
              h.0.directories,
              length-append v.left ((scan.host.join directory child.name, depth + 1) ∷ []),
            ))
            h.1,
        h.1,
      )

  add_skill-IsStep :
      (o : Outcome (Option RootEntry)) (s v : Walk)
      → IsBare s v
      → Yields (IsStep s) (add_skill scan v o)
  unfolding add_skill
  add_skill-IsStep (done none) s v h = returns-Yields _ v h.0
  add_skill-IsStep (done (some e)) s v h = any-Yields _ scan.walker.yield_loop (λ _.
      returns-Yields _ _ (record {
        directories = h.0.directories;
        skills = rw h.1 (omega (arith, length-append s.entries (e ∷ [])));
      }))
  add_skill-IsStep (failed e) s v h =
      any-Yields _ scan.walker.yield_loop
        (λ _. returns-Yields _ (warn skill_skipped v) (warn-IsStep skill_skipped s v h.0))

  enter-IsStep :
      (canonical : Text) (offset depth : ℕ) (directory resolved : Text) (children : List Child)
      (s v : Walk)
      → IsBare s v
      → Yields (IsStep s) (enter scan canonical offset depth directory resolved children v)
  unfolding enter
  enter-IsStep canonical offset depth directory resolved children s v h =
      choose_cases (Yields (IsStep s)) (has_skill children)
        (λ _.
          any-Yields _ (attempt (skill_of scan canonical directory resolved))
            (λ o. add_skill-IsStep o s v h))
        (λ _.
          bind-Yields (IsBare s) _ (push_children-IsBare directory depth children s v h) (λ w hw.
            if_cases (Yields (IsStep s)) (offset % 8 == 0) (scan.walker.yield_loop >> returns w)
              (returns w) (λ _. any-Yields _ scan.walker.yield_loop (λ _. returns-Yields _ w hw.0))
              (λ _. returns-Yields _ w hw.0)))

  listed-IsBare :
      (l : Listing) (resolved : Text) (s : Walk)
      → IsBare s (
          with_listing l
            (record s { seen = resolved ∷ s.seen; directory_count = s.directory_count + 1 }))
  unfolding with_listing warn
  listed-IsBare l resolved s =
      let start : Walk = record s {
        seen = resolved ∷ s.seen;
        directory_count = s.directory_count + 1;
      } in
      let counted : Walk = record start { entry_count = l.count } in
      if_cases (IsBare s) l.limited (warn entry_limit counted) counted
        (λ _. (warn-IsStep entry_limit s counted (same-IsStep s counted (omega arith) refl), refl))
        (λ _. (same-IsStep s counted (omega arith) refl, refl))

  visit-IsStep :
      (canonical : Text) (offset : ℕ) (directory : Text) (depth : ℕ) (s : Walk)
      → Yields (IsStep s) (visit scan canonical offset directory depth s)
  unfolding visit
  visit-IsStep canonical offset directory depth s =
      any-Yields _ (attempt (scan.disk.realpath directory)) (λ real.
        outcome_cases (Yields (IsStep s)) real
          (λ _.
            returns-Yields _ _
              (warn-IsStep directory_unreadable s s (same-IsStep s s (omega arith) refl)))
          (λ resolved.
            choose_cases (Yields (IsStep s))
              (some_inside scan.host scan.disabled directory resolved || has_text resolved s.seen)
              (λ _. returns-Yields _ s (same-IsStep s s (omega arith) refl))
              (λ _. any-Yields _ (list_directory scan directory s.entry_count) (λ l.
                choose_cases (Yields (IsStep s)) l.broken
                  (λ _. any-Yields _ scan.check (λ _.
                    returns-Yields _ _
                      (warn-IsStep not_enumerated s _ (listed-IsBare l resolved s).0)))
                  (λ _.
                    enter-IsStep canonical offset depth directory resolved (sorted l.children) s _
                      (listed-IsBare l resolved s))))))

  -- Enough rounds are given, whatever the file system answers.
  pub walk-IsWalked :
      (rounds : ℕ) (canonical : Text) (until offset : ℕ) (s : Walk)
      → room s < rounds
      → length s.entries ≤ skills_per_root
      → Yields IsWalked (walk scan rounds canonical until offset s)
  unfolding walk is_exhausted warn
  walk-IsWalked zero canonical until offset s few h = absurd (omega arith)
  walk-IsWalked (suc rounds) canonical until offset s few h =
      list_cases (Yields IsWalked) s.left (λ _. returns-Yields _ (some s) h)
        (λ next left at. any-Yields _ scan.check (λ _. any-Yields _ scan.walker.now (λ time.
          choose_cases (Yields IsWalked) (is_exhausted (ltb until time) s)
            (λ _. returns-Yields _ (some (warn scan_limit s)) h)
            (λ going.
              bind-Yields (IsStep (record s { left = left })) _
                (visit-IsStep canonical offset next.0 next.1 (record s { left = left }))
                (λ v step.
                  walk-IsWalked rounds canonical until (offset + 1) v (fewer next left at v step)
                    (ground (arith, going, step.skills)))))))
    where
      fewer :
          (next : Text × ℕ) (left : List (Text × ℕ)) (at : s.left ≡ next ∷ left) (v : Walk)
          → IsStep (record s { left = left }) v
          → room v < rounds
      fewer next left at v step = omega (arith, ap length at, step.directories, few)
