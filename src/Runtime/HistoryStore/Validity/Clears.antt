-- ===== src/Runtime/HistoryStore/Validity/Clears.antt =====
-- clear keeps the invariant of the store of src/runtime/history-store.ts.
use mcp_dev_runtime.Base.{
  true, false, not, ◌||◌, none, List, [], ◌∷◌, ◌≡◌, refl, ap, ◌∙◌, String, if_cases, arith,
}
use mcp_dev_runtime.Base.JsMap.{keys}
use mcp_dev_runtime.Runtime.Errors.{Result, ok, err}
use mcp_dev_runtime.Runtime.PatchParser.Grammar.{is_nil}
use mcp_dev_runtime.Runtime.HistoryStore.{Limits, HistoryStore, has, remove, is_protected}
use mcp_dev_runtime.Runtime.HistoryStore.Saving.{Disk}
use mcp_dev_runtime.Runtime.HistoryStore.Finishing.{remove_all, clear}
use mcp_dev_runtime.Runtime.HistoryStore.Reductions.{
  IsSound, IsReduced, IsReduced-refl, IsReduced-trans, remove-Removed,
}
use mcp_dev_runtime.Runtime.HistoryStore.Validity.{IsValid, reduced-IsValid}

idle-free :
    (id : String) (s : HistoryStore)
    → s.active ≡ []
    → (is_protected none id || has id s.active) ≡ false
unfolding is_protected has
idle-free id s idle = ap (has id) idle

module _ (disk : Disk) where
  abbrev IsReducedTo : HistoryStore → HistoryStore × Result (Unit {0}) → Type 0
  IsReducedTo s r = IsReduced none s r.0

  go_on-IsReduced :
      (s a : HistoryStore) (outcome : Result (Unit {0})) (rest : HistoryStore × Result (Unit {0}))
      → IsReduced none s a
      → IsReduced none a rest.0
      → IsReducedTo s (elim outcome [ err thrown ↦ (a, err thrown) | ok _ ↦ rest ])
  go_on-IsReduced s a (err thrown) rest one more = one
  go_on-IsReduced s a (ok u) rest one more = IsReduced-trans none s a rest.0 one more

  remove_all-IsReduced :
      (ids : List String) (s : HistoryStore)
      → IsSound s
      → s.active ≡ []
      → IsReduced none s (remove_all disk ids s).0
  unfolding remove_all
  remove_all-IsReduced [] s sound idle = IsReduced-refl none s sound
  remove_all-IsReduced (id ∷ ids) s sound idle =
      let one = (remove-Removed disk.unlinked none id s sound (idle-free id s idle)).0 in
      go_on-IsReduced s (remove disk.unlinked id s).0 (remove disk.unlinked id s).1
        (remove_all disk ids (remove disk.unlinked id s).0) one
        (remove_all-IsReduced ids (remove disk.unlinked id s).0 one.sound (one.active ∙ idle))

  is_nil-empty : (ids : List String) → is_nil ids ≡ true → ids ≡ []
  unfolding is_nil
  is_nil-empty [] e = refl
  is_nil-empty (id ∷ ids) e = absurd (ground (arith, e))

  -- Clearing keeps the invariant: a busy store is left as it is, and of another one archives are
  -- removed, up to the first that cannot be.
  pub clear-IsValid :
      (limits : Limits) (s : HistoryStore) → IsValid limits 0 s → IsValid limits 0 (clear disk s).0
  unfolding clear
  clear-IsValid limits s v =
      if_cases (λ (r : HistoryStore × Result (Unit {0})). IsValid limits 0 r.0)
        (not (is_nil s.active)) _ _ (λ busy. v)
        (λ idle. reduced-IsValid limits none 0 s (remove_all disk (keys s.entries) s).0 v (
          remove_all-IsReduced (keys s.entries) s v.sound
            (is_nil-empty s.active (ground (arith, idle)))))
