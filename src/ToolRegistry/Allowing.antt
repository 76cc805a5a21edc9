-- ===== src/ToolRegistry/Allowing.antt =====
-- Which lists validateToolAllowlist of src/mcp/tool-registry.ts lets through.
use mcp_dev_runtime.Base.{
  true, false, List, [], ◌∷◌, String, Bool-cases, inl, inr, ◌≡◌, ◌↔◌, ◌≢◌, refl, sym, ◌∙◌, arith,
}
use text.Mathlib.Text.{◌==◌}
use text.Mathlib.TextEquality.{eq_iff}
use mathlib.Core.Bool.{false≢true}
use mcp_dev_runtime.Base.Sorting.{All, Pairwise}
use mcp_dev_runtime.UserConfig.{has_name}
use mcp_dev_runtime.ToolRegistry.{allowed, known_tool_names, allow_loop, validate_tool_allowlist}

abbrev pub IsKnown : String → Type 0
IsKnown name = has_name name known_tool_names ≡ true

abbrev pub Differ : String → String → Type 0
Differ s t = s ≢ t

-- Names that are not among these.
abbrev AreNew : List String → List String → Type 0
AreNew seen names = All (λ name. has_name name seen ≡ false) names

differ_test : (s t : String) → s ≢ t → (t == s) ≡ false
differ_test s t differ = elim (Bool-cases (t == s)) [
  | inl same ↦ absurd (differ (sym ((eq_iff t s).0 same)))
  | inr e ↦ e
]

-- Names that are not among these and not this one.
AreNew-split :
    (name : String) (seen names : List String)
    → AreNew (name ∷ seen) names
    → AreNew seen names × All (Differ name) names
unfolding has_name
AreNew-split name seen [] a = (tt, tt)
AreNew-split name seen (n ∷ names) (h, hs) =
    let (u, v) = AreNew-split name seen names hs in
    (
      (ground (arith, h), u),
      (λ same. false≢true (sym (ground (arith, h)) ∙ (eq_iff n name).1 (sym same)), v),
    )

AreNew-join :
    (name : String) (seen names : List String)
    → AreNew seen names
    → All (Differ name) names
    → AreNew (name ∷ seen) names
unfolding has_name
AreNew-join name seen [] a b = tt
AreNew-join name seen (n ∷ names) (h, hs) (d, ds) =
    (ground (arith, h, differ_test name n d), AreNew-join name seen names hs ds)

allow_loop_sound :
    (value seen names : List String)
    → allow_loop value seen names ≡ allowed value
    → All IsKnown names × Pairwise Differ names × AreNew seen names
unfolding allow_loop
allow_loop_sound value seen [] h = (tt, tt, tt)
allow_loop_sound value seen (name ∷ names) h =
    let (known, apart, new) = allow_loop_sound value (name ∷ seen) names (ground (arith, h)) in
    let (u, v) = AreNew-split name seen names new in
    ((ground (arith, h), known), (v, apart), (ground (arith, h), u))

allow_loop_complete :
    (value seen names : List String)
    → All IsKnown names
    → Pairwise Differ names
    → AreNew seen names
    → allow_loop value seen names ≡ allowed value
unfolding allow_loop
allow_loop_complete value seen [] known apart new = refl
allow_loop_complete value seen (name ∷ names) (k, known) (d, apart) (n, new) = ground (
  arith,
  k,
  n,
  allow_loop_complete value (name ∷ seen) names known apart (AreNew-join name seen names new d),
)

nothing_seen : (names : List String) → AreNew [] names
unfolding has_name
nothing_seen [] = tt
nothing_seen (n ∷ names) = (refl, nothing_seen names)

-- A list of tools is allowed just if every name is that of a tool and no name stands in it twice.
pub validate_tool_allowlist_iff :
    (value : List String)
    → (validate_tool_allowlist value ≡ allowed value) ↔ (All IsKnown value × Pairwise Differ value)
unfolding validate_tool_allowlist
validate_tool_allowlist_iff value = (
  λ h. let (known, apart, new) = allow_loop_sound value [] value h in (known, apart),
  λ (known, apart). allow_loop_complete value [] value known apart (nothing_seen value),
)
