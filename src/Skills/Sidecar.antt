-- ===== src/Skills/Sidecar.antt =====
-- The optional agents/openai.yaml of a skill, as src/skills/metadata.ts reads it. The YAML parser is
-- the host's.
use mcp_dev_runtime.Base.{
  ℕ, zero, suc, Bool, true, false, Option, none, some, List, [], ◌∷◌, ◌++◌, ltb, if◌then◌else◌,
  length, codes,
}
use mcp_dev_runtime.Base.Text.{Text, equal, is_space, trim}
use mcp_dev_runtime.Runtime.PatchEngine.Actions.{
  Outcome, done, failed, Io, returns, throws, ◌>>=◌, ◌>>◌, system, another,
}
use mcp_dev_runtime.Skills.Files.{Host}

-- The values that a YAML document comes to.
mutual
  pub data Yaml : Type 0 where
    null number : Yaml
    boolean : Bool → Yaml
    text : Text → Yaml
    array : Items → Yaml
    object : Fields → Yaml

  pub data Items : Type 0 where
    no_items : Items
    item : Yaml → Items → Items

  pub data Fields : Type 0 where
    ended : Fields
    entry : Text → Yaml → Fields → Fields

pub data Warning : Type 0 where
  product_restriction dependencies_omitted sidecar_invalid : Warning

-- value[key]; a field that is not there is `undefined`.
unfoldable pub lookup : Text → Fields → Option Yaml
lookup key ended = none
lookup key (entry k v rest) = if equal k key then some v else lookup key rest

-- `field ?? fallback`
unfoldable pub or_else : Text → Option Yaml → Option Yaml
or_else fallback none = some (text fallback)
or_else fallback (some null) = some (text fallback)
or_else fallback (some v) = some v

-- text.replace(/\s+/g, ' '); `inside` says that the last character was a space.
unfoldable pub collapse : Bool → Text → Text
collapse inside [] = []
collapse inside (c ∷ t) =
    let spaced = collapse true t in
    let plain = collapse false t in
    if is_space c then (if inside then spaced else 32 ∷ spaced) else c ∷ plain

unfoldable pub first_items : ℕ → Items → List Yaml
first_items zero items = []
first_items (suc n) no_items = []
first_items (suc n) (item v items) = v ∷ first_items n items

unfoldable pub has_items : Items → Bool
has_items no_items = false
has_items (item v items) = true

-- `policy.products !== undefined && (!Array.isArray(policy.products) || policy.products.length)`
unfoldable pub is_restricted : Option Yaml → Bool
is_restricted none = false
is_restricted (some (array items)) = has_items items
is_restricted (some v) = true

-- `policy.allow_implicit_invocation !== undefined && typeof it !== 'boolean'`
unfoldable pub is_bad_policy : Option Yaml → Bool
is_bad_policy none = false
is_bad_policy (some (boolean b)) = false
is_bad_policy (some v) = true

-- `policy.allow_implicit_invocation !== false`
unfoldable pub allows : Option Yaml → Bool
allows (some (boolean false)) = false
allows _ = true

-- What the second part of `loadMetadata` changes.
pub record Draft : Type 0 where
  pub implicit_allowed : Bool
  pub sidecar_revision : Text
  pub short_description : Option Text
  pub dependencies : List Text
  pub warnings : List Warning

-- `??=`
unfoldable pub keep_first : Option Text → Option Text → Option Text
keep_first none new = new
keep_first (some old) new = some old

module _ {S : Type 0} where
  unfoldable pub stop : {A : Type 0} → Io S A
  stop = throws (system another)

  -- `object`
  unfoldable pub fields_of : Option Yaml → Io S Fields
  fields_of (some (object fields)) = returns fields
  fields_of _ = stop

  unfoldable pub changes : (S → S) → Io S (Unit {0})
  changes f s = (f s, done tt)

  unfoldable pub bounded : Host → Text → ℕ → Bool → Io S (Option Text)
  bounded host [] maximum required = if required then stop else returns none
  bounded host (c ∷ t) maximum required =
      if ltb maximum (length (host.encode (c ∷ t))) then stop else returns (some (c ∷ t))

  unfoldable pub field : Host → Option Yaml → ℕ → Bool → Io S (Option Text)
  field host none maximum required = if required then stop else returns none
  field host (some (text t)) maximum required =
      bounded host (trim (collapse false t)) maximum required
  field host (some v) maximum required = stop

unfoldable pub read_policy : Option Yaml → Io Draft (Unit {0})
read_policy none = returns tt
read_policy (some v) = do
  policy ← fields_of (some v)
  let allow = lookup (codes "allow_implicit_invocation") policy
  if is_bad_policy allow then stop else returns tt
  changes (λ d. record d { implicit_allowed = allows allow })
  if is_restricted (lookup (codes "products") policy)
      then changes (λ d. record d {
        implicit_allowed = false;
        warnings = d.warnings ++ (product_restriction ∷ []);
      })
      else returns tt

unfoldable pub read_interface : Host → Option Yaml → Io Draft (Unit {0})
read_interface host none = returns tt
read_interface host (some v) = do
  interface ← fields_of (some v)
  short ← field host (lookup (codes "short_description") interface) 1024 false
  changes (λ d. record d { short_description = keep_first d.short_description short })

unfoldable pub push_dependency : Option Text → Option Text → Draft → Draft
push_dependency (some kind) (some value) d = record d {
  dependencies = d.dependencies ++ ((kind ++ (58 ∷ value)) ∷ []);
}
push_dependency _ _ d = d

unfoldable pub read_tools : Host → List Yaml → Io Draft (Unit {0})
read_tools host [] = returns tt
read_tools host (declared ∷ tools) = do
  d ← fields_of (some declared)
  kind ← field host (lookup (codes "type") d) 64 false
  value ← field host (lookup (codes "value") d) 128 false
  changes (push_dependency kind value)
  read_tools host tools

unfoldable pub count_items : Items → ℕ
count_items no_items = 0
count_items (item v items) = suc (count_items items)

unfoldable pub read_list : Host → Option Yaml → Io Draft (Unit {0})
read_list host none = returns tt
read_list host (some (array items)) = do
  read_tools host (first_items 16 items)
  if ltb 16 (count_items items)
      then changes (λ d. record d { warnings = d.warnings ++ (dependencies_omitted ∷ []) })
      else returns tt
read_list host (some v) = stop

unfoldable pub read_dependencies : Host → Option Yaml → Io Draft (Unit {0})
read_dependencies host none = returns tt
read_dependencies host (some v) = do
  fields ← fields_of (some v)
  read_list host (lookup (codes "tools") fields)

unfoldable pub read_sidecar : Host → Option Yaml → Io Draft (Unit {0})
read_sidecar host document = do
  doc ← fields_of document
  read_policy (lookup (codes "policy") doc)
  read_interface host (lookup (codes "interface") doc)
  read_dependencies host (lookup (codes "dependencies") doc)

-- The `catch` of the second part.
unfoldable pub or_restricted : Draft × Outcome (Unit {0}) → Draft
or_restricted (d, done u) = d
or_restricted (d, failed e) = record d {
  implicit_allowed = false;
  sidecar_revision = codes "invalid";
  warnings = d.warnings ++ (sidecar_invalid ∷ []);
}
