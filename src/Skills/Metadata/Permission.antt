-- ===== src/Skills/Metadata/Permission.antt =====
-- When loadMetadata of src/skills/metadata.ts lets a skill be used without being asked for.
use mcp_dev_runtime.Base.{
  ℕ, Bool, true, false, Option, none, some, List, [], ◌∷◌, ltb, length, codes, ◌≡◌, refl, arith,
  Bool-cases, inl, inr,
}
use mcp_dev_runtime.Base.Text.{Text, trim}
use mcp_dev_runtime.Runtime.PatchEngine.Actions.{
  Outcome, done, failed, Io, returns, throws, go_on, ◌>>=◌, system, another,
}
use mcp_dev_runtime.Runtime.PatchEngine.Reading.{
  Keeps, bind-Keeps, returns-Keeps, throws-Keeps, if-Keeps,
}
use mcp_dev_runtime.Skills.Files.{Host}
use mcp_dev_runtime.Skills.Metadata.{Reader, draft_of}
use mcp_dev_runtime.Skills.Sidecar.{
  Yaml, null, number, boolean, text, array, object, no_items, item, Fields, Draft, lookup,
  is_restricted, is_bad_policy, allows, stop, fields_of, changes, field, read_policy,
  read_interface, read_tools, read_list, read_dependencies, read_sidecar, first_items, count_items,
  push_dependency, or_restricted, collapse, has_items, bounded,
}

-- The policy that a sidecar states admits that the skill is used without being asked for.
abbrev pub IsFree : Option Yaml → Type 0
IsFree none = Unit
IsFree (some (array items)) = items ≡ no_items
IsFree (some v) = ⊥

abbrev pub IsAllowed : Option Yaml → Type 0
IsAllowed none = Unit
IsAllowed (some (boolean b)) = b ≡ true
IsAllowed (some v) = ⊥

abbrev pub IsOpenPolicy : Option Yaml → Type 0
IsOpenPolicy none = Unit
IsOpenPolicy (some (object policy)) =
    IsAllowed (lookup (codes "allow_implicit_invocation") policy)
    × IsFree (lookup (codes "products") policy)
IsOpenPolicy (some v) = ⊥

-- There is no sidecar, or it is a document whose policy is open.
abbrev pub IsOpen : Reader → Outcome (Option Text) → Type 0
IsOpen reader (failed e) = ⊥
IsOpen reader (done none) = Unit
IsOpen reader (done (some t)) =
    (doc : Fields) × (reader.parse t ≡ some (object doc))
    × IsOpenPolicy (lookup (codes "policy") doc)

abbrev implicit : Draft → Bool
implicit d = d.implicit_allowed

-- What follows if the part of the sidecar that was read did not throw and leaves the skill open.
abbrev Allows : Type 0 → Draft × Outcome (Unit {0}) → Type 0
Allows P (d, failed e) = Unit
Allows P (d, done u) = d.implicit_allowed ≡ true → P

go_on-Allows :
    (P : Type 0) (next : Unit {0} → Io Draft (Unit {0})) (r : Draft × Outcome (Unit {0}))
    → Allows P r
    → ((u : Unit {0}) → Keeps implicit (next u))
    → Allows P (go_on next r)
unfolding go_on
go_on-Allows P next (d, failed e) a k = tt
go_on-Allows P next (d, done u) a k = after (next u d) ((k u).kept d)
  where
    after :
        (r : Draft × Outcome (Unit {0})) → r.0.implicit_allowed ≡ d.implicit_allowed → Allows P r
    after (d', failed e) same = tt
    after (d', done v) same = λ h. a (cc)

fields_of-Keeps : (v : Option Yaml) → Keeps implicit (fields_of v)
unfolding fields_of stop
fields_of-Keeps (some (object fields)) = returns-Keeps implicit fields
fields_of-Keeps none = throws-Keeps implicit (system another)
fields_of-Keeps (some null) = throws-Keeps implicit (system another)
fields_of-Keeps (some number) = throws-Keeps implicit (system another)
fields_of-Keeps (some (boolean b)) = throws-Keeps implicit (system another)
fields_of-Keeps (some (text t)) = throws-Keeps implicit (system another)
fields_of-Keeps (some (array items)) = throws-Keeps implicit (system another)

bounded-Keeps :
    (host : Host) (t : Text) (maximum : ℕ) (required : Bool)
    → Keeps implicit (bounded host t maximum required)
unfolding bounded stop
bounded-Keeps host [] maximum required =
    if-Keeps implicit required (throws-Keeps implicit (system another))
      (returns-Keeps implicit none)
bounded-Keeps host (c ∷ t) maximum required =
    if-Keeps implicit (ltb maximum (length (host.encode (c ∷ t))))
      (throws-Keeps implicit (system another)) (returns-Keeps implicit (some (c ∷ t)))

field-Keeps :
    (host : Host) (v : Option Yaml) (maximum : ℕ) (required : Bool)
    → Keeps implicit (field host v maximum required)
unfolding field stop
field-Keeps host none maximum required =
    if-Keeps implicit required (throws-Keeps implicit (system another))
      (returns-Keeps implicit none)
field-Keeps host (some (text t)) maximum required =
    bounded-Keeps host (trim (collapse false t)) maximum required
field-Keeps host (some null) maximum required = throws-Keeps implicit (system another)
field-Keeps host (some number) maximum required = throws-Keeps implicit (system another)
field-Keeps host (some (boolean b)) maximum required = throws-Keeps implicit (system another)
field-Keeps host (some (array items)) maximum required = throws-Keeps implicit (system another)
field-Keeps host (some (object fields)) maximum required = throws-Keeps implicit (system another)

changes-Keeps :
    (f : Draft → Draft)
    → ((d : Draft) → (f d).implicit_allowed ≡ d.implicit_allowed)
    → Keeps implicit (changes f)
unfolding changes
changes-Keeps f same = record { kept = same }

push_dependency_same :
    (kind value : Option Text) (d : Draft)
    → (push_dependency kind value d).implicit_allowed ≡ d.implicit_allowed
unfolding push_dependency
push_dependency_same none value d = refl
push_dependency_same (some kind) none d = refl
push_dependency_same (some kind) (some value) d = refl

read_interface-Keeps : (host : Host) (v : Option Yaml) → Keeps implicit (read_interface host v)
unfolding read_interface
read_interface-Keeps host none = returns-Keeps implicit tt
read_interface-Keeps host (some v) = bind-Keeps implicit (fields_of-Keeps (some v)) (λ interface.
    bind-Keeps implicit (field-Keeps host (lookup (codes "short_description") interface) 1024 false)
      (λ short. changes-Keeps _ (λ d. refl)))

read_tools-Keeps : (host : Host) (tools : List Yaml) → Keeps implicit (read_tools host tools)
unfolding read_tools
read_tools-Keeps host [] = returns-Keeps implicit tt
read_tools-Keeps host (declared ∷ tools) =
    bind-Keeps implicit (fields_of-Keeps (some declared)) (λ d.
      bind-Keeps implicit (field-Keeps host (lookup (codes "type") d) 64 false) (λ kind.
        bind-Keeps implicit (field-Keeps host (lookup (codes "value") d) 128 false) (λ value.
          bind-Keeps implicit
            (changes-Keeps (push_dependency kind value) (push_dependency_same kind value))
            (λ _. read_tools-Keeps host tools))))

read_list-Keeps : (host : Host) (v : Option Yaml) → Keeps implicit (read_list host v)
unfolding read_list stop
read_list-Keeps host none = returns-Keeps implicit tt
read_list-Keeps host (some (array items)) =
    bind-Keeps implicit (read_tools-Keeps host (first_items 16 items)) (λ _.
      if-Keeps implicit (ltb 16 (count_items items)) (changes-Keeps _ (λ d. refl))
        (returns-Keeps implicit tt))
read_list-Keeps host (some null) = throws-Keeps implicit (system another)
read_list-Keeps host (some number) = throws-Keeps implicit (system another)
read_list-Keeps host (some (boolean b)) = throws-Keeps implicit (system another)
read_list-Keeps host (some (text t)) = throws-Keeps implicit (system another)
read_list-Keeps host (some (object fields)) = throws-Keeps implicit (system another)

read_dependencies-Keeps :
    (host : Host) (v : Option Yaml) → Keeps implicit (read_dependencies host v)
unfolding read_dependencies
read_dependencies-Keeps host none = returns-Keeps implicit tt
read_dependencies-Keeps host (some v) =
    bind-Keeps implicit (fields_of-Keeps (some v))
      (λ fields. read_list-Keeps host (lookup (codes "tools") fields))

IsAllowed-intro : (v : Option Yaml) → is_bad_policy v ≡ false → allows v ≡ true → IsAllowed v
unfolding is_bad_policy allows
IsAllowed-intro none good free = tt
IsAllowed-intro (some (boolean true)) good free = refl
IsAllowed-intro (some (boolean false)) good free = absurd (ground arith)
IsAllowed-intro (some null) good free = absurd (ground arith)
IsAllowed-intro (some number) good free = absurd (ground arith)
IsAllowed-intro (some (text t)) good free = absurd (ground arith)
IsAllowed-intro (some (array items)) good free = absurd (ground arith)
IsAllowed-intro (some (object fields)) good free = absurd (ground arith)

IsFree-intro : (v : Option Yaml) → is_restricted v ≡ false → IsFree v
unfolding is_restricted has_items
IsFree-intro none h = tt
IsFree-intro (some (array no_items)) h = refl
IsFree-intro (some (array (item v items))) h = absurd (ground arith)
IsFree-intro (some null) h = absurd (ground arith)
IsFree-intro (some number) h = absurd (ground arith)
IsFree-intro (some (text t)) h = absurd (ground arith)
IsFree-intro (some (boolean b)) h = absurd (ground arith)
IsFree-intro (some (object fields)) h = absurd (ground arith)

read_policy-Allows : (v : Option Yaml) (d : Draft) → Allows (IsOpenPolicy v) (read_policy v d)
unfolding read_policy fields_of stop ◌>>=◌ go_on throws returns changes
read_policy-Allows none d = λ _. tt
read_policy-Allows (some (object policy)) d =
    let allow = lookup (codes "allow_implicit_invocation") policy in
    let products = lookup (codes "products") policy in
    elim (Bool-cases (is_bad_policy allow)) [
      | inl bad ↦ rw bad tt
      | inr good ↦ elim (Bool-cases (is_restricted products)) [
        | inl restricted ↦ rw good (rw restricted (λ h. absurd (ground arith)))
        | inr free ↦
            rw good (rw free (λ h. (IsAllowed-intro allow good h, IsFree-intro products free)))
      ]
    ]
read_policy-Allows (some null) d = tt
read_policy-Allows (some number) d = tt
read_policy-Allows (some (boolean b)) d = tt
read_policy-Allows (some (text t)) d = tt
read_policy-Allows (some (array items)) d = tt

or_restricted-open :
    (P : Type 0) (r : Draft × Outcome (Unit {0}))
    → Allows P r
    → (or_restricted r).implicit_allowed ≡ true
    → P
unfolding or_restricted
or_restricted-open P (d, done u) a h = a h
or_restricted-open P (d, failed e) a h = absurd (ground arith)

read_sidecar-Allows :
    (host : Host) (v : Option Yaml) (d : Draft)
    → Allows
        ((doc : Fields) × (v ≡ some (object doc)) × IsOpenPolicy (lookup (codes "policy") doc))
        (read_sidecar host v d)
unfolding read_sidecar fields_of stop ◌>>=◌ go_on throws returns
read_sidecar-Allows host none d = tt
read_sidecar-Allows host (some (object doc)) d =
    go_on-Allows _ _ (read_policy (lookup (codes "policy") doc) d)
      (with_document (read_policy (lookup (codes "policy") doc) d)
        (read_policy-Allows (lookup (codes "policy") doc) d))
      (λ _.
        bind-Keeps implicit (read_interface-Keeps host (lookup (codes "interface") doc))
          (λ _. read_dependencies-Keeps host (lookup (codes "dependencies") doc)))
  where
    with_document :
        (r : Draft × Outcome (Unit {0}))
        → Allows (IsOpenPolicy (lookup (codes "policy") doc)) r
        → Allows
            ((other : Fields) × (some (object doc) ≡ some (object other))
              × IsOpenPolicy (lookup (codes "policy") other))
            r
    with_document (e, failed x) a = tt
    with_document (e, done u) a = λ h. (doc, refl, a h)
read_sidecar-Allows host (some null) d = tt
read_sidecar-Allows host (some number) d = tt
read_sidecar-Allows host (some (boolean b)) d = tt
read_sidecar-Allows host (some (text t)) d = tt
read_sidecar-Allows host (some (array items)) d = tt

pub draft_of-IsOpen :
    (host : Host) (reader : Reader) (short : Option Text) (outcome : Outcome (Option Text))
    → (draft_of host reader short outcome).implicit_allowed ≡ true
    → IsOpen reader outcome
unfolding draft_of or_restricted
draft_of-IsOpen host reader short (failed e) h = absurd (ground arith)
draft_of-IsOpen host reader short (done none) h = tt
draft_of-IsOpen host reader short (done (some t)) h =
    or_restricted-open _ (read_sidecar host (reader.parse t) _)
      (read_sidecar-Allows host (reader.parse t) _) h
