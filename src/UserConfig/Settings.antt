-- ===== src/UserConfig/Settings.antt =====
-- src/user-config.ts: where each setting of a document goes.
use mcp_dev_runtime.Base.{
  Bool, true, false, ◌&&◌, ◌||◌, Option, none, some, List, [], ◌∷◌, String, ◌≡◌, ◌≢◌, ◌⊎◌, inl, inr,
  refl, ap, ◌∙◌, arith, Bool-cases,
}
use text.Mathlib.Text.{◌==◌}
use text.Mathlib.TextEquality.{eq_iff}
use mcp_dev_runtime.Base.JsMap.{JsMap, get, string_discrete, IsMap}
use mcp_dev_runtime.UserConfig.{
  has_name, strict_sections, unified_keys, Place, whole_of, field_of, runtime_table, launcher_table,
  is_strict, section_fits, sections_fit, doc_fits, parse_unified, members_of, section_of, value_at,
  with_value, settings, config_of, runtime_config, launcher_config,
}

unfoldable pub same_place : Place → Place → Bool
same_place (whole_of s) (whole_of t) = s == t
same_place (field_of s f) (field_of t g) = (s == t) && (f == g)
same_place (whole_of s) (field_of t g) = false
same_place (field_of s f) (whole_of t) = false

same_text : (s t : String) → (s == t) ≡ true → s ≡ t
same_text s t e = (eq_iff s t).0 e

same_place_lem : (p q : Place) → same_place p q ≡ true → p ≡ q
unfolding same_place
same_place_lem (whole_of s) (whole_of t) e = ap whole_of (same_text s t e)
same_place_lem (field_of s f) (field_of t g) e =
    let a : s ≡ t = same_text s t (ground (arith, e)) in
    let b : f ≡ g = same_text f g (ground (arith, e)) in
    ap (λ x. field_of x f) a ∙ ap (field_of t) b
same_place_lem (whole_of s) (field_of t g) e = absurd (ground (arith, e))
same_place_lem (field_of s f) (whole_of t) e = absurd (ground (arith, e))

unfoldable pub is_in : Place → JsMap String Place → Bool
is_in place [] = false
is_in place ((key, p) ∷ table) = same_place place p || is_in place table

-- A place of a table stands under some key.
place_found :
    (place : Place) (table : JsMap String Place)
    → IsMap string_discrete table
    → is_in place table ≡ true
    → (key : String) × (get string_discrete key table ≡ some place)
unfolding is_in get
place_found place [] u h = absurd (ground (arith, h))
place_found place ((key, p) ∷ table) u h = elim (Bool-cases (same_place place p)) [
  | inl same ↦ (key, ground (arith, same_place_lem place p same))
  | inr differ ↦
      let (k, g) = place_found place table u.1 (ground (arith, h, differ)) in
      (k, ground (arith, g, u.0))
]

-- Every name of a list passes a test.
unfoldable pub all_names : (String → Bool) → List String → Bool
all_names p [] = true
all_names p (n ∷ names) = p n && all_names p names

name_passes :
    (p : String → Bool) (names : List String) (name : String)
    → all_names p names ≡ true
    → has_name name names ≡ true
    → p name ≡ true
unfolding all_names has_name
name_passes p [] name all h = absurd (ground (arith, h))
name_passes p (n ∷ names) name all h = elim (Bool-cases (name == n)) [
  | inl same ↦ ap p (same_text name n same) ∙ ground (arith, all)
  | inr differ ↦ name_passes p names name (ground (arith, all)) (ground (arith, h, differ))
]

unfoldable pub is_mapped : Place → Bool
is_mapped place = is_in place runtime_table || is_in place launcher_table

has_no_place : Option Place → Bool
has_no_place none = true
has_no_place (some p) = false

-- No key stands twice, as a test.
is_table : JsMap String Place → Bool
is_table [] = true
is_table ((key, p) ∷ table) = has_no_place (get string_discrete key table) && is_table table

is_table-IsMap : (table : JsMap String Place) → is_table table ≡ true → IsMap string_discrete table
unfolding is_table has_no_place
is_table-IsMap [] h = tt
is_table-IsMap ((key, p) ∷ table) h = (ground (arith, h), is_table-IsMap table (ground (arith, h)))

runtime_table-IsMap : IsMap string_discrete runtime_table
unfolding is_table has_no_place get string_discrete
runtime_table-IsMap = is_table-IsMap runtime_table refl

launcher_table-IsMap : IsMap string_discrete launcher_table
unfolding is_table has_no_place get string_discrete
launcher_table-IsMap = is_table-IsMap launcher_table refl

-- The sections that a configuration takes as they are, and those it takes field by field.
abbrev pub whole_sections : List String
whole_sections = "exec" ∷ "history" ∷ "image" ∷ "patch" ∷ "tools" ∷ "skills" ∷ []

abbrev pub split_sections : List String
split_sections = "mcp" ∷ "tunnel" ∷ "runtime" ∷ "logging" ∷ "request_cache" ∷ []

unfoldable pub fields_mapped : String → Option (List String) → Bool
fields_mapped section none = false
fields_mapped section (some fields) = all_names (λ field. is_mapped (field_of section field)) fields

unfoldable pub split_mapped : String → Bool
split_mapped section = fields_mapped section (get string_discrete section strict_sections)

wholes_mapped : all_names (λ name. is_mapped (whole_of name)) whole_sections ≡ true
unfolding all_names is_mapped is_in same_place
wholes_mapped = refl

splits_mapped : all_names split_mapped split_sections ≡ true
unfolding all_names split_mapped fields_mapped get string_discrete is_mapped is_in same_place
splits_mapped = refl

unfoldable pub is_section : String → Bool
is_section key =
    (key == "schema_version") || (has_name key whole_sections || has_name key split_sections)

keys_sections : all_names is_section unified_keys ≡ true
unfolding all_names is_section has_name
keys_sections = refl

module _ {V : Type 0} (object : V → Option (JsMap String V)) (is_one : V → Bool) where
  get-with_value :
      (j : String) (o : Option V) (m : JsMap String V)
      → get string_discrete j (with_value object is_one j o m)
        ≡ (elim o [ none ↦ get string_discrete j m | some v ↦ some v ])
  unfolding with_value get
  get-with_value j none m = refl
  get-with_value j (some v) m = ground arith

  get-with_value_other :
      (k j : String) (o : Option V) (m : JsMap String V)
      → j ≢ k
      → get string_discrete k (with_value object is_one j o m) ≡ get string_discrete k m
  unfolding with_value get
  get-with_value_other k j none m differ = refl
  get-with_value_other k j (some v) m differ = ground (arith, differ)

  -- What stands at a place of the document is the setting of the key that the table gives it.
  settings-get :
      (doc : JsMap String V) (x : V) (place : Place) (key : String) (table : JsMap String Place)
      → get string_discrete key table ≡ some place
      → value_at object is_one place doc ≡ some x
      → get string_discrete key (settings object is_one table doc) ≡ some x
  unfolding settings get
  settings-get doc x place key [] g v = absurd (ground (arith, g))
  settings-get doc x place key ((j, p) ∷ table) g v = ground (
    arith,
    g,
    v,
    settings-get doc x place key table,
    get-with_value key (value_at object is_one p doc) (settings object is_one table doc),
    get-with_value_other key j (value_at object is_one p doc) (settings object is_one table doc),
  )

  get-is_strict :
      (names : List String) (m : JsMap String V) (key : String) (x : V)
      → is_strict names m ≡ true
      → get string_discrete key m ≡ some x
      → has_name key names ≡ true
  unfolding is_strict get
  get-is_strict names [] key x h g = absurd (ground (arith, g))
  get-is_strict names ((k, v) ∷ m) key x h g = ground (arith, h, g, get-is_strict names m key x)

  sections_fit-get :
      (sections : JsMap String (List String)) (doc : JsMap String V) (name : String)
      (names : List String)
      → sections_fit object is_one sections doc ≡ true
      → get string_discrete name sections ≡ some names
      → section_fits object is_one names (get string_discrete name doc) ≡ true
  unfolding sections_fit get
  sections_fit-get [] doc name names h g = absurd (ground (arith, g))
  sections_fit-get ((s, ns) ∷ sections) doc name names h g =
      ground (arith, h, g, sections_fit-get sections doc name names)

  section_fits-is_strict :
      (names : List String) (o : Option V)
      → section_fits object is_one names o ≡ true
      → is_strict names (members_of object is_one o) ≡ true
  unfolding section_fits members_of is_strict
  section_fits-is_strict names none h = refl
  section_fits-is_strict names (some value) h = ground (arith, h)

  -- A value is in one of the two configurations.
  pub record IsKept (value x : V) : Type 0 where
    pub config : JsMap String V
    pub key : String
    pub either :
        (runtime_config object is_one value ≡ some config)
        ⊎ (launcher_config object is_one value ≡ some config)
    pub there : get string_discrete key config ≡ some x

  module _ (value : V) (doc : JsMap String V)
      (parsed : parse_unified object is_one value ≡ some doc) where
    in_table :
        (place : Place) (x : V) (table : JsMap String Place)
        → IsMap string_discrete table
        → is_in place table ≡ true
        → value_at object is_one place doc ≡ some x
        → (key : String) × (get string_discrete key (settings object is_one table doc) ≡ some x)
    in_table place x table u h v =
        let (key, g) = place_found place table u h in (key, settings-get doc x place key table g v)

    mapped-IsKept :
        (place : Place) (x : V)
        → is_mapped place ≡ true
        → value_at object is_one place doc ≡ some x
        → IsKept value x
    unfolding is_mapped runtime_config launcher_config config_of
    mapped-IsKept place x h v = elim (Bool-cases (is_in place runtime_table)) [
      | inl e ↦
          let (key, g) = in_table place x runtime_table runtime_table-IsMap e v in
          record {
            config = settings object is_one runtime_table doc;
            key = key;
            either = inl (ap (config_of object is_one runtime_table) parsed);
            there = g;
          }
      | inr e ↦
          let (key, g) =
            in_table place x launcher_table launcher_table-IsMap (ground (arith, h, e)) v in
          record {
            config = settings object is_one launcher_table doc;
            key = key;
            either = inr (ap (config_of object is_one launcher_table) parsed);
            there = g;
          }
    ]

    fits : doc_fits object is_one doc ≡ true
    unfolding parse_unified
    fits = ground (arith, parsed)

    fields-IsKept :
        (key field : String) (x : V) (o : Option (List String))
        → get string_discrete key strict_sections ≡ o
        → fields_mapped key o ≡ true
        → get string_discrete field (section_of object is_one key doc) ≡ some x
        → IsKept value x
    unfolding fields_mapped doc_fits section_of value_at
    fields-IsKept key field x none e h g = absurd (ground (arith, h))
    fields-IsKept key field x (some fields) e h g =
        mapped-IsKept (field_of key field) x
          (name_passes (λ f. is_mapped (field_of key f)) fields field h
            (get-is_strict fields (section_of object is_one key doc) field x
              (section_fits-is_strict fields (get string_discrete key doc)
                (sections_fit-get strict_sections doc key fields (ground (arith, fits)) e))
              g))
          g

    split-IsKept :
        (key field : String) (x : V)
        → has_name key split_sections ≡ true
        → get string_discrete field (section_of object is_one key doc) ≡ some x
        → IsKept value x
    unfolding split_mapped
    split-IsKept key field x h g =
        fields-IsKept key field x (get string_discrete key strict_sections) refl
          (name_passes split_mapped split_sections key splits_mapped h) g

    -- In a document that fits the schema every section is the version, or one that is kept as it is,
    -- or one of which every field is kept: its value is under some key of the configuration of the
    -- runtime or of that of the launcher.
    pub parse_unified-IsKept :
        (key : String) (x : V)
        → get string_discrete key doc ≡ some x
        → (key ≡ "schema_version")
          ⊎ (IsKept value x
              ⊎ ((field : String) (y : V)
                  → get string_discrete field (section_of object is_one key doc) ≡ some y
                  → IsKept value y))
    unfolding is_section doc_fits value_at
    parse_unified-IsKept key x g = elim (Bool-cases (key == "schema_version")) [
      | inl e ↦ inl (same_text key "schema_version" e)
      | inr other ↦ inr (elim (Bool-cases (has_name key whole_sections)) [
        | inl e ↦ inl (
            mapped-IsKept (whole_of key) x
              (name_passes (λ name. is_mapped (whole_of name)) whole_sections key wholes_mapped e)
              g)
        | inr split ↦
            inr (λ field y h. split-IsKept key field y (ground (arith, known, other, split)) h)
      ])
    ]
      where
        known : is_section key ≡ true
        known =
            name_passes is_section unified_keys key keys_sections
              (get-is_strict unified_keys doc key x (ground (arith, fits)) g)
