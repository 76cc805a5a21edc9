-- ===== src/UserConfig.antt =====
-- src/user-config.ts: a unified configuration document, and the configurations of the runtime and of the
-- launcher that it stands for. JSON values and the library's check of a strict object are given by what
-- tells whether a value is an object, with its members, or the number one.
pub mod Settings
mod Checks
use mcp_dev_runtime.Base.{
  Bool, true, false, ◌&&◌, ◌||◌, Option, none, some, List, [], ◌∷◌, String, if◌then◌else◌,
}
use text.Mathlib.Text.{◌==◌}
use mcp_dev_runtime.Base.JsMap.{JsMap, get, string_discrete}

unfoldable pub has_name : String → List String → Bool
has_name name [] = false
has_name name (n ∷ names) = (name == n) || has_name name names

-- The sections of `unifiedSchema` that are strict objects, with their fields.
abbrev pub strict_sections : JsMap String (List String)
strict_sections =
    ("mcp", "transport" ∷ "host" ∷ "port" ∷ "path" ∷ "health_path" ∷ "max_http_body_bytes" ∷ [])
    ∷ (
      "tunnel",
      "enabled" ∷ "health_port" ∷ "ready_timeout_ms" ∷ "health_interval_ms" ∷ "binary" ∷ [],
    )
    ∷ ("tools", "allow" ∷ [])
    ∷ ("skills", "extra_roots" ∷ "disabled_paths" ∷ [])
    ∷ ("runtime", "cwd" ∷ "shell" ∷ "state_dir" ∷ "logs_dir" ∷ "env_file" ∷ "shell_env" ∷ [])
    ∷ ("logging", "level" ∷ "max_bytes" ∷ "files" ∷ [])
    ∷ ("request_cache", "entries" ∷ "ttl_ms" ∷ [])
    ∷ []

-- The keys of `unifiedSchema`.
abbrev pub unified_keys : List String
unified_keys =
    "schema_version" ∷ "mcp" ∷ "tunnel" ∷ "tools" ∷ "skills" ∷ "runtime" ∷ "exec" ∷ "history"
    ∷ "image" ∷ "patch" ∷ "logging" ∷ "request_cache" ∷ []

abbrev pub discriminator_keys : List String
discriminator_keys =
    "schema_version" ∷ "mcp" ∷ "tunnel" ∷ "runtime" ∷ "logging" ∷ "request_cache" ∷ []

-- What a setting is taken from: a whole section, or a field of one.
pub data Place : Type 0 where
  whole_of : String → Place
  field_of : String → String → Place

-- The settings of `runtimeConfigFromUnified`, in its order.
abbrev pub runtime_table : JsMap String Place
runtime_table =
    ("transport", field_of "mcp" "transport")
    ∷ ("host", field_of "mcp" "host")
    ∷ ("port", field_of "mcp" "port")
    ∷ ("mcp_path", field_of "mcp" "path")
    ∷ ("health_path", field_of "mcp" "health_path")
    ∷ ("cwd", field_of "runtime" "cwd")
    ∷ ("shell", field_of "runtime" "shell")
    ∷ ("exec", whole_of "exec")
    ∷ ("history", whole_of "history")
    ∷ ("image", whole_of "image")
    ∷ ("patch", whole_of "patch")
    ∷ ("tools", whole_of "tools")
    ∷ ("skills", whole_of "skills")
    ∷ ("request_cache_entries", field_of "request_cache" "entries")
    ∷ ("request_cache_ttl_ms", field_of "request_cache" "ttl_ms")
    ∷ ("max_http_body_bytes", field_of "mcp" "max_http_body_bytes")
    ∷ ("log_level", field_of "logging" "level")
    ∷ []

-- The settings of `launcherConfigFromUnified`, in its order.
abbrev pub launcher_table : JsMap String Place
launcher_table =
    ("state_dir", field_of "runtime" "state_dir")
    ∷ ("logs_dir", field_of "runtime" "logs_dir")
    ∷ ("env_file", field_of "runtime" "env_file")
    ∷ ("shell_env", field_of "runtime" "shell_env")
    ∷ ("tunnel_enabled", field_of "tunnel" "enabled")
    ∷ ("tunnel_health_port", field_of "tunnel" "health_port")
    ∷ ("ready_timeout_ms", field_of "tunnel" "ready_timeout_ms")
    ∷ ("health_interval_ms", field_of "tunnel" "health_interval_ms")
    ∷ ("tunnel_bin", field_of "tunnel" "binary")
    ∷ ("log_max_bytes", field_of "logging" "max_bytes")
    ∷ ("log_files", field_of "logging" "files")
    ∷ []

module _ {V : Type 0} where
  -- No key but these.
  unfoldable pub is_strict : List String → JsMap String V → Bool
  is_strict names [] = true
  is_strict names ((k, v) ∷ m) = has_name k names && is_strict names m

  -- `Object.keys(value).some(key => …)`
  unfoldable pub has_any_of : List String → JsMap String V → Bool
  has_any_of names [] = false
  has_any_of names ((k, v) ∷ m) = has_name k names || has_any_of names m

module _ {V : Type 0} (object : V → Option (JsMap String V)) (is_one : V → Bool) where
  unfoldable pub is_unified : V → Bool
  is_unified value = elim (object value) [
    | none ↦ false
    | some doc ↦ has_any_of discriminator_keys doc
  ]

  unfoldable pub section_fits : List String → Option V → Bool
  section_fits names none = true
  section_fits names (some value) = elim (object value) [
    | none ↦ false
    | some members ↦ is_strict names members
  ]

  unfoldable pub sections_fit : JsMap String (List String) → JsMap String V → Bool
  sections_fit [] doc = true
  sections_fit ((name, names) ∷ sections) doc =
      section_fits names (get string_discrete name doc) && sections_fit sections doc

  -- `z.literal(1).optional()`
  unfoldable pub version_fits : Option V → Bool
  version_fits none = true
  version_fits (some value) = is_one value

  unfoldable pub doc_fits : JsMap String V → Bool
  doc_fits doc =
      is_strict unified_keys doc
      && (version_fits (get string_discrete "schema_version" doc)
          && sections_fit strict_sections doc)

  -- The document, if it fits the schema; else the code throws.
  unfoldable pub parse_unified : V → Option (JsMap String V)
  parse_unified value = elim (object value) [
    | none ↦ none
    | some doc ↦ if doc_fits doc then some doc else none
  ]

  unfoldable pub members_of : Option V → JsMap String V
  members_of none = []
  members_of (some value) = elim (object value) [ none ↦ [] | some members ↦ members ]

  -- `doc.mcp ?? {}`
  unfoldable pub section_of : String → JsMap String V → JsMap String V
  section_of name doc = members_of (get string_discrete name doc)

  unfoldable pub value_at : Place → JsMap String V → Option V
  value_at (whole_of name) doc = get string_discrete name doc
  value_at (field_of name field) doc = get string_discrete field (section_of name doc)

  -- `...(value !== undefined ? { key: value } : {})`
  unfoldable pub with_value : String → Option V → JsMap String V → JsMap String V
  with_value key none rest = rest
  with_value key (some value) rest = (key, value) ∷ rest

  unfoldable pub settings : JsMap String Place → JsMap String V → JsMap String V
  settings [] doc = []
  settings ((key, place) ∷ table) doc = with_value key (value_at place doc) (settings table doc)

  unfoldable pub config_of : JsMap String Place → Option (JsMap String V) → Option (JsMap String V)
  config_of table none = none
  config_of table (some doc) = some (settings table doc)

  unfoldable pub runtime_config : V → Option (JsMap String V)
  runtime_config value = config_of runtime_table (parse_unified value)

  unfoldable pub launcher_config : V → Option (JsMap String V)
  launcher_config value = config_of launcher_table (parse_unified value)
