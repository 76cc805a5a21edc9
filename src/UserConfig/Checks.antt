-- ===== src/UserConfig/Checks.antt =====
-- Examples for src/user-config.ts, on a document with one section; a value is an object or a number.
use mcp_dev_runtime.Base.{
  ℕ, Bool, Option, none, some, [], ◌∷◌, String, ◌≡◌, ◌⊎◌, refl, ◌==◌, if◌then◌else◌,
}
use mcp_dev_runtime.Base.JsMap.{JsMap, get, string_discrete}
use mcp_dev_runtime.UserConfig.{
  section_of, parse_unified, doc_fits, is_strict, has_name, version_fits, sections_fit,
  section_fits,
}
use mcp_dev_runtime.UserConfig.Settings.{IsKept, parse_unified-IsKept}

-- The values: 0 is the document, 2 its section "mcp", 3 its section "exec"; others are numbers.
abbrev port_only : JsMap String ℕ
port_only = ("port", 9000) ∷ []

abbrev document : JsMap String ℕ
document = ("mcp", 2) ∷ ("exec", 3) ∷ []

abbrev mcp_name : String
mcp_name = "mcp"

abbrev object_of : ℕ → Option (JsMap String ℕ)
object_of n = if n == 0 then some document else if n == 2 then some port_only else none

abbrev is_version : ℕ → Bool
is_version n = n == 1

parse_unified-IsKept_example :
    (mcp_name ≡ "schema_version")
    ⊎ (IsKept object_of is_version 0 2
        ⊎ ((field : String) (y : ℕ)
            → get string_discrete field (section_of object_of is_version "mcp" document) ≡ some y
            → IsKept object_of is_version 0 y))
unfolding parse_unified doc_fits is_strict has_name version_fits sections_fit section_fits get
    string_discrete
parse_unified-IsKept_example =
    parse_unified-IsKept object_of is_version 0 document refl "mcp" 2 refl
