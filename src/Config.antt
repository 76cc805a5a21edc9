-- ===== src/Config.antt =====
-- expandPath of src/config.ts, for a host that is not Windows. The home directory and the functions of
-- node:path are parameters.
use mcp_dev_runtime.Base.{
  Bool, false, ◌||◌, Option, none, some, [], ◌∷◌, ◌==◌, if◌then◌else◌, codes,
}
use mcp_dev_runtime.Base.Text.{Text, equal, strip}
use mcp_dev_runtime.Runtime.Errors.{Result, ok, err, invalid_path}

pub record Paths : Type 0 where
  pub home : Text
  pub join : Text → Text → Text
  pub resolve : Text → Text → Text

-- value.includes('\0')
unfoldable pub has_nul : Text → Bool
has_nul [] = false
has_nul (c ∷ t) = c == 0 || has_nul t

unfoldable pub at_home : Paths → Text → Option Text → Text
at_home paths value none = value
at_home paths value (some rest) = paths.join paths.home rest

unfoldable pub expanded : Paths → Text → Text
expanded paths value =
    if equal value (codes "~") then paths.home else at_home paths value (strip (codes "~/") value)

unfoldable pub expand_path : Paths → Text → Text → Result Text
expand_path paths value base =
    if has_nul value then err invalid_path else ok (paths.resolve base (expanded paths value))
