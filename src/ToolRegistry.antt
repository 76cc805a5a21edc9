-- ===== src/ToolRegistry.antt =====
-- src/mcp/tool-registry.ts: the tools, and the list of those that a configuration allows.
pub mod Allowing
mod Checks
use mcp_dev_runtime.Base.{Bool, true, false, List, [], ◌∷◌, String, if◌then◌else◌}
use mcp_dev_runtime.Base.{map, keep}
use mcp_dev_runtime.UserConfig.{has_name}

pub data Stability : Type 0 where
  stable experimental : Stability

pub record ToolPolicy : Type 0 where
  pub name : String
  pub stability : Stability

abbrev pub tool_policies : List ToolPolicy
tool_policies =
    record { name = "exec_command"; stability = stable }
    ∷ record { name = "write_stdin"; stability = stable }
    ∷ record { name = "apply_patch"; stability = stable }
    ∷ record { name = "view_image"; stability = stable }
    ∷ record { name = "list_exec_sessions"; stability = stable }
    ∷ record { name = "terminate_exec_session"; stability = stable }
    ∷ record { name = "discover_skills"; stability = experimental }
    ∷ record { name = "read_skill"; stability = experimental }
    ∷ []

abbrev is_stable : ToolPolicy → Bool
is_stable p = elim p.stability [ stable ↦ true | experimental ↦ false ]

abbrev policy_name : ToolPolicy → String
policy_name p = p.name

unfoldable pub known_tool_names : List String
known_tool_names = map policy_name tool_policies

unfoldable pub default_tool_allowlist : List String
default_tool_allowlist = map policy_name (keep is_stable tool_policies)

-- What `validateToolAllowlist` comes to: the list, or the name that it refuses.
pub data Allowance : Type 0 where
  allowed : List String → Allowance
  unknown : String → Allowance
  duplicate : String → Allowance

-- The loop; `seen` are the names before.
unfoldable pub allow_loop : List String → List String → List String → Allowance
allow_loop value seen [] = allowed value
allow_loop value seen (name ∷ names) =
    let rest = allow_loop value (name ∷ seen) names in
    if has_name name known_tool_names
    then (if has_name name seen then duplicate name else rest)
    else unknown name

unfoldable pub validate_tool_allowlist : List String → Allowance
validate_tool_allowlist value = allow_loop value [] value
