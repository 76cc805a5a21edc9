-- ===== src/ToolRegistry/Checks.antt =====
-- An example for src/mcp/tool-registry.ts, and the default list.
use mcp_dev_runtime.Base.{◌≡◌, refl}
use mcp_dev_runtime.UserConfig.{has_name}
use mcp_dev_runtime.ToolRegistry.{
  allowed, allow_loop, validate_tool_allowlist, default_tool_allowlist, known_tool_names,
}

-- The default list is allowed.
default_allowed : validate_tool_allowlist default_tool_allowlist ≡ allowed default_tool_allowlist
unfolding validate_tool_allowlist allow_loop default_tool_allowlist known_tool_names has_name
default_allowed = refl
