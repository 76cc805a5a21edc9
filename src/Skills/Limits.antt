-- ===== src/Skills/Limits.antt =====
-- src/skills/limits.ts: the bounds of the skills.
use mcp_dev_runtime.Base.{ℕ, ◌*◌}

abbrev pub catalog_ttl_ms : ℕ
catalog_ttl_ms = 30000

abbrev pub body_ttl_ms : ℕ
body_ttl_ms = 600000

abbrev pub metadata_bytes : ℕ
metadata_bytes = 16 * 1024

abbrev pub file_bytes : ℕ
file_bytes = 256 * 1024

abbrev pub discovery_bytes : ℕ
discovery_bytes = 4096

abbrev pub read_bytes : ℕ
read_bytes = 24 * 1024

abbrev pub scan_depth : ℕ
scan_depth = 8

abbrev pub directories_per_root : ℕ
directories_per_root = 2048

abbrev pub entries_per_root : ℕ
entries_per_root = 10000

abbrev pub skills_per_root : ℕ
skills_per_root = 512

abbrev pub skills_per_catalog : ℕ
skills_per_catalog = 1024

abbrev pub roots_per_catalog : ℕ
roots_per_catalog = 128

abbrev pub ancestors : ℕ
ancestors = 64

abbrev pub scan_deadline_ms : ℕ
scan_deadline_ms = 5000

abbrev pub request_deadline_ms : ℕ
request_deadline_ms = 15000

abbrev pub root_cache_bytes : ℕ
root_cache_bytes = 12 * 1024 * 1024

abbrev pub scope_cache_bytes : ℕ
scope_cache_bytes = 8 * 1024 * 1024

abbrev pub body_cache_bytes : ℕ
body_cache_bytes = 8 * 1024 * 1024

abbrev pub root_cache_entries : ℕ
root_cache_entries = 64

abbrev pub scope_cache_entries : ℕ
scope_cache_entries = 16

abbrev pub body_cache_entries : ℕ
body_cache_entries = 32

abbrev pub warnings : ℕ
warnings = 8
