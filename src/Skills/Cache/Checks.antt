-- ===== src/Skills/Cache/Checks.antt =====
-- Tests of the cache of skills, and its theorem at a concrete input.
use mcp_dev_runtime.Base.{ℕ, ◌+◌, ◌≤◌, some, [], ◌∷◌, ◌≡◌, refl, arith}
use mcp_dev_runtime.Base.JsMap
use mcp_dev_runtime.Base.JsMap.{string_discrete}
use mcp_dev_runtime.Skills.Cache.{BoundedCache, set}
use mcp_dev_runtime.Skills.Cache.Storing.{IsValid, set-IsValid}

-- A cache of one entry and ten bytes, which holds one.
abbrev full : BoundedCache ℕ
full = record {
  entries = ("a", record { value = 7; bytes = 6; until = 100 }) ∷ [];
  bytes = 6;
  capacity = 1;
  max_bytes = 10;
}

full-IsValid : IsValid ℕ full
unfolding JsMap.get
full-IsValid = record {
  unique = (refl, tt);
  counted = refl;
  bytes_le = omega arith;
  entries_le = omega arith;
}

set-IsValid_example :
    IsValid ℕ (set 5 "b" 8 9 20 full)
    × (9 ≤ full.max_bytes
        → JsMap.get string_discrete "b" (set 5 "b" 8 9 20 full).entries
          ≡ some (record { value = 8; bytes = 9; until = 5 + 20 }))
set-IsValid_example = set-IsValid 5 "b" 8 9 20 full full-IsValid (omega arith)
