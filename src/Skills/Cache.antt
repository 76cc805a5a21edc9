-- ===== src/Skills/Cache.antt =====
-- BoundedCache of src/skills/cache.ts.
pub mod Storing
mod Checks
use mcp_dev_runtime.Base.{
  ℕ, zero, suc, ◌+◌, ◌-◌, Bool, true, false, ◌||◌, Option, none, some, List, [], ◌∷◌, ltb, leb,
  if◌then◌else◌, length, String,
}
use mcp_dev_runtime.Base.JsMap.{JsMap, string_discrete}
use mcp_dev_runtime.Base.JsMap

pub record CacheEntry (T : Type 0) : Type 0 where
  pub value : T
  pub bytes : ℕ
  pub until : ℕ

pub record BoundedCache (T : Type 0) : Type 0 where
  pub entries : JsMap String (CacheEntry T)
  pub bytes : ℕ
  pub capacity : ℕ
  pub max_bytes : ℕ

module _ {T : Type 0} where
  unfoldable pub delete : String → BoundedCache T → BoundedCache T
  delete key c = elim (JsMap.get string_discrete key c.entries) [
    | none ↦ c
    | some e ↦ record c {
      bytes = c.bytes - e.bytes;
      entries = JsMap.delete string_discrete key c.entries;
    }
  ]

  -- A value that is found becomes the youngest.
  unfoldable pub get : ℕ → String → BoundedCache T → BoundedCache T × Option T
  get now key c = elim (JsMap.get string_discrete key c.entries) [
    | none ↦ (c, none)
    | some e ↦ if leb e.until now then (delete key c, none) else (
      record c {
        entries = JsMap.set string_discrete key e (JsMap.delete string_discrete key c.entries);
      },
      some e.value,
    )
  ]

  unfoldable pub is_full : ℕ → BoundedCache T → Bool
  is_full bytes c = leb c.capacity (length c.entries) || ltb c.max_bytes (c.bytes + bytes)

  -- this.delete(this.entries.keys().next().value!)
  unfoldable pub delete_first : JsMap String (CacheEntry T) → BoundedCache T → BoundedCache T
  delete_first [] c = c
  delete_first ((key, e) ∷ m) c = delete key c

  unfoldable pub delete_oldest : BoundedCache T → BoundedCache T
  delete_oldest c = delete_first c.entries c

  -- The loop of `set`; a round removes an entry.
  unfoldable pub make_place : ℕ → ℕ → BoundedCache T → BoundedCache T
  make_place zero bytes c = c
  make_place (suc rounds) bytes c =
      let rest = make_place rounds bytes (delete_oldest c) in if is_full bytes c then rest else c

  unfoldable pub insert : ℕ → String → CacheEntry T → BoundedCache T → BoundedCache T
  insert bytes key e c = record c {
    entries = JsMap.set string_discrete key e c.entries;
    bytes = c.bytes + bytes;
  }

  unfoldable pub set : ℕ → String → T → ℕ → ℕ → BoundedCache T → BoundedCache T
  set now key value bytes ttl c =
      let without = delete key c in
      let e : CacheEntry T = record { value = value; bytes = bytes; until = now + ttl } in
      if ltb c.max_bytes bytes
      then without
      else insert bytes key e (make_place (length without.entries) bytes without)

  unfoldable pub clear : BoundedCache T → BoundedCache T
  clear c = record c { entries = []; bytes = 0 }

  unfoldable pub size : BoundedCache T → ℕ
  size c = length c.entries
