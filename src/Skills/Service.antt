-- ===== src/Skills/Service.antt =====
-- SkillsService of src/skills/service.ts: its state, the frame of a request and the cursors. What
-- happens while a request waits is up to the actions that it is given, and they may change the state.
pub mod Requests
pub mod Cursors
pub mod Catalogs
pub mod Reading
pub mod Discovery
use mcp_dev_runtime.Base.{
  ℕ, zero, suc, ◌+◌, ◌-◌, Bool, true, false, not, ◌&&◌, ◌||◌, Option, none, some, List, [], ◌∷◌,
  ◌++◌, ltb, leb, ◌==◌, if◌then◌else◌, length, String, Number, whole, other, Bytes,
  max_safe_integer,
}
use mcp_dev_runtime.Base.Text.{Text, equal, split}
use mcp_dev_runtime.Base.JsMap.{JsMap}
use mcp_dev_runtime.Runtime.Errors.{
  Result, ok, err, ToolError, skills_closed, skills_busy, skills_timeout, invalid_skill_cursor,
}
use mcp_dev_runtime.Runtime.PatchEngine.Actions.{
  Outcome, done, failed, Io, returns, ◌>>=◌, ◌>>◌, attempt, settle, refuse_if, from_result,
}
use mcp_dev_runtime.Skills.Cache
use mcp_dev_runtime.Skills.Limits
use mcp_dev_runtime.Skills.Cache.{BoundedCache}
use mcp_dev_runtime.Skills.Limits.{request_deadline_ms}
use mcp_dev_runtime.Skills.Scopes.{RootScope, Scope, RootEntry, RootSnapshot}

pub record Entry : Type 0 where
  pub found : RootEntry
  pub source_root : Text
  pub canonical_root : Text
  pub scope : RootScope

-- The search index is made of the entries.
pub record Catalog : Type 0 where
  pub scope : Scope
  pub entries : List Entry
  pub revision : Text

pub record Body : Type 0 where
  pub bytes : Bytes
  pub stamp : Text
  pub file : Text
  pub metadata_revision : Text
  pub scope : Text
  pub id : Text
  pub resource : Text
  pub revision : Text

pub data Kind : Type 0 where
  list read : Kind

pub record Cursor : Type 0 where
  pub kind : Kind
  pub scope : Text
  pub revision : Text
  pub offset : Number
  pub query : Option Text
  pub key : Option Text

pub record Counts : Type 0 where
  pub root_scans : ℕ
  pub catalog_builds : ℕ
  pub discoveries : ℕ
  pub reads : ℕ

-- A load that is under way is a number, and `loads` the next one.
pub record SkillsService : Type 0 where
  pub root_cache : BoundedCache RootSnapshot
  pub catalogs : BoundedCache Catalog
  pub bodies : BoundedCache Body
  pub root_loads : JsMap String ℕ
  pub catalog_loads : JsMap String ℕ
  pub loads : ℕ
  pub active : ℕ
  pub closed : Bool
  pub counts : Counts

abbrev empty_cache : {T : Type 0} → ℕ → ℕ → BoundedCache T
empty_cache capacity max_bytes = record {
  entries = [];
  bytes = 0;
  capacity = capacity;
  max_bytes = max_bytes;
}

-- The service as it is made.
unfoldable pub new_service : SkillsService
new_service = record {
  root_cache = empty_cache Limits.root_cache_entries Limits.root_cache_bytes;
  catalogs = empty_cache Limits.scope_cache_entries Limits.scope_cache_bytes;
  bodies = empty_cache Limits.body_cache_entries Limits.body_cache_bytes;
  root_loads = [];
  catalog_loads = [];
  loads = 0;
  active = 0;
  closed = false;
  counts = record { root_scans = 0; catalog_builds = 0; discoveries = 0; reads = 0 };
}

unfoldable pub close : SkillsService → SkillsService
close s = record s {
  closed = true;
  root_cache = Cache.clear s.root_cache;
  catalogs = Cache.clear s.catalogs;
  bodies = Cache.clear s.bodies;
}

pub record Diagnostics : Type 0 where
  pub counts : Counts
  pub active : ℕ
  pub root_entries : ℕ
  pub scope_entries : ℕ
  pub body_entries : ℕ
  pub accounted_cache_bytes : ℕ
  pub closed : Bool

unfoldable pub diagnostics : SkillsService → Diagnostics
diagnostics s = record {
  counts = s.counts;
  active = s.active;
  root_entries = Cache.size s.root_cache;
  scope_entries = Cache.size s.catalogs;
  body_entries = Cache.size s.bodies;
  accounted_cache_bytes = s.root_cache.bytes + s.catalogs.bytes + s.bodies.bytes;
  closed = s.closed;
}

-- The service and what is outside of it.
pub record World (S : Type 0) : Type 0 where
  pub service : SkillsService
  pub elsewhere : S

module _ {S : Type 0} where
  unfoldable pub looks : {A : Type 0} → (SkillsService → A) → Io (World S) A
  looks f w = (w, done (f w.service))

  unfoldable pub updates : (SkillsService → SkillsService) → Io (World S) (Unit {0})
  updates f w = (record w { service = f w.service }, done tt)

  -- Date.now()
  unfoldable pub clock : (World S → ℕ) → Io (World S) ℕ
  clock now w = (w, done (now w))

  -- The function `check` of a request.
  unfoldable pub check : (World S → ℕ) → ℕ → Io (World S) (Unit {0})
  check now until = do
    closed ← looks (λ s. s.closed)
    refuse_if closed skills_closed
    time ← clock now
    refuse_if (ltb until time) skills_timeout

  unfoldable pub finish : {A : Type 0} → Outcome A → Io (World S) A
  finish outcome = do updates (λ s. record s { active = s.active - 1 }); settle outcome

  unfoldable pub run_checked :
      {A : Type 0} → Io (World S) (Unit {0}) → Io (World S) A → Io (World S) A
  run_checked check fn = do value ← fn; check; returns value

  unfoldable pub request :
      {A : Type 0} → (World S → ℕ) → (Io (World S) (Unit {0}) → Io (World S) A) → Io (World S) A
  request now fn = do
    closed ← looks (λ s. s.closed)
    refuse_if closed skills_closed
    active ← looks (λ s. s.active)
    refuse_if (leb 4 active) skills_busy
    updates (λ s. record s { active = s.active + 1 })
    start ← clock now
    let checks = check now (start + request_deadline_ms)
    outcome ← attempt (run_checked checks (fn checks))
    finish outcome

-- What the host makes of the parts of a cursor: base64url, JSON and the keyed digest.
pub record Codec : Type 0 where
  pub to_base64 : Bytes → Text
  pub from_base64 : Text → Bytes
  pub stringify : Cursor → Bytes
  pub parse : Bytes → Option Cursor
  pub hmac : Text → Bytes

unfoldable pub is_kind : Kind → Kind → Bool
is_kind list list = true
is_kind read read = true
is_kind _ _ = false

unfoldable pub is_offset : Number → Bool
is_offset (whole n) = leb n max_safe_integer
is_offset other = false

module _ (codec : Codec) where
  unfoldable pub encode : Cursor → Text
  encode cursor =
      let coded = codec.to_base64 (codec.stringify cursor) in
      coded ++ (46 ∷ codec.to_base64 (codec.hmac coded))

  unfoldable pub is_accepted : Kind → Text → Cursor → Bool
  is_accepted kind scope cursor =
      is_kind cursor.kind kind && equal cursor.scope scope && is_offset cursor.offset

  unfoldable pub checked_cursor : Kind → Text → Option Cursor → Result Cursor
  checked_cursor kind scope none = err invalid_skill_cursor
  checked_cursor kind scope (some cursor) =
      if is_accepted kind scope cursor then ok cursor else err invalid_skill_cursor

  unfoldable pub decode_parts : Kind → Text → Text → Text → Text → Result Cursor
  decode_parts kind scope coded mac extra =
      if equal coded []
        || equal mac []
        || not (equal extra [])
        || not (equal (codec.from_base64 mac) (codec.hmac coded))
      then err invalid_skill_cursor
      else checked_cursor kind scope (codec.parse (codec.from_base64 coded))

  -- `const [data, mac, extra] = value.split('.')`; a part that is missing counts as an empty one.
  unfoldable pub decode_split : Kind → Text → List Text → Result Cursor
  decode_split kind scope (coded ∷ mac ∷ extra ∷ rest) = decode_parts kind scope coded mac extra
  decode_split kind scope (coded ∷ mac ∷ []) = decode_parts kind scope coded mac []
  decode_split kind scope _ = err invalid_skill_cursor

  unfoldable pub decode : Text → Kind → Text → Result Cursor
  decode value kind scope = decode_split kind scope (split 46 value)

-- `a.cursor ? this.decode(a.cursor, kind, scope) : undefined`
unfoldable pub decoded :
    {S : Type 0} → Codec → Kind → Option Text → Text → Io (World S) (Option Cursor)
decoded codec kind none scope = returns none
decoded codec kind (some value) scope = do
  cursor ← from_result (decode codec value kind scope)
  returns (some cursor)

-- `cursor?.offset ?? 0`
unfoldable pub offset_of : Option Cursor → ℕ
offset_of none = 0
offset_of (some c) = elim c.offset [ whole n ↦ n | other ↦ 0 ]

unfoldable pub is_given : {A : Type 0} → Option A → Bool
is_given none = false
is_given (some a) = true
