-- ===== src/Skills/Service/Reading/Responses.antt =====
-- The responses of `read` of src/skills/service.ts, with all that comes before them.
use mcp_dev_runtime.Base.{
  ℕ, ◌+◌, ◌≤◌, ◌<◌, true, false, Option, none, some, Bytes, ◌∷◌, ◌++◌, length, ◌≡◌, ◌⊎◌, arith,
}
use mcp_dev_runtime.Base.Slices.{length-slice}
use mcp_dev_runtime.Base.Text.{Text}
use mcp_dev_runtime.Runtime.Errors.{Result, ok, err}
use mcp_dev_runtime.Runtime.PatchEngine.Actions.{
  Outcome, done, failed, Io, returns, throws, attempt, as_value, settle, from_result,
}
use mcp_dev_runtime.Runtime.PatchEngine.Yielding.{
  IsDone, Yields, returns-Yields, bind-Yields, any-Yields, refused-Yields,
}
use mcp_dev_runtime.Skills.Limits.{read_bytes, request_deadline_ms}
use mcp_dev_runtime.Skills.Metadata.{Metadata}
use mcp_dev_runtime.Skills.Service.{
  Entry, Body, Cursor, Codec, World, check, finish, run_checked, request, offset_of,
}
use mcp_dev_runtime.Skills.Service.Catalogs.{Setting}
use mcp_dev_runtime.Skills.Service.Reading.{
  ReadArgs, SkillChunk, chunk_end, make, respond, mismatches, read_entry, read_checked, read_skill,
}
use mcp_dev_runtime.Skills.Service.Reading.Chunks.{IsChunk, IsCut, chunk_end-IsCut}

-- A response within the limit that is the end of the resource, or has some of it.
pub record IsAnswer (response_size : SkillChunk → ℕ) (chunk : SkillChunk) : Type 0 where
  pub fits : response_size chunk ≤ read_bytes
  pub progress : (chunk.content_complete ≡ true) ⊎ (0 < length chunk.contents)

offset_of-le :
    (cursor : Option Cursor) (body : Body)
    → mismatches cursor body ≡ false
    → offset_of cursor ≤ length body.bytes
unfolding mismatches offset_of
offset_of-le none body h = omega arith
offset_of-le (some c) body h = ground (arith, h)

module _ {S A : Type 0} (P : A → Type 0) where
  settle-Yields : (o : Outcome A) → IsDone P o → Yields {S = S} P (settle o)
  unfolding settle returns throws
  settle-Yields (done a) p = record { gives = λ s. p }
  settle-Yields (failed e) p = record { gives = λ s. tt }

  attempt-Yields : {m : Io S A} → Yields P m → Yields (IsDone P) (attempt m)
  unfolding attempt as_value
  attempt-Yields y = record { gives = λ s. y.gives s }

-- A request returns what its function does.
request-Yields :
    {S A : Type 0} (P : A → Type 0) (now : World S → ℕ)
    (fn : Io (World S) (Unit {0}) → Io (World S) A)
    → ((checks : Io (World S) (Unit {0})) → Yields P (fn checks))
    → Yields P (request now fn)
unfolding request finish run_checked
request-Yields P now fn y = any-Yields P _ (λ closed. any-Yields P _ (λ _. any-Yields P _ (λ active.
    any-Yields P _ (λ _. any-Yields P _ (λ _. any-Yields P _ (λ start.
      let checks = check now (start + request_deadline_ms) in
      bind-Yields (IsDone P) P
        (attempt-Yields P (
          bind-Yields P P (y checks)
            (λ value p. any-Yields P checks (λ _. returns-Yields P value p))))
        (λ o p. any-Yields P _ (λ _. settle-Yields P o p))))))))

cut-Yields :
    {S : Type 0} (size : ℕ → ℕ → ℕ) (bytes : Bytes) (start : ℕ) (r : Result ℕ)
    → IsCut size bytes start r
    → Yields {S = S} (IsChunk size bytes start) (from_result r)
unfolding from_result returns throws
cut-Yields size bytes start (ok end) c = record { gives = λ s. c }
cut-Yields size bytes start (err e) c = record { gives = λ s. tt }

module _ {S : Type 0} (setting : Setting S) (codec : Codec) (response_size : SkillChunk → ℕ)
    (check : Io (World S) (Unit {0})) where
  respond-IsAnswer :
      (a : ReadArgs) (workdir key : Text) (e : Entry) (metadata : Metadata) (body : Body)
      (start : ℕ)
      → start ≤ length body.bytes
      → Yields
          (IsAnswer response_size)
          (respond setting codec response_size check a workdir key e metadata body start)
  unfolding respond make
  respond-IsAnswer a workdir key e metadata body start h =
      let size : ℕ → ℕ → ℕ = λ from to.
        response_size
          (make setting codec response_size check a workdir key e metadata body from to) in
      bind-Yields (IsChunk size body.bytes start) _
        (cut-Yields size body.bytes start (chunk_end size body.bytes start)
          (chunk_end-IsCut size body.bytes start h))
        (λ end c. any-Yields _ check (λ _. returns-Yields _ _ (record {
          fits = c.fits;
          progress = ground (arith, c.progress, length-slice start end body.bytes c.order c.within);
        })))

  read_entry-IsAnswer :
      (a : ReadArgs) (workdir : Text) (e : Entry) (metadata : Metadata)
      → Yields
          (IsAnswer response_size)
          (read_entry setting codec response_size check a workdir e metadata)
  unfolding read_entry
  read_entry-IsAnswer a workdir e metadata =
      let scope = setting.reader.hash workdir in
      let key = setting.reader.hash (scope ++ (0 ∷ e.found.id) ++ (0 ∷ a.resource)) in
      any-Yields _ _ (λ _. any-Yields _ _ (λ _. any-Yields _ _ (λ file. any-Yields _ _ (λ identity.
        any-Yields _ _ (λ _. any-Yields _ _ (λ cursor. any-Yields _ _ (λ _. any-Yields _ _ (λ found.
          any-Yields _ _ (λ _. any-Yields _ _ (λ kept. any-Yields _ _ (λ body.
            refused-Yields _ (mismatches cursor body) _ (λ fitting. any-Yields _ _ (λ _.
              any-Yields _ _ (λ revoked. any-Yields _ _ (λ _.
                respond-IsAnswer a workdir key e metadata body (offset_of cursor)
                  (offset_of-le cursor body fitting))))))))))))))))

  read_checked-IsAnswer :
      (a : ReadArgs)
      → Yields (IsAnswer response_size) (read_checked setting codec response_size check a)
  unfolding read_checked
  read_checked-IsAnswer a = any-Yields _ _ (λ _. any-Yields _ _ (λ workdir. any-Yields _ _ (λ first.
      any-Yields _ _ (λ catalog. any-Yields _ _ (λ disabled. any-Yields _ _ (λ e.
        any-Yields _ _
          (λ _. any-Yields _ _ (λ metadata. read_entry-IsAnswer a workdir e metadata))))))))

module _ {S : Type 0} (setting : Setting S) (codec : Codec) (response_size : SkillChunk → ℕ) where
  pub read_skill-IsAnswer :
      (input : Option ReadArgs)
      → Yields (IsAnswer response_size) (read_skill setting codec response_size input)
  unfolding read_skill throws
  read_skill-IsAnswer none = record { gives = λ s. tt }
  read_skill-IsAnswer (some a) =
      request-Yields _ setting.now _
        (λ checks. read_checked-IsAnswer setting codec response_size checks a)
