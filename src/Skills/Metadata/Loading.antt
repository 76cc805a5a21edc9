-- ===== src/Skills/Metadata/Loading.antt =====
-- What loadMetadata of src/skills/metadata.ts returns.
use mcp_dev_runtime.Base.{
  ℕ, ◌≤◌, Bool, true, false, Option, none, some, [], ◌∷◌, ltb, length, codes, ◌≡◌, ◌≢◌, arith,
  if_cases,
}
use mcp_dev_runtime.Base.Text.{Text, trim}
use mcp_dev_runtime.Runtime.PatchEngine.Actions.{
  Outcome, done, failed, Io, returns, throws, attempt, as_value,
}
use mcp_dev_runtime.Runtime.PatchEngine.Yielding.{
  IsDone, Yields, returns-Yields, bind-Yields, any-Yields,
}
use mcp_dev_runtime.Skills.Files.{Host, Disk, read_text}
use mcp_dev_runtime.Skills.Limits.{metadata_bytes}
use mcp_dev_runtime.Skills.Metadata.{
  Metadata, Reader, Head, load_metadata, read_head, or_invalid, the, read_short, header_or,
  sidecar_text,
}
use mcp_dev_runtime.Skills.Sidecar.{
  Yaml, null, number, boolean, text, array, object, lookup, stop, fields_of, field, collapse,
  bounded,
}

-- A text field: not empty and of at most so many bytes; one that is not required may be missing.
abbrev pub IsField : Host → ℕ → Bool → Option Text → Type 0
IsField host maximum required none = required ≡ false
IsField host maximum required (some t) = (t ≢ []) × (length (host.encode t) ≤ maximum)

module _ {S : Type 0} (host : Host) (maximum : ℕ) (required : Bool) where
  stop-Yields : {A : Type 0} (P : A → Type 0) → Yields P (stop {S = S})
  unfolding stop throws
  stop-Yields P = record { gives = λ s. tt }

  bounded-Yields :
      (t : Text) → Yields (IsField host maximum required) (bounded {S = S} host t maximum required)
  unfolding bounded
  bounded-Yields [] =
      if_cases (Yields (IsField host maximum required)) required stop (returns none)
        (λ _. stop-Yields _) (λ h. returns-Yields _ none h)
  bounded-Yields (c ∷ t) =
      if_cases (Yields (IsField host maximum required)) (ltb maximum (length (host.encode (c ∷ t))))
        stop (returns (some (c ∷ t))) (λ _. stop-Yields _)
        (λ h. returns-Yields _ (some (c ∷ t)) (λ e. ground (arith, e), ground (arith, h)))

  field-Yields :
      (v : Option Yaml)
      → Yields (IsField host maximum required) (field {S = S} host v maximum required)
  unfolding field
  field-Yields none =
      if_cases (Yields (IsField host maximum required)) required stop (returns none)
        (λ _. stop-Yields _) (λ h. returns-Yields _ none h)
  field-Yields (some (text t)) = bounded-Yields (trim (collapse false t))
  field-Yields (some null) = stop-Yields _
  field-Yields (some number) = stop-Yields _
  field-Yields (some (boolean b)) = stop-Yields _
  field-Yields (some (array items)) = stop-Yields _
  field-Yields (some (object fields)) = stop-Yields _

abbrev IsHead : Host → Head → Type 0
IsHead host head =
    IsField host 256 true head.name
    × IsField host 4096 true head.description
    × IsField host 1024 false head.compatibility

the-IsField :
    (host : Host) (n : ℕ) (f : Option Text)
    → IsField host n true f
    → IsField host n true (some (the f))
unfolding the
the-IsField host n none h = absurd (ground arith)
the-IsField host n (some t) h = h

-- Metadata that were loaded.
pub record IsLoaded (host : Host) (m : Metadata) : Type 0 where
  pub named : IsField host 256 true (some m.name)
  pub described : IsField host 4096 true (some m.description)
  pub compatible : IsField host 1024 false m.compatibility

module _ {S : Type 0} (host : Host) (reader : Reader) (disk : Disk S) where
  read_head-IsHead :
      (header skill_root : Text)
      → Yields (IsHead host) (read_head host reader disk header skill_root)
  unfolding read_head
  read_head-IsHead header skill_root = any-Yields _ (fields_of (reader.parse header)) (λ value.
      bind-Yields (IsField host 256 true) _ (field-Yields host 256 true _) (λ name hn.
        bind-Yields (IsField host 4096 true) _ (field-Yields host 4096 true _) (λ description hd.
          bind-Yields (IsField host 1024 false) _ (field-Yields host 1024 false _)
            (λ compatibility hc.
              any-Yields _ (read_short host reader disk (lookup (codes "metadata") value))
                (λ short. returns-Yields _ _ (hn, hd, hc))))))

  or_invalid-Yields :
      (o : Outcome Head)
      → IsDone (IsHead host) o
      → Yields (IsHead host) (or_invalid host reader disk o)
  unfolding or_invalid throws
  or_invalid-Yields (done head) h = returns-Yields _ head h
  or_invalid-Yields (failed e) h = record { gives = λ s. tt }

  attempt-Yields :
      {A : Type 0} (P : A → Type 0) {m : Io S A} → Yields P m → Yields (IsDone P) (attempt m)
  unfolding attempt as_value
  attempt-Yields P y = record { gives = λ s. y.gives s }

  pub load_metadata-IsLoaded :
      (file skill_root : Text)
      → Yields (IsLoaded host) (load_metadata host reader disk file skill_root)
  unfolding load_metadata
  load_metadata-IsLoaded file skill_root =
      any-Yields _ (read_text host disk file metadata_bytes (some skill_root) true) (λ read.
        any-Yields _ (header_or host reader disk _) (λ header.
          bind-Yields (IsDone (IsHead host)) _
            (attempt-Yields (IsHead host) (read_head-IsHead header skill_root))
            (λ outcome ho. bind-Yields (IsHead host) _ (or_invalid-Yields outcome ho) (λ head h.
              any-Yields _ (attempt (sidecar_text host reader disk _ skill_root)) (λ sidecar.
                returns-Yields _ _ (record {
                  named = the-IsField host 256 head.name h.0;
                  described = the-IsField host 4096 head.description h.1;
                  compatible = h.2;
                }))))))
