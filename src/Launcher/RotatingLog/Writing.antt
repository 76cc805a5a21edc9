-- ===== src/Launcher/RotatingLog/Writing.antt =====
-- What put of src/launcher/rotating-log.ts writes.
use mcp_dev_runtime.Base.{
  ℕ, zero, suc, ◌+◌, ◌<◌, ◌≤◌, Bool, true, false, [], ◌∷◌, ◌++◌, ◌≡◌, ◌⊎◌, inl, inr, refl, sym, ap,
  ◌∙◌, subst, arith, append-nil, Bytes, ltb, if_cases, length, drop, length-drop,
}
use mcp_dev_runtime.Base.Slices.{drop-drop}
use mcp_dev_runtime.Runtime.Utf8.{utf8_prefix}
use mcp_dev_runtime.Runtime.PatchParser.Grammar.{is_nil}
use mcp_dev_runtime.Launcher.RotatingLog.{
  Files, content, store, RotatingLog, rotate, open_file, write_part, next_part, put_loop, put,
}
use mcp_dev_runtime.Launcher.RotatingLog.Rotation.{retained}
use mcp_dev_runtime.Launcher.RotatingLog.Parts.{
  IsSized, IsWritten, IsWritten-refl, IsWritten-trans, rotate-IsWritten, write_part-IsWritten,
  next_part-IsNext,
}

-- Somewhere in the data not even an empty file takes a part: a piece that is longer than a file and
-- has no boundary to cut at.
abbrev pub IsStuck : Bytes → ℕ → Type 0
IsStuck bytes maximum =
    (offset : ℕ) × (offset < length bytes)
    × (is_nil (utf8_prefix (drop offset bytes) maximum) ≡ true)

abbrev pub IsPut : ℕ → Bytes → RotatingLog → RotatingLog × Bool → Type 0
IsPut n bytes log r =
    ((r.1 ≡ true) × IsWritten n log bytes r.0) ⊎ ((r.1 ≡ false) × IsStuck bytes log.max_bytes)

not_nil : (bytes : Bytes) → is_nil bytes ≡ false → 0 < length bytes
unfolding is_nil
not_nil [] e = absurd (ground (arith, e))
not_nil (b ∷ bytes) e = omega arith

put_loop-IsPut :
    (n rounds : ℕ) (bytes : Bytes) (log : RotatingLog)
    → length bytes ≤ rounds
    → log.files ≡ suc n
    → IsSized log
    → IsPut n bytes log (put_loop rounds bytes log)
unfolding put_loop is_nil
put_loop-IsPut n zero [] log h e s = inl (refl, IsWritten-refl n log s)
put_loop-IsPut n zero (b ∷ bytes) log h e s = absurd (omega arith)
put_loop-IsPut n (suc rounds) [] log h e s = inl (refl, IsWritten-refl n log s)
put_loop-IsPut n (suc rounds) (b ∷ bytes) log h e s =
    let next = next_part-IsNext n (b ∷ bytes) log e s in
    let roomy = (next_part (b ∷ bytes) log).0 in
    let part = (next_part (b ∷ bytes) log).1 in
    let w = write_part-IsWritten n part roomy next.moved.sized next.room in
    let later = drop (length part) (b ∷ bytes) in
    let step : IsWritten n log part (write_part part roomy) =
      IsWritten-trans n log roomy (write_part part roomy) [] part next.moved w in
    if_cases (IsPut n (b ∷ bytes) log) (is_nil part) (roomy, false) _
      (λ nothing. inr (refl, (0, omega arith, next.stuck nothing)))
      (λ something.
        let shorter : length later < suc (length bytes) =
          omega (arith, length-drop (length part) (b ∷ bytes), not_nil part something) in
        elim (put_loop-IsPut n rounds later (write_part part roomy) (omega (arith, shorter, h))
          (step.files ∙ e) w.sized) [
            | inl (done, rest) ↦ inl (
              done,
              subst (λ l. IsWritten n log l (put_loop rounds later (write_part part roomy)).0)
                  next.start (IsWritten-trans n log (write_part part roomy) _ part later step rest),
            )
            | inr (failed, (offset, within, stuck)) ↦ inr (
              failed,
              (
                length part + offset,
                omega (arith, length-drop (length part) (b ∷ bytes), within),
                ap is_nil (
                      ap (λ l. utf8_prefix l log.max_bytes)
                        (sym (drop-drop offset (length part) (b ∷ bytes)))
                      ∙ ap (utf8_prefix (drop offset later)) (sym step.limit))
                    ∙ stuck,
              ),
            )
          ])

retained-reopen :
    (n : ℕ) (files : Files) → retained n (store 0 (content (files 0)) files) ≡ retained n files
unfolding store content
retained-reopen zero files = refl
retained-reopen (suc n) files =
    ap (λ b. b ++ retained n (store 0 (content (files 0)) files)) {y = content (files (suc n))}
      (ground arith)
    ∙ ap (λ b. content (files (suc n)) ++ b) (retained-reopen n files)

open_file-IsWritten :
    (n : ℕ) (log : RotatingLog)
    → log.files ≡ suc n
    → (log.opened ≡ true → IsSized log)
    → IsWritten n log [] (open_file log)
unfolding open_file store content
open_file-IsWritten n log e sized =
    let bytes = content (log.on_disk 0) in
    let open_log = record log {
      on_disk = store 0 bytes log.on_disk;
      opened = true;
      size = length bytes;
    } in
    let same = retained-reopen n log.on_disk in
    if_cases (IsWritten n log []) log.opened log _ (λ already. IsWritten-refl n log (sized already))
      (λ closed.
        if_cases (IsWritten n log []) (ltb log.max_bytes (length bytes)) (rotate open_log) open_log
          (λ large.
            let r = rotate-IsWritten n open_log e in
            record {
              sized = r.sized;
              files = r.files;
              limit = r.limit;
              written = r.written;
              lost = r.lost;
              kept = r.kept ∙ ap (λ l. l ++ []) same;
            })
          (λ small. record {
            sized = record { counted = refl; bounded = ground (arith, small) };
            files = refl;
            limit = refl;
            written = omega arith;
            lost = [];
            kept = same ∙ sym (append-nil (retained n log.on_disk));
          }))

-- Writing data either puts all of it behind what the files hold, in order, with only the oldest bytes
-- gone and the file within its bound; or it is refused, and then some piece of the data has no place
-- to cut at that a whole file would take.
pub put-IsPut :
    (n : ℕ) (bytes : Bytes) (log : RotatingLog)
    → log.files ≡ suc n
    → (log.opened ≡ true → IsSized log)
    → IsPut n bytes log (put bytes log)
unfolding put
put-IsPut n bytes log e sized =
    let o = open_file-IsWritten n log e sized in
    elim (put_loop-IsPut n (length bytes) bytes (open_file log) (omega arith) (o.files ∙ e)
      o.sized) [
        | inl (done, w) ↦ inl (done, IsWritten-trans n log (open_file log) _ [] bytes o w)
        | inr (failed, stuck) ↦ inr (failed, subst (IsStuck bytes) o.limit stuck)
      ]
