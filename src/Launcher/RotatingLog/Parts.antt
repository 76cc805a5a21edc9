-- ===== src/Launcher/RotatingLog/Parts.antt =====
-- What rotating and writing a part do in src/launcher/rotating-log.ts.
use mcp_dev_runtime.Base.{
  ℕ, zero, suc, ◌+◌, ◌-◌, ◌≤◌, true, [], ◌++◌, ◌≡◌, inl, inr, refl, sym, ap, ◌∙◌, arith, append-nil,
  append_assoc, Bytes, ◌==◌, Bool-cases, if◌then◌else◌, if_cases, length, drop, length-append,
}
use mcp_dev_runtime.Runtime.Utf8.{utf8_prefix, utf8_prefix-le, utf8_prefix-append}
use mcp_dev_runtime.Runtime.PatchParser.Grammar.{is_nil}
use mcp_dev_runtime.Launcher.RotatingLog.{
  Files, content, store, RotatingLog, rotate, write_part, next_part,
}
use mcp_dev_runtime.Launcher.RotatingLog.Rotation.{retained, retained-rotate}

-- An open log whose size is that of its file and within the bound.
pub record IsSized (log : RotatingLog) : Type 0 where
  pub counted : log.size ≡ length (content (log.on_disk 0))
  pub bounded : log.size ≤ log.max_bytes

-- The bytes are behind those that the files held, of which only the oldest may be gone.
pub record IsWritten (n : ℕ) (log : RotatingLog) (bytes : Bytes) (log' : RotatingLog) : Type 0 where
  pub sized : IsSized log'
  pub files : log'.files ≡ log.files
  pub limit : log'.max_bytes ≡ log.max_bytes
  pub written : log'.written ≡ log.written + length bytes
  pub lost : Bytes
  pub kept : lost ++ retained n log'.on_disk ≡ retained n log.on_disk ++ bytes

module _ (n : ℕ) where
  pub IsWritten-refl : (log : RotatingLog) → IsSized log → IsWritten n log [] log
  IsWritten-refl log s = record {
    sized = s;
    files = refl;
    limit = refl;
    written = omega arith;
    lost = [];
    kept = sym (append-nil (retained n log.on_disk));
  }

  pub IsWritten-trans :
      (a b c : RotatingLog) (first second : Bytes)
      → IsWritten n a first b
      → IsWritten n b second c
      → IsWritten n a (first ++ second) c
  IsWritten-trans a b c first second p q = record {
    sized = q.sized;
    files = q.files ∙ p.files;
    limit = q.limit ∙ p.limit;
    written = omega (arith, p.written, q.written, length-append first second);
    lost = p.lost ++ q.lost;
    kept =
        append_assoc p.lost q.lost (retained n c.on_disk)
        ∙ ap (λ l. p.lost ++ l) q.kept
        ∙ sym (append_assoc p.lost (retained n b.on_disk) second)
        ∙ ap (λ l. l ++ second) p.kept
        ∙ append_assoc (retained n a.on_disk) first second;
  }

  pub rotate-IsWritten : (log : RotatingLog) → log.files ≡ suc n → IsWritten n log [] (rotate log)
  unfolding rotate store content
  rotate-IsWritten log e = record {
    sized = record { counted = refl; bounded = omega arith };
    files = refl;
    limit = refl;
    written = omega arith;
    lost = content (log.on_disk n);
    kept = retained-rotate n log e ∙ sym (append-nil (retained n log.on_disk));
  }

retained-store :
    (n : ℕ) (part : Bytes) (files : Files)
    → retained n (store 0 (content (files 0) ++ part) files) ≡ retained n files ++ part
unfolding store content
retained-store zero part files = refl
retained-store (suc n) part files =
    ap (λ b. b ++ retained n (store 0 (content (files 0) ++ part) files))
      {y = content (files (suc n))} (ground arith)
    ∙ ap (λ b. content (files (suc n)) ++ b) (retained-store n part files)
    ∙ sym (append_assoc (content (files (suc n))) (retained n files) part)

pub write_part-IsWritten :
    (n : ℕ) (part : Bytes) (log : RotatingLog)
    → IsSized log
    → log.size + length part ≤ log.max_bytes
    → IsWritten n log part (write_part part log)
unfolding write_part store content
write_part-IsWritten n part log s room = record {
  sized = record {
    counted = omega (arith, s.counted, length-append (content (log.on_disk 0)) part);
    bounded = room;
  };
  files = refl;
  limit = refl;
  written = refl;
  lost = [];
  kept = retained-store n part log.on_disk;
}

-- What is chosen to be written next is the start of the data and fits; only when the log has been
-- rotated and still takes nothing is there none.
pub record IsNext (n : ℕ) (bytes : Bytes) (log : RotatingLog) (r : RotatingLog × Bytes)
    : Type 0 where
  pub moved : IsWritten n log [] r.0
  pub room : r.0.size + length r.1 ≤ r.0.max_bytes
  pub start : r.1 ++ drop (length r.1) bytes ≡ bytes
  pub stuck : is_nil r.1 ≡ true → is_nil (utf8_prefix bytes log.max_bytes) ≡ true

IsNext-in :
    (n : ℕ) (bytes : Bytes) (log roomy : RotatingLog)
    → roomy.files ≡ suc n
    → IsWritten n log [] roomy
    → IsNext n bytes log (
        if is_nil (utf8_prefix bytes (roomy.max_bytes - roomy.size))
        then (rotate roomy, utf8_prefix bytes (rotate roomy).max_bytes)
        else (roomy, utf8_prefix bytes (roomy.max_bytes - roomy.size)))
unfolding rotate
IsNext-in n bytes log roomy e w =
    if_cases (IsNext n bytes log) (is_nil (utf8_prefix bytes (roomy.max_bytes - roomy.size))) _ _
      (λ nothing. record {
        moved = IsWritten-trans n log roomy (rotate roomy) [] [] w (rotate-IsWritten n roomy e);
        room = omega (arith, utf8_prefix-le bytes roomy.max_bytes);
        start = utf8_prefix-append bytes roomy.max_bytes;
        stuck = λ q. ap (λ m. is_nil (utf8_prefix bytes m)) (sym w.limit) ∙ q;
      })
      (λ something. record {
        moved = w;
        room = omega (arith, utf8_prefix-le bytes (roomy.max_bytes - roomy.size), w.sized.bounded);
        start = utf8_prefix-append bytes (roomy.max_bytes - roomy.size);
        stuck = λ q. absurd (ground (arith, q, something));
      })

pub next_part-IsNext :
    (n : ℕ) (bytes : Bytes) (log : RotatingLog)
    → log.files ≡ suc n
    → IsSized log
    → IsNext n bytes log (next_part bytes log)
unfolding next_part
next_part-IsNext n bytes log e s = elim (Bool-cases (log.size == log.max_bytes)) [
  | inl full ↦ rw full (
      IsNext-in n bytes log (rotate log) ((rotate-IsWritten n log e).files ∙ e)
        (rotate-IsWritten n log e))
  | inr roomy ↦ rw roomy (IsNext-in n bytes log log e (IsWritten-refl n log s))
]
