-- ===== src/Runtime/HistoryStore/Archives/Contents.antt =====
-- What read of src/runtime/history-store.ts gives of a log.
use mcp_dev_runtime.Base.{
  ℕ, zero, suc, ◌+◌, ◌-◌, min, ◌≤◌, ◌<◌, Bool, true, false, ◌&&◌, ◌||◌, [], ◌∷◌, ◌++◌, ltb, ◌==◌,
  length, length-append, length-take, length-drop, take, drop, Bytes, whole, max_safe_integer,
  subst, ◌⊎◌, inl, inr, Bool-cases, ◌≡◌, refl, ap, sym, ◌∙◌, arith,
}
use mcp_dev_runtime.Base.Choices.{choose_cases, list_cases}
use mcp_dev_runtime.Base.Slices.{drop-drop, take-add}
use mcp_dev_runtime.Runtime.Errors.{ok, ok_injective}
use mcp_dev_runtime.Runtime.Utf8.{utf8_prefix, utf8_prefix-le, utf8_prefix-append}
use mcp_dev_runtime.Runtime.OutputLog.{LogChunk}
use mcp_dev_runtime.Runtime.HistoryStore.Archives.{
  fill, starts_within, chunk_of, read_bytes, read_archive,
}

start_self : (n : ℕ) (xs : Bytes) → take (length (take n xs)) xs ≡ take n xs
start_self zero xs = refl
start_self (suc n) [] = refl
start_self (suc n) (x ∷ xs) = ap (λ l. x ∷ l) (start_self n xs)

-- Two neighbouring starts make one.
start-append :
    (bytes part rest : Bytes)
    → bytes ≡ take (length bytes) rest
    → part ≡ take (length part) (drop (length bytes) rest)
    → bytes ++ part ≡ take (length (bytes ++ part)) rest
start-append bytes part rest e f =
    ap (λ b. b ++ part) e
    ∙ ap (λ p. take (length bytes) rest ++ p) f
    ∙ sym (take-add (length bytes) (length part) rest)
    ∙ ap (λ n. take n rest) (sym (length-append bytes part))

module _ (file : ℕ → ℕ → Bytes) (is_utf8 : Bytes → Bool) (content : Bytes) where
  -- A read of some bytes gives the first of those that stand at its position, one at least.
  pub record IsFile : Type 0 where
    pub got : ℕ → ℕ → ℕ
    pub few : (at n : ℕ) → got at n ≤ n
    pub some : (at n : ℕ) → at < length content → 0 < n → 0 < got at n
    pub same : (at n : ℕ) → file at n ≡ take (got at n) (drop at content)

  module _ (is_file : IsFile) (cursor : ℕ) where
    -- The bytes behind the cursor.
    abbrev rest : Bytes
    rest = drop cursor content

    fill-take :
        (rounds size : ℕ) (bytes : Bytes)
        → cursor + size ≤ length content
        → size ≤ rounds + length bytes
        → length bytes ≤ size
        → bytes ≡ take (length bytes) rest
        → fill file is_utf8 rounds cursor size bytes ≡ take size rest
    unfolding fill
    fill-take zero size bytes h few le e = e ∙ ap (λ n. take n rest) (omega (arith, few, le))
    fill-take (suc rounds) size bytes h few le e =
        choose_cases (λ b. b ≡ take size rest) (ltb (length bytes) size)
          (λ more.
            list_cases (λ b. b ≡ take size rest)
              (file (cursor + length bytes) (size - length bytes))
              (λ none. absurd (
                omega (
                  arith,
                  ap length none,
                  part_length more,
                  is_file.some (cursor + length bytes) (size - length bytes)
                      (ground (arith, more, h)) (ground (arith, more)),
                )))
              (λ b bs part.
                fill-take rounds size (bytes ++ (b ∷ bs)) h
                  (omega (arith, few, length-append bytes (b ∷ bs)))
                  (ground (
                    arith,
                    length-append bytes (b ∷ bs),
                    ap length part,
                    part_length more,
                    is_file.few (cursor + length bytes) (size - length bytes),
                    more,
                  ))
                  (start-append bytes (b ∷ bs) rest e
                    (subst (λ p. p ≡ take (length p) (drop (length bytes) rest)) part part_start))))
          (λ done. e ∙ ap (λ n. take n rest) (ground (arith, done, le)))
      where
        at : ℕ
        at = cursor + length bytes

        part_length :
            ltb (length bytes) size ≡ true
            → length (file at (size - length bytes))
              ≡ min (is_file.got at (size - length bytes)) (length content - at)
        part_length more =
            ap length (is_file.same at (size - length bytes))
            ∙ length-take (is_file.got at (size - length bytes)) (drop at content)
            ∙ ap (min (is_file.got at (size - length bytes))) (length-drop at content)

        part_start :
            file at (size - length bytes)
            ≡ take (length (file at (size - length bytes))) (drop (length bytes) rest)
        part_start =
            rw (is_file.same at (size - length bytes), drop-drop (length bytes) cursor content)
              (sym (start_self (is_file.got at (size - length bytes)) (drop at content)))

  -- A part of the log that was read: whole code points from the cursor on, within the budget.
  pub record IsArchived (end cursor budget : ℕ) (c : LogChunk) : Type 0 where
    pub output :
        c.output ≡ utf8_prefix (take (min (end - cursor) (budget + 4)) (drop cursor content)) budget
    pub start : c.output_start ≡ cursor
    pub next : c.next_output_cursor ≡ cursor + length c.output
    pub within : c.next_output_cursor ≤ end
    pub few : length c.output ≤ budget
    pub valid : is_utf8 c.output ≡ true
    pub more : c.has_more ≡ ltb c.next_output_cursor end
    pub progress : (c.has_more ≡ false) ⊎ ((0 < length c.output) ⊎ (budget ≤ 3))

  chunk_of-IsArchived :
      (end cursor budget : ℕ) (c : LogChunk)
      → cursor ≤ end
      → chunk_of file is_utf8 end cursor budget
          (utf8_prefix (take (min (end - cursor) (budget + 4)) (drop cursor content)) budget)
        ≡ ok c
      → IsArchived end cursor budget c
  unfolding chunk_of
  chunk_of-IsArchived end cursor budget c h e = elim (Bool-cases (is_utf8 selected)) [
    | inr bad ↦ absurd (ground (arith, e, bad))
    | inl good ↦
        elim (Bool-cases
          (ltb (cursor + length selected) end && length selected == 0 && ltb 3 budget)) [
            | inl short ↦ absurd (ground (arith, e, good, short))
            | inr fine ↦
                subst (IsArchived end cursor budget)
                  (ok_injective chunk c (ground (arith, e, good, fine))) (archived good fine)
          ]
  ]
    where
      window : Bytes
      window = take (min (end - cursor) (budget + 4)) (drop cursor content)

      selected : Bytes
      selected = utf8_prefix window budget

      chunk : LogChunk
      chunk = record {
        output = selected;
        output_start = cursor;
        next_output_cursor = cursor + length selected;
        has_more = ltb (cursor + length selected) end;
        retained_from = 0;
        output_gap = false;
        total_output_bytes = end;
      }

      short_enough : cursor + length selected ≤ end
      short_enough = omega (
        arith,
        h,
        ap length (utf8_prefix-append window budget),
        length-append selected (drop (length selected) window),
        length-take (min (end - cursor) (budget + 4)) (drop cursor content),
      )

      archived :
          is_utf8 selected ≡ true
          → (ltb (cursor + length selected) end && length selected == 0 && ltb 3 budget) ≡ false
          → IsArchived end cursor budget chunk
      archived good fine = record {
        output = refl;
        start = refl;
        next = refl;
        within = short_enough;
        few = utf8_prefix-le window budget;
        valid = good;
        more = refl;
        progress = ground (arith, fine);
      }

  -- What an archived read gives, from a log that holds what was counted.
  pub read_archive-IsArchived :
      (is_file : IsFile) (end cursor budget : ℕ) (c : LogChunk)
      → end ≤ length content
      → read_archive file is_utf8 end (whole cursor) budget ≡ ok c
      → IsArchived end cursor budget c
  unfolding read_archive read_bytes
  read_archive-IsArchived is_file end cursor budget c h e =
      elim (Bool-cases (ltb max_safe_integer cursor || ltb end cursor)) [
        | inl bad ↦ absurd (ground (arith, e, bad))
        | inr good ↦
            elim (Bool-cases (starts_within file is_utf8 (fill file is_utf8 size cursor size []))) [
              | inl within ↦ absurd (ground (arith, e, good, within))
              | inr starts ↦ chunk_of-IsArchived end cursor budget c (ground (arith, good)) (
                  subst (λ b. chunk_of file is_utf8 end cursor budget (utf8_prefix b budget) ≡ ok c)
                    (fill-take is_file cursor size size [] (ground (arith, good, h)) (omega arith)
                      (omega arith) refl)
                    (ground (arith, e, good, starts)))
            ]
      ]
    where
      size : ℕ
      size = min (end - cursor) (budget + 4)
