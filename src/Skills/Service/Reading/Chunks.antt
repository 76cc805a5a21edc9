-- ===== src/Skills/Service/Reading/Chunks.antt =====
-- The parts that `read` of src/skills/service.ts cuts a resource into.
use mcp_dev_runtime.Base.{
  ℕ, zero, suc, ◌+◌, ◌-◌, ◌/◌, ◌^◌, ◌≤◌, ◌<◌, min, false, ◌&&◌, ◌||◌, Option, none, some, ltb, leb,
  ◌==◌, length, get_or, Bytes, ◌≡◌, refl, ap, ◌⊎◌, inl, inr, arith, Bool-cases, if_cases,
}
use native.Mathlib.Omega.{pow_step}
use mcp_dev_runtime.Base.Choices.{choose_cases}
use mcp_dev_runtime.Runtime.Errors.{Result, ok, err, skill_response_limit}
use mcp_dev_runtime.Runtime.Utf8.{continuation}
use mcp_dev_runtime.Skills.Limits.{read_bytes}
use mcp_dev_runtime.Skills.Service.Reading.{narrow, back_to, end_at, chunk_end}

module _ (size : ℕ → ℕ → ℕ) (bytes : Bytes) (start : ℕ) where
  -- An end of the window at which the response fits, unless it is the first one, and behind which it
  -- does not, unless it is the last one.
  pub record IsEdge (low high r : ℕ) : Type 0 where
    pub from : low ≤ r
    pub to : r ≤ high
    pub fits : (r ≡ low) ⊎ (size start r ≤ read_bytes)
    pub tight : (r ≡ high) ⊎ (read_bytes < size start (r + 1))

  abbrev pub FindsEdge : ℕ → ℕ → Option ℕ → Type 0
  FindsEdge low high none = ⊥
  FindsEdge low high (some r) = IsEdge low high r

  -- The ends of the part that is left, inside the window.
  pub record IsPart (first last low high : ℕ) : Type 0 where
    pub from : first ≤ low
    pub order : low ≤ high
    pub to : high ≤ last
    pub fits : (low ≡ first) ⊎ (size start low ≤ read_bytes)
    pub tight : (high ≡ last) ⊎ (read_bytes < size start (high + 1))

  closed-IsEdge :
      (first last low high : ℕ) → IsPart first last low high → high ≤ low → IsEdge first last low
  closed-IsEdge first last low high p h =
      let e : high ≡ low = omega (arith, p.order) in
      record {
        from = p.from;
        to = omega (arith, p.to, p.order);
        fits = p.fits;
        tight = rw e at p.tight;
      }

  -- Rounds of which each halves the part are enough, whatever the sizes are.
  pub narrow-FindsEdge :
      (rounds first last low high : ℕ)
      → high - low < 2 ^ rounds
      → IsPart first last low high
      → FindsEdge first last (narrow size bytes start rounds low high)
  unfolding narrow
  narrow-FindsEdge zero first last low high h p = elim (Bool-cases (ltb low high)) [
    | inl more ↦ absurd (ground (arith, h, more))
    | inr shut ↦ rw shut (closed-IsEdge first last low high p (ground (arith, shut)))
  ]
  narrow-FindsEdge (suc rounds) first last low high h p =
      let mid = (low + high + 1) / 2 in
      choose_cases (FindsEdge first last) (ltb low high)
        (λ more.
          choose_cases (FindsEdge first last) (leb (size start mid) read_bytes)
            (λ good.
              narrow-FindsEdge rounds first last mid high (omega (arith, h, pow_step 2 rounds))
                (record {
                  from = ground (arith, more, p.from);
                  order = ground (arith, more);
                  to = p.to;
                  fits = inr (ground (arith, good));
                  tight = p.tight;
                }))
            (λ bad.
              narrow-FindsEdge rounds first last low (mid - 1)
                (ground (arith, more, h, pow_step 2 rounds))
                (record {
                  from = p.from;
                  order = ground (arith, more);
                  to = ground (arith, more, p.to);
                  fits = p.fits;
                  tight = inr (
                      ground (
                        arith,
                        bad,
                        ap (size start) {x = mid - 1 + 1} {y = mid} (ground (arith, more)),
                      ));
                })))
        (λ shut. closed-IsEdge first last low high p (ground (arith, shut)))

  back_to-ge : (low : ℕ) → start ≤ low → start ≤ back_to size bytes start low
  unfolding back_to
  back_to-ge zero h = h
  back_to-ge (suc low) h = ground (arith, h, back_to-ge low)

  back_to-le : (low : ℕ) → back_to size bytes start low ≤ low
  unfolding back_to
  back_to-le zero = omega arith
  back_to-le (suc low) = ground (arith, back_to-le low)

  -- A place at which the resource may be cut.
  abbrev pub IsPlace : ℕ → Type 0
  IsPlace end = (length bytes ≤ end) ⊎ (continuation (get_or bytes end 0) ≡ false)

  back_to-IsPlace :
      (low : ℕ) → (back_to size bytes start low ≤ start) ⊎ IsPlace (back_to size bytes start low)
  unfolding back_to
  back_to-IsPlace zero = inl (omega arith)
  back_to-IsPlace (suc low) =
      elim (Bool-cases (
        ltb start (suc low)
        && ltb (suc low) (length bytes)
        && continuation (get_or bytes (suc low) 0))) [
          | inl e ↦ rw e (back_to-IsPlace low)
          | inr e ↦ rw e (ground (arith, e))
        ]

  -- A part that fits, ends where the resource may be cut, and goes on.
  pub record IsChunk (end : ℕ) : Type 0 where
    pub order : start ≤ end
    pub within : end ≤ length bytes
    pub fits : size start end ≤ read_bytes
    pub whole : IsPlace end
    pub progress : (start < end) ⊎ (end ≡ length bytes)

  abbrev pub IsCut : Result ℕ → Type 0
  IsCut (err e) = e ≡ skill_response_limit
  IsCut (ok end) = IsChunk end

  end_at-IsCut :
      (o : Option ℕ)
      → start ≤ length bytes
      → FindsEdge start (min (length bytes) (start + read_bytes)) o
      → IsCut (end_at size bytes start o)
  unfolding end_at
  end_at-IsCut none h f = absurd f
  end_at-IsCut (some low) h f =
      let end = back_to size bytes start low in
      if_cases IsCut ((end == start && ltb start (length bytes)) || ltb read_bytes (size start end))
        (err skill_response_limit) (ok end) (λ _. refl)
        (λ e. record {
          order = back_to-ge low f.from;
          within = omega (arith, f.to, back_to-le low);
          fits = ground (arith, e);
          whole = ground (arith, e, back_to-IsPlace low, back_to-ge low f.from);
          progress = ground (arith, e, back_to-ge low f.from, f.to, back_to-le low);
        })

  -- Every part is right, and the search for its end is never given up.
  pub chunk_end-IsCut : start ≤ length bytes → IsCut (chunk_end size bytes start)
  unfolding chunk_end
  chunk_end-IsCut h =
      end_at-IsCut (narrow size bytes start 15 start (min (length bytes) (start + read_bytes))) h (
        narrow-FindsEdge 15 start (min (length bytes) (start + read_bytes)) start
          (min (length bytes) (start + read_bytes)) (omega arith)
          (record {
            from = omega arith;
            order = omega arith;
            to = omega arith;
            fits = inl refl;
            tight = inl refl;
          }))
