-- ===== src/Skills/Service/Discovery/Pages.antt =====
-- The pages of `discover` of src/skills/service.ts.
use mcp_dev_runtime.Base.{
  ℕ, zero, suc, ◌+◌, ◌≤◌, ◌<◌, List, [], ◌∷◌, ◌++◌, ltb, length, take, map, ◌≡◌, refl, ap, sym, ◌∙◌,
  ◌⊎◌, inl, inr, arith, append-nil, append_assoc,
}
use mcp_dev_runtime.Base.Choices.{choose_cases}
use mcp_dev_runtime.Skills.Limits.{discovery_bytes}
use mcp_dev_runtime.Skills.Service.{Entry}
use mcp_dev_runtime.Skills.Service.Discovery.{SkillRow, fill_page}

module _ (row : Entry → SkillRow) (size : List SkillRow → ℕ → ℕ) where
  -- The rows of the first `count` entries are added to those before; one more is too many, if the
  -- entries and the limit do not end the page.
  pub record IsPage (limit : ℕ) (rest : List Entry) (start : ℕ) (before : List SkillRow)
      (page : List SkillRow × ℕ) : Type 0 where
    pub count : ℕ
    pub rows : page.0 ≡ before ++ map row (take count rest)
    pub end : page.1 ≡ start + count
    pub few : count ≤ limit
    pub within : count ≤ length rest
    pub fits : (count ≡ 0) ⊎ (size page.0 page.1 ≤ discovery_bytes)
    pub tight :
        (count ≡ length rest)
        ⊎ ((count ≡ limit)
            ⊎ (discovery_bytes < size (before ++ map row (take (suc count) rest)) (page.1 + 1)))

  empty-IsPage :
      (limit : ℕ) (rest : List Entry) (start : ℕ) (before : List SkillRow)
      → (0 ≡ length rest)
        ⊎ ((0 ≡ limit) ⊎ (discovery_bytes < size (before ++ map row (take 1 rest)) (start + 1)))
      → IsPage limit rest start before (before, start)
  empty-IsPage limit rest start before stop = record {
    count = 0;
    rows = sym (append-nil before);
    end = omega arith;
    few = omega arith;
    within = omega arith;
    fits = inl refl;
    tight = stop;
  }

  -- A row more at the front.
  next-IsPage :
      (limit : ℕ) (e : Entry) (rest : List Entry) (start : ℕ) (before : List SkillRow)
      (page : List SkillRow × ℕ)
      → size (before ++ (row e ∷ [])) (start + 1) ≤ discovery_bytes
      → IsPage limit rest (start + 1) (before ++ (row e ∷ [])) page
      → IsPage (suc limit) (e ∷ rest) start before page
  next-IsPage limit e rest start before page good p =
      let moved : (xs : List SkillRow) → (before ++ (row e ∷ [])) ++ xs ≡ before ++ (row e ∷ xs) =
        λ xs. append_assoc before (row e ∷ []) xs in
      record {
        count = suc p.count;
        rows = p.rows ∙ moved (map row (take p.count rest));
        end = omega (arith, p.end);
        few = omega (arith, p.few);
        within = omega (arith, p.within);
        fits = inr (fit p.fits);
        tight = tightest p.tight;
      }
    where
      fit :
          (p.count ≡ 0) ⊎ (size page.0 page.1 ≤ discovery_bytes)
          → size page.0 page.1 ≤ discovery_bytes
      fit (inl none) =
          let rows : page.0 ≡ before ++ (row e ∷ []) =
            p.rows
            ∙ ap (λ k. (before ++ (row e ∷ [])) ++ map row (take k rest)) none
            ∙ append-nil (before ++ (row e ∷ [])) in
          let end : page.1 ≡ start + 1 = omega (arith, p.end, none) in rw (rows, end) good
      fit (inr h) = h

      next : ℕ → List SkillRow
      next k = map row (take (suc k) rest)

      tightest :
          (p.count ≡ length rest)
            ⊎ ((p.count ≡ limit)
                ⊎ (discovery_bytes < size ((before ++ (row e ∷ [])) ++ next p.count) (page.1 + 1)))
          → (suc p.count ≡ suc (length rest))
            ⊎ ((suc p.count ≡ suc limit)
                ⊎ (discovery_bytes < size (before ++ (row e ∷ next p.count)) (page.1 + 1)))
      tightest (inl h) = inl (ap suc h)
      tightest (inr (inl h)) = inr (inl (ap suc h))
      tightest (inr (inr h)) = inr (inr (rw (← append_assoc before (row e ∷ []) (next p.count)) h))

  -- The page is the longest that the limit and the size of the response admit.
  pub fill_page-IsPage :
      (limit : ℕ) (rest : List Entry) (start : ℕ) (before : List SkillRow)
      → IsPage limit rest start before (fill_page row size limit rest start before)
  unfolding fill_page
  fill_page-IsPage zero rest start before = empty-IsPage zero rest start before (inr (inl refl))
  fill_page-IsPage (suc limit) [] start before = empty-IsPage (suc limit) [] start before (inl refl)
  fill_page-IsPage (suc limit) (e ∷ rest) start before =
      choose_cases (IsPage (suc limit) (e ∷ rest) start before)
        (ltb discovery_bytes (size (before ++ (row e ∷ [])) (start + 1)))
        (λ many.
          empty-IsPage (suc limit) (e ∷ rest) start before (inr (inr (ground (arith, many)))))
        (λ good.
          next-IsPage limit e rest start before _ (ground (arith, good))
            (fill_page-IsPage limit rest (start + 1) (before ++ (row e ∷ []))))
