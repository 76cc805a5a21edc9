-- ===== src/Runtime/LogQuery/Search.antt =====
-- What the search of src/runtime/log-query.ts returns.
use mcp_dev_runtime.Base.{
  ℕ, zero, suc, ◌+◌, ◌-◌, ◌<◌, ◌≤◌, true, false, Option, none, some, List, [], ◌∷◌, ◌≡◌, ◌⊎◌, inl,
  inr, refl, sym, ap, ◌∙◌, subst, arith, Bytes, leb, leb→le, ◌==◌, ==_iff, if◌then◌else◌, if_cases,
  length, drop, length-drop, Bool-cases, Option-cases,
}
use mcp_dev_runtime.Base.Slices.{drop-drop, drop_all}
use mcp_dev_runtime.Runtime.PatchParser.Grammar.{is_nil}
use mcp_dev_runtime.Runtime.LogQuery.{
  at_start, index_from, index_of, preview, Match, match_at, Scan, is_over, no_more, last_match,
  one_match, search_match, search_loop,
}

-- The needle stands in the bytes at a place.
abbrev pub Occurs : Bytes → Bytes → ℕ → Type 0
Occurs needle bytes p = at_start needle (drop p bytes) ≡ true

-- It does so nowhere from one place to another.
abbrev pub OccursNowhere : Bytes → Bytes → ℕ → ℕ → Type 0
OccursNowhere needle bytes from to =
    (p : ℕ) → from ≤ p → p < to → at_start needle (drop p bytes) ≡ false

-- The place found is the first one.
abbrev IsIndex : Bytes → Bytes → ℕ → ℕ → Option ℕ → Type 0
IsIndex needle bytes at to none = OccursNowhere needle bytes at to
IsIndex needle bytes at to (some i) =
    (at ≤ i) × (i < length bytes) × Occurs needle bytes i × OccursNowhere needle bytes at i

not_empty : (needle : Bytes) → is_nil needle ≡ false → 0 < length needle
unfolding is_nil
not_empty [] e = absurd (ground (arith, e))
not_empty (n ∷ needle) e = omega arith

no_start : (needle : Bytes) → is_nil needle ≡ false → at_start needle [] ≡ false
unfolding at_start is_nil
no_start [] e = absurd (ground (arith, e))
no_start (n ∷ needle) e = refl

module _ (needle bytes : Bytes) (filled : is_nil needle ≡ false) where
  nowhere_at_end : (p : ℕ) → length bytes ≤ p → at_start needle (drop p bytes) ≡ false
  nowhere_at_end p h = ap (at_start needle) (drop_all p bytes h) ∙ no_start needle filled

  -- No occurrence at a place, and none from the next one on.
  none_before :
      (at to : ℕ)
      → at_start needle (drop at bytes) ≡ false
      → OccursNowhere needle bytes (at + 1) to
      → OccursNowhere needle bytes at to
  none_before at to here later p le lt = elim (Bool-cases (p == at)) [
    | inl same ↦ ap (λ n. at_start needle (drop n bytes)) ((==_iff p at).0 same) ∙ here
    | inr beyond ↦ later p (ground (arith, beyond, le)) lt
  ]

  one_further :
      (at to : ℕ) (r : Option ℕ)
      → at_start needle (drop at bytes) ≡ false
      → IsIndex needle bytes (at + 1) to r
      → IsIndex needle bytes at to r
  one_further at to none here later = none_before at to here later
  one_further at to (some i) here (le, within, hit, nowhere) =
      (omega (arith, le), within, hit, none_before at i here nowhere)

  index_from-IsIndex :
      (rest : Bytes) (at to : ℕ)
      → rest ≡ drop at bytes
      → IsIndex needle bytes at to (index_from needle rest at)
  unfolding index_from
  index_from-IsIndex [] at to e = rw filled (λ p le lt.
      nowhere_at_end p (omega (arith, ap (λ (l : Bytes). length l) e, length-drop at bytes, le)))
  index_from-IsIndex (b ∷ rest) at to e =
      let size = ap (λ (l : Bytes). length l) e in
      elim (Bool-cases (at_start needle (b ∷ rest))) [
        | inl hit ↦ rw hit (
          omega arith,
          omega (arith, size, length-drop at bytes),
          ap (at_start needle) (sym e) ∙ hit,
          λ p le lt. absurd (omega (arith, le, lt)),
        )
        | inr miss ↦ rw miss (
            one_further at to (index_from needle rest (at + 1))
              (ap (at_start needle) (sym e) ∙ miss)
              (index_from-IsIndex rest (at + 1) to (ap (drop 1) e ∙ drop-drop 1 at bytes)))
      ]

  index_of-IsIndex : (at to : ℕ) → IsIndex needle bytes at to (index_of needle bytes at)
  unfolding index_of
  index_of-IsIndex at to = index_from-IsIndex (drop at bytes) at to refl

-- The matches found from a place to another, in a log in which the bytes stand at `start`: the
-- occurrences from the first one on, each behind the one before.
abbrev pub AreMatches : Bytes → Bytes → ℕ → ℕ → ℕ → List Match → Type 0
AreMatches needle bytes start at to [] = OccursNowhere needle bytes at to
AreMatches needle bytes start at to (m ∷ ms) =
    (found : ℕ) × (m.byte_offset ≡ start + found)
    × (at ≤ found)
    × Occurs needle bytes found
    × OccursNowhere needle bytes at found
    × AreMatches needle bytes start (found + length needle) to ms

-- What the matches cost.
abbrev pub cost : List Match → ℕ
cost [] = 0
cost (m ∷ ms) = length m.text + 96 + cost ms

-- Why a search stops: it is at the end of the bytes, or before an occurrence that no match is made of,
-- since there are as many as allowed, or it costs more than is left, or nothing of it can be shown.
abbrev pub HasStopped : Bytes → Bytes → ℕ → ℕ → ℕ → ℕ → Type 0
HasStopped needle bytes budget left spent consumed =
    let text = preview bytes consumed (consumed + length needle) (budget - spent - 96) in
    (consumed ≡ length bytes)
    ⊎ (Occurs needle bytes consumed
        × ((left ≡ 0) ⊎ ((budget < spent + (length text + 96)) ⊎ (length text ≡ 0))))

pub record IsScan (needle bytes : Bytes) (start budget limit used at : ℕ) (s : Scan) : Type 0 where
  pub found : AreMatches needle bytes start at s.consumed s.matches
  pub within : used + cost s.matches ≤ budget
  pub few : length s.matches ≤ limit
  pub consumed_ge : at ≤ s.consumed
  pub consumed_le : s.consumed ≤ length bytes
  pub stop :
      HasStopped needle bytes budget (limit - length s.matches) (used + cost s.matches) s.consumed

-- The same of equal numbers.
stopped_same :
    (needle bytes : Bytes) (budget left left' spent spent' consumed : ℕ)
    → left ≡ left'
    → spent ≡ spent'
    → HasStopped needle bytes budget left spent consumed
    → HasStopped needle bytes budget left' spent' consumed
stopped_same needle bytes budget left left' spent spent' consumed e f h =
    subst (λ n. HasStopped needle bytes budget left' n consumed) f
      (subst (λ n. HasStopped needle bytes budget n spent consumed) e h)

is_nil-length : (text : Bytes) → is_nil text ≡ true → length text ≡ 0
unfolding is_nil
is_nil-length [] e = refl
is_nil-length (b ∷ text) e = absurd (ground (arith, e))

-- The test of the loop, by its three reasons.
over_cases :
    (needle text : Bytes) (budget limit used : ℕ)
    → is_over needle budget limit used text ≡ true
    → (limit ≡ 0) ⊎ ((budget < used + (length text + 96)) ⊎ (length text ≡ 0))
over_cases needle text budget limit used e = elim (Bool-cases (limit == 0)) [
  | inl none_left ↦ inl ((==_iff limit 0).0 none_left)
  | inr some_left ↦ elim (Bool-cases (is_nil text)) [
    | inl nothing ↦ inr (inr (is_nil-length text nothing))
    | inr filled ↦ inr (inl (ground (arith, e, some_left, filled)))
  ]
]

module _ (needle bytes : Bytes) (start budget : ℕ) (filled : is_nil needle ≡ false) where
  at_start-within : (n b : Bytes) → at_start n b ≡ true → length n ≤ length b
  unfolding at_start
  at_start-within [] b h = omega arith
  at_start-within (x ∷ n) [] h = absurd (ground (arith, h))
  at_start-within (x ∷ n) (y ∷ b) h = omega (arith, at_start-within n b (ground (arith, h)))

  -- An occurrence stands within the bytes.
  Occurs-within :
      (p : ℕ) → p < length bytes → Occurs needle bytes p → p + length needle ≤ length bytes
  Occurs-within p h o =
      omega (arith, at_start-within needle (drop p bytes) o, length-drop p bytes, h)

  search_match-IsScan :
      (limit used at found : ℕ) (text : Bytes) (rest : Scan)
      → used ≤ budget
      → text ≡ preview bytes found (found + length needle) (budget - used - 96)
      → IsIndex needle bytes at (length bytes) (some found)
      → (used + (length text + 96) ≤ budget
          → IsScan needle bytes start budget
              (limit - 1)
              (used + (length text + 96))
              (found + length needle)
              rest)
      → IsScan needle bytes start budget limit used at
          (search_match needle bytes start budget limit used at found text rest)
  unfolding search_match match_at
  search_match-IsScan limit used at found text rest room shown (le, within, hit, nowhere) more =
      let behind = found + length needle in
      let m = match_at start bytes found behind text in
      if_cases (IsScan needle bytes start budget limit used at)
        (is_over needle budget limit used text) (no_more at found)
        (if leb (length bytes) behind then last_match m behind else one_match m rest)
        (λ stop. record {
          found = nowhere;
          within = omega (arith, room);
          few = omega arith;
          consumed_ge = le;
          consumed_le = omega (arith, within);
          stop =
              stopped_same needle bytes budget limit (limit - 0) used (used + 0) found (omega arith)
                (omega arith)
                (inr (
                  hit,
                  subst
                      (λ (t : Bytes).
                        (limit ≡ 0) ⊎ ((budget < used + (length t + 96)) ⊎ (length t ≡ 0)))
                      shown (over_cases needle text budget limit used stop),
                ));
        })
        (λ go.
          let fits : used + (length text + 96) ≤ budget = ground (arith, go) in
          let some_left : 0 < limit = ground (arith, go) in
          let behind_le = Occurs-within found within hit in
          if_cases (IsScan needle bytes start budget limit used at) (leb (length bytes) behind)
            (last_match m behind) (one_match m rest)
            (λ last. record {
              found = (found, refl, le, hit, nowhere, λ p a b. absurd (omega (arith, a, b)));
              within = omega (arith, fits);
              few = omega (arith, some_left);
              consumed_ge = omega (arith, le);
              consumed_le = behind_le;
              stop = inl (omega (arith, behind_le, leb→le (length bytes) behind last));
            })
            (λ further.
              let r = more fits in
              record {
                found = (found, refl, le, hit, nowhere, r.found);
                within = omega (arith, r.within);
                few = omega (arith, r.few, some_left);
                consumed_ge = omega (arith, r.consumed_ge, le);
                consumed_le = r.consumed_le;
                stop =
                    stopped_same needle bytes budget (limit - 1 - length rest.matches)
                      (limit - suc (length rest.matches))
                      (used + (length text + 96) + cost rest.matches)
                      (used + (length text + 96 + cost rest.matches)) rest.consumed (omega arith)
                      (omega arith) r.stop;
              }))

  -- The matches that a search of the bytes from a place reports are the occurrences of the text, from
  -- the first one on and each behind the one before, up to the place that the search has come to; they
  -- are within the number and the budget allowed. It stops only at the end of the bytes, or before an
  -- occurrence when there are as many as allowed, it costs more than is left or nothing of it can be
  -- shown; so a search that is given more rounds than bytes never runs out of them.
  pub search_loop-IsScan :
      (rounds limit used at : ℕ)
      → length bytes < at + rounds
      → at ≤ length bytes
      → used ≤ budget
      → IsScan needle bytes start budget limit used at
          (search_loop rounds needle bytes start budget limit used at)
  unfolding search_loop
  search_loop-IsScan zero limit used at h k room = absurd (omega (arith, h, k))
  search_loop-IsScan (suc rounds) limit used at h k room =
      elim (Option-cases (index_of needle bytes at)) [
        | inl e ↦
            rw (e, search_loop)
              (record {
                found =
                    subst (IsIndex needle bytes at (length bytes)) e
                      (index_of-IsIndex needle bytes filled at (length bytes));
                within = omega (arith, room);
                few = omega arith;
                consumed_ge = k;
                consumed_le = omega arith;
                stop = inl refl;
              })
        | inr (found, e) ↦
            let i : IsIndex needle bytes at (length bytes) (some found) =
              subst (IsIndex needle bytes at (length bytes)) e
                (index_of-IsIndex needle bytes filled at (length bytes)) in
            let text = preview bytes found (found + length needle) (budget - used - 96) in
            rw (e, search_loop)
              (search_match-IsScan limit used at found text _ room refl i (λ fits.
                search_loop-IsScan rounds (limit - 1) (used + (length text + 96))
                  (found + length needle) (omega (arith, i.0, h, not_empty needle filled))
                  (Occurs-within found i.1 i.2) fits))
      ]
