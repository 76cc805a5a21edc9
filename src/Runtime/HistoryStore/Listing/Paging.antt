-- ===== src/Runtime/HistoryStore/Listing/Paging.antt =====
-- Neighbouring pages of list of src/runtime/history-store.ts.
use mcp_dev_runtime.Base.{
  ℕ, zero, suc, Bool, true, false, ◌&&◌, some, List, [], ◌∷◌, take, drop, keep, ◌≡◌, ◌≢◌, refl, ap,
  sym, ◌∙◌, arith, subst, if_cases,
}
use mathlib.Core.Option.{some-injective}
use mcp_dev_runtime.Base.Sorting.{
  sort_by, All, Pairwise, All-sort_by, Pairwise-keep, Pairwise-sort_by,
}
use mcp_dev_runtime.Base.Sorting.Ordered.{keep-keep, keep-ext, keep-sort_by, sort_by-Pairwise}
use mcp_dev_runtime.Runtime.HistoryStore.{HistoryRecord, HistoryStore}
use mcp_dev_runtime.Runtime.HistoryStore.Filter.{HistoryFilter}
use mcp_dev_runtime.Runtime.HistoryStore.Listing.{
  is_behind, stands_before, is_listed, records, eligible, last,
}

abbrev IsBehind : Bool → HistoryRecord → HistoryRecord → Type 0
IsBehind descending a b = is_behind descending a.seq b ≡ true

-- No two records have one number.
abbrev pub AreNumbered : List HistoryRecord → Type 0
AreNumbered = Pairwise (λ a b. a.seq ≢ b.seq)

last-All :
    (P : HistoryRecord → Type 0) (xs : List HistoryRecord) (n : ℕ) (r : HistoryRecord)
    → All P xs
    → last (take n xs) ≡ some r
    → P r
unfolding last
last-All P [] zero r h e = absurd (ground (arith, e))
last-All P [] (suc n) r h e = absurd (ground (arith, e))
last-All P (x ∷ xs) zero r h e = absurd (ground (arith, e))
last-All P (x ∷ []) (suc zero) r h e = subst P (some-injective x r e) h.0
last-All P (x ∷ []) (suc (suc n)) r h e = subst P (some-injective x r e) h.0
last-All P (x ∷ y ∷ ys) (suc zero) r h e = subst P (some-injective x r e) h.0
last-All P (x ∷ y ∷ ys) (suc (suc n)) r h e = last-All P (y ∷ ys) (suc n) r h.1 e

keep_all :
    (q : HistoryRecord → Bool) (xs : List HistoryRecord) → All (λ r. q r ≡ true) xs → keep q xs ≡ xs
keep_all q [] h = refl
keep_all q (x ∷ xs) h = ground (arith, h.0, keep_all q xs h.1)

is_behind_irrefl : (descending : Bool) (r : HistoryRecord) → is_behind descending r.seq r ≡ false
unfolding is_behind
is_behind_irrefl true r = ground arith
is_behind_irrefl false r = ground arith

is_behind_asym :
    (descending : Bool) (a b : HistoryRecord)
    → IsBehind descending a b
    → is_behind descending b.seq a ≡ false
unfolding is_behind
is_behind_asym true a b h = ground (arith, h)
is_behind_asym false a b h = ground (arith, h)

is_behind_trans :
    (descending : Bool) (after : ℕ) (a b : HistoryRecord)
    → is_behind descending after a ≡ true
    → IsBehind descending a b
    → is_behind descending after b ≡ true
unfolding is_behind
is_behind_trans true after a b h k = ground (arith, h, k)
is_behind_trans false after a b h k = ground (arith, h, k)

module _ (descending : Bool) where
  behind_first :
      (x : HistoryRecord) (xs : List HistoryRecord) (r : HistoryRecord)
      → All (IsBehind descending x) xs
      → x ≡ r
      → keep (is_behind descending r.seq) (x ∷ xs) ≡ xs
  behind_first x xs r h e =
      subst (λ q. keep (is_behind descending q.seq) (x ∷ xs) ≡ xs) e
        (rw (is_behind_irrefl descending x) (keep_all (is_behind descending x.seq) xs h))

  -- What is behind the last value of the first ones is what is left without them.
  behind_last :
      (n : ℕ) (xs : List HistoryRecord) (r : HistoryRecord)
      → Pairwise (IsBehind descending) xs
      → last (take n xs) ≡ some r
      → keep (is_behind descending r.seq) xs ≡ drop n xs
  unfolding last
  behind_last zero [] r s e = absurd (ground (arith, e))
  behind_last (suc n) [] r s e = absurd (ground (arith, e))
  behind_last zero (x ∷ xs) r s e = absurd (ground (arith, e))
  behind_last (suc zero) (x ∷ []) r s e = behind_first x [] r s.0 (some-injective x r e)
  behind_last (suc (suc n)) (x ∷ []) r s e = behind_first x [] r s.0 (some-injective x r e)
  behind_last (suc zero) (x ∷ y ∷ ys) r s e = behind_first x (y ∷ ys) r s.0 (some-injective x r e)
  behind_last (suc (suc n)) (x ∷ y ∷ ys) r s e =
      rw (is_behind_asym descending x r (last-All (IsBehind descending x) (y ∷ ys) (suc n) r s.0 e))
        (behind_last (suc n) (y ∷ ys) r s.1 e)

stands_trans :
    (descending : Bool) (a b c : HistoryRecord)
    → stands_before descending a b ≡ true
    → stands_before descending b c ≡ true
    → stands_before descending a c ≡ true
unfolding stands_before
stands_trans true a b c h k = ground (arith, h, k)
stands_trans false a b c h k = ground (arith, h, k)

stands_total :
    (descending : Bool) (a b : HistoryRecord)
    → stands_before descending a b ≡ false
    → stands_before descending b a ≡ true
unfolding stands_before
stands_total true a b h = ground (arith, h)
stands_total false a b h = ground (arith, h)

stands_before-IsBehind :
    (descending : Bool) (a b : HistoryRecord)
    → stands_before descending a b ≡ true
    → a.seq ≢ b.seq
    → IsBehind descending a b
unfolding stands_before is_behind
stands_before-IsBehind true a b h k = ground (arith, h, k)
stands_before-IsBehind false a b h k = ground (arith, h, k)

keep_holds :
    (q : HistoryRecord → Bool) (xs : List HistoryRecord) → All (λ r. q r ≡ true) (keep q xs)
keep_holds q [] = tt
keep_holds q (x ∷ xs) =
    if_cases (All (λ r. q r ≡ true)) (q x) (x ∷ keep q xs) (keep q xs) (λ e. (e, keep_holds q xs))
      (λ _. keep_holds q xs)

module _ (descending : Bool) where
  all-IsBehind :
      (x : HistoryRecord) (ys : List HistoryRecord)
      → All (λ y. stands_before descending x y ≡ true) ys
      → All (λ y. x.seq ≢ y.seq) ys
      → All (IsBehind descending x) ys
  all-IsBehind x [] s d = tt
  all-IsBehind x (y ∷ ys) s d =
      (stands_before-IsBehind descending x y s.0 d.0, all-IsBehind x ys s.1 d.1)

  -- Sorted records of which no two have one number.
  strictly :
      (xs : List HistoryRecord)
      → Pairwise (λ a b. stands_before descending a b ≡ true) xs
      → AreNumbered xs
      → Pairwise (IsBehind descending) xs
  strictly [] s d = tt
  strictly (x ∷ xs) s d = (all-IsBehind x xs s.0 d.0, strictly xs s.1 d.1)

  module _ (ceiling after limit : ℕ) (f : HistoryFilter) (s : HistoryStore)
      (r : HistoryRecord) where
    abbrev listed : HistoryRecord → Bool
    listed = is_listed descending ceiling after f

    abbrev page : List HistoryRecord
    page = sort_by (stands_before descending) (keep listed (records s))

    still_behind : last (take limit page) ≡ some r → is_behind descending after r ≡ true
    unfolding is_listed
    still_behind e = ground (
      arith,
      last-All (λ q. listed q ≡ true) page limit r
          (All-sort_by (λ q. listed q ≡ true) (stands_before descending) (keep listed (records s))
            (keep_holds listed (records s)))
          e,
    )

    narrowed :
        is_behind descending after r ≡ true
        → (q : HistoryRecord)
        → (listed q && is_behind descending r.seq q) ≡ is_listed descending ceiling r.seq f q
    unfolding is_listed
    narrowed h q = ground (arith, is_behind_trans descending after r q h)

    -- After the last record of a page come those that the page has left.
    pub eligible-last :
        AreNumbered (records s)
        → last (take limit (eligible descending ceiling after f s)) ≡ some r
        → eligible descending ceiling r.seq f s ≡ drop limit (eligible descending ceiling after f s)
    unfolding eligible
    eligible-last d e =
        let before = stands_before descending in
        let behind = is_behind descending r.seq in
        ap (sort_by before) (
          sym (
            keep-keep listed behind (records s)
            ∙ keep-ext _ _ (narrowed (still_behind e)) (records s)))
        ∙ sym (
            keep-sort_by before (stands_trans descending) (stands_total descending) behind
              (keep listed (records s)))
        ∙ behind_last descending limit page r
            (strictly page
              (sort_by-Pairwise before (stands_trans descending) (stands_total descending)
                (keep listed (records s)))
              (Pairwise-sort_by (λ a b. a.seq ≢ b.seq) (λ a b n h. n (sym h)) before
                (keep listed (records s))
                (Pairwise-keep (λ a b. a.seq ≢ b.seq) listed (records s) d)))
            e
