-- ===== src/Runtime/LogQuery/Validation.antt =====
-- validateQuery of src/runtime/log-query.ts: the requests that are let through.
use mcp_dev_runtime.Base.{
  ℕ, ◌≤◌, Bool, false, Option, none, some, Number, whole, other, Bytes, [], ◌∷◌, ◌≡◌, ◌⊎◌, ◌↔◌, inl,
  inr, refl, arith, length,
}
use mcp_dev_runtime.Runtime.Errors.{ok}
use mcp_dev_runtime.Runtime.PatchParser.Grammar.{is_nil}
use mcp_dev_runtime.Runtime.LogQuery.{
  LogQuery, outside, bad_tail, bad_search, bad_matches, validate_query,
}

-- A request that asks for no lines and no text; it may have a cursor and characters to write.
abbrev pub IsPlain : LogQuery → Type 0
IsPlain q = (q.tail_lines ≡ none) × (q.search ≡ none) × (q.max_matches ≡ none)

-- A request for the last lines, and nothing else.
pub record IsTailQuery (q : LogQuery) (typed : Bool) : Type 0 where
  pub lines : ℕ
  pub asked : q.tail_lines ≡ some (whole lines)
  pub some_line : 1 ≤ lines
  pub lines_le : lines ≤ 10000
  pub alone : (q.search ≡ none) × (q.max_matches ≡ none) × (q.output_cursor ≡ none)
  pub silent : typed ≡ false

-- A number of matches, if one is asked for.
abbrev pub IsMatches : Option Number → Type 0
IsMatches none = Unit
IsMatches (some (whole n)) = (1 ≤ n) × (n ≤ 100)
IsMatches (some other) = ⊥

-- A request for a text, from a cursor or from the start.
pub record IsSearchQuery (q : LogQuery) (typed : Bool) : Type 0 where
  pub text : Bytes
  pub asked : q.search ≡ some text
  pub some_byte : 1 ≤ length text
  pub text_le : length text ≤ 1024
  pub no_lines : q.tail_lines ≡ none
  pub matches : IsMatches q.max_matches
  pub silent : typed ≡ false

abbrev pub IsAllowed : LogQuery → Bool → Type 0
IsAllowed q typed = IsPlain q ⊎ (IsTailQuery q typed ⊎ IsSearchQuery q typed)

-- The tests by the fields of the request.
abbrev query_of : Option Number → Option Bytes → Option Number → Option Number → LogQuery
query_of t s m c = record { tail_lines = t; search = s; max_matches = m; output_cursor = c }

Passes : Option Number → Option Bytes → Option Number → Option Number → Bool → Type 0
Passes t s m c typed = validate_query (query_of t s m c) typed ≡ ok tt

search-IsAllowed :
    (text : Bytes) (m c : Option Number) (typed : Bool)
    → Passes none (some text) m c typed
    → IsAllowed (query_of none (some text) m c) typed
unfolding Passes validate_query bad_tail bad_search bad_matches outside is_nil
search-IsAllowed [] m c typed h = absurd (ground (arith, h))
search-IsAllowed (b ∷ text) m c typed h = inr (
    inr (record {
      text = b ∷ text;
      asked = refl;
      some_byte = omega arith;
      text_le = ground (arith, h);
      no_lines = refl;
      matches = by_matches m h;
      silent = ground (arith, h);
    }))
  where
    by_matches : (m : Option Number) → Passes none (some (b ∷ text)) m c typed → IsMatches m
    by_matches none q = tt
    by_matches (some (whole n)) q = (ground (arith, q), ground (arith, q))
    by_matches (some other) q = ground (arith, q)

tail-IsAllowed :
    (n : Number) (s : Option Bytes) (m c : Option Number) (typed : Bool)
    → Passes (some n) s m c typed
    → IsAllowed (query_of (some n) s m c) typed
unfolding Passes validate_query bad_tail bad_search bad_matches outside is_nil
tail-IsAllowed other s m c typed h = absurd (ground (arith, h))
tail-IsAllowed (whole n) s m c typed h = inr (
    inl (record {
      lines = n;
      asked = refl;
      some_line = ground (arith, h);
      lines_le = ground (arith, h);
      alone = (ground (arith, h), ground (arith, h), ground (arith, h));
      silent = ground (arith, h);
    }))

Passes-IsAllowed :
    (t : Option Number) (s : Option Bytes) (m c : Option Number) (typed : Bool)
    → Passes t s m c typed
    → IsAllowed (query_of t s m c) typed
unfolding Passes validate_query bad_tail bad_search bad_matches
Passes-IsAllowed none none none c typed h = inl (refl, refl, refl)
Passes-IsAllowed none none (some n) c typed h = absurd (ground (arith, h))
Passes-IsAllowed none (some text) m c typed h = search-IsAllowed text m c typed h
Passes-IsAllowed (some n) s m c typed h = tail-IsAllowed n s m c typed h

good_matches : (s : Bytes) (m : Option Number) → IsMatches m → bad_matches (some s) m ≡ false
unfolding bad_matches outside
good_matches s none i = refl
good_matches s (some (whole n)) i = ground (arith, i)
good_matches s (some other) i = absurd i

IsAllowed-Passes :
    (q : LogQuery) (typed : Bool) → IsAllowed q typed → validate_query q typed ≡ ok tt
unfolding validate_query bad_tail bad_search bad_matches outside is_nil
IsAllowed-Passes q typed (inl (t, s, m)) = ground (arith, t, s, m)
IsAllowed-Passes q typed (inr (inl i)) =
    ground (arith, i.asked, i.some_line, i.lines_le, i.alone, i.silent)
IsAllowed-Passes q typed (inr (inr i)) = ground (
  arith,
  i.asked,
  i.some_byte,
  i.text_le,
  i.no_lines,
  i.silent,
  good_matches i.text q.max_matches i.matches,
)

-- A request passes just if it is a plain one, one for 1 to 10000 last lines alone, or one for a text of
-- 1 to 1024 bytes with 1 to 100 matches; and characters to write go with a plain one only.
pub validate_query_iff :
    (q : LogQuery) (typed : Bool) → (validate_query q typed ≡ ok tt) ↔ IsAllowed q typed
unfolding Passes
validate_query_iff q typed = (
  Passes-IsAllowed q.tail_lines q.search q.max_matches q.output_cursor typed,
  IsAllowed-Passes q typed,
)
