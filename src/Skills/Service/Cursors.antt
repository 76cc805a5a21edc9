-- ===== src/Skills/Service/Cursors.antt =====
-- The cursors of src/skills/service.ts: encode and decode.
use mcp_dev_runtime.Base.{
  Bool, true, false, not, ◌||◌, Option, none, some, List, [], ◌∷◌, ◌++◌, ◌==◌, Bytes, ◌≡◌, ◌≢◌,
  refl, arith, Bool-cases, inl, inr,
}
use mcp_dev_runtime.Base.Text.{Text, equal, equal_iff, not-equal_nil, split}
use mcp_dev_runtime.Runtime.Errors.{ok}
use mcp_dev_runtime.Skills.Files.{has_code}
use mcp_dev_runtime.Skills.Service.{
  Cursor, Kind, Codec, encode, decode, decode_split, decode_parts, checked_cursor, is_accepted,
}

abbrev has_dot : Text → Bool
has_dot = has_code (λ c. c == 46)

split-dotless : (t : Text) → has_dot t ≡ false → split 46 t ≡ t ∷ []
unfolding split has_code
split-dotless [] h = refl
split-dotless (c ∷ t) h = ground (arith, h, split-dotless t)

-- There is a first part.
split_first : (t : Text) → (l : Text) × (ls : List Text) × (split 46 t ≡ l ∷ ls)
unfolding split
split_first [] = ([], [], refl)
split_first (c ∷ t) =
    let (l, ls, e) = split_first t in
    rw e (elim (Bool-cases (c == 46)) [
      | inl f ↦ rw f ([], l ∷ ls, refl)
      | inr f ↦ rw f (c ∷ l, ls, refl)
    ])

split-join : (t u : Text) → has_dot t ≡ false → split 46 (t ++ (46 ∷ u)) ≡ t ∷ split 46 u
unfolding split has_code
split-join [] u h = ground (arith, split_first u)
split-join (c ∷ t) u h = ground (arith, h, split-join t u)

-- What the code relies on: base64url has no dot and can be read back, as JSON can be, and neither
-- the JSON of a cursor nor a digest is empty.
pub record IsCodec (codec : Codec) (c : Cursor) : Type 0 where
  pub inverse : (b : Bytes) → codec.from_base64 (codec.to_base64 b) ≡ b
  pub dotless : (b : Bytes) → has_code (λ c. c == 46) (codec.to_base64 b) ≡ false
  pub filled : (b : Bytes) → b ≢ [] → codec.to_base64 b ≢ []
  pub printed : codec.stringify c ≢ []
  pub parsed : codec.parse (codec.stringify c) ≡ some c
  pub digested : (t : Text) → codec.hmac t ≢ []

-- A cursor that came out of a text whose digest is right.
pub record IsAuthentic (codec : Codec) (value : Text) (kind : Kind) (scope : Text) (c : Cursor)
    : Type 0 where
  pub coded : Text
  pub mac : Text
  pub rest : List Text
  pub parts : split 46 value ≡ coded ∷ mac ∷ rest
  pub signed : codec.from_base64 mac ≡ codec.hmac coded
  pub parsed : codec.parse (codec.from_base64 coded) ≡ some c
  pub accepted : is_accepted codec kind scope c ≡ true

module _ (codec : Codec) where
  pub decode-encode :
      (kind : Kind) (scope : Text) (c : Cursor)
      → IsCodec codec c
      → is_accepted codec kind scope c ≡ true
      → decode codec (encode codec c) kind scope ≡ ok c
  unfolding decode encode decode_split decode_parts checked_cursor equal
  decode-encode kind scope c laws h =
      let coded = codec.to_base64 (codec.stringify c) in
      let mac = codec.to_base64 (codec.hmac coded) in
      rw
        (
          split-join coded mac (laws.dotless (codec.stringify c)),
          split-dotless mac (laws.dotless (codec.hmac coded)),
        )
        (rw (laws.inverse (codec.stringify c), laws.parsed)
          (ground (
            arith,
            h,
            laws.inverse (codec.hmac coded),
            not-equal_nil coded (laws.filled (codec.stringify c) (laws.printed)),
            not-equal_nil mac (laws.filled (codec.hmac coded) (laws.digested coded)),
            (equal_iff (codec.from_base64 mac) (codec.hmac coded)).1,
          )))

  checked_cursor-ok :
      (kind : Kind) (scope : Text) (o : Option Cursor) (c : Cursor)
      → checked_cursor codec kind scope o ≡ ok c
      → (o ≡ some c) × (is_accepted codec kind scope c ≡ true)
  unfolding checked_cursor
  checked_cursor-ok kind scope none c h = absurd (ground (arith, h))
  checked_cursor-ok kind scope (some d) c h = ground (arith, h)

  decode_parts-IsAuthentic :
      (kind : Kind) (scope value coded mac extra : Text) (rest : List Text) (c : Cursor)
      → split 46 value ≡ coded ∷ mac ∷ rest
      → decode_parts codec kind scope coded mac extra ≡ ok c
      → IsAuthentic codec value kind scope c
  unfolding decode_parts
  decode_parts-IsAuthentic kind scope value coded mac extra rest c parts h =
      let refused =
        equal coded []
        || equal mac []
        || not (equal extra [])
        || not (equal (codec.from_base64 mac) (codec.hmac coded)) in
      elim (Bool-cases refused) [
        | inl e ↦ absurd (ground (arith, h, e))
        | inr e ↦
            let read =
              checked_cursor-ok kind scope (codec.parse (codec.from_base64 coded)) c
                (ground (arith, h, e)) in
            record {
              coded = coded;
              mac = mac;
              rest = rest;
              parts = parts;
              signed = (equal_iff (codec.from_base64 mac) (codec.hmac coded)).0 (ground (arith, e));
              parsed = read.0;
              accepted = read.1;
            }
      ]

  decode_split-IsAuthentic :
      (kind : Kind) (scope value : Text) (parts : List Text) (c : Cursor)
      → split 46 value ≡ parts
      → decode_split codec kind scope parts ≡ ok c
      → IsAuthentic codec value kind scope c
  unfolding decode_split
  decode_split-IsAuthentic kind scope value (coded ∷ mac ∷ extra ∷ rest) c e h =
      decode_parts-IsAuthentic kind scope value coded mac extra (extra ∷ rest) c e h
  decode_split-IsAuthentic kind scope value (coded ∷ mac ∷ []) c e h =
      decode_parts-IsAuthentic kind scope value coded mac [] [] c e h
  decode_split-IsAuthentic kind scope value (coded ∷ []) c e h = absurd (ground (arith, h))
  decode_split-IsAuthentic kind scope value [] c e h = absurd (ground (arith, h))

  pub decode-IsAuthentic :
      (value : Text) (kind : Kind) (scope : Text) (c : Cursor)
      → decode codec value kind scope ≡ ok c
      → IsAuthentic codec value kind scope c
  unfolding decode
  decode-IsAuthentic value kind scope c h =
      decode_split-IsAuthentic kind scope value (split 46 value) c refl h
