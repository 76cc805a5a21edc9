-- ===== src/Runtime/OutputLog/Blocks.antt =====
-- The blocks of src/runtime/output-log.ts, and what they hold.
use mcp_dev_runtime.Base.{
  ℕ, zero, suc, ◌+◌, ◌-◌, ◌≤◌, ◌<◌, min, max, Bool, true, false, ◌&&◌, Bytes, List, [], ◌∷◌, ◌++◌,
  ◌==◌, ltb, leb, if◌then◌else◌, length, drop, get_or, ◌≡◌, refl, sym, ap, ◌∙◌, arith, append-nil,
  append_assoc, length-append, Bool-cases, inl, inr,
}
use mcp_dev_runtime.Base.Slices.{slice, get_or-append_lt, get_or-append_ge}

-- `used` is the length of `bytes`.
pub record Block : Type 0 where
  pub bytes : Bytes
  pub start : ℕ

abbrev pub block_size : ℕ
block_size = 16384

-- `!tail || tail.used === BLOCK` for the last block
unfoldable pub tail_full : List Block → Bool
tail_full [] = true
tail_full (b ∷ []) = length b.bytes == block_size
tail_full (b ∷ c ∷ bs) = tail_full (c ∷ bs)

unfoldable pub tail_used : List Block → ℕ
tail_used [] = 0
tail_used (b ∷ []) = length b.bytes
tail_used (b ∷ c ∷ bs) = tail_used (c ∷ bs)

-- `bytes.copy(tail.bytes, tail.used, …)`
unfoldable pub fill_tail : Bytes → List Block → List Block
fill_tail part [] = []
fill_tail part (b ∷ []) = record b { bytes = b.bytes ++ part } ∷ []
fill_tail part (b ∷ c ∷ bs) = b ∷ fill_tail part (c ∷ bs)

-- byteAt, over the blocks from `head` on.
unfoldable pub byte_in : ℕ → List Block → ℕ
byte_in offset [] = 0
byte_in offset (b ∷ bs) =
    if leb b.start offset && ltb offset (b.start + length b.bytes)
    then get_or b.bytes (offset - b.start) 0
    else byte_in offset bs

-- How many blocks from the first on end at `from` or before.
unfoldable pub ended : ℕ → List Block → ℕ
ended from [] = 0
ended from (b ∷ bs) =
    let more = suc (ended from bs) in if leb (b.start + length b.bytes) from then more else 0

-- The loop of `read` that collects the parts of the blocks between two positions.
unfoldable pub gather : ℕ → ℕ → List Block → Bytes
gather start end [] = []
gather start end (b ∷ bs) =
    let left = max start b.start in
    let right = min end (b.start + length b.bytes) in
    let rest = gather start end bs in
    if leb end b.start
    then []
    else if ltb left right
    then slice (left - b.start) (right - b.start) b.bytes ++ rest
    else rest

abbrev pub contents : List Block → Bytes
contents [] = []
contents (b ∷ bs) = b.bytes ++ contents bs

-- The blocks follow each other from `s` to `e`, and none is too large.
abbrev pub Chain : ℕ → List Block → ℕ → Type 0
Chain s [] e = s ≡ e
Chain s (b ∷ bs) e = (b.start ≡ s) × (length b.bytes ≤ block_size) × Chain (s + length b.bytes) bs e

pub Chain-length : (s : ℕ) (bs : List Block) (e : ℕ) → Chain s bs e → e ≡ s + length (contents bs)
Chain-length s [] e c = omega arith
Chain-length s (b ∷ bs) e c =
    omega (arith, Chain-length (s + length b.bytes) bs e c.2, length-append b.bytes (contents bs))

pub Chain-push :
    (s : ℕ) (bs : List Block) (e : ℕ)
    → Chain s bs e
    → Chain s (bs ++ (record { bytes = []; start = e } ∷ [])) e
Chain-push s [] e c = (sym c, omega arith, omega arith)
Chain-push s (b ∷ bs) e c = (c.0, c.1, Chain-push (s + length b.bytes) bs e c.2)

pub contents-push :
    (bs : List Block) (e : ℕ)
    → contents (bs ++ (record { bytes = []; start = e } ∷ [])) ≡ contents bs
contents-push [] e = refl
contents-push (b ∷ bs) e = ap (λ l. b.bytes ++ l) (contents-push bs e)

Chain-fill_tail :
    (part : Bytes) (s : ℕ) (b : Block) (bs : List Block) (e : ℕ)
    → tail_used (b ∷ bs) + length part ≤ block_size
    → Chain s (b ∷ bs) e
    → Chain s (fill_tail part (b ∷ bs)) (e + length part)
unfolding fill_tail tail_used
Chain-fill_tail part s b [] e h c =
    (c.0, omega (arith, length-append b.bytes part), omega (arith, length-append b.bytes part, c.2))
Chain-fill_tail part s b (d ∷ bs) e h c =
    (c.0, c.1, Chain-fill_tail part (s + length b.bytes) d bs e h c.2)

contents-fill_tail :
    (part : Bytes) (b : Block) (bs : List Block)
    → contents (fill_tail part (b ∷ bs)) ≡ contents (b ∷ bs) ++ part
unfolding fill_tail
contents-fill_tail part b [] = simp (append-nil)
contents-fill_tail part b (d ∷ bs) =
    ap (λ l. b.bytes ++ l) (contents-fill_tail part d bs) ∙ sym (append_assoc b.bytes _ part)

pub length-fill_tail : (part : Bytes) (bs : List Block) → length (fill_tail part bs) ≡ length bs
unfolding fill_tail
length-fill_tail part [] = refl
length-fill_tail part (b ∷ []) = refl
length-fill_tail part (b ∷ c ∷ bs) = ap suc (length-fill_tail part (c ∷ bs))

pub drop-fill_tail :
    (part : Bytes) (n : ℕ) (bs : List Block)
    → n < length bs
    → drop n (fill_tail part bs) ≡ fill_tail part (drop n bs)
unfolding fill_tail
drop-fill_tail part zero bs h = refl
drop-fill_tail part (suc n) [] h = refl
drop-fill_tail part (suc n) (b ∷ []) h = absurd (omega arith)
drop-fill_tail part (suc n) (b ∷ c ∷ bs) h = drop-fill_tail part n (c ∷ bs) (omega arith)

pub tail_used-drop :
    (n : ℕ) (bs : List Block) → n < length bs → tail_used (drop n bs) ≡ tail_used bs
unfolding tail_used
tail_used-drop zero bs h = refl
tail_used-drop (suc n) [] h = refl
tail_used-drop (suc n) (b ∷ []) h = absurd (omega arith)
tail_used-drop (suc n) (b ∷ c ∷ bs) h = tail_used-drop n (c ∷ bs) (omega arith)

pub byte_in-contents :
    (offset s : ℕ) (bs : List Block) (e : ℕ)
    → Chain s bs e
    → s ≤ offset
    → byte_in offset bs ≡ get_or (contents bs) (offset - s) 0
unfolding byte_in
byte_in-contents offset s [] e c h = refl
byte_in-contents offset s (b ∷ bs) e c h = elim (Bool-cases (ltb offset (s + length b.bytes))) [
  | inl here ↦ ground (arith, get_or-append_lt (offset - s) 0 b.bytes (contents bs))
  | inr later ↦ ground (
    arith,
    get_or-append_ge (offset - s) 0 b.bytes (contents bs),
    byte_in-contents offset (s + length b.bytes) bs e c.2,
    ap (λ k. get_or (contents bs) k 0) {x = offset - s - length b.bytes}
        {y = offset - (s + length b.bytes)} (omega arith),
  )
]

pub tail_used-push :
    (bs : List Block) (e : ℕ) → tail_used (bs ++ (record { bytes = []; start = e } ∷ [])) ≡ 0
unfolding tail_used
tail_used-push [] e = refl
tail_used-push (b ∷ []) e = refl
tail_used-push (b ∷ c ∷ bs) e = tail_used-push (c ∷ bs) e

-- A last block that is not full has room.
pub tail_used-lt :
    (s : ℕ) (bs : List Block) (e : ℕ)
    → Chain s bs e
    → tail_full bs ≡ false
    → tail_used bs < block_size
unfolding tail_full tail_used
tail_used-lt s [] e c h = cc
tail_used-lt s (b ∷ []) e c h = ground (arith, c.1)
tail_used-lt s (b ∷ d ∷ bs) e c h = tail_used-lt (s + length b.bytes) (d ∷ bs) e c.2 h

pub tail_full-drop :
    (n : ℕ) (bs : List Block) → n < length bs → tail_full (drop n bs) ≡ tail_full bs
unfolding tail_full
tail_full-drop zero bs h = refl
tail_full-drop (suc n) [] h = absurd (omega arith)
tail_full-drop (suc n) (b ∷ []) h = absurd (omega arith)
tail_full-drop (suc n) (b ∷ c ∷ bs) h = tail_full-drop n (c ∷ bs) (omega arith)

pub Chain-fill :
    (part : Bytes) (s : ℕ) (bs : List Block) (e : ℕ)
    → 0 < length bs
    → tail_used bs + length part ≤ block_size
    → Chain s bs e
    → Chain s (fill_tail part bs) (e + length part)
Chain-fill part s [] e h room c = absurd (omega arith)
Chain-fill part s (b ∷ bs) e h room c = Chain-fill_tail part s b bs e room c

pub contents-fill :
    (part : Bytes) (bs : List Block)
    → 0 < length bs
    → contents (fill_tail part bs) ≡ contents bs ++ part
contents-fill part [] h = absurd (omega arith)
contents-fill part (b ∷ bs) h = contents-fill_tail part b bs
