-- ===== src/Skills/Cache/Storing.antt =====
-- What set of src/skills/cache.ts keeps and stores.
use mcp_dev_runtime.Base.{
  ℕ, zero, suc, ◌+◌, ◌-◌, ◌<◌, ◌≤◌, false, none, some, [], ◌∷◌, ◌≡◌, refl, ap, ◌∙◌, inl, inr, arith,
  ltb, if_cases, ite_cases, length, String, Option-cases,
}
use mcp_dev_runtime.Base.JsMap.{string_discrete, IsMap}
use mcp_dev_runtime.Base.JsMap
use mcp_dev_runtime.Base.JsMap.Laws.{
  get-set, get-delete, set-IsMap, delete-IsMap, length-set_new, length-delete, length-delete-le,
}
use mcp_dev_runtime.Base.JsMap.Totals.{total, total-delete, total-set_new}
use mcp_dev_runtime.Skills.Cache.{
  CacheEntry, BoundedCache, delete, is_full, delete_first, delete_oldest, make_place, insert, set,
}

-- The keys are unique, the bytes are those of the entries, and both are within their bounds.
pub record IsValid (T : Type 0) (c : BoundedCache T) : Type 0 where
  pub unique : IsMap string_discrete c.entries
  pub counted : c.bytes ≡ total (λ (e : CacheEntry T). e.bytes) c.entries
  pub bytes_le : c.bytes ≤ c.max_bytes
  pub entries_le : length c.entries ≤ c.capacity

module _ {T : Type 0} where
  -- Removing entries; `key` is absent if it was.
  record IsCut (key : String) (c c' : BoundedCache T) : Type 0 where
    valid : IsValid T c'
    capacity : c'.capacity ≡ c.capacity
    max_bytes : c'.max_bytes ≡ c.max_bytes
    absent :
        JsMap.get string_discrete key c.entries ≡ none
        → JsMap.get string_discrete key c'.entries ≡ none

  delete-IsCut : (key k : String) (c : BoundedCache T) → IsValid T c → IsCut key c (delete k c)
  unfolding delete
  delete-IsCut key k c v = elim (Option-cases (JsMap.get string_discrete k c.entries)) [
    | inl none_there ↦
        rw (none_there, delete)
          (record { valid = v; capacity = refl; max_bytes = refl; absent = λ a. a })
    | inr (e, g) ↦
        rw (g, delete)
          (record {
            valid = record {
              unique = delete-IsMap string_discrete k c.entries v.unique;
              counted = omega (
                arith,
                v.counted,
                total-delete (λ (e : CacheEntry T). e.bytes) string_discrete k e c.entries g,
              );
              bytes_le = omega (arith, v.bytes_le);
              entries_le =
                  omega (arith, v.entries_le, length-delete-le string_discrete k c.entries);
            };
            capacity = refl;
            max_bytes = refl;
            absent = λ a. ground (arith, get-delete string_discrete key k c.entries v.unique, a);
          })
  ]

  delete-absent :
      (key : String) (c : BoundedCache T)
      → IsValid T c
      → JsMap.get string_discrete key (delete key c).entries ≡ none
  unfolding delete
  delete-absent key c v = elim (Option-cases (JsMap.get string_discrete key c.entries)) [
    | inl e ↦ rw (e, delete) e
    | inr (e, g) ↦
        rw (g, delete)
          (get-delete string_discrete key key c.entries v.unique
            ∙ ite_cases (λ o. o ≡ none) (string_discrete key key) none
                (JsMap.get string_discrete key c.entries) (λ _. refl) (λ n. absurd (n refl)))
  ]

  get-head :
      (k : String) (e : CacheEntry T) (m : JsMap.JsMap String (CacheEntry T))
      → JsMap.get string_discrete k ((k, e) ∷ m) ≡ some e
  unfolding JsMap.get
  get-head k e m =
      ite_cases (λ o. o ≡ some e) (string_discrete k k) (some e) (JsMap.get string_discrete k m)
        (λ _. refl) (λ n. absurd (n refl))

  total-empty :
      (m : JsMap.JsMap String (CacheEntry T))
      → length m ≤ 0
      → total (λ (e : CacheEntry T). e.bytes) m ≡ 0
  total-empty [] h = refl
  total-empty (x ∷ m) h = absurd (omega arith)

  IsCut-trans :
      (key : String) (a b c : BoundedCache T) → IsCut key a b → IsCut key b c → IsCut key a c
  IsCut-trans key a b c p q = record {
    valid = q.valid;
    capacity = q.capacity ∙ p.capacity;
    max_bytes = q.max_bytes ∙ p.max_bytes;
    absent = λ e. q.absent (p.absent e);
  }

  delete-shorter :
      (k : String) (e : CacheEntry T) (c : BoundedCache T)
      (rest : JsMap.JsMap String (CacheEntry T))
      → c.entries ≡ (k, e) ∷ rest
      → length (delete k c).entries ≤ suc (length rest) - 1
  unfolding delete
  delete-shorter k e c rest q =
      let size : length c.entries ≡ suc (length rest) =
        ap (λ (l : JsMap.JsMap String (CacheEntry T)). length l) q in
      let g : JsMap.get string_discrete k c.entries ≡ some e =
        ap (JsMap.get string_discrete k) q ∙ get-head k e rest in
      rw (g, delete) (omega (arith, length-delete string_discrete k e c.entries g, size))

  delete_head :
      (key : String) (c : BoundedCache T) (m : JsMap.JsMap String (CacheEntry T))
      → IsValid T c
      → c.entries ≡ m
      → IsCut key c (delete_first m c) × (length (delete_first m c).entries ≤ length m - 1)
  unfolding delete_first
  delete_head key c [] v q = (
    record { valid = v; capacity = refl; max_bytes = refl; absent = λ a. a },
    omega (arith, ap (λ (l : JsMap.JsMap String (CacheEntry T)). length l) q),
  )
  delete_head key c ((k, e) ∷ rest) v q = (delete-IsCut key k c v, delete-shorter k e c rest q)

  delete_oldest-IsCut :
      (key : String) (c : BoundedCache T)
      → IsValid T c
      → IsCut key c (delete_oldest c) × (length (delete_oldest c).entries ≤ length c.entries - 1)
  unfolding delete_oldest
  delete_oldest-IsCut key c v = delete_head key c c.entries v refl

  make_place-IsCut :
      (rounds bytes : ℕ) (key : String) (c : BoundedCache T)
      → IsValid T c
      → length c.entries ≤ rounds
      → 0 < c.capacity
      → bytes ≤ c.max_bytes
      → IsCut key c (make_place rounds bytes c)
        × (is_full bytes (make_place rounds bytes c) ≡ false)
  unfolding make_place is_full
  make_place-IsCut zero bytes key c v h some_room fits = (
    record { valid = v; capacity = refl; max_bytes = refl; absent = λ a. a },
    ground (arith, v.counted, total-empty c.entries h, h, some_room, fits),
  )
  make_place-IsCut (suc rounds) bytes key c v h some_room fits =
      let (cut, shorter) = delete_oldest-IsCut key c v in
      let rest =
        make_place-IsCut rounds bytes key (delete_oldest c) cut.valid (omega (arith, shorter, h))
          (omega (arith, cut.capacity, some_room)) (omega (arith, cut.max_bytes, fits)) in
      if_cases (λ x. IsCut key c x × (is_full bytes x ≡ false)) (is_full bytes c)
        (make_place rounds bytes (delete_oldest c)) c
        (λ full. (IsCut-trans key c (delete_oldest c) _ cut rest.0, rest.1))
        (λ place. (record { valid = v; capacity = refl; max_bytes = refl; absent = λ a. a }, place))

  room_bytes :
      (bytes : ℕ) (c : BoundedCache T) → is_full bytes c ≡ false → c.bytes + bytes ≤ c.max_bytes
  unfolding is_full
  room_bytes bytes c free = ground (arith, free)

  room_entries :
      (key : String) (e : CacheEntry T) (bytes : ℕ) (c : BoundedCache T)
      → is_full bytes c ≡ false
      → JsMap.get string_discrete key c.entries ≡ none
      → length (JsMap.set string_discrete key e c.entries) ≤ c.capacity
  unfolding is_full
  room_entries key e bytes c free gone =
      ground (arith, free, length-set_new string_discrete key e c.entries gone)

  -- Storing a value keeps the bounds, the count of the bytes and the keys unique; and a value that is
  -- not larger than the cache is there afterwards.
  pub set-IsValid :
      (now : ℕ) (key : String) (value : T) (bytes ttl : ℕ) (c : BoundedCache T)
      → IsValid T c
      → 0 < c.capacity
      → IsValid T (set now key value bytes ttl c)
        × (bytes ≤ c.max_bytes
            → JsMap.get string_discrete key (set now key value bytes ttl c).entries
              ≡ some (record { value = value; bytes = bytes; until = now + ttl }))
  unfolding set insert
  set-IsValid now key value bytes ttl c v some_room =
      let e : CacheEntry T = record { value = value; bytes = bytes; until = now + ttl } in
      let cut = delete-IsCut key key c v in
      let without = delete key c in
      if_cases
        (λ x.
          IsValid T x × (bytes ≤ c.max_bytes → JsMap.get string_discrete key x.entries ≡ some e))
        (ltb c.max_bytes bytes) without _
        (λ large. (cut.valid, λ fits. absurd (ground (arith, large, fits))))
        (λ small.
          let fits : bytes ≤ c.max_bytes = ground (arith, small) in
          let (place, free) =
            make_place-IsCut (length without.entries) bytes key without cut.valid (omega arith)
              (omega (arith, cut.capacity, some_room)) (omega (arith, cut.max_bytes, fits)) in
          let roomy = make_place (length without.entries) bytes without in
          let gone = place.absent (delete-absent key c v) in
          (
            record {
              unique = set-IsMap string_discrete key e roomy.entries place.valid.unique;
              counted = omega (
                arith,
                place.valid.counted,
                total-set_new (λ (x : CacheEntry T). x.bytes) string_discrete key e roomy.entries
                    gone,
              );
              bytes_le = room_bytes bytes roomy free;
              entries_le = room_entries key e bytes roomy free gone;
            },
            λ _.
                get-set string_discrete key key e roomy.entries
                ∙ ite_cases (λ o. o ≡ some e) (string_discrete key key) (some e)
                    (JsMap.get string_discrete key roomy.entries) (λ _. refl)
                    (λ n. absurd (n refl)),
          ))
