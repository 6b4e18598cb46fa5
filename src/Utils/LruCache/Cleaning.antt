-- ===== src/Utils/LruCache/Cleaning.antt =====
-- The invariant of a cache, and `cleanCache`.
use getodac.Common.Bytes.{Bytes, bytes_eq, bytes_eq_iff, bytes_eq_refl}
use getodac.Common.Maps.{find, assign, erase, find-assign, find-erase}
use getodac.Common.{
  ℕ, zero, suc, ◌+◌, ◌≤◌, ◌<◌, ◌≡◌, ◌∙◌, refl, sym, ap, false, List, [], ◌∷◌, none, some, ltb,
  length, take, take_of_length-le, arith, Bool-cases, inl, inr,
}
use getodac.Utils.LruCache.Agreement.{
  id_of, without, IsDistinct, id_of-without, without-IsDistinct, length-without,
}
use getodac.Utils.LruCache.{Node, LruCache, last_node, pop_back, clean_cache}

-- No key stands twice in the hash table.
abbrev pub HasDistinctKeys : List (Bytes × ℕ) → Type 0
HasDistinctKeys [] = Unit
HasDistinctKeys ((k, i) ∷ hash) = (find k hash ≡ none) × HasDistinctKeys hash

pub assign-HasDistinctKeys :
    (k : Bytes) (v : ℕ) (m : List (Bytes × ℕ)) → HasDistinctKeys m → HasDistinctKeys (assign k v m)
unfolding assign find
assign-HasDistinctKeys k v [] h = (refl, tt)
assign-HasDistinctKeys k v ((j, w) ∷ m) (n, h) = elim (Bool-cases (bytes_eq j k)) [
  | inl same ↦ rw same (n, h)
  | inr other ↦ rw other (
    ground (arith, find-assign k j v m, bytes_eq_iff k j, bytes_eq_iff j k),
    assign-HasDistinctKeys k v m h,
  )
]

pub erase-HasDistinctKeys :
    (k : Bytes) (m : List (Bytes × ℕ)) → HasDistinctKeys m → HasDistinctKeys (erase k m)
unfolding erase
erase-HasDistinctKeys k [] h = tt
erase-HasDistinctKeys k ((j, w) ∷ m) (n, h) = elim (Bool-cases (bytes_eq j k)) [
  | inl same ↦ rw same (erase-HasDistinctKeys k m h)
  | inr other ↦ rw other (ground (arith, find-erase k j m), erase-HasDistinctKeys k m h)
]

pub length-assign :
    (k : Bytes) (v : ℕ) (m : List (Bytes × ℕ))
    → length (assign k v m) ≡ length m + (elim (find k m) [ none ↦ 1 | some it ↦ 0 ])
unfolding assign find
length-assign k v [] = omega arith
length-assign k v ((j, w) ∷ m) = elim (Bool-cases (bytes_eq j k)) [
  | inl same ↦ rw same (omega arith)
  | inr other ↦ rw other (omega (arith, length-assign k v m))
]

erase-absent : (k : Bytes) (m : List (Bytes × ℕ)) → find k m ≡ none → erase k m ≡ m
unfolding erase find
erase-absent k [] h = refl
erase-absent k ((j, w) ∷ m) h = ground (arith, erase-absent k m)

pub length-erase :
    (k : Bytes) (m : List (Bytes × ℕ))
    → HasDistinctKeys m
    → length m ≡ length (erase k m) + (elim (find k m) [ none ↦ 0 | some it ↦ 1 ])
unfolding erase find
length-erase k [] h = omega arith
length-erase k ((j, w) ∷ m) (n, h) = elim (Bool-cases (bytes_eq j k)) [
  | inl same ↦
      let e : j ≡ k = (bytes_eq_iff j k).0 same in
      rw (same, erase-absent k m (rw e at n)) (omega arith)
  | inr other ↦ rw other (omega (arith, length-erase k m h))
]

module _ {ℓ} {V : Type ℓ} where
  -- The hash table refers to the nodes of the list, key by key, and both have one size.
  pub record Agrees (c : LruCache V) : Type ℓ where
    pub found : (k : Bytes) → find k c.hash ≡ id_of k c.items
    pub distinct : IsDistinct c.next c.items
    pub keys : HasDistinctKeys c.hash
    pub sizes : length c.hash ≡ length c.items

  last_node-without :
      (next : ℕ) (n : Node V) (items : List (Node V))
      → IsDistinct next items
      → last_node items ≡ some n
      → (pop_back items ≡ without n.key items) × (id_of n.key items ≡ some n.id)
  unfolding last_node pop_back
  last_node-without next n [] d e = cc
  last_node-without next n (m ∷ []) d e =
      let same : m ≡ n = cc in rw same (rw (bytes_eq_refl n.key) (refl, refl))
  last_node-without next n (m ∷ p ∷ items) (key, f, l, d) e =
      let (pops, there) = last_node-without next n (p ∷ items) d e in
      elim (Bool-cases (bytes_eq m.key n.key)) [
        | inl same ↦
            let eq : m.key ≡ n.key = (bytes_eq_iff m.key n.key).0 same in
            let gone = rw eq at key in absurd (ground arith)
        | inr other ↦ rw other (ap (λ t. m ∷ t) pops, there)
      ]

  last_node_there :
      (items : List (Node V)) → 0 < length items → (n : Node V) × (last_node items ≡ some n)
  unfolding last_node
  last_node_there [] h = absurd (omega arith)
  last_node_there (n ∷ []) h = (n, refl)
  last_node_there (n ∷ m ∷ items) h = last_node_there (m ∷ items) (omega arith)

  take-pop_back :
      (size : ℕ) (items : List (Node V))
      → size < length items
      → take size (pop_back items) ≡ take size items
  unfolding pop_back
  take-pop_back size [] h = absurd (omega arith)
  take-pop_back zero (n ∷ []) h = refl
  take-pop_back zero (n ∷ m ∷ items) h = refl
  take-pop_back (suc size) (n ∷ []) h = absurd (omega arith)
  take-pop_back (suc size) (n ∷ m ∷ items) h =
      ap (λ t. n ∷ t) (take-pop_back size (m ∷ items) (omega arith))

  pop_back-Agrees :
      (c : LruCache V) (n : Node V)
      → Agrees c
      → last_node c.items ≡ some n
      → Agrees (record c { items = pop_back c.items; hash = erase n.key c.hash })
        × (length c.items ≡ suc (length (pop_back c.items)))
  pop_back-Agrees c n inv e =
      let (pops, there) = last_node-without c.next n c.items inv.distinct e in
      let fewer = length-without c.next n.key c.items inv.distinct in
      let shorter = length-erase n.key c.hash inv.keys in
      let hashed : find n.key c.hash ≡ some n.id = inv.found n.key ∙ there in
      let items_one : length c.items ≡ length (pop_back c.items) + 1 =
        rw pops (rw there at fewer) in
      let hash_one : length c.hash ≡ length (erase n.key c.hash) + 1 = rw hashed at shorter in
      (
        record {
          found = λ k.
              rw pops (
                find-erase n.key k c.hash ∙ rw (inv.found k) (sym (id_of-without n.key k c.items)));
          distinct = rw pops (without-IsDistinct c.next n.key c.items inv.distinct);
          keys = erase-HasDistinctKeys n.key c.hash inv.keys;
          sizes = omega (arith, inv.sizes);
        },
        omega arith,
      )

  -- `cleanCache` finds a node in every round, and keeps the first nodes of the list, as many as
  -- the cache may hold.
  pub clean_cache-Agrees :
      (fuel : ℕ) (c : LruCache V)
      → Agrees c
      → length c.items ≤ fuel
      → (c' : LruCache V) × (clean_cache fuel c ≡ some c')
        × Agrees c'
        × (c'.items ≡ take c.cache_size c.items)
        × (c'.cache_size ≡ c.cache_size)
  unfolding clean_cache
  clean_cache-Agrees zero c inv h =
      let fits : ltb c.cache_size (length c.hash) ≡ false = ground (arith, inv.sizes) in
      (
        c,
        rw (fits, clean_cache) refl,
        inv,
        sym (take_of_length-le c.cache_size c.items (omega arith)),
        refl,
      )
  clean_cache-Agrees (suc fuel) c inv h = elim (Bool-cases (ltb c.cache_size (length c.hash))) [
    | inr fits ↦
        let le : length c.items ≤ c.cache_size = ground (arith, inv.sizes) in
        (c, rw (fits, clean_cache) refl, inv, sym (take_of_length-le c.cache_size c.items le), refl)
    | inl over ↦
        let lt : c.cache_size < length c.items = ground (arith, inv.sizes) in
        let (n, last) = last_node_there c.items (omega arith) in
        let (inv1, one) = pop_back-Agrees c n inv last in
        let (c', e, inv', items, size) =
          clean_cache-Agrees fuel (record c { items = pop_back c.items; hash = erase n.key c.hash })
            inv1 (omega arith) in
        (
          c',
          rw (over, last, clean_cache) e,
          inv',
          items ∙ take-pop_back c.cache_size c.items lt,
          size,
        )
  ]
