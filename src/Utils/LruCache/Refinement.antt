-- ===== src/Utils/LruCache/Refinement.antt =====
-- `put` and `value` against a list of keys and values, the last used first.
use getodac.Common.Bytes.{Bytes, bytes_eq, bytes_eq_iff, bytes_eq_refl}
use getodac.Common.Maps.{find, assign, erase, find-assign}
use getodac.Common.{
  ℕ, zero, suc, ◌+◌, ◌<◌, ◌≡◌, ◌∙◌, ◌⊎◌, refl, sym, ap, true, false, List, [], ◌∷◌, none, some,
  ◌==◌, length, take, arith, Bool-cases, Option-cases, inl, inr,
}
use getodac.Utils.LruCache.Agreement.{
  id_of, without, Fresh, IsDistinct, IsDistinct-suc, Fresh-next, erase_node-without, id_of-without,
  without-IsDistinct, length-without, without-absent, Fresh-without, id_of-Fresh,
}
use getodac.Utils.LruCache.Cleaning.{
  assign-HasDistinctKeys, length-assign, Agrees, clean_cache-Agrees,
}
use getodac.Utils.LruCache.{Node, LruCache, node_at, erase_node, drop_old, put, splice_front, value}

module _ {ℓ} {V : Type ℓ} where
  -- The keys and values, without identities.
  abbrev pub entries_of : List (Node V) → List (Bytes × V)
  entries_of [] = []
  entries_of (n ∷ items) = (n.key, n.value) ∷ entries_of items

  abbrev pub entries : LruCache V → List (Bytes × V)
  entries c = entries_of c.items

  entries_of-without :
      (k : Bytes) (items : List (Node V))
      → entries_of (without k items) ≡ erase k (entries_of items)
  unfolding erase
  entries_of-without k [] = refl
  entries_of-without k (n ∷ items) = elim (Bool-cases (bytes_eq n.key k)) [
    | inl same ↦ rw same (entries_of-without k items)
    | inr other ↦ rw other (ap (λ t. (n.key, n.value) ∷ t) (entries_of-without k items))
  ]

  entries_of-take :
      (m : ℕ) (items : List (Node V)) → entries_of (take m items) ≡ take m (entries_of items)
  entries_of-take zero items = refl
  entries_of-take (suc m) [] = refl
  entries_of-take (suc m) (n ∷ items) = ap (λ t. (n.key, n.value) ∷ t) (entries_of-take m items)

  drop_old-without : (k : Bytes) (c : LruCache V) → Agrees c → drop_old k c ≡ without k c.items
  unfolding drop_old
  drop_old-without k c inv = elim (Option-cases (id_of k c.items)) [
    | inl absent ↦
        let hashed : find k c.hash ≡ none = inv.found k ∙ absent in
        rw (hashed, drop_old) (sym (without-absent k c.items absent))
    | inr (it, there) ↦
        let hashed : find k c.hash ≡ some it = inv.found k ∙ there in
        rw (hashed, drop_old) (erase_node-without c.next k it c.items inv.distinct there)
  ]

  -- `put` before `cleanCache`.
  front-Agrees :
      (k : Bytes) (v : V) (c : LruCache V)
      → Agrees c
      → Agrees (record c {
        items = record { id = c.next; key = k; value = v } ∷ without k c.items;
        hash = assign k c.next c.hash;
        next = c.next + 1;
      })
  front-Agrees k v c inv =
      let kept = without-IsDistinct c.next k c.items inv.distinct in
      let fewer = length-without c.next k c.items inv.distinct in
      let more = length-assign k c.next c.hash in
      record {
        found = λ j.
            find-assign k j c.next c.hash ∙ ground (arith, inv.found j, id_of-without k j c.items);
        distinct = (
          id_of-without k k c.items ∙ rw (bytes_eq_refl k) refl,
          Fresh-without k c.next c.items (Fresh-next c.next c.items inv.distinct),
          omega arith,
          IsDistinct-suc c.next (without k c.items) kept,
        );
        keys = assign-HasDistinctKeys k c.next c.hash inv.keys;
        sizes = elim (Option-cases (id_of k c.items)) [
          | inl absent ↦
              let hashed : find k c.hash ≡ none = inv.found k ∙ absent in
              omega (arith, (rw absent at fewer), (rw hashed at more), inv.sizes)
          | inr (it, there) ↦
              let hashed : find k c.hash ≡ some it = inv.found k ∙ there in
              omega (arith, (rw there at fewer), (rw hashed at more), inv.sizes)
        ];
      }

  -- On a cache whose list and hash table agree, `put` never uses an iterator that refers to no
  -- node. It keeps the list and the hash table in
  -- agreement, and the cache holds the new value in front and behind it the entries of the other
  -- keys in their order, the last ones dropped that are too many.
  pub put_lem :
      (k : Bytes) (v : V) (c : LruCache V)
      → Agrees c
      → (c' : LruCache V) × (put k v c ≡ some c')
        × Agrees c'
        × (entries c' ≡ take c.cache_size ((k, v) ∷ erase k (entries c)))
        × (c'.cache_size ≡ c.cache_size)
  unfolding put
  put_lem k v c inv =
      let node : Node V = record { id = c.next; key = k; value = v } in
      let fronted : LruCache V = record c {
        items = node ∷ without k c.items;
        hash = assign k c.next c.hash;
        next = c.next + 1;
      } in
      let (c', e, inv', items, size) =
        clean_cache-Agrees (length fronted.items) fronted (front-Agrees k v c inv) (omega arith) in
      (
        c',
        rw (drop_old-without k c inv, put) e,
        inv',
        ap entries_of items
            ∙ entries_of-take c.cache_size fronted.items
            ∙ ap (λ t. take c.cache_size ((k, v) ∷ t)) (entries_of-without k c.items),
        size,
      )

  -- The node of a key.
  node_at-id_of :
      (next : ℕ) (k : Bytes) (it : ℕ) (items : List (Node V))
      → IsDistinct next items
      → id_of k items ≡ some it
      → (n : Node V) × (node_at it items ≡ some n)
        × (n.key ≡ k)
        × (n.id ≡ it)
        × (n.id < next)
        × (find k (entries_of items) ≡ some n.value)
  unfolding node_at find
  node_at-id_of next k it [] d e = cc
  node_at-id_of next k it (m ∷ items) (key, f, l, d) e = elim (Bool-cases (bytes_eq m.key k)) [
    | inl same ↦
        let it_is : (m.id == it) ≡ true = ground arith in
        (m, rw it_is refl, (bytes_eq_iff m.key k).0 same, ground arith, l, rw same refl)
    | inr other ↦
        let there : id_of k items ≡ some it = ground arith in
        let differs : (m.id == it) ≡ false = ground (arith, id_of-Fresh k it m.id items f there) in
        let (n, at_it, named, known, low, found) = node_at-id_of next k it items d there in
        (n, rw differs at_it, named, known, low, rw other found)
  ]

  Fresh-moved :
      (next : ℕ) (k : Bytes) (it : ℕ) (items : List (Node V))
      → IsDistinct next items
      → id_of k items ≡ some it
      → Fresh it (without k items)
  Fresh-moved next k it [] d e = tt
  Fresh-moved next k it (m ∷ items) (key, f, l, d) e = elim (Bool-cases (bytes_eq m.key k)) [
    | inl same ↦
        let eq : m.id ≡ it = ground arith in rw same (rw⁻¹ eq (Fresh-without k m.id items f))
    | inr other ↦
        let there : id_of k items ≡ some it = ground arith in
        rw other
          ((λ e. id_of-Fresh k it m.id items f there (sym e)), Fresh-moved next k it items d there)
  ]

  find-absent :
      (k : Bytes) (items : List (Node V)) → id_of k items ≡ none → find k (entries_of items) ≡ none
  unfolding find
  find-absent k [] e = refl
  find-absent k (m ∷ items) e = ground (arith, find-absent k items)

  moved-Agrees :
      (k : Bytes) (it : ℕ) (n : Node V) (c : LruCache V)
      → Agrees c
      → id_of k c.items ≡ some it
      → n.key ≡ k
      → n.id ≡ it
      → n.id < c.next
      → Agrees (record c { items = n ∷ without k c.items })
  moved-Agrees k it n c inv there named known low =
      let fewer = length-without c.next k c.items inv.distinct in
      record {
        found = λ j. inv.found j ∙ ground (arith, id_of-without k j c.items, bytes_eq_iff k j);
        distinct = (
          rw named (id_of-without k k c.items ∙ rw (bytes_eq_refl k) refl),
          rw known (Fresh-moved c.next k it c.items inv.distinct there),
          low,
          without-IsDistinct c.next k c.items inv.distinct,
        );
        keys = inv.keys;
        sizes = omega (arith, (rw there at fewer), inv.sizes);
      }

  -- On a cache whose list and hash table agree, `value` never uses an iterator that refers to no
  -- node. For a key that is not in the cache it
  -- gives the empty value and changes nothing. Otherwise it gives the value of the key, moves the
  -- entry to the front, leaves the others in their order, and keeps the list and the hash table in
  -- agreement.
  pub value_lem :
      (empty : V) (k : Bytes) (c : LruCache V)
      → Agrees c
      → ((find k (entries c) ≡ none) × (value empty k c ≡ some (c, empty)))
        ⊎ ((v : V) × (c' : LruCache V) × (find k (entries c) ≡ some v)
            × (value empty k c ≡ some (c', v))
            × Agrees c'
            × (entries c' ≡ (k, v) ∷ erase k (entries c)))
  unfolding value splice_front
  value_lem empty k c inv = elim (Option-cases (id_of k c.items)) [
    | inl absent ↦
        let hashed : find k c.hash ≡ none = inv.found k ∙ absent in
        inl (find-absent k c.items absent, rw (hashed, value) refl)
    | inr (it, there) ↦
        let hashed : find k c.hash ≡ some it = inv.found k ∙ there in
        let (n, at_it, named, known, low, held) =
          node_at-id_of c.next k it c.items inv.distinct there in
        let moved = erase_node-without c.next k it c.items inv.distinct there in
        inr (
          n.value,
          record c { items = n ∷ erase_node it c.items },
          held,
          rw (hashed, value) (rw (at_it, splice_front) refl),
          rw moved (moved-Agrees k it n c inv there named known low),
          rw (moved, named) (ap (λ t. (k, n.value) ∷ t) (entries_of-without k c.items)),
        )
  ]
