-- ===== src/Utils/LruCache/Agreement.antt =====
-- The list of nodes of a cache: identities, keys, and what erasing does to them.
use getodac.Common.Bytes.{Bytes, bytes_eq, bytes_eq_iff}
use getodac.Common.{
  ℕ, ◌+◌, ◌<◌, ◌≡◌, ◌≢◌, refl, sym, ap, true, false, List, [], ◌∷◌, Option, none, some, ◌==◌,
  if◌then◌else◌, length, arith, Bool-cases, inl, inr,
}
use getodac.Utils.LruCache.{Node, erase_node}

module _ {ℓ} {V : Type ℓ} where
  -- The identity of the first node with a key.
  abbrev pub id_of : Bytes → List (Node V) → Option ℕ
  id_of k [] = none
  id_of k (n ∷ items) = if bytes_eq n.key k then some n.id else id_of k items

  -- The nodes with other keys.
  abbrev pub without : Bytes → List (Node V) → List (Node V)
  without k [] = []
  without k (n ∷ items) = let rest = without k items in if bytes_eq n.key k then rest else n ∷ rest

  -- The identities of the nodes.
  abbrev pub Fresh : ℕ → List (Node V) → Type 0
  Fresh i [] = Unit
  Fresh i (n ∷ items) = (n.id ≢ i) × Fresh i items

  -- No key and no identity stands twice, and the identities are below `next`.
  abbrev pub IsDistinct : ℕ → List (Node V) → Type 0
  IsDistinct next [] = Unit
  IsDistinct next (n ∷ items) =
      (id_of n.key items ≡ none) × Fresh n.id items × (n.id < next) × IsDistinct next items

  pub IsDistinct-suc :
      (next : ℕ) (items : List (Node V)) → IsDistinct next items → IsDistinct (next + 1) items
  IsDistinct-suc next [] h = tt
  IsDistinct-suc next (n ∷ items) (k, f, l, h) = (k, f, omega arith, IsDistinct-suc next items h)

  pub Fresh-next : (next : ℕ) (items : List (Node V)) → IsDistinct next items → Fresh next items
  Fresh-next next [] h = tt
  Fresh-next next (n ∷ items) (k, f, l, h) = (omega arith, Fresh-next next items h)

  pub id_of-Fresh :
      (k : Bytes) (it i : ℕ) (items : List (Node V))
      → Fresh i items
      → id_of k items ≡ some it
      → it ≢ i
  id_of-Fresh k it i [] f h = cc
  id_of-Fresh k it i (n ∷ items) (d, f) h = ground (arith, id_of-Fresh k it i items)

  pub without-absent :
      (k : Bytes) (items : List (Node V)) → id_of k items ≡ none → without k items ≡ items
  without-absent k [] h = refl
  without-absent k (n ∷ items) h = ground (arith, without-absent k items)

  -- Erasing the node of a key leaves the nodes with other keys.
  pub erase_node-without :
      (next : ℕ) (k : Bytes) (it : ℕ) (items : List (Node V))
      → IsDistinct next items
      → id_of k items ≡ some it
      → erase_node it items ≡ without k items
  unfolding erase_node
  erase_node-without next k it [] d h = cc
  erase_node-without next k it (n ∷ items) (key, f, l, d) h = elim (Bool-cases (bytes_eq n.key k)) [
    | inl same ↦
        let it_is : (n.id == it) ≡ true = ground arith in
        let e : n.key ≡ k = (bytes_eq_iff n.key k).0 same in
        rw (same, it_is) (sym (without-absent k items (rw e at key)))
    | inr other ↦
        let there : id_of k items ≡ some it = ground arith in
        let differs : (n.id == it) ≡ false = ground (arith, id_of-Fresh k it n.id items f there) in
        rw (other, differs) (ap (λ t. n ∷ t) (erase_node-without next k it items d there))
  ]

  pub id_of-without :
      (k j : Bytes) (items : List (Node V))
      → id_of j (without k items) ≡ (if bytes_eq k j then none else id_of j items)
  id_of-without k j [] = ground arith
  id_of-without k j (n ∷ items) =
      ground (
        arith,
        bytes_eq_iff k j,
        bytes_eq_iff n.key k,
        bytes_eq_iff n.key j,
        id_of-without k j items,
      )

  pub Fresh-without :
      (k : Bytes) (i : ℕ) (items : List (Node V)) → Fresh i items → Fresh i (without k items)
  Fresh-without k i [] f = tt
  Fresh-without k i (n ∷ items) (d, f) = elim (Bool-cases (bytes_eq n.key k)) [
    | inl same ↦ rw same (Fresh-without k i items f)
    | inr other ↦ rw other (d, Fresh-without k i items f)
  ]

  pub without-IsDistinct :
      (next : ℕ) (k : Bytes) (items : List (Node V))
      → IsDistinct next items
      → IsDistinct next (without k items)
  without-IsDistinct next k [] d = tt
  without-IsDistinct next k (n ∷ items) (key, f, l, d) = elim (Bool-cases (bytes_eq n.key k)) [
    | inl same ↦ rw same (without-IsDistinct next k items d)
    | inr other ↦ rw other (
      ground (arith, id_of-without k n.key items),
      Fresh-without k n.id items f,
      l,
      without-IsDistinct next k items d,
    )
  ]

  pub length-without :
      (next : ℕ) (k : Bytes) (items : List (Node V))
      → IsDistinct next items
      → length items ≡ length (without k items) + (elim (id_of k items) [ none ↦ 0 | some it ↦ 1 ])
  length-without next k [] d = omega arith
  length-without next k (n ∷ items) (key, f, l, d) = elim (Bool-cases (bytes_eq n.key k)) [
    | inl same ↦
        let e : n.key ≡ k = (bytes_eq_iff n.key k).0 same in
        rw (same, without-absent k items (rw e at key)) (omega arith)
    | inr other ↦ rw other (omega (arith, length-without next k items d))
  ]
