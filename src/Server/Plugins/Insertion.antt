-- ===== src/Server/Plugins/Insertion.antt =====
-- A sort that does what the code relies on of `std::sort`.
use mathlib.Core.List.{Memᴰ}
use getodac.Common.{ℕ, ◌≤◌, List, [], ◌∷◌, leb, if◌then◌else◌, arith, All, Bool-cases, inl, inr}
use getodac.Server.Plugins.Choice.{IsSorted, Sorts}
use getodac.Server.Plugins.{ServerPlugin}

module _ {ℓ} {Q S : Type ℓ} where
  abbrev insert : ServerPlugin Q S → List (ServerPlugin Q S) → List (ServerPlugin Q S)
  insert p [] = p ∷ []
  insert p (q ∷ qs) = let rest = insert p qs in if leb p.order q.order then p ∷ q ∷ qs else q ∷ rest

  abbrev pub insertion_sort : List (ServerPlugin Q S) → List (ServerPlugin Q S)
  insertion_sort [] = []
  insertion_sort (p ∷ ps) = insert p (insertion_sort ps)

  All-insert :
      (n : ℕ) (p : ServerPlugin Q S) (qs : List (ServerPlugin Q S))
      → n ≤ p.order
      → All (λ (q : ServerPlugin Q S). n ≤ q.order) qs
      → All (λ (q : ServerPlugin Q S). n ≤ q.order) (insert p qs)
  All-insert n p [] h k = (h, tt)
  All-insert n p (q ∷ qs) h (l, k) = elim (Bool-cases (leb p.order q.order)) [
    | inl before ↦ rw before (h, (l, k))
    | inr behind ↦ rw behind (l, All-insert n p qs h k)
  ]

  All-weaken :
      (m n : ℕ) (qs : List (ServerPlugin Q S))
      → m ≤ n
      → All (λ (q : ServerPlugin Q S). n ≤ q.order) qs
      → All (λ (q : ServerPlugin Q S). m ≤ q.order) qs
  All-weaken m n [] h k = tt
  All-weaken m n (q ∷ qs) h (l, k) = (omega arith, All-weaken m n qs h k)

  insert-IsSorted :
      (p : ServerPlugin Q S) (qs : List (ServerPlugin Q S)) → IsSorted qs → IsSorted (insert p qs)
  insert-IsSorted p [] h = (tt, tt)
  insert-IsSorted p (q ∷ qs) (l, h) = elim (Bool-cases (leb p.order q.order)) [
    | inl before ↦
        let le : p.order ≤ q.order = ground arith in
        rw before ((le, All-weaken p.order q.order qs le l), (l, h))
    | inr behind ↦ rw behind (All-insert q.order p qs (ground arith) l, insert-IsSorted p qs h)
  ]

  Memᴰ-cons :
      {x : ServerPlugin Q S} (p : ServerPlugin Q S) {ps qs : List (ServerPlugin Q S)}
      → (Memᴰ x ps → Memᴰ x qs)
      → Memᴰ x (p ∷ ps)
      → Memᴰ x (p ∷ qs)
  Memᴰ-cons p f (Memᴰ.head e) = Memᴰ.head e
  Memᴰ-cons p f (Memᴰ.tail m) = Memᴰ.tail (f m)

  Memᴰ-swap :
      {x : ServerPlugin Q S} (p q : ServerPlugin Q S) {qs : List (ServerPlugin Q S)}
      → Memᴰ x (p ∷ q ∷ qs)
      → Memᴰ x (q ∷ p ∷ qs)
  Memᴰ-swap p q (Memᴰ.head e) = Memᴰ.tail (Memᴰ.head e)
  Memᴰ-swap p q (Memᴰ.tail (Memᴰ.head e)) = Memᴰ.head e
  Memᴰ-swap p q (Memᴰ.tail (Memᴰ.tail m)) = Memᴰ.tail (Memᴰ.tail m)

  insert-from :
      (x p : ServerPlugin Q S) (qs : List (ServerPlugin Q S))
      → Memᴰ x (insert p qs)
      → Memᴰ x (p ∷ qs)
  insert-from x p [] m = m
  insert-from x p (q ∷ qs) m = elim (Bool-cases (leb p.order q.order)) [
    | inl before ↦ rw before at m
    | inr behind ↦ Memᴰ-swap q p (Memᴰ-cons q (insert-from x p qs) (rw behind at m))
  ]

  insert-into :
      (x p : ServerPlugin Q S) (qs : List (ServerPlugin Q S))
      → Memᴰ x (p ∷ qs)
      → Memᴰ x (insert p qs)
  insert-into x p [] m = m
  insert-into x p (q ∷ qs) m = elim (Bool-cases (leb p.order q.order)) [
    | inl before ↦ rw before m
    | inr behind ↦ rw behind (Memᴰ-cons q (insert-into x p qs) (Memᴰ-swap p q m))
  ]

  insertion_sort-IsSorted : (ps : List (ServerPlugin Q S)) → IsSorted (insertion_sort ps)
  insertion_sort-IsSorted [] = tt
  insertion_sort-IsSorted (p ∷ ps) =
      insert-IsSorted p (insertion_sort ps) (insertion_sort-IsSorted ps)

  insertion_sort-from :
      (x : ServerPlugin Q S) (ps : List (ServerPlugin Q S)) → Memᴰ x (insertion_sort ps) → Memᴰ x ps
  insertion_sort-from x [] m = m
  insertion_sort-from x (p ∷ ps) m =
      Memᴰ-cons p (insertion_sort-from x ps) (insert-from x p (insertion_sort ps) m)

  insertion_sort-into :
      (x : ServerPlugin Q S) (ps : List (ServerPlugin Q S)) → Memᴰ x ps → Memᴰ x (insertion_sort ps)
  insertion_sort-into x [] m = m
  insertion_sort-into x (p ∷ ps) m =
      insert-into x p (insertion_sort ps) (Memᴰ-cons p (insertion_sort-into x ps) m)

  pub insertion_sort-Sorts : Sorts insertion_sort
  insertion_sort-Sorts = record {
    sorted = insertion_sort-IsSorted;
    from = insertion_sort-from;
    into = insertion_sort-into;
  }
