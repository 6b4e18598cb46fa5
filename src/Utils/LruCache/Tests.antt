-- ===== src/Utils/LruCache/Tests.antt =====
-- A cache of two entries.
use getodac.Common.Bytes.{codes, bytes_eq, bytes_eq_iff}
use getodac.Common.Maps.{find, assign, erase}
use getodac.Common.{
  ℕ, ◌≡◌, ◌⊎◌, refl, subst, [], ◌∷◌, none, some, take, arith, Bool-cases, inl, inr,
}
use getodac.Utils.LruCache.Agreement.{id_of}
use getodac.Utils.LruCache.Cleaning.{Agrees}
use getodac.Utils.LruCache.Refinement.{entries, put_lem, value_lem}
use getodac.Exceptions.{ok, throw, std_exception}
use getodac.Utils.LruCache.{
  reference, assign_node, size, LruCache, put, value, clean_cache, drop_old, erase_node, last_node,
  pop_back, splice_front, node_at,
}

program : Unit {0}
unfolding reference assign_node size find assign erase bytes_eq put value clean_cache drop_old
    erase_node last_node pop_back splice_front node_at
program = tt

abbrev full : LruCache ℕ
full = record {
  items =
      record { id = 1; key = codes "b"; value = 20 }
      ∷ record { id = 0; key = codes "a"; value = 10 }
      ∷ [];
  hash = (codes "a", 0) ∷ (codes "b", 1) ∷ [];
  cache_size = 2;
  next = 2;
}

abbrev touched : LruCache ℕ
touched = record full {
  items =
      record { id = 0; key = codes "a"; value = 10 }
      ∷ record { id = 1; key = codes "b"; value = 20 }
      ∷ [];
}

abbrev evicted : LruCache ℕ
evicted = record {
  items =
      record { id = 2; key = codes "c"; value = 30 }
      ∷ record { id = 0; key = codes "a"; value = 10 }
      ∷ [];
  hash = (codes "a", 0) ∷ (codes "c", 2) ∷ [];
  cache_size = 2;
  next = 3;
}

tests :
    (value 0 (codes "a") full ≡ some (touched, 10))
    × (value 0 (codes "x") full ≡ some (full, 0))
    × (put (codes "c") 30 touched ≡ some evicted)
    × (reference (codes "a") full ≡ some (ok (touched, 0)))
    × (reference (codes "x") full ≡ some (throw (std_exception (codes "Invalid key"))))
    × (assign_node 1 21 touched.items
        ≡ record { id = 0; key = codes "a"; value = 10 }
          ∷ record { id = 1; key = codes "b"; value = 21 }
          ∷ [])
    × (size full ≡ 2)
unfolding program
tests = (refl, refl, refl, refl, refl, refl, refl)

full-Agrees : Agrees full
unfolding program
full-Agrees = record {
  found = λ k. elim (Bool-cases (bytes_eq (codes "a") k)) [
    | inl e ↦
        subst (λ j. find j full.hash ≡ id_of j full.items) ((bytes_eq_iff (codes "a") k).0 e) refl
    | inr n ↦ ground arith
  ];
  distinct = (refl, ((λ e. ground arith), tt), omega arith, (refl, tt, omega arith, tt));
  keys = (refl, (refl, tt));
  sizes = refl;
}

value_lem_example :
    ((find (codes "a") (entries full) ≡ none) × (value 0 (codes "a") full ≡ some (full, 0)))
    ⊎ ((v : ℕ) × (c' : LruCache ℕ) × (find (codes "a") (entries full) ≡ some v)
        × (value 0 (codes "a") full ≡ some (c', v))
        × Agrees c'
        × (entries c' ≡ (codes "a", v) ∷ erase (codes "a") (entries full)))
value_lem_example = value_lem 0 (codes "a") full full-Agrees

put_lem_example :
    (c' : LruCache ℕ) × (put (codes "c") 30 full ≡ some c')
    × Agrees c'
    × (entries c' ≡ take 2 ((codes "c", 30) ∷ erase (codes "c") (entries full)))
    × (c'.cache_size ≡ 2)
put_lem_example = put_lem (codes "c") 30 full full-Agrees
