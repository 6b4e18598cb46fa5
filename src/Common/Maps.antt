-- ===== src/Common/Maps.antt =====
-- `std::unordered_map<std::string, V>` as an association list. The order of its entries is the
-- order in which they were inserted, one of the orders that the container may iterate in.
use mathlib.Core.List.{List, [], ◌∷◌, ◌++◌}
use mathlib.Core.Option.{Option, none, some}
use mathlib.Core.Path.{◌≡◌, refl}
use native.Mathlib.Omega.{arith}
use getodac.Common.Bytes.{Bytes, bytes_eq, bytes_eq_iff}
use getodac.Common.Tests.{if◌then◌else◌}

module _ {ℓ} {V : Type ℓ} where
  -- `m.find(k)`
  unfoldable pub find : Bytes → List (Bytes × V) → Option V
  find k [] = none
  find k ((j, v) ∷ m) = if bytes_eq j k then some v else find k m

  -- `m[k] = v`
  unfoldable pub assign : Bytes → V → List (Bytes × V) → List (Bytes × V)
  assign k v [] = (k, v) ∷ []
  assign k v ((j, w) ∷ m) = if bytes_eq j k then (j, v) ∷ m else (j, w) ∷ assign k v m

  -- `m.erase(k)`
  unfoldable pub erase : Bytes → List (Bytes × V) → List (Bytes × V)
  erase k [] = []
  erase k ((j, w) ∷ m) = let rest = erase k m in if bytes_eq j k then rest else (j, w) ∷ rest

  pub find-assign :
      (k j : Bytes) (v : V) (m : List (Bytes × V))
      → find j (assign k v m) ≡ (if bytes_eq k j then some v else find j m)
  unfolding find assign
  find-assign k j v [] = refl
  find-assign k j v ((i, w) ∷ m) =
      ground (arith, bytes_eq_iff k j, bytes_eq_iff i k, bytes_eq_iff i j, find-assign k j v m)

  -- A new key goes to the end.
  pub assign-append :
      (k : Bytes) (v : V) (m : List (Bytes × V)) → find k m ≡ none → assign k v m ≡ m ++ (k, v) ∷ []
  unfolding find assign
  assign-append k v [] h = refl
  assign-append k v ((j, w) ∷ m) h = ground (arith, assign-append k v m)

  pub find-append :
      (k : Bytes) (m n : List (Bytes × V)) → find k m ≡ none → find k (m ++ n) ≡ find k n
  unfolding find
  find-append k [] n h = refl
  find-append k ((j, w) ∷ m) n h = ground (arith, find-append k m n)

  pub find-erase :
      (k j : Bytes) (m : List (Bytes × V))
      → find j (erase k m) ≡ (if bytes_eq k j then none else find j m)
  unfolding find erase
  find-erase k j [] = ground arith
  find-erase k j ((i, w) ∷ m) =
      ground (arith, bytes_eq_iff k j, bytes_eq_iff i k, bytes_eq_iff i j, find-erase k j m)
