-- ===== src/Common/Sets.antt =====
-- `std::unordered_set` of numbers as a list.
use Prim.Native.Nat.{ℕ, suc}
use mathlib.Core.Bool.{Bool, true, false, not, ◌&&◌, ◌||◌}
use mathlib.Core.List.{List, [], ◌∷◌}
use mathlib.Core.Path.{◌≡◌, refl}
use native.Mathlib.Omega.{arith}
use getodac.Common.Lists.{length}
use getodac.Common.Tests.{◌==◌, if◌then◌else◌}

unfoldable pub mem : ℕ → List ℕ → Bool
mem k [] = false
mem k (i ∷ s) = i == k || mem k s

unfoldable pub insert : ℕ → List ℕ → List ℕ
insert k s = if mem k s then s else k ∷ s

unfoldable pub remove : ℕ → List ℕ → List ℕ
remove k [] = []
remove k (i ∷ s) = let rest = remove k s in if i == k then rest else i ∷ rest

-- No number stands twice.
abbrev pub IsDuplicateFree : List ℕ → Type 0
IsDuplicateFree [] = Unit
IsDuplicateFree (i ∷ s) = (mem i s ≡ false) × IsDuplicateFree s

pub mem-insert : (j k : ℕ) (s : List ℕ) → mem j (insert k s) ≡ (k == j || mem j s)
unfolding insert mem
mem-insert j k s = ground arith

pub mem-remove : (j k : ℕ) (s : List ℕ) → mem j (remove k s) ≡ (not (k == j) && mem j s)
unfolding remove mem
mem-remove j k [] = ground arith
mem-remove j k (i ∷ s) = ground (arith, mem-remove j k s)

pub remove-absent : (k : ℕ) (s : List ℕ) → mem k s ≡ false → remove k s ≡ s
unfolding remove mem
remove-absent k [] h = refl
remove-absent k (i ∷ s) h = ground (arith, remove-absent k s)

pub length-remove :
    (k : ℕ) (s : List ℕ) → IsDuplicateFree s → mem k s ≡ true → suc (length (remove k s)) ≡ length s
unfolding remove mem
length-remove k [] d h = cc
length-remove k (i ∷ s) (n, d) h = ground (arith, remove-absent k s, length-remove k s d)

pub remove-IsDuplicateFree : (k : ℕ) (s : List ℕ) → IsDuplicateFree s → IsDuplicateFree (remove k s)
unfolding remove
remove-IsDuplicateFree k [] d = tt
remove-IsDuplicateFree k (i ∷ s) (n, d) =
    ground (arith, mem-remove i k s, remove-IsDuplicateFree k s d)
