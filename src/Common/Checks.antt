-- ===== src/Common/Checks.antt =====
-- Decisions on concrete byte strings.
use mathlib.Core.Bool.{Bool, true, not, ◌&&◌}
use mathlib.Core.List.{[], ◌∷◌}
use mathlib.Core.Logic.{◌≢◌}
use mathlib.Core.Path.{◌≡◌, refl}
use native.Mathlib.Omega.{arith}
use getodac.Common.Bytes.{Bytes}
use getodac.Common.Lists.{All, length}
use getodac.Common.Tests.{◌==◌}
use Prim.Native.Nat.{ℕ}

-- No byte of the text is `ch`.
abbrev pub is_clear : ℕ → Bytes → Bool
is_clear ch [] = true
is_clear ch (c ∷ s) = not (c == ch) && is_clear ch s

pub is_clear-All : (ch : ℕ) (s : Bytes) → is_clear ch s ≡ true → All (λ c. c ≢ ch) s
is_clear-All ch [] h = tt
is_clear-All ch (c ∷ s) h = (ground arith, is_clear-All ch s (ground arith))

pub empty-nil : (s : Bytes) → (length s == 0) ≡ true → s ≡ []
empty-nil [] h = refl
empty-nil (c ∷ s) h = absurd (ground arith)
