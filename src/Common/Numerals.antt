-- ===== src/Common/Numerals.antt =====
-- Numbers as text: what `std::ostream` prints in decimal and in hexadecimal.
use mathlib.Core.List.{append_assoc}
use native.Mathlib.Nat.{div-add-mod'}
use getodac.Common.Bytes.{Bytes}
use getodac.Common.Tests.{ltb, leb, if◌then◌else◌, Bool-cases, ltb→lt}
use Prim.Native.Nat.{ℕ, zero, suc, ◌+◌, ◌-◌, ◌*◌, ◌/◌, ◌%◌, ◌≤◌, ◌<◌}
use mathlib.Core.Path.{◌≡◌, refl, sym, ap, ◌∙◌}
use mathlib.Core.Logic.{inl, inr}
use mathlib.Core.Bool.{true, false, ◌&&◌}
use mathlib.Core.List.{[], ◌∷◌, ◌++◌}
use mathlib.Core.Option.{Option, none, some}
use native.Mathlib.Omega.{arith}

-- The character of a digit.
unfoldable pub digit_char : ℕ → ℕ
digit_char d = if ltb d 10 then b'0' + d else b'a' + (d - 10)

unfoldable pub digits_from : ℕ → ℕ → ℕ → Bytes → Bytes
digits_from zero base n acc = acc
digits_from (suc fuel) base n acc = elim (ltb n base) [
  | true ↦ digit_char n ∷ acc
  | false ↦ digits_from fuel base (n / base) (digit_char (n % base) ∷ acc)
]

-- `out << n` for the bases 10 and 16. A number has fewer digits than its successor counts.
unfoldable pub print_number : ℕ → ℕ → Bytes
unfolding digits_from digit_char
print_number base n = digits_from (suc n) base n []

-- The value of a digit, in either case.
unfoldable pub digit_value : ℕ → ℕ → Option ℕ
digit_value base c =
    let v =
      if leb b'0' c && leb c b'9'
      then c - b'0'
      else if leb b'a' c && leb c b'z'
      then 10 + (c - b'a')
      else if leb b'A' c && leb c b'Z'
      then 10 + (c - b'A')
      else base in
    if ltb v base then some v else none

-- The digits at the head of a text: the value, how many, and what stands behind them.
unfoldable pub read_digits : ℕ → ℕ → ℕ → Bytes → ℕ × ℕ × Bytes
read_digits base acc count [] = (acc, count, [])
read_digits base acc count (c ∷ s) = elim (digit_value base c) [
  | none ↦ (acc, count, c ∷ s)
  | some d ↦ read_digits base (acc * base + d) (suc count) s
]

digits_from-append :
    (fuel base n : ℕ) (acc : Bytes)
    → digits_from fuel base n acc ≡ digits_from fuel base n [] ++ acc
unfolding digits_from
digits_from-append zero base n acc = refl
digits_from-append (suc fuel) base n acc = elim (Bool-cases (ltb n base)) [
  | inl small ↦ rw (small, digits_from) refl
  | inr big ↦
      let c = digit_char (n % base) in
      rw (big, digits_from)
        (digits_from-append fuel base (n / base) (c ∷ acc)
          ∙ sym (append_assoc (digits_from fuel base (n / base) []) (c ∷ []) acc)
          ∙ ap (λ t. t ++ acc) (sym (digits_from-append fuel base (n / base) (c ∷ []))))
]

digit_value-char : (base d : ℕ) → d < base → base ≤ 16 → digit_value base (digit_char d) ≡ some d
unfolding digit_value digit_char
digit_value-char base d h k = ground arith

mod_lt : (n base : ℕ) → 2 ≤ base → n % base < base
mod_lt n base h = omega arith

div_mod : (n base : ℕ) → n / base * base + n % base ≡ n
div_mod n base = div-add-mod' n base

-- A text that no digit begins.
abbrev pub EndsDigits : ℕ → Bytes → Type 0
EndsDigits base [] = Unit
EndsDigits base (c ∷ s) = digit_value base c ≡ none

read_digits-end :
    (base acc count : ℕ) (s : Bytes)
    → EndsDigits base s
    → read_digits base acc count s ≡ (acc, count, s)
unfolding read_digits
read_digits-end base acc count [] h = refl
read_digits-end base acc count (c ∷ s) h = rw (h, read_digits) refl

div_lt : (n base fuel : ℕ) → 2 ≤ base → base ≤ n → n < suc fuel → n / base < fuel
div_lt n base fuel h k l = grind arith

read_digits-digits_from :
    (fuel base n k : ℕ) (t : Bytes)
    → 2 ≤ base
    → base ≤ 16
    → n < fuel
    → (m : ℕ) × (read_digits base 0 k (digits_from fuel base n [] ++ t)
        ≡ read_digits base n (suc m) t)
unfolding digits_from read_digits
read_digits-digits_from zero base n k t lo hi h = absurd (omega arith)
read_digits-digits_from (suc fuel) base n k t lo hi h = elim (Bool-cases (ltb n base)) [
  | inl small ↦
      let d = digit_value-char base n (ltb→lt n base small) hi in
      let e : 0 * base + n ≡ n = omega arith in
      (k, rw (small, digits_from) (rw (d, read_digits) (rw e refl)))
  | inr big ↦
      let c = digit_char (n % base) in
      let d = digit_value-char base (n % base) (mod_lt n base lo) hi in
      let (m, ih) =
        read_digits-digits_from fuel base (n / base) k (c ∷ t) lo hi
          (div_lt n base fuel lo (ground arith) h) in
      let e : n / base * base + n % base ≡ n = div_mod n base in
      let text = digits_from-append fuel base (n / base) (c ∷ []) in
      (
        suc m,
        rw (big, digits_from) (rw text (rw append_assoc (ih ∙ rw (d, read_digits) (rw e refl)))),
      )
]

-- A printed number is read back, whatever stands behind it that is no digit.
pub read_digits-print_number :
    (base n : ℕ) (t : Bytes)
    → 2 ≤ base
    → base ≤ 16
    → EndsDigits base t
    → (m : ℕ) × (read_digits base 0 0 (print_number base n ++ t) ≡ (n, suc m, t))
unfolding print_number
read_digits-print_number base n t lo hi h =
    let (m, e) = read_digits-digits_from (suc n) base n 0 t lo hi (omega arith) in
    (m, e ∙ read_digits-end base n (suc m) t h)
