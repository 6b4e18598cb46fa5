-- ===== src/Http/Request/Length.antt =====
-- The length of a body: what is printed is read back.
use mathlib.Core.List.{append-nil}
use getodac.Common.Bytes.{Bytes, codes}
use getodac.Common.Maps.{find}
use getodac.Common.Numerals.{
  print_number, digits_from, digit_char, read_digits, read_digits-print_number,
}
use getodac.Common.{
  ℕ, zero, suc, ◌^◌, ◌<◌, ◌≤◌, ◌≡◌, ◌∙◌, refl, true, false, [], ◌∷◌, some, ◌==◌, ltb, leb,
  Bool-cases, inl, inr, length, arith, ◌/◌, ◌%◌,
}
use getodac.Http.Request.{
  is_space, skip_spaces, strtoull_digits, strtoull_sign, strtoull, content_length, clamp_value,
}
use getodac.Http.Response.{Fields}

-- The first character is a digit.
abbrev StartsDigit : Bytes → Type 0
StartsDigit [] = ⊥
StartsDigit (c ∷ s) = (b'0' ≤ c) × (c ≤ b'9')

digit_char-digit : (d : ℕ) → d < 10 → (b'0' ≤ digit_char d) × (digit_char d ≤ b'9')
unfolding digit_char
digit_char-digit d h = ground arith

digits_from-StartsDigit :
    (fuel n : ℕ) (acc : Bytes) → n < fuel → StartsDigit (digits_from fuel 10 n acc)
unfolding digits_from
digits_from-StartsDigit (suc fuel) n acc h = elim (Bool-cases (ltb n 10)) [
  | inl small ↦ rw (small, digits_from) (digit_char-digit n (ground arith))
  | inr big ↦
      rw (big, digits_from)
        (digits_from-StartsDigit fuel (n / 10) (digit_char (n % 10) ∷ acc) (ground arith))
]
digits_from-StartsDigit zero n acc h = absurd (omega arith)

strtoull-StartsDigit : (s : Bytes) → StartsDigit s → strtoull s ≡ strtoull_digits false (length s) s
unfolding strtoull is_space skip_spaces strtoull_sign
strtoull-StartsDigit [] h = absurd h
strtoull-StartsDigit (c ∷ s) h =
    let space : is_space c ≡ false = ground arith in
    let minus : (c == b'-') ≡ false = ground arith in
    let plus : (c == b'+') ≡ false = ground arith in rw (space, minus, plus) refl

strtoull-print_number : (n : ℕ) → n < 2 ^ 64 → strtoull (print_number 10 n) ≡ (n, true)
unfolding strtoull_digits clamp_value print_number
strtoull-print_number n h =
    let text = print_number 10 n in
    let (m, e) = read_digits-print_number 10 n [] (omega arith) (omega arith) tt in
    let read : read_digits 10 0 0 text ≡ (n, suc m, []) = rw append-nil at e in
    let some_digits : (suc m == 0) ≡ false = ground arith in
    let fits : leb (2 ^ 64) n ≡ false = ground arith in
    strtoull-StartsDigit text (digits_from-StartsDigit (suc n) n [] (omega arith))
    ∙ rw (read, strtoull_digits) (rw (some_digits, fits) refl)

-- A Content-Length that is a number below 2 ^ 64, printed in decimal, is read as that number.
pub content_length-print_number :
    (fields : Fields) (n : ℕ)
    → n < 2 ^ 64
    → find (codes "Content-Length") fields ≡ some (print_number 10 n)
    → content_length fields ≡ n
unfolding content_length
content_length-print_number fields n h e =
    rw (e, content_length) (rw (strtoull-print_number n h) refl)
