-- ===== src/Streams/Read/Rounds.antt =====
-- The bytes that come from outside, round by round.
use getodac.Common.Bytes.{Bytes}
use getodac.Common.{
  ℕ, suc, ◌+◌, ◌≤◌, ◌≡◌, ◌∙◌, refl, sym, ap, List, [], ◌∷◌, ◌++◌, Option, none, some, flat-append,
  length, flat, arith,
}
use getodac.Exceptions.{Thrown, error_code}
use getodac.Streams.Read.{ReadRound, got, nothing, read_failed}
use mathlib.Core.List.{append_assoc}

-- The bytes that the rounds have read.
abbrev pub delivered : List ReadRound → Bytes
delivered [] = []
delivered (got shared c s ∷ xs) = c ∷ s ++ delivered xs
delivered (nothing _ ∷ xs) = delivered xs
delivered (read_failed _ ∷ xs) = delivered xs

-- `readSome` reads no more than the buffer has room for behind the kept bytes; only the first
-- bytes stand behind kept ones.
abbrev pub Fits : ℕ → List ReadRound → Type 0
Fits kept [] = Unit
Fits kept (got shared c s ∷ xs) = (kept + suc (length s) ≤ length shared.bytes) × Fits 0 xs
Fits kept (nothing _ ∷ xs) = Fits kept xs
Fits kept (read_failed _ ∷ xs) = Fits kept xs

Fits-zero : (k : ℕ) (xs : List ReadRound) → Fits k xs → Fits 0 xs
Fits-zero k [] h = tt
Fits-zero k (got shared c s ∷ xs) h = (omega (arith, h.0), h.1)
Fits-zero k (nothing _ ∷ xs) h = Fits-zero k xs h
Fits-zero k (read_failed _ ∷ xs) h = Fits-zero k xs h

pub Fits-append : (k : ℕ) (xs ys : List ReadRound) → Fits k (xs ++ ys) → Fits 0 ys
Fits-append k [] ys h = Fits-zero k ys h
Fits-append k (got shared c s ∷ xs) ys h = Fits-append 0 xs ys h.1
Fits-append k (nothing _ ∷ xs) ys h = Fits-append k xs ys h
Fits-append k (read_failed _ ∷ xs) ys h = Fits-append k xs ys h

-- The error of a round.
abbrev pub error_of : ReadRound → Option Thrown
error_of (got _ _ _) = none
error_of (nothing none) = none
error_of (nothing (some errno)) = some (error_code errno)
error_of (read_failed errno) = some (error_code errno)

pub delivered-append :
    (xs ys : List ReadRound) → delivered (xs ++ ys) ≡ delivered xs ++ delivered ys
delivered-append [] ys = refl
delivered-append (got shared c s ∷ xs) ys =
    ap (λ t. c ∷ s ++ t) (delivered-append xs ys)
    ∙ sym (append_assoc (c ∷ s) (delivered xs) (delivered ys))
delivered-append (nothing _ ∷ xs) ys = delivered-append xs ys
delivered-append (read_failed _ ∷ xs) ys = delivered-append xs ys

-- What is left of some pieces goes on in the next.
pub join :
    (kept bytes k rest left : Bytes) (pieces more : List Bytes)
    → flat pieces ++ k ≡ kept ++ bytes
    → flat more ++ left ≡ k ++ rest
    → flat (pieces ++ more) ++ left ≡ kept ++ (bytes ++ rest)
join kept bytes k rest left pieces more h h' =
    ap (λ t. t ++ left) (flat-append pieces more)
    ∙ append_assoc (flat pieces) (flat more) left
    ∙ ap (λ t. flat pieces ++ t) h'
    ∙ sym (append_assoc (flat pieces) k rest)
    ∙ ap (λ t. t ++ rest) h
    ∙ append_assoc kept bytes rest
