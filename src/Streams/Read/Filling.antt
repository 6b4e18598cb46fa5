-- ===== src/Streams/Read/Filling.antt =====
-- What the parser gets from the shared buffer.
use getodac.Common.Bytes.{Bytes}
use getodac.Common.{
  ℕ, ◌+◌, ◌-◌, ◌≤◌, ◌<◌, ◌≡◌, refl, sym, false, [], ◌∷◌, ◌++◌, leb, min, ◌==◌, length, take, drop,
  arith, length-append, take-length_append, inl, inr, ◌⊎◌,
}
use getodac.Streams.Read.Loop.{fill, write_at}
use getodac.Utils.Buffer.{
  Buffer, reset, prepend_string, advance, copy_in, set_current_size, current_string,
}
use mathlib.Core.List.{append_assoc}

take_two : (a b rest : Bytes) (n : ℕ) → n ≡ length a + length b → take n (a ++ (b ++ rest)) ≡ a ++ b
take_two a b rest n h =
    let e : n ≡ length (a ++ b) = omega (arith, length-append a b, h) in
    rw (e, sym (append_assoc a b rest)) (take-length_append (a ++ b) rest)

-- Behind the kept bytes stand the bytes that have been read, if the kept bytes have been copied
-- whole and the buffer is large enough.
pub fill_lem :
    (copied kept : Bytes) (shared : Buffer) (s : Bytes)
    → kept ≡ [] ⊎ (copied ≡ kept)
    → 0 < length s
    → length kept + length s ≤ length shared.bytes
    → fill copied kept shared s ≡ kept ++ s
unfolding fill write_at copy_in reset set_current_size current_string prepend_string advance
fill_lem copied [] shared s h pos fits =
    let e : 0 + (length s + 0) - 0 ≡ length s = omega arith in
    rw (e, fill) (take-length_append s (drop (length s) shared.bytes))
fill_lem copied (c ∷ k) shared s (inl h) pos fits = absurd cc
fill_lem copied (c ∷ k) shared s (inr h) pos fits =
    let kept = c ∷ k in
    let start = kept ++ drop (length kept) shared.bytes in
    let some_kept : (length kept == 0) ≡ false = ground arith in
    let short : leb (length shared.bytes) (length kept) ≡ false = ground arith in
    let cursor : min (0 + length kept) (length shared.bytes) ≡ length kept = omega arith in
    let width : 0 + (length s + length kept) - 0 ≡ length kept + length s = omega arith in
    let front : take (length k) (k ++ drop (length kept) shared.bytes) ≡ k =
      take-length_append k (drop (length kept) shared.bytes) in
    rw (h, some_kept, short, fill, cursor, width, front)
      (take_two kept s (drop (length s) (drop (length kept) start)) (length kept + length s) refl)
