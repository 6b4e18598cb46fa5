-- ===== src/Utils/Buffer/Cursor.antt =====
-- Where the cursor of a buffer stands.
use mathlib.Core.List.{append-nil}
use getodac.Common.Bytes.{Bytes}
use getodac.Common.{
  ℕ, zero, suc, ◌+◌, ◌-◌, ◌≤◌, ◌<◌, ◌≡◌, refl, true, false, ◌++◌, leb, min, ◌==◌, length, take,
  drop, arith, length-append, length-take, length-drop, take-length_append, take_of_length-le,
  drop_of_length-le, Bool-cases, inl, inr,
}
use getodac.Utils.Buffer.{
  Buffer, zeros, reset, resize, advance, current_string, copy_in, commit, set_current_size,
  assign_string, prepend_string,
}

-- The cursor and the end stand in the data, in order.
pub record IsWithin (b : Buffer) : Type 0 where
  pub ordered : b.current ≤ b.end_
  pub inside : b.end_ ≤ length b.bytes

length-zeros : (n : ℕ) → length (zeros n) ≡ n
unfolding zeros
length-zeros zero = refl
length-zeros (suc n) = omega (arith, length-zeros n)

length-resize : (n : ℕ) (b : Buffer) → length (resize n b).bytes ≡ n
unfolding resize reset
length-resize n b = elim (Bool-cases (n == length b.bytes)) [
  | inl same ↦ rw (same, resize) (ground arith)
  | inr other ↦
      let kept = take (min n (length b.bytes)) b.bytes in
      rw (other, resize)
        (omega (
          arith,
          length-append kept (zeros (n - min n (length b.bytes))),
          length-take (min n (length b.bytes)) b.bytes,
          length-zeros (n - min n (length b.bytes)),
        ))
]

current-resize : (n : ℕ) (b : Buffer) → (resize n b).current ≡ 0
unfolding resize reset
current-resize n b = elim (Bool-cases (n == length b.bytes)) [
  | inl same ↦ rw (same, resize) refl
  | inr other ↦ rw (other, resize) refl
]

length-assign_string : (s : Bytes) (b : Buffer) → length (assign_string s b).bytes ≡ length s
unfolding assign_string copy_in set_current_size
length-assign_string s b =
    let old = (resize (length s) b).bytes in
    omega (
      arith,
      length-resize (length s) b,
      length-append s (drop (length s) old),
      length-drop (length s) old,
    )

-- Assigning a text makes it the current string, from the start of the data.
pub assign_string_lem :
    (s : Bytes) (b : Buffer)
    → (current_string (assign_string s b) ≡ s)
      × ((assign_string s b).current ≡ 0)
      × IsWithin (assign_string s b)
unfolding assign_string copy_in set_current_size current_string
assign_string_lem s b =
    let n = length s in
    let all = drop_of_length-le n (resize n b).bytes (omega (arith, length-resize n b)) in
    let start = current-resize n b in
    let width : 0 + n - 0 ≡ n = omega arith in
    (
      rw (start, all, append-nil) (rw width (take_of_length-le n s (omega arith))),
      start,
      record { ordered = omega arith; inside = rw (start, all, append-nil) (omega arith) },
    )

length-current_string : (b : Buffer) → IsWithin b → length (current_string b) ≡ b.end_ - b.current
unfolding current_string
length-current_string b w = omega (
  arith,
  length-take (b.end_ - b.current) (drop b.current b.bytes),
  length-drop b.current b.bytes,
  w.ordered,
  w.inside,
)

current_string-front :
    (s rest : Bytes) (n : ℕ)
    → length s ≡ n
    → current_string (record { bytes = s ++ rest; current = 0; end_ = n }) ≡ s
unfolding current_string
current_string-front s rest n e =
    let width : n - 0 ≡ length s = omega arith in rw width (take-length_append s rest)

-- If the cursor and the end stand in the data, in order, they do so behind `commit`, which moves
-- the current string to the start of the data and keeps it, and keeps the size of the data.
pub commit_lem :
    (b : Buffer)
    → IsWithin b
    → (current_string (commit b) ≡ current_string b)
      × ((commit b).current ≡ 0)
      × (length (commit b).bytes ≡ length b.bytes)
      × IsWithin (commit b)
unfolding commit copy_in
commit_lem b w = elim (Bool-cases (b.current == 0)) [
  | inl start ↦ rw (start, commit) (refl, ground arith, refl, w)
  | inr later ↦
      let s = current_string b in
      let size : length s ≡ b.end_ - b.current = length-current_string b w in
      let total : length (s ++ drop (length s) b.bytes) ≡ length b.bytes = omega (
        arith,
        length-append s (drop (length s) b.bytes),
        length-drop (length s) b.bytes,
        w.ordered,
        w.inside,
      ) in
      rw (later, commit)
        (
          current_string-front s (drop (length s) b.bytes) (b.end_ - b.current) size,
          refl,
          total,
          record { ordered = omega arith; inside = omega (arith, w.ordered, w.inside) },
        )
]

-- `operator *=` copies the text to the start of the data. If the text is shorter than the data, the
-- cursor stands behind it and the rest of the data is free; if not, the data becomes the text, and
-- the cursor stays in front of it.
pub prepend_string_lem :
    (s : Bytes) (b : Buffer)
    → (length s < length b.bytes
        → ((prepend_string s b).current ≡ length s)
          × (take (length s) (prepend_string s b).bytes ≡ s)
          × ((prepend_string s b).end_ ≡ length b.bytes)
          × (length (prepend_string s b).bytes ≡ length b.bytes))
      × (length b.bytes ≤ length s
          → ((prepend_string s b).current ≡ 0)
            × (current_string (prepend_string s b) ≡ s)
            × (length (prepend_string s b).bytes ≡ length s))
unfolding prepend_string reset copy_in advance
prepend_string_lem s b = (
  (λ lt.
      let room : leb (length b.bytes) (length s) ≡ false = ground arith in
      rw (room, prepend_string)
        (
          omega arith,
          take-length_append s (drop (length s) b.bytes),
          refl,
          omega (arith, length-append s (drop (length s) b.bytes), length-drop (length s) b.bytes),
        )),
  λ le.
      let full : leb (length b.bytes) (length s) ≡ true = ground arith in
      let (text, start, w) = assign_string_lem s b in
      rw (full, prepend_string) (start, text, length-assign_string s b),
)
