-- ===== src/Streams/OStream/Delivery.antt =====
-- All that is printed is delivered, in order.
use mathlib.Core.List.{append-nil, append_assoc}
use getodac.Common.Bytes.{Bytes}
use getodac.Common.Checks.{empty-nil}
use getodac.Common.{
  ℕ, zero, suc, ◌-◌, ◌≤◌, ◌<◌, ◌≡◌, ◌∙◌, refl, sym, ap, List, [], ◌∷◌, ◌++◌, some, leb, ltb, min,
  ◌==◌, length, take, drop, take-append-drop, length-append, length-take, length-drop, arith,
  Bool-cases, inl, inr, ◌⊎◌,
}
use getodac.Streams.Chunked.Decoding.{payload, payloads, decode, decode-run}
use getodac.Streams.Chunked.{Call, one, several, run, wire}
use getodac.Streams.OStream.{
  OStreamBuffer, sync, sync_full, overflow, write_through, put_loop, xsputn, Print, puts, put_char,
  flushes, print, print_all, print_stream,
}

-- What has been printed: what the stream below has got, and the buffer.
abbrev pub printed : OStreamBuffer → Bytes
printed o = payloads o.calls ++ o.buffer

payloads-snoc :
    (calls : List Call) (call : Call)
    → payloads (calls ++ call ∷ []) ≡ payloads calls ++ payload call
payloads-snoc [] call = append-nil (payload call)
payloads-snoc (c ∷ calls) call =
    ap (λ t. payload c ++ t) (payloads-snoc calls call)
    ∙ sym (append_assoc (payload c) (payloads calls) (payload call))

sync_lem : (o : OStreamBuffer) → (printed (sync o) ≡ printed o) × ((sync o).buffer ≡ [])
unfolding sync
sync_lem o = elim (Bool-cases (length o.buffer == 0)) [
  | inl none_left ↦ rw (none_left, sync) (refl, empty-nil o.buffer none_left)
  | inr some_left ↦
      rw (some_left, sync)
        (
          append-nil (payloads (o.calls ++ one o.buffer ∷ []))
              ∙ payloads-snoc o.calls (one o.buffer),
          refl,
        )
]

-- Behind `sync_full` there is room.
sync_full_lem :
    (capacity : ℕ) (o : OStreamBuffer)
    → 0 < capacity
    → (printed (sync_full capacity o) ≡ printed o)
      × (length (sync_full capacity o).buffer < capacity)
unfolding sync_full
sync_full_lem capacity o h = elim (Bool-cases (leb capacity (length o.buffer))) [
  | inl full ↦ let (same, emptied) = sync_lem o in rw (full, sync_full) (same, rw emptied h)
  | inr free ↦ rw (free, sync_full) (refl, ground arith)
]

write_through_lem :
    (s : Bytes) (o : OStreamBuffer)
    → (printed (write_through s o) ≡ printed o ++ s) × ((write_through s o).buffer ≡ [])
unfolding write_through
write_through_lem s o = elim (Bool-cases (length o.buffer == 0)) [
  | inl none_left ↦
      rw (none_left, write_through)
        (
          append-nil (payloads (o.calls ++ one s ∷ []))
              ∙ payloads-snoc o.calls (one s)
              ∙ rw (empty-nil o.buffer none_left, append-nil) refl,
          refl,
        )
  | inr some_left ↦
      rw (some_left, write_through)
        (
          append-nil (payloads (o.calls ++ several (o.buffer ∷ s ∷ []) ∷ []))
              ∙ payloads-snoc o.calls (several (o.buffer ∷ s ∷ []))
              ∙ rw append-nil (sym (append_assoc (payloads o.calls) o.buffer s)),
          refl,
        )
]

-- The loop prints the text, returns its length, and never fills the buffer beyond its capacity.
put_loop_lem :
    (fuel capacity n : ℕ) (s : Bytes) (o : OStreamBuffer)
    → 0 < capacity
    → length s ≤ fuel
    → n ≡ length s ⊎ (length s ≤ capacity)
    → length o.buffer ≤ capacity
    → (printed (put_loop fuel capacity n s o).1 ≡ printed o ++ s)
      × ((put_loop fuel capacity n s o).0 ≡ n)
      × (length (put_loop fuel capacity n s o).1.buffer ≤ capacity)
unfolding put_loop
put_loop_lem zero capacity n [] o pos fuel whole fits = (sym (append-nil (printed o)), refl, fits)
put_loop_lem zero capacity n (c ∷ s) o pos fuel whole fits = absurd (omega arith)
put_loop_lem (suc fuel) capacity n [] o pos enough whole fits =
    (sym (append-nil (printed o)), refl, fits)
put_loop_lem (suc fuel) capacity n (c ∷ s) o pos enough whole fits =
    elim (Bool-cases (ltb capacity (length (c ∷ s)))) [
      | inl long ↦
          let (text, emptied) = write_through_lem (c ∷ s) o in
          let left : length (write_through (c ∷ s) o).buffer ≡ 0 = ap length emptied in
          rw (long, put_loop) (text, ground arith, omega arith)
      | inr short ↦
          let t = sync_full capacity o in
          let len = min (length (c ∷ s)) (capacity - length t.buffer) in
          let (same, room) = sync_full_lem capacity o pos in
          let rest = drop len (c ∷ s) in
          let filled = length-append t.buffer (take len (c ∷ s)) in
          let (text, ret, full) =
            put_loop_lem fuel capacity n rest (record t { buffer = t.buffer ++ take len (c ∷ s) })
              pos (omega (arith, length-drop len (c ∷ s)))
              (inr (ground (arith, length-drop len (c ∷ s))))
              (omega (arith, filled, length-take len (c ∷ s))) in
          rw (short, put_loop)
            (
              text
                  ∙ ap (λ x. x ++ rest)
                      (sym (append_assoc (payloads t.calls) t.buffer (take len (c ∷ s))))
                  ∙ append_assoc (printed t) (take len (c ∷ s)) rest
                  ∙ ap (λ x. printed t ++ x) (take-append-drop len (c ∷ s))
                  ∙ ap (λ x. x ++ (c ∷ s)) same,
              ret,
              full,
            )
    ]

-- The text that is printed.
abbrev pub text_of : List Print → Bytes
text_of [] = []
text_of (puts s ∷ ps) = s ++ text_of ps
text_of (put_char c ∷ ps) = c ∷ text_of ps
text_of (flushes ∷ ps) = text_of ps

overflow_lem :
    (capacity c : ℕ) (o : OStreamBuffer)
    → 0 < capacity
    → (printed (overflow capacity c o) ≡ printed o ++ c ∷ [])
      × (length (overflow capacity c o).buffer ≤ capacity)
unfolding overflow
overflow_lem capacity c o pos =
    let s = sync_full capacity o in
    let (same, room) = sync_full_lem capacity o pos in
    (
      sym (append_assoc (payloads s.calls) s.buffer (c ∷ [])) ∙ ap (λ t. t ++ c ∷ []) same,
      omega (arith, length-append s.buffer (c ∷ [])),
    )

-- `xsputn` prints all its characters behind what has been printed, returns their number, and
-- leaves no more in the buffer than fits.
pub xsputn_lem :
    (capacity : ℕ) (s : Bytes) (o : OStreamBuffer)
    → 0 < capacity
    → length o.buffer ≤ capacity
    → (printed (xsputn capacity s o).1 ≡ printed o ++ s)
      × ((xsputn capacity s o).0 ≡ length s)
      × (length (xsputn capacity s o).1.buffer ≤ capacity)
unfolding xsputn
xsputn_lem capacity s o pos fits =
    put_loop_lem (length s) capacity (length s) s o pos (omega arith) (inl refl) fits

print_lem :
    (capacity : ℕ) (p : Print) (o : OStreamBuffer)
    → 0 < capacity
    → length o.buffer ≤ capacity
    → (printed (print capacity p o) ≡ printed o ++ text_of (p ∷ []))
      × (length (print capacity p o).buffer ≤ capacity)
unfolding print
print_lem capacity (puts s) o pos fits =
    let (text, ret, full) = xsputn_lem capacity s o pos fits in
    (text ∙ ap (λ t. printed o ++ t) (sym (append-nil s)), full)
print_lem capacity (put_char c) o pos fits = overflow_lem capacity c o pos
print_lem capacity flushes o pos fits =
    let (same, emptied) = sync_lem o in
    let left : length (sync o).buffer ≡ 0 = ap length emptied in
    (same ∙ sym (append-nil (printed o)), omega arith)

text_of-cons : (p : Print) (ps : List Print) → text_of (p ∷ ps) ≡ text_of (p ∷ []) ++ text_of ps
text_of-cons (puts s) ps = rw append-nil refl
text_of-cons (put_char c) ps = refl
text_of-cons flushes ps = refl

-- However a text is printed, character by character or in pieces of any length, with flushes
-- between them, a buffer of positive capacity that holds no more than that at first never does,
-- and all of the text has been printed, in order.
pub print_all_lem :
    (capacity : ℕ) (ps : List Print) (o : OStreamBuffer)
    → 0 < capacity
    → length o.buffer ≤ capacity
    → (printed (print_all capacity ps o) ≡ printed o ++ text_of ps)
      × (length (print_all capacity ps o).buffer ≤ capacity)
unfolding print_all
print_all_lem capacity [] o pos fits = (sym (append-nil (printed o)), fits)
print_all_lem capacity (p ∷ ps) o pos fits =
    let (one_more, room) = print_lem capacity p o pos fits in
    let (rest, full) = print_all_lem capacity ps (print capacity p o) pos room in
    (
      rest
          ∙ ap (λ t. t ++ text_of ps) one_more
          ∙ append_assoc (printed o) (text_of (p ∷ [])) (text_of ps)
          ∙ ap (λ t. printed o ++ t) (sym (text_of-cons p ps)),
      full,
    )

payloads-print_stream :
    (capacity : ℕ) (ps : List Print)
    → 0 < capacity
    → payloads (print_stream capacity ps) ≡ text_of ps
unfolding print_stream
payloads-print_stream capacity ps pos =
    let o = print_all capacity ps (record { buffer = []; calls = [] }) in
    let (same, emptied) = sync_lem o in
    let (all, room) =
      print_all_lem capacity ps (record { buffer = []; calls = [] }) pos (omega arith) in
    sym (append-nil (payloads (sync o).calls))
    ∙ ap (λ t. payloads (sync o).calls ++ t) (sym emptied)
    ∙ same
    ∙ all

-- What a handler prints through an OStreamBuffer of positive capacity over a ChunkedStream,
-- however it prints it, is what a client of the chunked coding reads, and it stops at the end of
-- the stream. As many chunks as there were writes are enough, and one for the end.
pub decode-print_stream :
    (capacity : ℕ) (ps : List Print) (t : Bytes) (fuel : ℕ)
    → 0 < capacity
    → length (print_stream capacity ps) < fuel
    → decode fuel (wire (run (print_stream capacity ps)) ++ t) ≡ some (text_of ps, t)
decode-print_stream capacity ps t fuel pos enough =
    rw⁻¹ (payloads-print_stream capacity ps pos)
      (decode-run (print_stream capacity ps) t fuel enough)
