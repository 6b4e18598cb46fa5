-- ===== src/Streams/Chunked/Decoding.antt =====
-- What a client reads from a chunked stream.
use mathlib.Core.List.{append-nil, append_assoc}
use getodac.Common.Bytes.{Bytes}
use getodac.Common.Numerals.{read_digits, read_digits-print_number, digit_value}
use getodac.Common.{
  ℕ, zero, suc, ◌<◌, ◌≡◌, ◌∙◌, refl, sym, ap, true, false, List, [], ◌∷◌, ◌++◌, Option, none, some,
  ◌==◌, if◌then◌else◌, Bool-cases, inl, inr, length, flat, take, drop, arith, take-length_append,
  drop-length_append, length-append,
}
use getodac.Http.Status.{crlf}
use getodac.Streams.Chunked.{
  chunk_header, total_size, end_of_chunked_stream, Call, one, several, run_call, run, wire,
}

-- `\r\n`, and what stands behind it.
pub after_crlf : Bytes → Option Bytes
after_crlf [] = none
after_crlf (c ∷ []) = none
after_crlf (c ∷ d ∷ s) = if c == 13 then (if d == 10 then some s else none) else none

-- A size in hexadecimal and a line end.
behind_digits : ℕ × ℕ × Bytes → Option (ℕ × Bytes)
behind_digits (n, count, rest) = elim (after_crlf rest) [ none ↦ none | some body ↦ some (n, body) ]

pub after_size : Bytes → Option (ℕ × Bytes)
after_size s = behind_digits (read_digits 16 0 0 s)

-- Puts the bytes of a chunk in front of the rest.
abbrev prepend : Bytes → Option (Bytes × Bytes) → Option (Bytes × Bytes)
prepend p none = none
prepend p (some (more, left)) = some (p ++ more, left)

-- The reader of the chunked coding (RFC 7230, section 4.1, with no extension and no trailer): a
-- size in hexadecimal, the line end, so many bytes and a line end, until a chunk of size 0.
pub decode : ℕ → Bytes → Option (Bytes × Bytes)
decode zero s = none
decode (suc fuel) s = elim (after_size s) [
  | none ↦ none
  | some (size, body) ↦ elim (size == 0) [
    | true ↦ elim (after_crlf body) [ none ↦ none | some rest ↦ some ([], rest) ]
    | false ↦ elim (after_crlf (drop size body)) [
      | none ↦ none
      | some rest ↦ prepend (take size body) (decode fuel rest)
    ]
  ]
]

after_size-chunk_header : (n : ℕ) (t : Bytes) → after_size (chunk_header n ++ t) ≡ some (n, t)
unfolding after_size behind_digits chunk_header after_crlf digit_value
after_size-chunk_header n t =
    let (m, e) = read_digits-print_number 16 n (crlf ++ t) (omega arith) (omega arith) refl in
    rw append_assoc (ap behind_digits e)

decode-chunk :
    (fuel : ℕ) (p t : Bytes)
    → 0 < length p
    → decode (suc fuel) (chunk_header (length p) ++ (p ++ (crlf ++ t))) ≡ prepend p (decode fuel t)
unfolding decode after_crlf
decode-chunk fuel p t h =
    let full : (length p == 0) ≡ false = ground arith in
    rw (after_size-chunk_header (length p) (p ++ (crlf ++ t)), decode)
      (rw (full, drop-length_append p (crlf ++ t), take-length_append p (crlf ++ t)) refl)

decode-end : (fuel : ℕ) (t : Bytes) → decode (suc fuel) (end_of_chunked_stream ++ t) ≡ some ([], t)
unfolding decode after_size behind_digits after_crlf read_digits digit_value
decode-end fuel t = refl

-- The bytes that a call is given.
abbrev pub payload : Call → Bytes
payload (one buff) = buff
payload (several buffers) = flat buffers

abbrev pub payloads : List Call → Bytes
payloads [] = []
payloads (call ∷ calls) = payload call ++ payloads calls

-- The bytes of one chunk; none for an empty payload.
abbrev chunk : Bytes → Bytes
chunk p = if length p == 0 then [] else chunk_header (length p) ++ (p ++ crlf)

total_size-flat : (bs : List Bytes) → total_size bs ≡ length (flat bs)
unfolding total_size
total_size-flat [] = refl
total_size-flat (b ∷ bs) = omega (arith, length-append b (flat bs), total_size-flat bs)

flat-snoc : (bs : List Bytes) (s : Bytes) → flat (bs ++ s ∷ []) ≡ flat bs ++ s
flat-snoc [] s = append-nil s
flat-snoc (b ∷ bs) s = ap (λ t. b ++ t) (flat-snoc bs s) ∙ sym (append_assoc b (flat bs) s)

wire-run_call : (call : Call) → wire (run_call call) ≡ chunk (payload call)
unfolding run_call
wire-run_call (one buff) = elim (Bool-cases (length buff == 0)) [
  | inl none_left ↦ rw none_left refl
  | inr some_left ↦ rw some_left (simp (append-nil, append_assoc))
]
wire-run_call (several bs) = elim (Bool-cases (length (flat bs) == 0)) [
  | inl none_left ↦ rw (total_size-flat bs) (rw none_left refl)
  | inr some_left ↦ rw (total_size-flat bs) (
      rw some_left
        (rw flat-snoc (append-nil (chunk_header (length (flat bs)) ++ (flat bs ++ crlf)))))
]

wire-append : (xs ys : List (List Bytes)) → wire (xs ++ ys) ≡ wire xs ++ wire ys
wire-append [] ys = refl
wire-append (x ∷ xs) ys =
    ap (λ t. flat x ++ t) (wire-append xs ys) ∙ sym (append_assoc (flat x) (wire xs) (wire ys))

length-zero-nil : (p : Bytes) → (length p == 0) ≡ true → p ≡ []
length-zero-nil [] h = refl
length-zero-nil (c ∷ p) h = absurd (ground arith)

-- Whatever a handler writes to a chunked stream, in one buffer or in several, empty ones
-- included, a client that reads the chunked coding reads all of it, in order, and stops at the
-- end of the stream. As many chunks as there were calls are enough, and one for the end.
pub decode-run :
    (calls : List Call) (t : Bytes) (fuel : ℕ)
    → length calls < fuel
    → decode fuel (wire (run calls) ++ t) ≡ some (payloads calls, t)
unfolding run
decode-run [] t (suc fuel) h = decode-end fuel t
decode-run (call ∷ calls) t (suc fuel) h =
    let p = payload call in
    let rest = wire (run calls) ++ t in
    rw (wire-append (run_call call) (run calls), wire-run_call call)
      (elim (Bool-cases (length p == 0)) [
        | inl none_left ↦
            let skip = decode-run calls t (suc fuel) (omega arith) in
            rw (none_left, length-zero-nil p none_left) skip
        | inr some_left ↦
            let ih = decode-run calls t fuel (omega arith) in
            let text : ((chunk_header (length p) ++ (p ++ crlf)) ++ wire (run calls)) ++ t
                ≡ chunk_header (length p) ++ (p ++ (crlf ++ rest)) =
              simp append_assoc in
            rw some_left
              (ap (decode (suc fuel)) text ∙ decode-chunk fuel p rest (ground arith) ∙ rw ih refl)
      ])
decode-run calls t zero h = absurd (omega arith)
