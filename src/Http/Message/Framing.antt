-- ===== src/Http/Message/Framing.antt =====
-- A response that is sent is read back: its lines, up to the empty one, and its body.
use mathlib.Core.List.{append_assoc}
use getodac.Common.Bytes.{Bytes, codes}
use getodac.Common.Int.{ℤ, pos, negsuc}
use getodac.Common.Numerals.{print_number, digits_from, digit_char}
use getodac.Common.{
  ℕ, zero, suc, ◌≡◌, ◌≢◌, ◌∙◌, refl, ap, List, [], ◌∷◌, ◌++◌, some, ◌==◌, if◌then◌else◌, arith, All,
  All-append, Bool-cases, Option-cases, map, subst, ltb, ◌/◌, ◌%◌, inl, inr,
}
use getodac.Http.Message.Lines.{
  read_head, IsLine, with_lines, HasLines, HasLines-append, HasLines-line, HasLines-nil,
}
use getodac.Http.Message.{
  field_lines, length_line, connection_lines, keep_alive_of, nonzero_status, to_string,
}
use getodac.Http.Response.{Response, Fields, chunked_data}
use getodac.Http.Status.{crlf, status_text, status_code_string, find_status, status_codes}

-- A field whose texts hold no line end and whose name is not empty.
abbrev pub IsField : Bytes × Bytes → Type 0
IsField (name, value) = (name ≢ []) × IsLine name × IsLine value

abbrev pub field_line : Bytes × Bytes → Bytes
field_line (name, value) = name ++ (codes ": " ++ value)

field_lines-HasLines :
    (fields : Fields) → All IsField fields → HasLines (field_lines fields) (map field_line fields)
unfolding field_lines
field_lines-HasLines [] h = HasLines-nil
field_lines-HasLines (([], value) ∷ fields) (f, h) = absurd (f.0 refl)
field_lines-HasLines ((x ∷ name, value) ∷ fields) ((full, n, v), h) =
    let line = field_line (x ∷ name, value) in
    let plain : IsLine line =
      All-append _ (x ∷ name) (codes ": " ++ value) n
        (All-append _ (codes ": ") value (omega arith) v) in
    subst (λ t. HasLines t (line ∷ map field_line fields)) (simp append_assoc)
      (HasLines-append (line ++ crlf) (field_lines fields) (line ∷ []) (map field_line fields)
        (HasLines-line x (name ++ (codes ": " ++ value)) plain) (field_lines-HasLines fields h))

digit_char-ne : (d : ℕ) → digit_char d ≢ 13
unfolding digit_char
digit_char-ne d = ground arith

digits_from-IsLine :
    (fuel base n : ℕ) (acc : Bytes) → IsLine acc → IsLine (digits_from fuel base n acc)
unfolding digits_from
digits_from-IsLine zero base n acc h = h
digits_from-IsLine (suc fuel) base n acc h = elim (Bool-cases (ltb n base)) [
  | inl small ↦ rw (small, digits_from) (digit_char-ne n, h)
  | inr big ↦
      rw (big, digits_from)
        (digits_from-IsLine fuel base (n / base) (digit_char (n % base) ∷ acc)
          (digit_char-ne (n % base), h))
]

print_number-IsLine : (n : ℕ) → IsLine (print_number 10 n)
unfolding print_number
print_number-IsLine n = digits_from-IsLine (suc n) 10 n [] tt

status_codes-IsLine : All (λ (e : ℕ × Bytes). IsLine e.1) status_codes
status_codes-IsLine = omega arith

find_status-IsLine :
    (status : ℕ) (table : List (ℕ × Bytes)) (text : Bytes)
    → All (λ (e : ℕ × Bytes). IsLine e.1) table
    → find_status status table ≡ some text
    → IsLine text
unfolding find_status
find_status-IsLine status [] text h e = absurd (ground arith)
find_status-IsLine status ((code, t) ∷ table) text (l, h) e = elim (Bool-cases (code == status)) [
  | inl same ↦ subst (λ x. IsLine x) (ground arith) l
  | inr other ↦ find_status-IsLine status table text h (ground arith)
]

status_text-IsLine : (status : ℕ) → IsLine (status_text status)
unfolding status_text
status_text-IsLine status = elim (Option-cases (find_status status status_codes)) [
  | inl missing ↦ rw (missing, status_text) (omega arith)
  | inr (text, found) ↦
      rw (found, status_text)
        (find_status-IsLine status status_codes text status_codes-IsLine found)
]

-- The text of the body's length.
abbrev pub length_text : ℕ → Bytes
length_text n =
    if n == chunked_data
    then codes "Transfer-Encoding: chunked"
    else codes "Content-Length: " ++ print_number 10 n

-- The texts that say whether the connection stays open.
abbrev pub connection_texts : ℤ → List Bytes
connection_texts (pos (suc n)) =
    (codes "Keep-Alive: timeout=" ++ print_number 10 (suc n)) ∷ codes "Connection: keep-alive" ∷ []
connection_texts (pos zero) = codes "Connection: close" ∷ []
connection_texts (negsuc n) = codes "Connection: close" ∷ []

length_line-HasLines : (n : ℕ) → HasLines (length_line n) (length_text n ∷ [])
unfolding length_line
length_line-HasLines n = elim (Bool-cases (n == chunked_data)) [
  | inl chunked ↦ rw chunked (HasLines-line b'T' _ (omega arith))
  | inr plain ↦ rw plain (
      HasLines-line b'C' _ (
        All-append _ (codes "Content-Length: ") (print_number 10 n) (omega arith)
          (print_number-IsLine n)))
]

close_HasLines : HasLines (codes "Connection: close" ++ crlf) (codes "Connection: close" ∷ [])
close_HasLines = HasLines-line b'C' _ (omega arith)

connection_lines-HasLines : (z : ℤ) → HasLines (connection_lines z) (connection_texts z)
unfolding connection_lines
connection_lines-HasLines (pos zero) = close_HasLines
connection_lines-HasLines (negsuc n) = close_HasLines
connection_lines-HasLines (pos (suc n)) =
    let timeout = codes "Keep-Alive: timeout=" ++ print_number 10 (suc n) in
    let keep = codes "Connection: keep-alive" in
    subst (λ t. HasLines t (timeout ∷ keep ∷ [])) (simp append_assoc)
      (HasLines-append (timeout ++ crlf) (keep ++ crlf) (timeout ∷ []) (keep ∷ [])
        (HasLines-line b'K' _ (
          All-append _ (codes "Keep-Alive: timeout=") (print_number 10 (suc n)) (omega arith)
            (print_number-IsLine (suc n))))
        (HasLines-line b'C' _ (omega arith)))

status_line-HasLines :
    (status : ℕ)
    → HasLines
        ((codes "HTTP/1.1 " ++ status_text status) ++ crlf)
        ((codes "HTTP/1.1 " ++ status_text status) ∷ [])
status_line-HasLines status = HasLines-line b'H' _ (
    All-append _ (codes "HTTP/1.1 ") (status_text status) (omega arith) (status_text-IsLine status))

with_lines-end :
    (ls : List Bytes) (body : Bytes) → with_lines ls (some ([], body)) ≡ some (ls, body)
unfolding with_lines
with_lines-end [] body = refl
with_lines-end (l ∷ ls) body = rw (with_lines-end ls body) refl

-- The lines of a response, before the empty one.
abbrev pub response_lines : Response → ℤ → List Bytes
response_lines r keep_alive_override =
    (codes "HTTP/1.1 " ++ status_text (nonzero_status r.status_code))
    ∷ (map field_line r.fields
        ++ length_text r.content_length
          ∷ connection_texts (keep_alive_of keep_alive_override r.keep_alive))

-- A response whose fields hold no line ends is read back from its text: the status line, each
-- field on a line of its own, one line for the length of the body, those for the connection, and
-- behind the first empty line the body, byte for byte.
pub read_head-to_string :
    (r : Response) (keep_alive_override : ℤ)
    → All IsField r.fields
    → read_head [] (to_string r keep_alive_override)
      ≡ some (response_lines r keep_alive_override, r.body)
unfolding to_string status_code_string with_lines read_head
read_head-to_string r o h =
    let st = nonzero_status r.status_code in
    let alive = keep_alive_of o r.keep_alive in
    let first = status_line-HasLines st in
    let fields = field_lines-HasLines r.fields h in
    let tail =
      HasLines-append (length_line r.content_length) (connection_lines alive)
        (length_text r.content_length ∷ []) (connection_texts alive)
        (length_line-HasLines r.content_length) (connection_lines-HasLines alive) in
    let rest =
      HasLines-append (field_lines r.fields)
        (length_line r.content_length ++ connection_lines alive) (map field_line r.fields)
        (length_text r.content_length ∷ connection_texts alive) fields tail in
    let whole =
      HasLines-append ((codes "HTTP/1.1 " ++ status_text st) ++ crlf)
        (field_lines r.fields ++ (length_line r.content_length ++ connection_lines alive))
        ((codes "HTTP/1.1 " ++ status_text st) ∷ [])
        (map field_line r.fields ++ length_text r.content_length ∷ connection_texts alive) first
        rest in
    let text : to_string r o
        ≡ (((codes "HTTP/1.1 " ++ status_text st) ++ crlf)
            ++ (field_lines r.fields ++ (length_line r.content_length ++ connection_lines alive)))
          ++ (crlf ++ r.body) =
      simp append_assoc in
    ap (read_head []) text
    ∙ whole.reads (crlf ++ r.body)
    ∙ with_lines-end (response_lines r o) r.body
