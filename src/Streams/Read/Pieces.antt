-- ===== src/Streams/Read/Pieces.antt =====
-- The pieces of the bytes read that go to the parser, in one round.
use getodac.Common.Bytes.{Bytes}
use getodac.Common.{
  ℕ, zero, suc, ◌+◌, ◌≤◌, ◌<◌, ◌≡◌, ◌∙◌, refl, sym, ap, Bool, true, false, List, [], ◌∷◌, ◌++◌,
  ◌==◌, if◌then◌else◌, subst, length, take, drop, flat, arith, length-take, length-drop,
  take-append-drop, drop_of_length-le, Bool-cases, inl, inr, ◌⊎◌,
}
use getodac.Exceptions.{error_code, Result, ok, throw, ◌>>=◌, >>=-eq-ok, Result-cases}
use getodac.Http.Request.{State}
use getodac.Streams.Read.Filling.{fill_lem}
use getodac.Streams.Read.Loop.{c_string, fill, Reading, feed, feed_lines, read_lines, read_body}
use getodac.Streams.Read.{
  Executed, ParserData, ebadmsg, has_headers, is_completed, next_line, on_callbacks,
}
use getodac.Utils.Buffer.{Buffer}
use mathlib.Core.List.{append-nil, append_assoc}

next_line_bounds :
    (c : ℕ) (s : Bytes) → (0 < next_line (c ∷ s)) × (next_line (c ∷ s) ≤ suc (length s))
unfolding next_line
next_line_bounds c [] = (omega arith, omega arith)
next_line_bounds c (d ∷ s) =
    let (pos, fits) = next_line_bounds d s in
    elim (Bool-cases (c == 13)) [
      | inl cr ↦ elim (Bool-cases (d == 10)) [
        | inl lf ↦ rw (cr, lf, next_line) (omega arith, omega arith)
        | inr other ↦ rw (cr, other, next_line) (omega arith, omega arith)
      ]
      | inr other ↦ rw (other, next_line) (omega arith, omega arith)
    ]

module _ {P B : Type 0} (execute : P → Bytes → Executed P) (append : B → Bytes → Result B) where
  -- The documented return value of `http_parser_execute`: all bytes are parsed unless it sets an
  -- error (or the connection changes its protocol, which the server does not take part in).
  abbrev pub ParsesWhole : Type 0
  ParsesWhole =
      (s : Bytes) (p : P) → (execute p s).http_errno ≡ false → (execute p s).parsed ≡ length s

  -- The parser gets the pieces, one by one.
  abbrev pub feeds : List Bytes → P → ParserData B → Result (P × ParserData B)
  feeds [] p d = ok (p, d)
  feeds (s ∷ ss) p d = feed execute append s p d >>= λ x. feeds ss x.0 x.1

  pub feeds-append :
      (ss ts : List Bytes) (p : P) (d : ParserData B) {p' : P} {d' : ParserData B}
      → feeds ss p d ≡ ok (p', d')
      → feeds (ss ++ ts) p d ≡ feeds ts p' d'
  feeds-append [] ts p d e = cc
  feeds-append (s ∷ ss) ts p d e =
      let (x, fed, rest) = >>=-eq-ok (feed execute append s p d) (λ x. feeds ss x.0 x.1) e in
      rw fed (feeds-append ss ts x.0 x.1 rest)

  pub feed-parsed :
      (s : Bytes) (p : P) (d : ParserData B) (x : P × ParserData B × ℕ)
      → ParsesWhole
      → feed execute append s p d ≡ ok x
      → x.2 ≡ length s
  unfolding feed
  feed-parsed s p d x whole e =
      elim (Result-cases (on_callbacks append (execute p s).callbacks d)) [
        | inr (t, f) ↦ absurd (let h : throw t ≡ ok x = sym (rw f refl) ∙ e in cc)
        | inl (d', f) ↦ elim (Bool-cases (execute p s).http_errno) [
          | inl bad ↦
              absurd (let h : throw (error_code ebadmsg) ≡ ok x = sym (rw (f, bad) refl) ∙ e in cc)
          | inr good ↦
              let h : ok ((execute p s).parser, d', (execute p s).parsed) ≡ ok x =
                sym (rw (f, good) refl) ∙ e in
              let k : (execute p s).parsed ≡ x.2 = cc in sym k ∙ whole s p good
        ]
      ]

  -- What has been done with some bytes: pieces of them, in order, went to the parser, and
  -- nothing is left unless that has reached the end.
  abbrev pub Parsed :
      (ends : State → Bool) (content : Bytes) (p : P) (d : ParserData B)
      → Result (P × ParserData B × Bytes)
      → Type 0
  Parsed ends content p d (ok x) =
      (pieces : List Bytes) × (feeds pieces p d ≡ ok (x.0, x.1))
      × (flat pieces ++ x.2 ≡ content)
      × ((ends x.1.req.state ≡ true) ⊎ (x.2 ≡ []))
  Parsed ends content p d (throw e) =
      (pieces : List Bytes) × (rest : Bytes) × (feeds pieces p d ≡ throw e)
      × (flat pieces ++ rest ≡ content)

  Parsed-step :
      (ends : State → Bool) (line rest content : Bytes) (p : P) (d : ParserData B)
      (x : P × ParserData B × ℕ) (y : Result (P × ParserData B × Bytes))
      → feed execute append line p d ≡ ok x
      → line ++ rest ≡ content
      → Parsed ends rest x.0 x.1 y
      → Parsed ends content p d y
  Parsed-step ends line rest content p d x (ok y) f e (pieces, fed, split, over) = (
    line ∷ pieces,
    rw f fed,
    append_assoc line (flat pieces) y.2 ∙ ap (λ t. line ++ t) split ∙ e,
    over,
  )
  Parsed-step ends line rest content p d x (throw t) f e (pieces, left, fed, split) = (
    line ∷ pieces,
    left,
    rw f fed,
    append_assoc line (flat pieces) left ∙ ap (λ t. line ++ t) split ∙ e,
  )

  feed_lines_lem :
      (fuel : ℕ) (content : Bytes) (p : P) (d : ParserData B)
      → ParsesWhole
      → length content ≤ fuel
      → Parsed has_headers content p d (feed_lines execute append fuel content p d)
  unfolding feed_lines
  feed_lines_lem zero [] p d whole enough = ([], refl, refl, inr refl)
  feed_lines_lem zero (c ∷ s) p d whole enough = absurd (omega arith)
  feed_lines_lem (suc fuel) [] p d whole enough = ([], refl, refl, inr refl)
  feed_lines_lem (suc fuel) (c ∷ s) p d whole enough = elim (Bool-cases (has_headers d.req.state)) [
    | inl over ↦ rw (over, feed_lines) ([], refl, refl, inl over)
    | inr more ↦
        let next = next_line (c ∷ s) in
        let line = take next (c ∷ s) in
        let rest = drop next (c ∷ s) in
        let (pos, inside) = next_line_bounds c s in
        let whole_line : line ++ rest ≡ c ∷ s = take-append-drop next (c ∷ s) in
        elim (Result-cases (feed execute append line p d)) [
          | inr (t, f) ↦
              let e : feed_lines execute append (suc fuel) (c ∷ s) p d ≡ throw t =
                rw (more, f, feed_lines) refl in
              rw e (line ∷ [], rest, rw f refl, rw append-nil whole_line)
          | inl (x, f) ↦
              let parsed : x.2 ≡ next =
                feed-parsed line p d x whole f ∙ length-take next (c ∷ s) ∙ omega arith in
              let all : (x.2 == next) ≡ true = ground arith in
              let e : feed_lines execute append (suc fuel) (c ∷ s) p d
                  ≡ feed_lines execute append fuel rest x.0 x.1 =
                rw (more, f, feed_lines) (rw (all, ◌>>=◌) refl) in
              rw e (
                Parsed-step has_headers line rest (c ∷ s) p d x
                  (feed_lines execute append fuel rest x.0 x.1) f whole_line
                  (feed_lines_lem fuel rest x.0 x.1 whole
                    (omega (arith, length-drop next (c ∷ s)))))
        ]
  ]

  -- The same of a session, of which `Q` holds then.
  abbrev pub Went :
      (Q : Reading P B → Type 0) (ends : State → Bool) (content : Bytes) (p : P) (d : ParserData B)
      → Result (Reading P B)
      → Type 0
  Went Q ends content p d (ok r) = Parsed ends content p d (ok (r.parser, r.parsing, r.kept)) × Q r
  Went Q ends content p d (throw e) = Parsed ends content p d (throw e)

  pub read_lines_lem :
      (beyond : Bytes) (shared : Buffer) (s : Bytes) (r : Reading P B)
      → ParsesWhole
      → r.kept ≡ [] ⊎ (c_string (r.kept ++ beyond) ≡ r.kept)
      → 0 < length s
      → length r.kept + length s ≤ length shared.bytes
      → Went
          (λ _. Unit)
          has_headers
          (r.kept ++ s)
          r.parser
          r.parsing
          (read_lines execute append beyond shared s r)
  unfolding read_lines
  read_lines_lem beyond shared s r whole copied pos fits =
      let content = r.kept ++ s in
      let filled = fill_lem (c_string (r.kept ++ beyond)) r.kept shared s copied pos fits in
      let parsed = feed_lines_lem (length content) content r.parser r.parsing whole (omega arith) in
      rw (filled, read_lines)
        (elim (Result-cases
          (feed_lines execute append (length content) content r.parser r.parsing)) [
            | inl (x, e) ↦ rw e (subst (Parsed has_headers content r.parser r.parsing) e parsed, tt)
            | inr (t, e) ↦ rw e (subst (Parsed has_headers content r.parser r.parsing) e parsed)
          ])

  pub read_body_lem :
      (shared : Buffer) (s : Bytes) (r : Reading P B)
      → ParsesWhole
      → r.kept ≡ []
      → 0 < length s
      → length s ≤ length shared.bytes
      → Went
          (λ r'. r'.kept ≡ [])
          is_completed
          (r.kept ++ s)
          r.parser
          r.parsing
          (read_body execute append shared s r)
  unfolding read_body
  read_body_lem shared s r whole none_kept pos fits =
      let filled : fill r.kept r.kept shared s ≡ s =
        fill_lem r.kept r.kept shared s (inr refl) pos
          (let e : length r.kept ≡ 0 = ap length none_kept in omega arith)
        ∙ ap (λ t. t ++ s) none_kept in
      let whole_text = append-nil (s ++ []) ∙ append-nil s ∙ ap (λ t. t ++ s) (sym none_kept) in
      rw (filled, read_body)
        (elim (Result-cases (feed execute append s r.parser r.parsing)) [
          | inl (x, e) ↦
              let left : (if is_completed x.1.req.state then r.kept else drop x.2 s) ≡ [] =
                elim (Bool-cases (is_completed x.1.req.state)) [
                  | inl over ↦ rw over none_kept
                  | inr more ↦ rw more (
                      drop_of_length-le x.2 s
                        (omega (arith, feed-parsed s r.parser r.parsing x whole e)))
                ] in
              rw e ((s ∷ [], rw e refl, ap (λ t. (s ++ []) ++ t) left ∙ whole_text, inr left), left)
          | inr (t, e) ↦ rw e (s ∷ [], [], rw e refl, whole_text)
        ])
