-- ===== src/Streams/Read/Requests.antt =====
-- What the parser gets of a request: its headers, and its body behind them.
use getodac.Common.Bytes.{Bytes}
use getodac.Common.Checks.{empty-nil}
use getodac.Streams.Read.Delivery.{Reads, Reads-after, read_loop_lem}
use getodac.Streams.Read.Rounds.{delivered, Fits, delivered-append, join, Fits-append}
use getodac.Common.{
  ◌≡◌, ◌∙◌, refl, sym, ap, Bool, true, false, List, [], ◌∷◌, ◌++◌, ◌==◌, subst, length, flat, arith,
  drop_of_length-le, Bool-cases, inl, inr, ◌⊎◌,
}
use getodac.Exceptions.{Result, ok, Result-cases}
use getodac.Http.Request.{State, Request}
use getodac.Streams.Read.Pieces.{
  ParsesWhole, feeds, feed-parsed, Went, read_lines_lem, read_body_lem,
}
use getodac.Streams.Read.Loop.{
  c_string, Reading, Outcome, returned, threw, waiting, feed, read_lines, read_body, read_loop,
  read_headers, feed_kept, clear_kept, read,
}
use getodac.Streams.Read.{Executed, ParserData, ReadRound, has_headers, is_completed}
use mathlib.Core.List.{append-nil, append_assoc}

module _ {P B : Type 0} (execute : P → Bytes → Executed P) (append : B → Bytes → Result B) where
  -- Whatever the socket answers: if `readHeaders` returns, it has the headers, and pieces of the
  -- bytes that it kept of an earlier request and of those of the rounds that it used, in order,
  -- went to the parser, up to those that it keeps. If it waits, it has used all rounds and has no
  -- headers. If it throws, the parser or a callback threw that for such pieces, or it is the error
  -- of a round. The parser parses all it gets unless it fails, the bytes that were kept are copied
  -- whole, and no read is larger than its room.
  pub read_headers_lem :
      (init : P) (beyond : Bytes) (rounds : List ReadRound) (req : Request) (received : B)
      (kept : Bytes) (w : Bool)
      → ParsesWhole execute append
      → kept ≡ [] ⊎ (c_string (kept ++ beyond) ≡ kept)
      → Fits (length kept) rounds
      → Reads execute append
          (λ r. has_headers r.parsing.req.state ≡ true)
          has_headers
          kept
          init
          (record { req = req; field = []; received = received })
          rounds
          (read_headers execute append init beyond rounds req received kept w)
  unfolding read_headers
  read_headers_lem init beyond rounds req received kept w whole copied fits =
      read_loop_lem execute append has_headers (read_lines execute append beyond)
        (λ r. r.kept ≡ [] ⊎ (c_string (r.kept ++ beyond) ≡ r.kept)) (λ _. Unit)
        (λ r. has_headers r.parsing.req.state ≡ true) rounds
        (record {
          parser = init;
          parsing = record { req = req; field = []; received = received };
          kept = kept;
          can_write_error = w;
        })
        (λ r none_left. inl none_left) (λ r _ over. over)
        (λ shared s r ready pos room.
          read_lines_lem execute append beyond shared s r whole ready pos room)
        copied tt fits

  -- The request is complete, and nothing is kept.
  abbrev pub Finished : Reading P B → Type 0
  Finished r = (is_completed r.parsing.req.state ≡ true) × (r.kept ≡ [])

  feed_kept_lem :
      (r : Reading P B)
      → ParsesWhole execute append
      → Went execute append
          (λ r'. r'.kept ≡ [])
          is_completed
          r.kept
          r.parser
          r.parsing
          (feed_kept execute append r)
  unfolding feed_kept
  feed_kept_lem r whole = elim (Bool-cases (length r.kept == 0)) [
    | inl none_kept ↦
        rw (none_kept, feed_kept)
          (([], refl, refl, inr (empty-nil r.kept none_kept)), empty-nil r.kept none_kept)
    | inr some_kept ↦ elim (Result-cases (feed execute append r.kept r.parser r.parsing)) [
      | inl (x, e) ↦
          let left =
            drop_of_length-le x.2 r.kept
              (omega (arith, feed-parsed execute append r.kept r.parser r.parsing x whole e)) in
          rw (some_kept, e, feed_kept)
            (
              (
                r.kept ∷ [],
                rw e refl,
                ap (λ t. (r.kept ++ []) ++ t) left ∙ append-nil (r.kept ++ []) ∙ append-nil r.kept,
                inr left,
              ),
              left,
            )
      | inr (t, e) ↦
          rw (some_kept, e, feed_kept)
            (r.kept ∷ [], [], rw e refl, append-nil (r.kept ++ []) ∙ append-nil r.kept)
    ]
  ]

  -- The last statement of `read` loses nothing if nothing is kept.
  Reads-clear_kept :
      (ends : State → Bool) (kept : Bytes) (p : P) (d : ParserData B) (rounds : List ReadRound)
      (o : Outcome P B)
      → Reads execute append Finished ends kept p d rounds o
      → Reads execute append Finished ends kept p d rounds (clear_kept execute append o)
  unfolding clear_kept
  Reads-clear_kept ends kept p d rounds (returned r rest)
        (used, pieces, e, fed, split, (over, none_kept)) =
      (used, pieces, e, fed, ap (λ t. flat pieces ++ t) (sym none_kept) ∙ split, (over, refl))
  Reads-clear_kept ends kept p d rounds (waiting r) h = h
  Reads-clear_kept ends kept p d rounds (threw e w) h = h

  -- `read`, of a request that is not completed.
  pub read_lem :
      (rounds : List ReadRound) (r : Reading P B)
      → ParsesWhole execute append
      → is_completed r.parsing.req.state ≡ false
      → Fits 0 rounds
      → Reads execute append Finished is_completed r.kept r.parser
          (record r.parsing { field = [] })
          rounds
          (read execute append rounds r)
  unfolding read
  read_lem rounds r whole more fits =
      let r0 = record r { parsing = record r.parsing { field = [] }; can_write_error = true } in
      let went = feed_kept_lem r0 whole in
      elim (Result-cases (feed_kept execute append r0)) [
        | inr (t, e) ↦
            let (pieces, rest, fed, split) =
              subst
                (Went execute append (λ r'. r'.kept ≡ []) is_completed r.kept r.parser r0.parsing) e
                went in
            rw (more, e, read)
              (inl (
                pieces,
                rest ++ delivered rounds,
                fed,
                sym (append_assoc (flat pieces) rest (delivered rounds))
                    ∙ ap (λ t. t ++ delivered rounds) split,
              ))
        | inl (r', e) ↦
            let ((pieces, fed, split, _), none_kept) =
              subst
                (Went execute append (λ r'. r'.kept ≡ []) is_completed r.kept r.parser r0.parsing) e
                went in
            let o = read_loop execute append is_completed (read_body execute append) rounds r' in
            let later =
              read_loop_lem execute append is_completed (read_body execute append)
                (λ r. r.kept ≡ []) (λ r. r.kept ≡ []) Finished rounds r' (λ r h. h)
                (λ r h over. (over, h))
                (λ shared s r h pos room.
                  read_body_lem execute append shared s r whole h pos (omega arith))
                none_kept none_kept (subst (λ n. Fits n rounds) (sym (ap length none_kept)) fits) in
            rw (more, e, read)
              (Reads-clear_kept is_completed r.kept r.parser r0.parsing rounds o (
                Reads-after execute append Finished is_completed r.kept r.parser r0.parsing []
                  rounds pieces r' o fed (split ∙ sym (append-nil r.kept)) later))
      ]

  -- If `readHeaders` returns a request that is not complete and `read` returns it, the bytes that
  -- the session kept and the bytes of the rounds that both used, in order, went to the parser,
  -- each once: pieces of them to `readHeaders` and the pieces behind them to `read`. Then the
  -- request is complete. The parser parses all it gets unless it fails, the bytes that were kept
  -- are copied whole, and no read is larger than its room.
  pub read_headers-read :
      (init : P) (beyond : Bytes) (rounds : List ReadRound) (req : Request) (received : B)
      (kept : Bytes) (w : Bool) (r r' : Reading P B) (rest rest' : List ReadRound)
      → ParsesWhole execute append
      → kept ≡ [] ⊎ (c_string (kept ++ beyond) ≡ kept)
      → Fits (length kept) rounds
      → read_headers execute append init beyond rounds req received kept w ≡ returned r rest
      → is_completed r.parsing.req.state ≡ false
      → read execute append rest r ≡ returned r' rest'
      → (used : List ReadRound) × (head : List Bytes) × (tail : List Bytes) × (rounds
          ≡ used ++ rest')
        × (feeds execute append head init (record { req = req; field = []; received = received })
            ≡ ok (r.parser, r.parsing))
        × (feeds execute append tail r.parser (record r.parsing { field = [] })
            ≡ ok (r'.parser, r'.parsing))
        × (flat (head ++ tail) ≡ kept ++ delivered used)
        × (is_completed r'.parsing.req.state ≡ true)
  read_headers-read init beyond rounds req received kept w r r' rest rest' whole copied fits e more
        e' =
      let d : ParserData B = record { req = req; field = []; received = received } in
      let (used, head, cut, fed, split, _) =
        subst
          (Reads execute append (λ r. has_headers r.parsing.req.state ≡ true) has_headers kept init
            d rounds)
          e (read_headers_lem init beyond rounds req received kept w whole copied fits) in
      let (later, tail, cut', fed', split', (over, none_kept)) =
        subst
          (Reads execute append Finished is_completed r.kept r.parser
            (record r.parsing { field = [] }) rest)
          e'
          (read_lem rest r whole more
            (Fits-append (length kept) used rest (subst (Fits (length kept)) cut fits))) in
      (
        used ++ later,
        head,
        tail,
        cut ∙ ap (λ t. used ++ t) cut' ∙ sym (append_assoc used later rest'),
        fed,
        fed',
        sym (append-nil (flat (head ++ tail)))
            ∙ join kept (delivered used) r.kept (delivered later) [] head tail split
                (ap (λ t. flat tail ++ t) (sym none_kept) ∙ split')
            ∙ ap (λ t. kept ++ t) (sym (delivered-append used later)),
        over,
      )
