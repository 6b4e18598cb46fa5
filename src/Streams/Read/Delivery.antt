-- ===== src/Streams/Read/Delivery.antt =====
-- Every byte that a session reads goes to the parser once, in order.
use getodac.Common.Bytes.{Bytes}
use getodac.Common.{
  ◌+◌, ◌≤◌, ◌<◌, ◌≡◌, ◌∙◌, refl, sym, ap, Bool, true, false, List, [], ◌∷◌, ◌++◌, none, some, subst,
  length, flat, arith, Bool-cases, inl, inr, ◌⊎◌,
}
use getodac.Exceptions.{Result, ok, throw, Result-cases}
use getodac.Http.Request.{State}
use getodac.Streams.Read.Pieces.{feeds, feeds-append, Went}
use getodac.Streams.Read.Loop.{
  Reading, Outcome, returned, threw, waiting, to_step, on_round, read_loop,
}
use getodac.Streams.Read.{Executed, ParserData, ReadRound, got, nothing, read_failed}
use getodac.Utils.Buffer.{Buffer}
use mathlib.Core.List.{append-nil, append_assoc}
use getodac.Streams.Read.Rounds.{delivered, Fits, error_of, delivered-append, join}

-- What a call of either loop gives, for the bytes that were kept and the rounds from outside. If it
-- returns, it has reached its end, and pieces of the bytes of the rounds that it used, in order,
-- went to the parser, up to those that it keeps. If it waits, it has used all rounds. If it
-- throws, that is what the parser or a callback threw for such pieces, or the error of a round.
module _ {P B : Type 0} (execute : P → Bytes → Executed P) (append : B → Bytes → Result B) where
  abbrev pub Reads :
      (Ends : Reading P B → Type 0) (ends : State → Bool) (kept : Bytes) (p : P) (d : ParserData B)
      (rounds : List ReadRound)
      → Outcome P B
      → Type 0
  Reads Ends ends kept p d rounds (returned r rest) =
      (used : List ReadRound) × (pieces : List Bytes) × (rounds ≡ used ++ rest)
      × (feeds execute append pieces p d ≡ ok (r.parser, r.parsing))
      × (flat pieces ++ r.kept ≡ kept ++ delivered used)
      × Ends r
  Reads Ends ends kept p d rounds (waiting r) =
      (pieces : List Bytes) × (feeds execute append pieces p d ≡ ok (r.parser, r.parsing))
      × (flat pieces ++ r.kept ≡ kept ++ delivered rounds)
      × (ends r.parsing.req.state ≡ false)
  Reads Ends ends kept p d rounds (threw e _) =
      ((pieces : List Bytes) × (rest : Bytes) × (feeds execute append pieces p d ≡ throw e)
        × (flat pieces ++ rest ≡ kept ++ delivered rounds))
      ⊎ ((used : List ReadRound) × (x : ReadRound) × (rest : List ReadRound) × (rounds
            ≡ used ++ x ∷ rest)
          × (error_of x ≡ some e))

  -- Behind some rounds, with what the parser has got then.
  pub Reads-after :
      (Ends : Reading P B → Type 0) (ends : State → Bool) (kept : Bytes) (p : P) (d : ParserData B)
      (before xs : List ReadRound) (pieces : List Bytes) (r : Reading P B) (o : Outcome P B)
      → feeds execute append pieces p d ≡ ok (r.parser, r.parsing)
      → flat pieces ++ r.kept ≡ kept ++ delivered before
      → Reads Ends ends r.kept r.parser r.parsing xs o
      → Reads Ends ends kept p d (before ++ xs) o
  Reads-after Ends ends kept p d before xs pieces r (returned r' rest) fed split
        (used, more, e, fed', split', over) =
      (
        before ++ used,
        pieces ++ more,
        ap (λ t. before ++ t) e ∙ sym (append_assoc before used rest),
        feeds-append execute append pieces more p d fed ∙ fed',
        join kept (delivered before) r.kept (delivered used) r'.kept pieces more split split'
            ∙ ap (λ t. kept ++ t) (sym (delivered-append before used)),
        over,
      )
  Reads-after Ends ends kept p d before xs pieces r (waiting r') fed split
        (more, fed', split', over) =
      (
        pieces ++ more,
        feeds-append execute append pieces more p d fed ∙ fed',
        join kept (delivered before) r.kept (delivered xs) r'.kept pieces more split split'
            ∙ ap (λ t. kept ++ t) (sym (delivered-append before xs)),
        over,
      )
  Reads-after Ends ends kept p d before xs pieces r (threw e w) fed split
        (inl (more, rest, fed', split')) =
      inl (
        pieces ++ more,
        rest,
        feeds-append execute append pieces more p d fed ∙ fed',
        join kept (delivered before) r.kept (delivered xs) rest pieces more split split'
            ∙ ap (λ t. kept ++ t) (sym (delivered-append before xs)),
      )
  Reads-after Ends ends kept p d before xs pieces r (threw e w) fed split
        (inr (used, x, rest, e', err)) =
      inr (
        before ++ used,
        x,
        rest,
        ap (λ t. before ++ t) e' ∙ sym (append_assoc before used (x ∷ rest)),
        err,
      )

  read_loop-over :
      (Ends : Reading P B → Type 0) (ends : State → Bool)
      (take_in : Buffer → Bytes → Reading P B → Result (Reading P B)) (rounds : List ReadRound)
      (r : Reading P B)
      → ends r.parsing.req.state ≡ true
      → Ends r
      → Reads Ends ends r.kept r.parser r.parsing rounds
          (read_loop execute append ends take_in rounds r)
  unfolding read_loop
  read_loop-over Ends ends take_in [] r over done =
      rw (over, read_loop) ([], [], refl, refl, sym (append-nil r.kept), done)
  read_loop-over Ends ends take_in (x ∷ xs) r over done =
      rw (over, read_loop) ([], [], refl, refl, sym (append-nil r.kept), done)

  -- For a round that takes in its bytes, from a session that is ready for it.
  pub read_loop_lem :
      (ends : State → Bool) (take_in : Buffer → Bytes → Reading P B → Result (Reading P B))
      (Ready Q Ends : Reading P B → Type 0) (rounds : List ReadRound) (r : Reading P B)
      → ((r : Reading P B) → r.kept ≡ [] → Ready r)
      → ((r : Reading P B) → Q r → ends r.parsing.req.state ≡ true → Ends r)
      → ((shared : Buffer) (s : Bytes) (r : Reading P B)
          → Ready r
          → 0 < length s
          → length r.kept + length s ≤ length shared.bytes
          → Went execute append Q ends (r.kept ++ s) r.parser r.parsing (take_in shared s r))
      → Ready r
      → Q r
      → Fits (length r.kept) rounds
      → Reads Ends ends r.kept r.parser r.parsing rounds
          (read_loop execute append ends take_in rounds r)
  unfolding read_loop on_round to_step
  read_loop_lem ends take_in Ready Q Ends ([]) r fresh fin step ready q fits =
      elim (Bool-cases (ends r.parsing.req.state)) [
        | inl over ↦ read_loop-over Ends ends take_in ([]) r over (fin r q over)
        | inr more ↦ rw (more, read_loop) ([], refl, sym (append-nil r.kept), more)
      ]
  read_loop_lem ends take_in Ready Q Ends (got shared c s ∷ xs) r fresh fin step ready q fits =
      elim (Bool-cases (ends r.parsing.req.state)) [
        | inl over ↦ read_loop-over Ends ends take_in (got shared c s ∷ xs) r over (fin r q over)
        | inr more ↦
            let went = step shared (c ∷ s) r ready (omega arith) fits.0 in
            elim (Result-cases (take_in shared (c ∷ s) r)) [
              | inr (t, e) ↦
                  let (pieces, rest, fed, split) =
                    subst (Went execute append Q ends (r.kept ++ (c ∷ s)) r.parser r.parsing) e
                      went in
                  let all =
                    join r.kept (c ∷ s) rest (delivered xs) (rest ++ delivered xs) pieces [] split
                      refl in
                  rw (more, e, read_loop)
                    (inl (
                      pieces,
                      rest ++ delivered xs,
                      fed,
                      ap (λ t. t ++ (rest ++ delivered xs)) (ap flat (sym (append-nil pieces)))
                          ∙ all,
                    ))
              | inl (r', e) ↦
                  let ((pieces, fed, split, over'), q') =
                    subst (Went execute append Q ends (r.kept ++ (c ∷ s)) r.parser r.parsing) e
                      went in
                  let later : Reads Ends ends r'.kept r'.parser r'.parsing xs
                      (read_loop execute append ends take_in xs r') =
                    elim over' [
                      | inl over ↦ read_loop-over Ends ends take_in xs r' over (fin r' q' over)
                      | inr none_left ↦
                          read_loop_lem ends take_in Ready Q Ends xs r' fresh fin step
                            (fresh r' none_left) q'
                            (subst (λ n. Fits n xs) (sym (ap length none_left)) fits.1)
                    ] in
                  rw (more, e, read_loop)
                    (Reads-after Ends ends r.kept r.parser r.parsing (got shared c s ∷ []) xs pieces
                      r' (read_loop execute append ends take_in xs r') fed
                      (split ∙ ap (λ t. r.kept ++ (c ∷ t)) (sym (append-nil s))) later)
            ]
      ]
  read_loop_lem ends take_in Ready Q Ends (nothing none ∷ xs) r fresh fin step ready q fits =
      elim (Bool-cases (ends r.parsing.req.state)) [
        | inl over ↦ read_loop-over Ends ends take_in (nothing none ∷ xs) r over (fin r q over)
        | inr more ↦
            rw (more, read_loop)
              (Reads-after Ends ends r.kept r.parser r.parsing (nothing none ∷ []) xs [] r
                (read_loop execute append ends take_in xs r) refl (sym (append-nil r.kept))
                (read_loop_lem ends take_in Ready Q Ends xs r fresh fin step ready q fits))
      ]
  read_loop_lem ends take_in Ready Q Ends (nothing (some errno) ∷ xs) r fresh fin step ready q
        fits =
      elim (Bool-cases (ends r.parsing.req.state)) [
        | inl over ↦
            read_loop-over Ends ends take_in (nothing (some errno) ∷ xs) r over (fin r q over)
        | inr more ↦ rw (more, read_loop) (inr ([], nothing (some errno), xs, refl, refl))
      ]
  read_loop_lem ends take_in Ready Q Ends (read_failed errno ∷ xs) r fresh fin step ready q fits =
      elim (Bool-cases (ends r.parsing.req.state)) [
        | inl over ↦ read_loop-over Ends ends take_in (read_failed errno ∷ xs) r over (fin r q over)
        | inr more ↦ rw (more, read_loop) (inr ([], read_failed errno, xs, refl, refl))
      ]
