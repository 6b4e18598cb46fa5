-- ===== src/Streams/Read/Loop.antt =====
-- src/server/streams.cpp: `readHeaders` and `read`, and what of the shared buffer they use.
use getodac.Common.Bytes.{Bytes}
use getodac.Common.{
  ℕ, zero, suc, ◌+◌, Bool, true, false, List, [], ◌∷◌, ◌++◌, none, some, ◌==◌, if◌then◌else◌,
  length, take, drop,
}
use getodac.Exceptions.{Thrown, error_code, Result, ok, throw, ◌>>=◌}
use getodac.Http.Request.{State, Request}
use getodac.Streams.Read.{
  Executed, ParserData, ReadRound, got, nothing, read_failed, ebadmsg, has_headers, is_completed,
  next_line, on_callbacks,
}
use getodac.Utils.Buffer.{Buffer, reset, prepend_string, copy_in, set_current_size, current_string}

-- `buffer *= m_httpParserBuffer.currentData()`: the text of a `const char *` ends at the first
-- zero, wherever it is in memory; `beyond` is what stands behind the allocation.
unfoldable pub c_string : Bytes → Bytes
c_string [] = []
c_string (c ∷ s) = let rest = c_string s in if c == 0 then [] else c ∷ rest

-- `readSome` writes at the cursor.
unfoldable pub write_at : ℕ → Bytes → Bytes → Bytes
unfolding copy_in
write_at n s bytes = take n bytes ++ copy_in s (drop n bytes)

-- What stands in the shared buffer when `readSome` has read `s`: `copied` is what has been put in
-- front of it, and `kept` sets its length.
unfoldable pub fill : (copied kept : Bytes) → Buffer → Bytes → Bytes
unfolding reset prepend_string write_at set_current_size current_string
fill copied kept shared s =
    let b = if length kept == 0 then reset shared else prepend_string copied (reset shared) in
    let read_in = reset (record b { bytes = write_at b.current s b.bytes }) in
    current_string (set_current_size (length s + length kept) read_in)

-- A session that reads: `kept` is `m_httpParserBuffer.currentString()`.
pub record Reading (P B : Type 0) : Type 0 where
  pub parser : P
  pub parsing : ParserData B
  pub kept : Bytes
  pub can_write_error : Bool

-- What a round does, and what a call of `readHeaders` or `read` does with the rounds from outside;
-- `waiting` is for the next one. An exception comes with `m_can_write_errror`.
pub data Step (P B : Type 0) : Type 0 where
  went_on : Reading P B → Step P B
  stopped : Thrown → Bool → Step P B

pub data Outcome (P B : Type 0) : Type 0 where
  returned : Reading P B → List ReadRound → Outcome P B
  threw : Thrown → Bool → Outcome P B
  waiting : Reading P B → Outcome P B

-- The result of code with the parser, as a round.
unfoldable pub to_step : {P B : Type 0} → Result (Reading P B) → Step P B
to_step (ok r) = went_on r
to_step (throw e) = stopped e true

module _ {P B : Type 0} (execute : P → Bytes → Executed P) (append : B → Bytes → Result B) where
  -- `http_parser_execute` and the test of `http_errno`.
  unfoldable pub feed : Bytes → P → ParserData B → Result (P × ParserData B × ℕ)
  unfolding on_callbacks
  feed s p d =
      let x = execute p s in
      on_callbacks append x.callbacks d >>= λ d'.
      if x.http_errno then throw (error_code ebadmsg) else ok (x.parser, d', x.parsed)

  -- The inner loop of `readHeaders`. Each line takes a byte at least, so that a unit of fuel for
  -- each byte is enough.
  unfoldable pub feed_lines : ℕ → Bytes → P → ParserData B → Result (P × ParserData B × Bytes)
  unfolding feed has_headers next_line
  feed_lines zero content p d = ok (p, d, content)
  feed_lines (suc fuel) [] p d = ok (p, d, [])
  feed_lines (suc fuel) (c ∷ s) p d = elim (has_headers d.req.state) [
    | true ↦ ok (p, d, c ∷ s)
    | false ↦
        let next = next_line (c ∷ s) in
        feed (take next (c ∷ s)) p d >>= λ x. elim (x.2 == next) [
          | true ↦ feed_lines fuel (drop next (c ∷ s)) x.0 x.1
          | false ↦ ok (x.0, x.1, drop next (c ∷ s))
        ]
  ]

  -- A round of `readHeaders` that has read `s`.
  unfoldable pub read_lines : Bytes → Buffer → Bytes → Reading P B → Result (Reading P B)
  unfolding fill c_string feed_lines
  read_lines beyond shared s r =
      let content = fill (c_string (r.kept ++ beyond)) r.kept shared s in
      feed_lines (length content) content r.parser r.parsing >>= λ x.
      ok (record { parser = x.0; parsing = x.1; kept = x.2; can_write_error = true })

  -- A round of `read` that has read `s`.
  unfoldable pub read_body : Buffer → Bytes → Reading P B → Result (Reading P B)
  unfolding fill feed is_completed
  read_body shared s r =
      let content = fill r.kept r.kept shared s in
      feed content r.parser r.parsing >>= λ x. ok (record r {
        parser = x.0;
        parsing = x.1;
        kept = if is_completed x.1.req.state then r.kept else drop x.2 content;
      })

  -- A round of either: `readSome`, its error, and the wait for the socket.
  unfoldable pub on_round :
      (Buffer → Bytes → Reading P B → Result (Reading P B)) → ReadRound → Reading P B → Step P B
  unfolding to_step
  on_round take_in (got shared c s) r = to_step (take_in shared (c ∷ s) r)
  on_round take_in (nothing none) r = went_on r
  on_round take_in (nothing (some errno)) r = stopped (error_code errno) r.can_write_error
  on_round take_in (read_failed errno) r = stopped (error_code errno) r.can_write_error

  -- The outer loop of either, with what ends it.
  unfoldable pub read_loop :
      (State → Bool)
      → (Buffer → Bytes → Reading P B → Result (Reading P B))
      → List ReadRound
      → Reading P B
      → Outcome P B
  unfolding on_round
  read_loop ends take_in [] r = if ends r.parsing.req.state then returned r [] else waiting r
  read_loop ends take_in (x ∷ xs) r = elim (ends r.parsing.req.state) [
    | true ↦ returned r (x ∷ xs)
    | false ↦ elim (on_round take_in x r) [
      | went_on r' ↦ read_loop ends take_in xs r'
      | stopped e can_write ↦ threw e can_write
    ]
  ]

  -- `readHeaders`, for a new request `req`; `received` is the state of the callback that it gets.
  unfoldable pub read_headers :
      P → Bytes → List ReadRound → Request → B → Bytes → Bool → Outcome P B
  unfolding read_loop read_lines has_headers
  read_headers init beyond rounds req received kept can_write =
      read_loop has_headers (read_lines beyond) rounds (record {
        parser = init;
        parsing = record { req = req; field = []; received = received };
        kept = kept;
        can_write_error = can_write;
      })

  -- What is left of an earlier read goes to the parser first.
  unfoldable pub feed_kept : Reading P B → Result (Reading P B)
  unfolding feed
  feed_kept r =
      if length r.kept == 0
      then ok r
      else (feed r.kept r.parser r.parsing >>= λ x.
          ok (record r { parser = x.0; parsing = x.1; kept = drop x.2 r.kept }))

  -- The last statement of `read`.
  unfoldable pub clear_kept : Outcome P B → Outcome P B
  clear_kept (returned r rounds) = returned (record r { kept = [] }) rounds
  clear_kept (threw e can_write) = threw e can_write
  clear_kept (waiting r) = waiting r

  unfoldable pub read : List ReadRound → Reading P B → Outcome P B
  unfolding is_completed read_loop read_body feed_kept clear_kept
  read rounds r =
      if is_completed r.parsing.req.state
      then returned r rounds
      else elim (feed_kept
          (record r { parsing = record r.parsing { field = [] }; can_write_error = true })) [
            | ok r' ↦ clear_kept (read_loop is_completed read_body rounds r')
            | throw e ↦ threw e true
          ]
