-- ===== src/Streams/Read/Tests.antt =====
-- A session that reads a request, with a parser that takes each line as a value of a header, an
-- empty line as the end of the headers, and what comes then as the body.
use getodac.Common.Bytes.{Bytes, codes, bytes_eq}
use getodac.Common.Maps.{assign, find}
use getodac.Common.{
  ◌≡◌, refl, Bool, true, false, List, [], ◌∷◌, ◌++◌, none, ◌==◌, if◌then◌else◌, flat, length, inl,
  arith,
}
use getodac.Exceptions.{Result, ok}
use getodac.Http.Request.{Request, uninitialized, headers_completed, completed}
use getodac.Streams.Read.Delivery.{Reads}
use getodac.Streams.Read.Rounds.{delivered, Fits}
use getodac.Streams.Read.Loop.{Reading, returned, read_headers, read}
use getodac.Streams.Read.Pieces.{ParsesWhole, feeds}
use getodac.Streams.Read.Requests.{read_headers_lem, read_headers-read}
use getodac.Streams.Read.Splitting.{Splits, on_callbacks-split}
use getodac.Streams.Read.{
  header_field, header_value, headers_complete, body, message_complete, Executed, ParserData,
  ReadRound, got, nothing, has_headers, is_completed, on_callbacks,
}
use getodac.Utils.Buffer.{Buffer}

program : Unit {0}
unfolding read_headers read on_callbacks is_completed assign bytes_eq
program = tt

abbrev line_end : Bytes
line_end = 13 ∷ 10 ∷ []

-- Whether the headers are over; the parser has no errors.
abbrev line_parser : Bool → Bytes → Executed Bool
line_parser true s = record {
  parser = true;
  callbacks = body s ∷ message_complete ∷ [];
  parsed = length s;
  http_errno = false;
}
line_parser false s = record {
  parser = length s == 2;
  callbacks =
      if length s == 2
      then headers_complete true ∷ []
      else header_field (codes "Host") ∷ header_value s ∷ [];
  parsed = length s;
  http_errno = false;
}

line_parser-ParsesWhole : ParsesWhole line_parser (λ b s. ok (b ++ s))
line_parser-ParsesWhole s true h = refl
line_parser-ParsesWhole s false h = refl

abbrev join_bytes : Bytes → Bytes → Result Bytes
join_bytes b s = ok (b ++ s)

abbrev request : Request
request = record {
  fields = [];
  keep_alive = false;
  url = [];
  method = [];
  has_callback = true;
  state = uninitialized;
  max_body_size = 100;
}

abbrev shared : Buffer
shared = record { bytes = codes "................"; current = 3; end_ = 7 }

-- A line in two reads, the end of the headers, and the body behind a wait for the socket.
abbrev rounds : List ReadRound
rounds =
    got shared 97 (98 ∷ 98 ∷ [])
    ∷ got shared 99 line_end
    ∷ got shared 13 (10 ∷ [])
    ∷ nothing none
    ∷ got shared 120 (121 ∷ [])
    ∷ []

abbrev with_headers : Reading Bool Bytes
with_headers = record {
  parser = true;
  parsing = record {
    req = record request {
      fields = (codes "Host", 99 ∷ line_end) ∷ [];
      state = headers_completed;
      keep_alive = true;
    };
    field = codes "Host";
    received = [];
  };
  kept = [];
  can_write_error = true;
}

tests :
    read_headers line_parser join_bytes false [] rounds request [] [] false
    ≡ returned with_headers (nothing none ∷ got shared 120 (121 ∷ []) ∷ [])
unfolding program
tests = refl

abbrev with_body : Reading Bool Bytes
with_body = record with_headers {
  parsing = record with_headers.parsing {
    req = record with_headers.parsing.req { state = completed };
    field = [];
    received = codes "xy";
  };
}

body_test :
    read line_parser join_bytes (nothing none ∷ got shared 120 (121 ∷ []) ∷ []) with_headers
    ≡ returned with_body []
unfolding program
body_test = refl

with_headers-open : is_completed with_headers.parsing.req.state ≡ false
unfolding program
with_headers-open = refl

rounds-Fits : Fits 0 rounds
rounds-Fits = (omega arith, (omega arith, (omega arith, (omega arith, tt))))

read_headers_lem_example :
    Reads line_parser join_bytes
      (λ r. has_headers r.parsing.req.state ≡ true)
      has_headers
      []
      false
      (record { req = request; field = []; received = [] })
      rounds
      (read_headers line_parser join_bytes false [] rounds request [] [] false)
read_headers_lem_example =
    read_headers_lem line_parser join_bytes false [] rounds request [] [] false
      line_parser-ParsesWhole (inl refl) rounds-Fits

read_headers-read_example :
    (used : List ReadRound) × (head : List Bytes) × (tail : List Bytes) × (rounds ≡ used ++ [])
    × (feeds line_parser join_bytes head false (record { req = request; field = []; received = [] })
        ≡ ok (true, with_headers.parsing))
    × (feeds line_parser join_bytes tail true (record with_headers.parsing { field = [] })
        ≡ ok (true, with_body.parsing))
    × (flat (head ++ tail) ≡ delivered used)
    × (is_completed with_body.parsing.req.state ≡ true)
read_headers-read_example =
    read_headers-read line_parser join_bytes false [] rounds request [] [] false with_headers
      with_body (nothing none ∷ got shared 120 (121 ∷ []) ∷ []) [] line_parser-ParsesWhole
      (inl refl) rounds-Fits tests with_headers-open body_test

on_callbacks-split_example :
    (d' : ParserData Bytes) × (on_callbacks join_bytes
        (header_field (codes "Cookie")
          ∷ header_value (codes "a=1")
          ∷ header_value (codes "; b=2")
          ∷ [])
        with_headers.parsing
      ≡ ok d')
    × Splits
        (codes "Cookie")
        (codes "a=1")
        (codes "; b=2")
        with_headers.parsing.req.fields
        (find (codes "Cookie") with_headers.parsing.req.fields)
        d'.req.fields
on_callbacks-split_example =
    on_callbacks-split join_bytes (codes "Cookie") (codes "a=1") (codes "; b=2")
      with_headers.parsing cc
