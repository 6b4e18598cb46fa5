-- ===== src/Streams/Read.antt =====
-- src/server/streams.cpp: `readHeaders`, `read`, both `readSome` and the callbacks of the parser.
-- The parser is http_parser, which is not part of the repository: a type of states and a function
-- that gives, for the bytes of one `http_parser_execute`, the callbacks that it makes in order,
-- how many bytes it has parsed, and whether it has set `http_errno`. The socket answers from
-- outside: a round for each call of `readSome`.
pub mod Loop
pub mod Filling
pub mod Pieces
pub mod Rounds
pub mod Delivery
pub mod Requests
pub mod Splitting
mod Tests
use getodac.Common.Bytes.{Bytes, codes}
use getodac.Common.Int.{ℤ, pos, negsuc}
use getodac.Common.Maps.{assign, find}
use getodac.Common.{
  ℕ, zero, suc, ◌+◌, Bool, true, false, ◌||◌, List, [], ◌∷◌, ◌++◌, Option, none, some, ◌==◌,
  if◌then◌else◌, length, take, drop,
}
use getodac.Exceptions.{Thrown, response_error, error_code, Result, ok, throw, ◌>>=◌}
use getodac.Http.Request.{
  set_state, set_url, set_method, set_keep_alive, State, uninitialized, processing_url,
  processing_header, headers_completed, completed, Request,
}
use getodac.Http.Response.{response}
use getodac.Utils.Buffer.{Buffer, reset, prepend_string, copy_in, set_current_size, current_string}
use getodac.Streams.Write.{
  Answer, SysResult, wrote, failed, SslResult, ssl_wrote, want_read, want_write, ssl_failed, eagain,
  eio,
}

-- The callbacks of the parser, with the data that they get.
pub data Callback : Type 0 where
  message_begin : Callback
  url : (at method : Bytes) → Callback
  header_field header_value : (at : Bytes) → Callback
  headers_complete : (should_keep_alive : Bool) → Callback
  body : (at : Bytes) → Callback
  message_complete : Callback

pub record Executed (P : Type 0) : Type 0 where
  pub parser : P
  pub callbacks : List Callback
  pub parsed : ℕ
  pub http_errno : Bool

-- `http_parser_data`, with the state `B` of the body callback of the request.
pub record ParserData (B : Type 0) : Type 0 where
  pub req : Request
  pub field : Bytes
  pub received : B

-- What a call of `readSome` gives: bytes (at least one, with the shared buffer as the other
-- sessions of the loop have left it), nothing, or an error; and what `m_yield().get()` gives if
-- it is called.
pub data ReadRound : Type 0 where
  got : (shared : Buffer) (c : ℕ) (s : Bytes) → ReadRound
  nothing : (yielded : Option ℕ) → ReadRound
  read_failed : (errno : ℕ) → ReadRound

-- `readSome` of SocketSession and of SslSocketSession; `wrote n` stands for n bytes read.
unfoldable pub socket_read_some : SysResult → Answer
socket_read_some (wrote n) = record { res = pos n; ec = none }
socket_read_some (failed errno) =
    if errno == eagain
    then record { res = pos 0; ec = none }
    else record { res = negsuc 0; ec = some errno }

unfoldable pub ssl_read_some : SslResult → Answer
ssl_read_some (ssl_wrote n) = record { res = pos (suc n); ec = none }
ssl_read_some want_read = record { res = pos 0; ec = none }
ssl_read_some want_write = record { res = pos 0; ec = none }
ssl_read_some ssl_failed = record { res = negsuc 0; ec = some eio }

-- EBADMSG
abbrev pub ebadmsg : ℕ
ebadmsg = 74

-- `req.state() != HeadersCompleted && req.state() != Completed`, negated.
unfoldable pub has_headers : State → Bool
has_headers headers_completed = true
has_headers completed = true
has_headers _ = false

unfoldable pub is_completed : State → Bool
is_completed completed = true
is_completed _ = false

-- `buffer.currentString().find(CrlfString)`: the size of the first line with its end, or of all.
unfoldable pub next_line : Bytes → ℕ
next_line [] = 0
next_line (c ∷ []) = 1
next_line (c ∷ d ∷ s) =
    let rest = next_line (d ∷ s) in if c == 13 then (if d == 10 then 2 else suc rest) else suc rest

module _ {B : Type 0} (append : B → Bytes → Result B) where
  -- `Request::appendBody`
  unfoldable pub append_body : Bytes → ParserData B → Result (ParserData B)
  append_body at d =
      if d.req.has_callback
      then (append d.received at >>= λ b. ok (record d { received = b }))
      else throw (response_error (response 400 (codes "unexpected body") []))

  -- `messageBegin`, `url`, `headerField`, `headerValue`, `headersComplete`, `body` and
  -- `messageComplete`. `operator[]` moves the name of a field out, and leaves it empty, only if the
  -- request has no field of that name.
  unfoldable pub on_callback : Callback → ParserData B → Result (ParserData B)
  unfolding append_body set_state set_url set_method set_keep_alive assign find
  on_callback message_begin d = ok (record d { req = set_state processing_url d.req })
  on_callback (url at method) d =
      ok (record d { req = set_state processing_header (set_method method (set_url at d.req)) })
  on_callback (header_field at) d = ok (record d { field = at })
  on_callback (header_value at) d = ok (record d {
    req = record d.req { fields = assign d.field at d.req.fields };
    field = elim (find d.field d.req.fields) [ none ↦ [] | some v ↦ d.field ];
  })
  on_callback (headers_complete should_keep_alive) d =
      ok (record d { req = set_keep_alive should_keep_alive (set_state headers_completed d.req) })
  on_callback (body at) d = append_body at d
  on_callback message_complete d = ok (record d { req = set_state completed d.req })

  -- The callbacks of one call of the parser; the first exception ends it.
  unfoldable pub on_callbacks : List Callback → ParserData B → Result (ParserData B)
  unfolding on_callback
  on_callbacks [] d = ok d
  on_callbacks (c ∷ cs) d = on_callback c d >>= on_callbacks cs
