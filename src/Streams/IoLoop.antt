-- ===== src/Streams/IoLoop.antt =====
-- src/server/streams.cpp, `BasicHttpSession::ioLoop`: the requests of a connection, one after the
-- other, and the answer to an error. What `readHeaders` gives and what `m_yield.get()` holds come
-- from outside, in a list of turns; `create_session` is the server's. A write that fails and its
-- waiting are those of Streams/Write: here a write adds its text to what is written.
pub mod Errors
mod Tests
use getodac.Common.Bytes.{Bytes}
use getodac.Common.Int.{ℤ, pos, negsuc}
use getodac.Common.{
  ℕ, zero, suc, ◌+◌, ◌/◌, ◌*◌, Bool, true, false, List, [], ◌∷◌, ◌++◌, Option, none, some, ltb,
  ◌&&◌, ◌==◌, if◌then◌else◌,
}
use getodac.Exceptions.{
  Thrown, int_error, response_error, std_exception, error_code, unknown, Result, ok, throw,
}
use getodac.Http.Message.{StreamState, to_string}
use getodac.Http.Request.{Request, content_length}
use getodac.Http.Response.{Response, response, chunked_data}

-- `m_can_write_errror`, and `Server::instance().sessionServed()`, counted.
pub record Session : Type 0 where
  pub stream : StreamState
  pub can_write_error : Bool
  pub sessions_served : ℕ

-- A session function: it may read and write the stream, and may throw.
abbrev pub Service : Type 0
Service = Request → Session → Session × Result (Unit {0})

-- What one round of the loop meets: what `readHeaders` gives, whether bytes have arrived in it
-- (which sets `m_can_write_errror`), and the error code that `m_yield.get()` holds at the end.
pub record Turn : Type 0 where
  pub headers : Result Request
  pub arrived : Bool
  pub yielded : Option ℕ

pub data Connection : Type 0 where
  waiting : Session → Connection
  shut_down : Session → Connection

-- `write(res.toString())`
unfoldable pub write_response : Response → Session → Session
write_response r s = record s {
  stream = record s.stream { written = s.stream.written ++ to_string r (negsuc 0) ∷ [] };
  can_write_error = false;
}

unfoldable pub set_session_timeout : ℤ → Session → Session
set_session_timeout seconds s = record s { stream = record s.stream { session_timeout = seconds } }

unfoldable pub set_stream_keep_alive : ℤ → Session → Session
set_stream_keep_alive seconds s = record s { stream = record s.stream { keep_alive = seconds } }

-- `error > 0 && error < 65535 ? uint16_t(error) : uint16_t(500)`
unfoldable pub error_status : ℤ → ℕ
error_status (pos n) = if ltb 0 n && ltb n 65535 then n else 500
error_status (negsuc n) = 500

-- The response of each catch clause. `message` is `std::error_code::message`.
unfoldable pub error_response : (ℕ → Bytes) → Thrown → Response
unfolding error_status
error_response message (int_error error) = response (error_status error) [] []
error_response message (response_error res) = res
error_response message (std_exception what) = response 500 what []
error_response message (error_code errno) = response 500 (message errno) []
error_response message unknown = response 500 [] []

-- `if (m_can_write_errror) write(...)`, and `shutdown()`.
unfoldable pub answer_error : (ℕ → Bytes) → Thrown → Session → Connection
unfolding error_response write_response
answer_error message e s =
    shut_down (if s.can_write_error then write_response (error_response message e) s else s)

-- `Server::keepAliveTimeout() + 1s * (content_length / (512 * 1024))`, or five minutes.
unfoldable pub request_timeout : ℕ → ℕ → ℤ
request_timeout keep_alive_timeout content_length =
    if content_length == chunked_data
    then pos 300
    else pos (keep_alive_timeout + content_length / (512 * 1024))

-- `!m_yield.get() && m_keepAlive.count()`
unfoldable pub goes_on : Option ℕ → ℤ → Bool
goes_on (some e) keep_alive = false
goes_on none (pos zero) = false
goes_on none (pos (suc n)) = true
goes_on none (negsuc n) = true

-- `m_can_write_errror` behind `readHeaders`.
unfoldable pub read_headers : Turn → Session → Session
read_headers t s = if t.arrived then record s { can_write_error = true } else s

-- The state in which the session function is called.
unfoldable pub prepare : ℕ → Request → Session → Session
unfolding set_stream_keep_alive set_session_timeout request_timeout
prepare keep_alive_timeout req s =
    set_session_timeout (request_timeout keep_alive_timeout (content_length req.fields))
      (set_stream_keep_alive (if req.keep_alive then pos keep_alive_timeout else pos 0) s)

-- `setSessionTimeout(keepAlive()); Server::instance().sessionServed();`
unfoldable pub finish : Session → Session
unfolding set_session_timeout
finish s =
    let t = set_session_timeout s.stream.keep_alive s in
    record t { sessions_served = t.sessions_served + 1 }

module _ (message : ℕ → Bytes) (keep_alive_timeout : ℕ)
    (create_session : Request → Option Service) where
  -- The loop, behind the first `setSessionTimeout`.
  unfoldable pub rounds : List Turn → Session → Connection
  unfolding answer_error read_headers prepare finish goes_on
  rounds [] s = waiting s
  rounds (t ∷ ts) s = elim t.headers [
    | throw e ↦ answer_error message e (read_headers t s)
    | ok req ↦ elim (create_session req) [
      | none ↦ shut_down (
          write_response (response 503 [] []) (
            set_stream_keep_alive (if req.keep_alive then pos keep_alive_timeout else pos 0)
              (read_headers t s)))
      | some service ↦
          let called = service req (prepare keep_alive_timeout req (read_headers t s)) in
          elim called.1 [
            | throw e ↦ answer_error message e called.0
            | ok _ ↦ elim (goes_on t.yielded (finish called.0).stream.keep_alive) [
              | true ↦ rounds ts (finish called.0)
              | false ↦ shut_down (finish called.0)
            ]
          ]
    ]
  ]

  unfoldable pub io_loop : ℕ → List Turn → Session → Connection
  unfolding rounds set_session_timeout
  io_loop headers_timeout ts s = rounds ts (set_session_timeout (pos headers_timeout) s)
