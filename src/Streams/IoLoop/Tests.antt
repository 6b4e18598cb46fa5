-- ===== src/Streams/IoLoop/Tests.antt =====
-- A connection with two requests: the first is served, the session function of the second throws.
use getodac.Common.Bytes.{Bytes, codes}
use getodac.Common.Int.{pos}
use getodac.Common.{
  ℕ, ◌≡◌, refl, Bool, true, false, [], ◌∷◌, ◌++◌, Option, none, some, if◌then◌else◌, arith,
}
use getodac.Exceptions.{int_error, ok}
use getodac.Http.Request.{Request, uninitialized}
use getodac.Http.Response.{Response, response}
use getodac.Streams.IoLoop.Errors.{
  call, Served, Tells, Ends, writes_and_throws, texts, if_empty, io_loop-Tells,
}
use getodac.Streams.IoLoop.{
  Session, Service, Turn, error_response, error_status, write_response, read_headers, prepare,
  finish, set_session_timeout, set_stream_keep_alive, io_loop,
}

program : Unit {0}
unfolding read_headers prepare finish set_session_timeout set_stream_keep_alive write_response
    error_response error_status
program = tt

abbrev message : ℕ → Bytes
message errno = codes "error"

abbrev request : Bool → Bytes → Request
request keep url = record {
  fields = [];
  keep_alive = keep;
  url = url;
  method = codes "GET";
  has_callback = false;
  state = uninitialized;
  max_body_size = 0;
}

-- The session function of `/` answers 200, that of every other URL throws 404.
abbrev answers : Service
answers req s = (write_response (response 200 [] []) s, ok tt)

abbrev throws : Service
throws = writes_and_throws [] (int_error (pos 404))

abbrev plugins : Request → Option Service
plugins req = if req.keep_alive then some answers else some throws

abbrev quiet : Request → Option Service
quiet req = some answers

abbrev opened : Session
opened = record {
  stream = record { keep_alive = pos 0; session_timeout = pos 0; written = [] };
  can_write_error = false;
  sessions_served = 0;
}

abbrev turn : Request → Turn
turn req = record { headers = ok req; arrived = true; yielded = none }

abbrev first : Turn
first = turn (request true (codes "/"))

abbrev second : Turn
second = turn (request false (codes "/x"))

abbrev ready : Session
ready = set_session_timeout (pos 5) opened

abbrev between : (Request → Option Service) → Session
between create = finish (call 10 create answers (request true (codes "/")) first ready).0

first-Served : Served 10 plugins (first ∷ []) ready (between plugins)
unfolding program
first-Served =
    Served.serve first ready (request true (codes "/")) answers refl refl refl refl
      (λ e. ground arith) (Served.none_yet (between plugins))

io_loop-Tells_example :
    (r : Response) × Tells message (int_error (pos 404)) r
    × Ends
        (io_loop message 10 plugins 5 (first ∷ second ∷ []) opened)
        ((between plugins).stream.written ++ texts (if_empty [] r))
io_loop-Tells_example =
    io_loop-Tells 10 plugins message 5 opened second [] (request false (codes "/x")) []
      (int_error (pos 404)) first-Served refl refl refl

answered : (call 10 quiet answers (request false (codes "/x")) second (between quiet)).1 ≡ ok tt
unfolding program
answered = refl

untouched :
    (call 10 quiet answers (request false (codes "/x")) second (between quiet)).0.stream.keep_alive
    ≡ (prepare 10
        (request false (codes "/x"))
        (read_headers second (between quiet))).stream.keep_alive
unfolding program
untouched = refl

first_quiet-Served : Served 10 quiet (first ∷ []) ready (between quiet)
unfolding program
first_quiet-Served =
    Served.serve first ready (request true (codes "/")) answers refl refl refl refl
      (λ e. ground arith) (Served.none_yet (between quiet))
