-- ===== src/Streams/IoLoop/Errors.antt =====
-- What a connection answers when a request fails, and when it ends.
use mathlib.Core.List.{append-nil, append_assoc}
use getodac.Common.Bytes.{Bytes}
use getodac.Common.Int.{ℤ, pos, negsuc}
use getodac.Common.{
  ℕ, zero, suc, ◌<◌, ◌≤◌, ltb, ◌&&◌, sym, ap, subst, arith, Bool-cases, inl, inr, ◌≡◌, ◌≢◌, ◌∙◌,
  refl, true, false, List, [], ◌∷◌, ◌++◌, Option, none, some,
}
use getodac.Exceptions.{
  Thrown, int_error, response_error, std_exception, error_code, unknown, Result, ok, throw,
}
use getodac.Http.Message.{to_string}
use getodac.Http.Response.{Response, response}
use getodac.Http.Request.{Request}
use getodac.Streams.IoLoop.{
  Session, Service, Turn, Connection, error_status, shut_down, answer_error, error_response,
  write_response, goes_on, read_headers, prepare, finish, set_session_timeout,
  set_stream_keep_alive, rounds, io_loop,
}

-- The connection is kept after a request.
goes_on_kept :
    (yielded : Option ℕ) (seconds : ℤ)
    → yielded ≡ none
    → seconds ≢ pos 0
    → goes_on yielded seconds ≡ true
unfolding goes_on
goes_on_kept none (pos zero) e n = absurd (n refl)
goes_on_kept none (pos (suc k)) e n = refl
goes_on_kept none (negsuc k) e n = refl
goes_on_kept (some c) seconds e n = cc

goes_on_closed : (yielded : Option ℕ) → goes_on yielded (pos 0) ≡ false
unfolding goes_on
goes_on_closed none = refl
goes_on_closed (some c) = refl

finish-keep_alive : (s : Session) → (finish s).stream.keep_alive ≡ s.stream.keep_alive
unfolding finish set_session_timeout
finish-keep_alive s = refl

prepare-keep_alive :
    (seconds : ℕ) (req : Request) (s : Session)
    → req.keep_alive ≡ false
    → (prepare seconds req s).stream.keep_alive ≡ pos 0
unfolding prepare set_session_timeout set_stream_keep_alive
prepare-keep_alive seconds req s e = rw e refl

-- The session function that writes the responses and throws.
abbrev pub write_all : List Response → Session → Session
write_all [] s = s
write_all (r ∷ rs) s = write_all rs (write_response r s)

abbrev pub writes_and_throws : List Response → Thrown → Service
writes_and_throws rs e req s = (write_all rs s, throw e)

abbrev pub texts : List Response → List Bytes
texts [] = []
texts (r ∷ rs) = to_string r (negsuc 0) ∷ texts rs

abbrev pub if_empty : List Response → Response → List Response
if_empty [] r = r ∷ []
if_empty (q ∷ rs) r = q ∷ rs

-- The response that tells of what was thrown.
pub data Tells (message : ℕ → Bytes) : Thrown → Response → Type 0 where
  status : (n : ℕ) → 0 < n → n < 65535 → Tells message (int_error (pos n)) (response n [] [])
  too_large : (n : ℕ) → 65535 ≤ n → Tells message (int_error (pos n)) (response 500 [] [])
  zero_status : Tells message (int_error (pos 0)) (response 500 [] [])
  negative : (n : ℕ) → Tells message (int_error (negsuc n)) (response 500 [] [])
  itself : (r : Response) → Tells message (response_error r) r
  what : (s : Bytes) → Tells message (std_exception s) (response 500 s [])
  code : (n : ℕ) → Tells message (error_code n) (response 500 (message n) [])
  nothing_known : Tells message unknown (response 500 [] [])

-- The connection is shut down, with these texts written.
abbrev pub Ends : Connection → List Bytes → Type 0
Ends k ws = (s : Session) × (k ≡ shut_down s) × (s.stream.written ≡ ws)

error_response-Tells :
    (message : ℕ → Bytes) (e : Thrown) → Tells message e (error_response message e)
unfolding error_response error_status
error_response-Tells message (int_error (pos zero)) = zero_status
error_response-Tells message (int_error (pos (suc n))) = elim (Bool-cases (ltb (suc n) 65535)) [
  | inl less ↦
      let fits : (ltb 0 (suc n) && ltb (suc n) 65535) ≡ true = ground arith in
      rw fits (status (suc n) (omega arith) (ground arith))
  | inr more ↦
      let large : (ltb 0 (suc n) && ltb (suc n) 65535) ≡ false = ground arith in
      rw large (too_large (suc n) (ground arith))
]
error_response-Tells message (int_error (negsuc n)) = negative n
error_response-Tells message (response_error r) = itself r
error_response-Tells message (std_exception s) = what s
error_response-Tells message (error_code n) = code n
error_response-Tells message unknown = nothing_known

write_all-written :
    (rs : List Response) (s : Session)
    → (write_all rs s).stream.written ≡ s.stream.written ++ texts rs
unfolding write_response
write_all-written [] s = sym (append-nil s.stream.written)
write_all-written (r ∷ rs) s =
    write_all-written rs (write_response r s)
    ∙ append_assoc s.stream.written (to_string r (negsuc 0) ∷ []) (texts rs)

write_all-flag :
    (r : Response) (rs : List Response) (s : Session)
    → (write_all rs (write_response r s)).can_write_error ≡ false
unfolding write_response
write_all-flag r [] s = refl
write_all-flag r (q ∷ rs) s = write_all-flag q rs (write_response r s)

answered :
    (message : ℕ → Bytes) (e : Thrown) (rs : List Response) (s : Session) (ws : List Bytes)
    → s.can_write_error ≡ true
    → s.stream.written ≡ ws
    → Ends
        (answer_error message e (write_all rs s))
        (ws ++ texts (if_empty rs (error_response message e)))
unfolding answer_error write_response
answered message e [] s ws flag same = (
  write_response (error_response message e) s,
  rw (flag, answer_error) refl,
  ap (λ t. t ++ texts (error_response message e ∷ [])) same,
)
answered message e (r ∷ rs) s ws flag same = (
  write_all (r ∷ rs) s,
  rw (write_all-flag r rs s, answer_error) refl,
  write_all-written (r ∷ rs) s ∙ ap (λ t. t ++ texts (r ∷ rs)) same,
)

module _ (keep_alive_timeout : ℕ) (create_session : Request → Option Service) where
  -- What the session function of a request does, called behind `readHeaders`.
  abbrev pub call : Service → Request → Turn → Session → Session × Result (Unit {0})
  call service req t s = service req (prepare keep_alive_timeout req (read_headers t s))

  prepared-writes :
      (t : Turn) (req : Request) (s : Session)
      → t.arrived ≡ true
      → ((prepare keep_alive_timeout req (read_headers t s)).can_write_error ≡ true)
        × ((prepare keep_alive_timeout req (read_headers t s)).stream.written ≡ s.stream.written)
  unfolding prepare read_headers set_session_timeout set_stream_keep_alive
  prepared-writes t req s came = rw (came, read_headers) (refl, refl)

  -- The turns are served one after the other, and each keeps the connection.
  pub data Served : List Turn → Session → Session → Type 0 where
    none_yet : (s : Session) → Served [] s s
    serve :
        {ts : List Turn} {s' : Session} (t : Turn) (s : Session) (req : Request) (service : Service)
        → t.headers ≡ ok req
        → create_session req ≡ some service
        → (call service req t s).1 ≡ ok tt
        → t.yielded ≡ none
        → (finish (call service req t s).0).stream.keep_alive ≢ pos 0
        → Served ts (finish (call service req t s).0) s'
        → Served (t ∷ ts) s s'

  module _ (message : ℕ → Bytes) where
    rounds-Served :
        {before : List Turn} {s s' : Session} (after : List Turn)
        → Served before s s'
        → rounds message keep_alive_timeout create_session (before ++ after) s
          ≡ rounds message keep_alive_timeout create_session after s'
    unfolding rounds
    rounds-Served after (none_yet s) = refl
    rounds-Served after (serve t s req service h c done y k more) =
        rw (h, c, done, goes_on_kept t.yielded _ y k) (rounds-Served after more)

    rounds-throw :
        {before : List Turn} {s' : Session} (headers_timeout : ℕ) (s : Session) (t : Turn)
        (after : List Turn) (req : Request) (service : Service) (e : Thrown)
        → Served before (set_session_timeout (pos headers_timeout) s) s'
        → t.headers ≡ ok req
        → create_session req ≡ some service
        → (call service req t s').1 ≡ throw e
        → io_loop message keep_alive_timeout create_session headers_timeout (before ++ t ∷ after) s
          ≡ answer_error message e (call service req t s').0
    unfolding io_loop rounds
    rounds-throw headers_timeout s t after req service e before h c thrown =
        rounds-Served (t ∷ after) before ∙ rw (h, c, thrown, rounds) refl

    -- Behind any requests that a connection has served and kept, if bytes of a further one arrive
    -- and its session function writes some responses and then throws: the connection is shut down,
    -- and exactly these responses have been written, or, if there is none, one that tells of the
    -- error. An integer is its status if it is one below 65535, and 500 otherwise; a response is
    -- itself; the text of an exception and the message of an error code come with 500; all else is
    -- 500.
    pub io_loop-Tells :
        {before : List Turn} {s' : Session} (headers_timeout : ℕ) (s : Session) (t : Turn)
        (after : List Turn) (req : Request) (rs : List Response) (e : Thrown)
        → Served before (set_session_timeout (pos headers_timeout) s) s'
        → t.headers ≡ ok req
        → t.arrived ≡ true
        → create_session req ≡ some (writes_and_throws rs e)
        → (r : Response) × Tells message e r
          × Ends
              (io_loop message keep_alive_timeout create_session headers_timeout
                (before ++ t ∷ after)
                s)
              (s'.stream.written ++ texts (if_empty rs r))
    unfolding answer_error
    io_loop-Tells {s' = s'} headers_timeout s t after req rs e before h came c =
        let prepared = prepare keep_alive_timeout req (read_headers t s') in
        let (flag, same) = prepared-writes t req s' came in
        let ended =
          rounds-throw headers_timeout s t after req (writes_and_throws rs e) e before h c refl in
        (
          error_response message e,
          error_response-Tells message e,
          subst (λ k. Ends k (s'.stream.written ++ texts (if_empty rs (error_response message e))))
              (sym ended) (answered message e rs prepared s'.stream.written flag same),
        )

    -- A request that does not keep the connection is the last one: if its session function leaves
    -- the keep-alive time as it is, the connection is shut down after it, with one more session
    -- served, whatever else the client sends.
    pub io_loop-last :
        {before : List Turn} {s' : Session} (headers_timeout : ℕ) (s : Session) (t : Turn)
        (after : List Turn) (req : Request) (service : Service)
        → Served before (set_session_timeout (pos headers_timeout) s) s'
        → t.headers ≡ ok req
        → req.keep_alive ≡ false
        → create_session req ≡ some service
        → (call service req t s').1 ≡ ok tt
        → (call service req t s').0.stream.keep_alive
          ≡ (prepare keep_alive_timeout req (read_headers t s')).stream.keep_alive
        → io_loop message keep_alive_timeout create_session headers_timeout (before ++ t ∷ after) s
          ≡ shut_down (finish (call service req t s').0)
    unfolding io_loop rounds
    io_loop-last {s' = s'} headers_timeout s t after req service before h last c done same =
        let closed =
          finish-keep_alive (call service req t s').0
          ∙ same
          ∙ prepare-keep_alive keep_alive_timeout req (read_headers t s') last in
        let shuts : goes_on t.yielded (finish (call service req t s').0).stream.keep_alive ≡ false =
          rw closed (goes_on_closed t.yielded) in
        rounds-Served (t ∷ after) before ∙ rw (h, c, done, shuts, rounds) refl
