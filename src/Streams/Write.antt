-- ===== src/Streams/Write.antt =====
-- src/server/streams.cpp: `writeSome` of the two sessions and the two `write` loops of
-- BasicHttpSession. The system calls and the coroutine answer from outside: each round of a loop
-- has an answer to `writeSome` and one to `m_yield()`, which it reads only if it yields.
pub mod Single
pub mod Vector
pub mod Calls
use getodac.Common.Bytes.{Bytes}
use getodac.Common.Int.{ℤ, pos, negsuc}
use getodac.Common.{
  ℕ, zero, suc, ◌+◌, ◌-◌, Bool, true, false, List, [], ◌∷◌, ◌++◌, Option, none, some, leb, ltb, min,
  ◌==◌, if◌then◌else◌, length, take, drop, flat,
}

-- `ssize_t writeSome(..., std::error_code &ec)`: the result, and `ec` if it is set.
pub record Answer : Type 0 where
  pub res : ℤ
  pub ec : Option ℕ

-- One round of a loop: what `writeSome` answers, and what `m_yield().get()` gives if it is called.
pub record Round : Type 0 where
  pub answer : Answer
  pub yielded : Option ℕ

-- How a loop stands: it has returned, it has thrown an error code, it waits for the next answer,
-- or an answer was one that `writeSome` never gives (more bytes than were offered, or a negative
-- count with no error code); and the bytes that the socket has taken.
pub data Outcome : Type 0 where
  returned : Bytes → Outcome
  threw : ℕ → Bytes → Outcome
  waiting : Bytes → Outcome
  bad_answer : Bytes → Outcome

-- The bytes that the socket has taken.
unfoldable pub sent : Outcome → Bytes
sent (returned s) = s
sent (threw e s) = s
sent (waiting s) = s
sent (bad_answer s) = s

-- Bytes taken before the rest of a loop.
unfoldable pub after : Bytes → Outcome → Outcome
after s (returned t) = returned (s ++ t)
after s (threw e t) = threw e (s ++ t)
after s (waiting t) = waiting (s ++ t)
after s (bad_answer t) = bad_answer (s ++ t)

-- What a round comes to, when so many bytes are offered.
pub data Verdict : Type 0 where
  stop : ℕ → Verdict
  idle : Verdict
  took : ℕ → Verdict
  bad : Verdict

-- `if ((ec = m_yield().get())) throw ec; continue;`
unfoldable pub yield_verdict : Option ℕ → Verdict
yield_verdict (some e) = stop e
yield_verdict none = idle

-- The tests of `write(ConstBuffer)`: first the count, then `ec`.
unfoldable pub single_verdict : ℤ → Option ℕ → Option ℕ → ℕ → Verdict
unfolding yield_verdict
single_verdict (pos zero) ec yielded offered = yield_verdict yielded
single_verdict (pos (suc n)) (some e) yielded offered = stop e
single_verdict (pos (suc n)) none yielded offered =
    if ltb offered (suc n) then bad else took (suc n)
single_verdict (negsuc n) (some e) yielded offered = stop e
single_verdict (negsuc n) none yielded offered = bad

-- The tests of `write(std::vector<ConstBuffer>)`: first `ec`, then the count.
unfoldable pub vector_verdict : ℤ → Option ℕ → Option ℕ → ℕ → Verdict
unfolding yield_verdict
vector_verdict res (some e) yielded offered = stop e
vector_verdict (pos zero) none yielded offered = yield_verdict yielded
vector_verdict (pos (suc n)) none yielded offered =
    if ltb offered (suc n) then bad else took (suc n)
vector_verdict (negsuc n) none yielded offered = bad

abbrev pub round_verdict : (ℤ → Option ℕ → Option ℕ → ℕ → Verdict) → Round → ℕ → Verdict
round_verdict verdict r offered = verdict r.answer.res r.answer.ec r.yielded offered

-- `write(ConstBuffer)`.
unfoldable pub write : List Round → Bytes → Outcome
unfolding after single_verdict
write rounds [] = returned []
write [] (c ∷ buffer) = waiting []
write (r ∷ rounds) (c ∷ buffer) = elim (round_verdict single_verdict r (length (c ∷ buffer))) [
  | stop e ↦ threw e []
  | idle ↦ write rounds (c ∷ buffer)
  | took n ↦ after (take n (c ∷ buffer)) (write rounds (drop n (c ∷ buffer)))
  | bad ↦ bad_answer []
]

-- The `for` loop over the buffers: what is left of them, and what is left of `written`. Buffers
-- that are wholly written stay in the vector unless a later one is not.
unfoldable pub skip_written : ℕ → List Bytes → List Bytes → List Bytes × ℕ
skip_written written all [] = (all, written)
skip_written written all (b ∷ bs) =
    let rest = skip_written (written - length b) all bs in
    if leb (length b) written then rest else (drop written b ∷ bs, written)

-- `write(std::vector<ConstBuffer>)`.
unfoldable pub write_all : List Round → List Bytes → Outcome
unfolding after skip_written vector_verdict
write_all [] buffers = waiting []
write_all (r ∷ rounds) buffers = elim (round_verdict vector_verdict r (length (flat buffers))) [
  | stop e ↦ threw e []
  | idle ↦ write_all rounds buffers
  | took n ↦
      let step = skip_written n buffers buffers in
      let more = after (take n (flat buffers)) (write_all rounds step.0) in
      if step.1 == 0 then returned (take n (flat buffers)) else more
  | bad ↦ bad_answer []
]

-- What `::write` and `::writev` answer.
pub data SysResult : Type 0 where
  wrote : ℕ → SysResult
  failed : (errno : ℕ) → SysResult

abbrev pub eagain : ℕ
eagain = 11

-- `writeSome` of SocketSession, and whether it clears `m_can_write_errror`.
unfoldable pub socket_write_some : SysResult → Answer × Bool
socket_write_some (wrote n) = (record { res = pos n; ec = none }, true)
socket_write_some (failed errno) =
    if errno == eagain
    then (record { res = pos 0; ec = none }, false)
    else (record { res = negsuc 0; ec = some errno }, false)

-- What `SSL_write` gives: n + 1 bytes, or what `SSL_get_error` makes of its result.
pub data SslResult : Type 0 where
  ssl_wrote : ℕ → SslResult
  want_read want_write ssl_failed : SslResult

abbrev pub eio : ℕ
eio = 5

-- `writeSome` of SslSocketSession.
unfoldable pub ssl_write_some : SslResult → Answer × Bool
ssl_write_some (ssl_wrote n) = (record { res = pos (suc n); ec = none }, true)
ssl_write_some want_read = (record { res = pos 0; ec = none }, false)
ssl_write_some want_write = (record { res = pos 0; ec = none }, false)
ssl_write_some ssl_failed = (record { res = negsuc 0; ec = some eio }, false)

-- The copy loop of the vector `writeSome` of SslSocketSession: at most `room` bytes.
unfoldable pub gather : ℕ → List Bytes → Bytes
gather room [] = []
gather room (b ∷ bs) =
    if room == 0 then [] else take (min (length b) room) b ++ gather (room - min (length b) room) bs

-- What that `writeSome` hands to the single one.
unfoldable pub ssl_payload : ℕ → List Bytes → Bytes
unfolding gather
ssl_payload socket_size [] = []
ssl_payload socket_size (b ∷ []) = b
ssl_payload socket_size (b ∷ c ∷ bs) =
    if leb socket_size (length b) then b else gather socket_size (b ∷ c ∷ bs)
