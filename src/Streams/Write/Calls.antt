-- ===== src/Streams/Write/Calls.antt =====
-- What the two `writeSome` hand to the system, and what they make of its answers.
use mathlib.Core.List.{append-nil}
use getodac.Common.Bytes.{Bytes}
use getodac.Common.{
  ℕ, zero, suc, ◌-◌, ◌≤◌, ◌<◌, ◌≡◌, ◌≢◌, ◌∙◌, refl, sym, ap, false, List, [], ◌∷◌, ◌++◌, Option,
  leb, min, ◌==◌, length, take, drop, flat, arith, take-append-drop, length-append, length-take,
  take-append_le, take-append_ge, take_of_length-le, Bool-cases, inl, inr, leb→le,
}
use getodac.Streams.Write.{
  Answer, SysResult, wrote, failed, SslResult, ssl_wrote, want_read, want_write, ssl_failed,
  socket_write_some, ssl_write_some, single_verdict, vector_verdict, gather, ssl_payload, bad,
}

-- The copy loop takes the first bytes of the buffers put together, as many as there is room for.
pub gather-take : (room : ℕ) (bs : List Bytes) → gather room bs ≡ take room (flat bs)
unfolding gather
gather-take zero [] = refl
gather-take (suc room) [] = refl
gather-take zero (b ∷ bs) = refl
gather-take (suc room) (b ∷ bs) =
    let more : (suc room == 0) ≡ false = ground arith in
    elim (Bool-cases (leb (length b) (suc room))) [
      | inl fits ↦
          let e : min (length b) (suc room) ≡ length b =
            ground (arith, leb→le (length b) (suc room) fits) in
          let whole = take_of_length-le (length b) b (omega arith) in
          rw (more, e, whole)
            (ap (λ t. b ++ t) (gather-take (suc room - length b) bs)
              ∙ sym (take-append_ge (suc room) b (flat bs) (leb→le (length b) (suc room) fits)))
      | inr long ↦
          let e : min (length b) (suc room) ≡ suc room = ground arith in
          let left : suc room - suc room ≡ 0 = omega arith in
          rw (more, e, left)
            (rw (gather-take 0 bs) (
              append-nil (take (suc room) b)
              ∙ sym (take-append_le (suc room) b (flat bs) (ground arith))))
    ]

-- The secured session hands over the beginning of the buffers put together, at least as much of
-- it as the socket's send buffer holds.
pub ssl_payload_lem :
    (size : ℕ) (bs : List Bytes)
    → (rest : Bytes) × (ssl_payload size bs ++ rest ≡ flat bs)
      × (min size (length (flat bs)) ≤ length (ssl_payload size bs))
unfolding ssl_payload
ssl_payload_lem size [] = ([], refl, omega arith)
ssl_payload_lem size (b ∷ []) = ([], refl, omega (arith, length-append b []))
ssl_payload_lem size (b ∷ c ∷ bs) = elim (Bool-cases (leb size (length b))) [
  | inl long ↦ (
    flat (c ∷ bs),
    rw (long, ssl_payload) refl,
    rw (long, ssl_payload) (omega (arith, leb→le size (length b) long)),
  )
  | inr short ↦
      let all = flat (b ∷ c ∷ bs) in
      (
        drop size all,
        rw (short, ssl_payload) (rw (gather-take size (b ∷ c ∷ bs)) (take-append-drop size all)),
        rw (short, ssl_payload)
            (rw (gather-take size (b ∷ c ∷ bs)) (omega (arith, length-take size all))),
      )
]

-- The tests of the two loops, which stand in another order.
abbrev pub IsHandled : Answer → Option ℕ → ℕ → Type 0
IsHandled a yielded offered =
    (single_verdict a.res a.ec yielded offered ≡ vector_verdict a.res a.ec yielded offered)
    × (single_verdict a.res a.ec yielded offered ≢ bad)

-- Whatever `::write` answers, if it takes no more than it is offered, the answer of `writeSome` of
-- a plain session comes to the same in both loops, and neither moves its pointer out of the
-- buffer by it.
pub socket_write_some-IsHandled :
    (s : SysResult) (yielded : Option ℕ) (offered : ℕ)
    → ((n : ℕ) → s ≡ wrote n → n ≤ offered)
    → IsHandled (socket_write_some s).0 yielded offered
unfolding socket_write_some single_verdict vector_verdict
socket_write_some-IsHandled (wrote zero) yielded offered h = ground arith
socket_write_some-IsHandled (wrote (suc n)) yielded offered h =
    let b = h (suc n) refl in ground arith
socket_write_some-IsHandled (failed e) yielded offered h = ground arith

-- Whatever `SSL_write` answers, if it takes no more than it is offered, the answer of `writeSome`
-- of a secured session comes to the same in both loops, and neither moves its pointer out of the
-- buffer by it.
pub ssl_write_some-IsHandled :
    (s : SslResult) (yielded : Option ℕ) (offered : ℕ)
    → ((n : ℕ) → s ≡ ssl_wrote n → n < offered)
    → IsHandled (ssl_write_some s).0 yielded offered
unfolding ssl_write_some single_verdict vector_verdict
ssl_write_some-IsHandled (ssl_wrote n) yielded offered h = let b = h n refl in ground arith
ssl_write_some-IsHandled want_read yielded offered h = ground arith
ssl_write_some-IsHandled want_write yielded offered h = ground arith
ssl_write_some-IsHandled ssl_failed yielded offered h = ground arith
