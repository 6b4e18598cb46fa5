-- ===== src/Streams/Write/Single.antt =====
-- The `write` loop over one buffer.
use mathlib.Core.List.{append_assoc}
use getodac.Common.Bytes.{Bytes}
use getodac.Common.Int.{pos}
use getodac.Common.{
  ℕ, suc, ◌+◌, ◌≤◌, ◌≡◌, ◌≢◌, ◌∙◌, refl, ap, subst, false, List, [], ◌∷◌, ◌++◌, none, ltb, length,
  take, drop, arith, take-append-drop, length-drop,
}
use getodac.Streams.Write.{
  Answer, Round, Outcome, returned, threw, waiting, bad_answer, sent, after, Verdict, stop, idle,
  took, bad, single_verdict, round_verdict, write,
}

-- To split on a verdict and keep the equation.
pub data VerdictCases (v : Verdict) : Type 0 where
  stops : (e : ℕ) → v ≡ stop e → VerdictCases v
  idles : v ≡ idle → VerdictCases v
  takes : (n : ℕ) → v ≡ took n → VerdictCases v
  is_bad : v ≡ bad → VerdictCases v

pub Verdict-cases : (v : Verdict) → VerdictCases v
Verdict-cases (stop e) = VerdictCases.stops e refl
Verdict-cases idle = VerdictCases.idles refl
Verdict-cases (took n) = VerdictCases.takes n refl
Verdict-cases bad = VerdictCases.is_bad refl

-- `s` is what the socket has taken of the buffer; a loop that has returned left nothing.
pub record IsPrefix (o : Outcome) (buffer : Bytes) : Type 0 where
  pub rest : Bytes
  pub whole : sent o ++ rest ≡ buffer
  pub finished : (s : Bytes) → o ≡ returned s → rest ≡ []

pub sent-after : (s : Bytes) (o : Outcome) → sent (after s o) ≡ s ++ sent o
unfolding sent after
sent-after s (returned t) = refl
sent-after s (threw e t) = refl
sent-after s (waiting t) = refl
sent-after s (bad_answer t) = refl

after-returned :
    (s : Bytes) (o : Outcome) (t : Bytes) → after s o ≡ returned t → (u : Bytes) × (o ≡ returned u)
unfolding after
after-returned s (returned u) t h = (u, refl)
after-returned s (threw e u) t h = cc
after-returned s (waiting u) t h = cc
after-returned s (bad_answer u) t h = cc

pub IsPrefix-after :
    (s : Bytes) (o : Outcome) (buffer : Bytes)
    → IsPrefix o buffer
    → IsPrefix (after s o) (s ++ buffer)
IsPrefix-after s o buffer p = record {
  rest = p.rest;
  whole = rw (sent-after s o) (append_assoc s (sent o) p.rest ∙ ap (λ t. s ++ t) p.whole);
  finished = λ t h. let (u, e) = after-returned s o t h in p.finished u e;
}

-- Nothing is taken, and the loop has not returned.
pub IsPrefix-nil :
    (o : Outcome) (buffer : Bytes)
    → sent o ≡ []
    → ((s : Bytes) → o ≢ returned s)
    → IsPrefix o buffer
IsPrefix-nil o buffer e n = record {
  rest = buffer;
  whole = rw e refl;
  finished = λ s h. absurd (n s h);
}

pub threw-IsPrefix : (e : ℕ) (buffer : Bytes) → IsPrefix (threw e []) buffer
unfolding sent
threw-IsPrefix e buffer = IsPrefix-nil (threw e []) buffer refl (λ s. cc)

pub waiting-IsPrefix : (buffer : Bytes) → IsPrefix (waiting []) buffer
unfolding sent
waiting-IsPrefix buffer = IsPrefix-nil (waiting []) buffer refl (λ s. cc)

pub bad_answer-IsPrefix : (buffer : Bytes) → IsPrefix (bad_answer []) buffer
unfolding sent
bad_answer-IsPrefix buffer = IsPrefix-nil (bad_answer []) buffer refl (λ s. cc)

-- Whatever the socket answers, in any order and in pieces of any size, it has taken a prefix of
-- the buffer, nothing twice and nothing out of order; and `write` returns only when it has taken
-- the whole buffer.
pub write-IsPrefix : (rounds : List Round) (buffer : Bytes) → IsPrefix (write rounds buffer) buffer
unfolding write sent
write-IsPrefix [] [] = record { rest = []; whole = refl; finished = λ s h. refl }
write-IsPrefix (r ∷ rounds) [] = record { rest = []; whole = refl; finished = λ s h. refl }
write-IsPrefix [] (c ∷ buffer) = waiting-IsPrefix (c ∷ buffer)
write-IsPrefix (r ∷ rounds) (c ∷ buffer) =
    elim (Verdict-cases (round_verdict single_verdict r (length (c ∷ buffer)))) [
      | stops e h ↦ rw (h, write) (threw-IsPrefix e (c ∷ buffer))
      | idles h ↦ rw (h, write) (write-IsPrefix rounds (c ∷ buffer))
      | takes n h ↦
          let p = write-IsPrefix rounds (drop n (c ∷ buffer)) in
          rw (h, write)
            (subst (IsPrefix _) (take-append-drop n (c ∷ buffer))
              (IsPrefix-after (take n (c ∷ buffer)) _ _ p))
      | is_bad h ↦ rw (h, write) (bad_answer-IsPrefix (c ∷ buffer))
    ]

single-idle :
    (r : Round) (offered : ℕ)
    → r.answer ≡ record { res = pos 0; ec = none }
    → r.yielded ≡ none
    → round_verdict single_verdict r offered ≡ idle
unfolding single_verdict
single-idle r offered a y =
    ap (λ (x : Answer). single_verdict x.res x.ec r.yielded offered) a
    ∙ ap (λ y. single_verdict (pos 0) none y offered) y

single-took :
    (r : Round) (offered k : ℕ)
    → r.answer ≡ record { res = pos (suc k); ec = none }
    → suc k ≤ offered
    → round_verdict single_verdict r offered ≡ took (suc k)
unfolding single_verdict
single-took r offered k a h =
    let enough : ltb offered (suc k) ≡ false = ground arith in
    ap (λ (x : Answer). single_verdict x.res x.ec r.yielded offered) a ∙ rw enough refl

-- The answers of a socket that takes `n` bytes in all, in pieces, with idle rounds between them.
pub data Drains : List Round → ℕ → Type 0 where
  done : (rounds : List Round) → Drains rounds 0
  wait :
      {rounds : List Round} {n : ℕ} (r : Round)
      → r.answer ≡ record { res = pos 0; ec = none }
      → r.yielded ≡ none
      → Drains rounds n
      → Drains (r ∷ rounds) n
  piece :
      {rounds : List Round} {m : ℕ} (r : Round) (n k : ℕ)
      → r.answer ≡ record { res = pos (suc k); ec = none }
      → n ≡ suc k + m
      → Drains rounds m
      → Drains (r ∷ rounds) n

-- If the socket goes on taking bytes until it has as many as the buffer holds, `write` returns,
-- and it has taken the buffer, however it cut it.
pub write-Drains :
    {rounds : List Round} {n : ℕ} (buffer : Bytes)
    → n ≡ length buffer
    → Drains rounds n
    → write rounds buffer ≡ returned buffer
unfolding write
write-Drains [] e d = refl
write-Drains (c ∷ buffer) e (done rounds) = absurd (omega arith)
write-Drains (c ∷ buffer) e (wait r a y d) =
    rw (single-idle r (length (c ∷ buffer)) a y, write) (write-Drains (c ∷ buffer) e d)
write-Drains (c ∷ buffer) e (piece r n k a same d) =
    let taken = single-took r (length (c ∷ buffer)) k a (omega arith) in
    let tail = drop (suc k) (c ∷ buffer) in
    let ih = write-Drains tail (omega (arith, length-drop (suc k) (c ∷ buffer))) d in
    rw (taken, write) (rw ih (ap returned (take-append-drop (suc k) (c ∷ buffer))))
