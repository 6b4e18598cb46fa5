-- ===== src/Streams/Write/Vector.antt =====
-- The `write` loop over several buffers.
use mathlib.Core.List.{append-nil, append_assoc}
use getodac.Common.Bytes.{Bytes}
use getodac.Common.Int.{pos}
use getodac.Common.{
  ℕ, flat-append, suc, ◌+◌, ◌-◌, ◌≤◌, ◌<◌, ◌≡◌, ◌≢◌, ◌∙◌, refl, sym, ap, subst, true, false, List,
  [], ◌∷◌, ◌++◌, none, ltb, leb, ◌==◌, length, take, drop, flat, arith, leb→le, drop-append_le,
  drop-append_ge, take_of_length-le, take-append-drop, length-append, take-length_append,
  drop-length_append, Bool-cases, inl, inr,
}
use getodac.Streams.Write.Single.{sent-after, stops, idles, takes, is_bad, Verdict-cases}
use getodac.Streams.Write.{
  Answer, Round, sent, returned, after, idle, took, vector_verdict, round_verdict, skip_written,
  write_all,
}

-- Cut inside a buffer.
skip_written-inside :
    (all before : List Bytes) (p q : Bytes) (later : List Bytes)
    → q ≢ []
    → skip_written (length (flat before ++ p)) all (before ++ (p ++ q) ∷ later)
      ≡ (q ∷ later, length p)
unfolding skip_written
skip_written-inside all [] p [] later h = absurd (h refl)
skip_written-inside all [] p (c ∷ q) later h =
    let more : leb (length (p ++ c ∷ q)) (length p) ≡ false =
      ground (arith, length-append p (c ∷ q)) in
    rw (more, drop-length_append) refl
skip_written-inside all (b ∷ before) p q later h =
    let n = length (flat before ++ p) in
    let total : length ((b ++ flat before) ++ p) ≡ length b + n = omega (
      arith,
      length-append (b ++ flat before) p,
      length-append b (flat before),
      length-append (flat before) p,
    ) in
    let less : leb (length b) (length b + n) ≡ true = ground arith in
    let left : length b + n - length b ≡ n = omega arith in
    rw total (rw (less, left) (skip_written-inside all before p q later h))

-- Cut at the end.
skip_written-all : (all bs : List Bytes) → skip_written (length (flat bs)) all bs ≡ (all, 0)
unfolding skip_written
skip_written-all all [] = refl
skip_written-all all (b ∷ bs) =
    let n = length (flat bs) in
    let less : leb (length b) (length b + n) ≡ true = ground arith in
    let left : length b + n - length b ≡ n = omega arith in
    rw (length-append b (flat bs)) (rw (less, left) (skip_written-all all bs))

-- Either nothing of `written` is left, or what is left of the buffers is what has not been taken.
skip_written-drop :
    (n : ℕ) (all bs : List Bytes)
    → n ≤ length (flat bs)
    → ((skip_written n all bs).1 == 0) ≡ false
    → flat (skip_written n all bs).0 ≡ drop n (flat bs)
unfolding skip_written
skip_written-drop n all [] h k = absurd (ground arith)
skip_written-drop n all (b ∷ bs) h k = elim (Bool-cases (leb (length b) n)) [
  | inl less ↦ rw less (
      skip_written-drop (n - length b) all bs
        (omega (arith, leb→le (length b) n less, length-append b (flat bs)))
        (rw (less, skip_written) at k)
      ∙ sym (drop-append_ge n b (flat bs) (leb→le (length b) n less)))
  | inr more ↦ rw more (sym (drop-append_le n b (flat bs) (ground arith)))
]

vector-took :
    (r : Round) (offered n : ℕ)
    → round_verdict vector_verdict r offered ≡ took n
    → (0 < n) × (n ≤ offered)
unfolding vector_verdict
vector-took r offered n h = ground arith

-- Whatever the socket answers, it has taken a prefix of the buffers put together, nothing twice
-- and nothing out of order.
pub write_all-prefix :
    (rounds : List Round) (bs : List Bytes)
    → (rest : Bytes) × (sent (write_all rounds bs) ++ rest ≡ flat bs)
unfolding write_all sent
write_all-prefix [] bs = (flat bs, refl)
write_all-prefix (r ∷ rounds) bs =
    elim (Verdict-cases (round_verdict vector_verdict r (length (flat bs)))) [
      | stops e h ↦ (flat bs, rw (h, write_all) refl)
      | idles h ↦ let (rest, p) = write_all-prefix rounds bs in (rest, rw (h, write_all) p)
      | is_bad h ↦ (flat bs, rw (h, write_all) refl)
      | takes n h ↦ elim (Bool-cases ((skip_written n bs bs).1 == 0)) [
        | inl zero_left ↦
            (drop n (flat bs), rw (h, write_all) (rw zero_left (take-append-drop n (flat bs))))
        | inr some_left ↦
            let (rest, p) = write_all-prefix rounds (skip_written n bs bs).0 in
            let bound = (vector-took r (length (flat bs)) n h).1 in
            (
              rest,
              rw (h, write_all)
                  (rw some_left (
                    rw (sent-after (take n (flat bs)) (write_all rounds (skip_written n bs bs).0)) (
                      append_assoc (take n (flat bs)) _ rest
                      ∙ ap (λ t. take n (flat bs) ++ t)
                          (p ∙ skip_written-drop n bs bs bound some_left)
                      ∙ take-append-drop n (flat bs)))),
            )
      ]
    ]

took_verdict :
    (r : Round) (offered k : ℕ)
    → r.answer ≡ record { res = pos (suc k); ec = none }
    → suc k ≤ offered
    → round_verdict vector_verdict r offered ≡ took (suc k)
unfolding vector_verdict
took_verdict r offered k a h =
    let enough : ltb offered (suc k) ≡ false = ground arith in
    ap (λ (x : Answer). vector_verdict x.res x.ec r.yielded offered) a ∙ rw enough refl

idle_verdict :
    (r : Round) (offered : ℕ)
    → r.answer ≡ record { res = pos 0; ec = none }
    → r.yielded ≡ none
    → round_verdict vector_verdict r offered ≡ idle
unfolding vector_verdict
idle_verdict r offered a y =
    ap (λ (x : Answer). vector_verdict x.res x.ec r.yielded offered) a
    ∙ ap (λ y. vector_verdict (pos 0) none y offered) y

-- The answers of a socket that takes the buffers in pieces, each of which but the last ends
-- inside a buffer, with idle rounds between them.
pub data DrainsInside : List Round → List Bytes → Type 0 where
  last :
      {rounds : List Round} {bs : List Bytes} (r : Round) (k : ℕ)
      → r.answer ≡ record { res = pos (suc k); ec = none }
      → suc k ≡ length (flat bs)
      → DrainsInside (r ∷ rounds) bs
  wait :
      {rounds : List Round} {bs : List Bytes} (r : Round)
      → r.answer ≡ record { res = pos 0; ec = none }
      → r.yielded ≡ none
      → DrainsInside rounds bs
      → DrainsInside (r ∷ rounds) bs
  piece :
      {rounds : List Round} {bs : List Bytes} (r : Round) (k : ℕ) (before : List Bytes)
      (p q : Bytes) (later : List Bytes)
      → r.answer ≡ record { res = pos (suc k); ec = none }
      → bs ≡ before ++ (p ++ q) ∷ later
      → 0 < length p
      → q ≢ []
      → suc k ≡ length (flat before ++ p)
      → DrainsInside rounds (q ∷ later)
      → DrainsInside (r ∷ rounds) bs

flat-inside :
    (before : List Bytes) (p q : Bytes) (later : List Bytes)
    → flat (before ++ (p ++ q) ∷ later) ≡ (flat before ++ p) ++ flat (q ∷ later)
flat-inside before p q later = flat-append before ((p ++ q) ∷ later) ∙ simp append_assoc

module _ (r : Round) (rounds : List Round) (bs left : List Bytes) (n w : ℕ)
    (taken : round_verdict vector_verdict r (length (flat bs)) ≡ took n)
    (skipped : skip_written n bs bs ≡ (left, w)) where
  write_all-goes_on :
      (w == 0) ≡ false
      → write_all (r ∷ rounds) bs ≡ after (take n (flat bs)) (write_all rounds left)
  unfolding write_all
  write_all-goes_on h = rw (taken, write_all) (rw (skipped, h) refl)

  write_all-ends : (w == 0) ≡ true → write_all (r ∷ rounds) bs ≡ returned (take n (flat bs))
  unfolding write_all
  write_all-ends h = rw (taken, write_all) (rw (skipped, h) refl)

-- If no piece but the last ends at the end of a buffer, `write` returns when the socket has taken
-- all the buffers.
pub write_all-DrainsInside :
    {rounds : List Round} {bs : List Bytes}
    → DrainsInside rounds bs
    → write_all rounds bs ≡ returned (flat bs)
unfolding write_all
write_all-DrainsInside {bs} (last r k a e) =
    rw (took_verdict r (length (flat bs)) k a (omega arith), write_all)
      (rw e (
        rw (skip_written-all bs bs)
          (ap returned (take_of_length-le (length (flat bs)) (flat bs) (omega arith)))))
write_all-DrainsInside {bs} (wait r a y d) =
    rw (idle_verdict r (length (flat bs)) a y, write_all) (write_all-DrainsInside d)
write_all-DrainsInside {rounds = r ∷ rounds} {bs} (piece r' k before p q later a e full ne n d) =
    let all = before ++ (p ++ q) ∷ later in
    let taken = flat before ++ p in
    let text = flat-inside before p q later in
    let verdict =
      took_verdict r (length (flat all)) k a
        (rw (text, n) (omega (arith, length-append taken (flat (q ∷ later))))) in
    let skipped = skip_written-inside all before p q later ne in
    let some_left : (length p == 0) ≡ false = ground arith in
    let went_on =
      write_all-goes_on r rounds all (q ∷ later) (suc k) (length p) verdict (rw n skipped)
        some_left in
    subst (λ x. write_all (r ∷ rounds) x ≡ returned (flat x)) (sym e)
      (went_on
        ∙ rw (write_all-DrainsInside d) (
            ap returned (
              rw (text, n)
                (ap (λ s. s ++ flat (q ∷ later)) (take-length_append taken (flat (q ∷ later)))))))

-- If the socket takes exactly the first buffers, `write` returns as if it had taken them all:
-- what stands behind them is never sent.
pub write_all-boundary :
    (before : List Bytes) (b : Bytes) (later : List Bytes) (r : Round) (rounds : List Round) (k : ℕ)
    → r.answer ≡ record { res = pos (suc k); ec = none }
    → suc k ≡ length (flat before)
    → b ≢ []
    → write_all (r ∷ rounds) (before ++ b ∷ later) ≡ returned (flat before)
write_all-boundary before b later r rounds k a e full =
    let all = before ++ b ∷ later in
    let text = flat-append before (b ∷ later) in
    let verdict =
      took_verdict r (length (flat all)) k a
        (rw (text, e) (omega (arith, length-append (flat before) (flat (b ∷ later))))) in
    let skipped = skip_written-inside all before [] b later full in
    let at_end : skip_written (suc k) all all ≡ (b ∷ later, 0) = rw e (rw append-nil at skipped) in
    write_all-ends r rounds all (b ∷ later) (suc k) 0 verdict at_end refl
    ∙ ap returned (rw (text, e) (take-length_append (flat before) (flat (b ∷ later))))
