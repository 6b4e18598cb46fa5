-- ===== src/ThreadWorker/Joining.antt =====
-- When the destructor waits for ever.
use getodac.Common.{
  ℕ, zero, suc, ◌<◌, ◌≡◌, ◌≢◌, ◌∙◌, refl, sym, ap, Bool, true, false, List, [], ◌∷◌, none, some,
  ◌==◌, if◌then◌else◌, arith, Bool-cases, inl, inr,
}
use getodac.ThreadWorker.Reachable.{
  Works, checks, locks, tests, tests_quit, takes, sleeps, ends_task, works, quits, notifies, Reach,
  here, next,
}
use getodac.ThreadWorker.{
  Location, outside, entering, holding, deciding, sleeping, woken, ready, taking, running, Pool,
  move, check_quit, take_lock, test_wait, test_quit, take_task, sleep, wake, notify_all, store_quit,
  is_finished, joined,
}

-- The steps of workers, without a call of `insertTask`, and without a wait that returns without a
-- notification.
pub data WorkReach (p : Pool) : Pool → Type 0 where
  begun : WorkReach p p
  goes_on : {q r : Pool} → WorkReach p q → Works q r → WorkReach p r

-- `m_quit` is set, and the worker sleeps.
abbrev SleepsOn : ℕ → Pool → Type 0
SleepsOn i p = (p.quit ≡ true) × (p.at i ≡ sleeping)

-- What another worker does.
move-SleepsOn :
    (i j : ℕ) (l l' : Location) (p : Pool)
    → SleepsOn i p
    → p.at j ≡ l
    → l ≢ sleeping
    → SleepsOn i (move j l' p)
unfolding move
move-SleepsOn i j l l' p (quit, asleep) at awake = (
  quit,
  elim (Bool-cases (i == j)) [
    | inl same ↦ let e : i ≡ j = ground arith in absurd (awake (sym at ∙ ap p.at (sym e) ∙ asleep))
    | inr apart ↦ rw (apart, move) asleep
  ],
)

take_task-SleepsOn :
    (i j : ℕ) (p : Pool) → SleepsOn i p → p.at j ≡ taking → SleepsOn i (take_task j p)
unfolding take_task
take_task-SleepsOn i j p s at = given p.pending
  where
    given :
        (ts : List ℕ)
        → SleepsOn i (elim ts [
          | [] ↦ p
          | t ∷ us ↦ move j (running t) (record p { lock = none; pending = us; ran = t ∷ p.ran })
        ])
    given [] = s
    given (t ∷ ts) =
        move-SleepsOn i j taking (running t)
          (record p { lock = none; pending = ts; ran = t ∷ p.ran }) s at (λ e. cc)

Works-SleepsOn : {p q : Pool} (i : ℕ) → Works p q → SleepsOn i p → SleepsOn i q
unfolding check_quit take_lock test_wait test_quit sleep
Works-SleepsOn i (checks j p at) s = move-SleepsOn i j outside _ p s at (λ e. cc)
Works-SleepsOn i (locks j p (inl at) free) s =
    move-SleepsOn i j entering holding (record p { lock = some j }) s at (λ e. cc)
Works-SleepsOn i (locks j p (inr at) free) s =
    move-SleepsOn i j woken holding (record p { lock = some j }) s at (λ e. cc)
Works-SleepsOn i (tests j p at) s = move-SleepsOn i j holding _ p s at (λ e. cc)
Works-SleepsOn i (tests_quit j p at) s = tested p.quit
  where
    tested :
        (b : Bool)
        → SleepsOn i (if b then move j outside (record p { lock = none }) else move j taking p)
    tested true = move-SleepsOn i j ready outside (record p { lock = none }) s at (λ e. cc)
    tested false = move-SleepsOn i j ready taking p s at (λ e. cc)
Works-SleepsOn i (takes j p at) s = take_task-SleepsOn i j p s at
Works-SleepsOn i (sleeps j p at) s =
    move-SleepsOn i j deciding sleeping (record p { lock = none }) s at (λ e. cc)
Works-SleepsOn i (ends_task j t p at) s = move-SleepsOn i j (running t) outside p s at (λ e. cc)

WorkReach-SleepsOn : {p q : Pool} (i : ℕ) → WorkReach p q → SleepsOn i p → SleepsOn i q
WorkReach-SleepsOn i begun s = s
WorkReach-SleepsOn i (goes_on reach w) s = Works-SleepsOn i w (WorkReach-SleepsOn i reach s)

joined-sleeping : (n i : ℕ) (p : Pool) → i < n → p.at i ≡ sleeping → joined n p ≡ false
unfolding joined is_finished
joined-sleeping zero i p lt at = absurd (omega (arith, lt))
joined-sleeping (suc n) i p lt at = elim (Bool-cases (i == n)) [
  | inl same ↦
      let e : i ≡ n = ground arith in
      let there : p.at n ≡ sleeping = ap p.at (sym e) ∙ at in rw (there, joined, is_finished) refl
  | inr apart ↦ let rest = joined-sleeping n i p (ground arith) at in ground (arith, rest)
]

-- The destructor stores `m_quit` and notifies without the mutex. If one of the `n` workers has
-- found no task in `wait` and does not sleep yet, it can go to sleep behind the notification.
-- Then, whatever the workers do, in any order, it sleeps on: as long as `insertTask` is not called
-- and no wait returns without a notification, the joins of the destructor do not all return.
pub deciding-never_joined :
    (n i : ℕ) (p r : Pool)
    → i < n
    → p.at i ≡ deciding
    → WorkReach (sleep i (notify_all (store_quit p))) r
    → Reach p (sleep i (notify_all (store_quit p)))
      × (r.quit ≡ true)
      × (r.at i ≡ sleeping)
      × (joined n r ≡ false)
unfolding notify_all store_quit sleep move wake
deciding-never_joined n i p r lt h reach =
    let told : Pool = notify_all (store_quit p) in
    let at : told.at i ≡ deciding = ap wake h in
    let asleep : (sleep i told).at i ≡ sleeping = ground arith in
    let (quit, on) = WorkReach-SleepsOn i reach (refl, asleep) in
    (
      next (next (next here (quits p)) (notifies (store_quit p) refl)) (works (sleeps i told at)),
      quit,
      on,
      joined-sleeping n i r lt on,
    )
