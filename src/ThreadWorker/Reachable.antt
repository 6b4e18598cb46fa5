-- ===== src/ThreadWorker/Reachable.antt =====
-- The states that the workers reach.
use getodac.Common.{
  ℕ, ◌+◌, ◌≡◌, ◌≢◌, ◌∙◌, refl, sym, ap, Bool, true, false, List, [], ◌∷◌, Option, none, some, ◌==◌,
  if◌then◌else◌, arith, Bool-cases, inl, inr, ◌⊎◌,
}
use getodac.ThreadWorker.{
  Location, outside, entering, holding, deciding, sleeping, woken, ready, taking, finished, running,
  Pool, move, check_quit, take_lock, test_wait, test_quit, take_task, sleep, wake, notify_one,
  notify_all, insert_task, store_quit,
}

-- A worker that has the lock.
abbrev pub has_lock : Location → Bool
has_lock holding = true
has_lock deciding = true
has_lock ready = true
has_lock taking = true
has_lock _ = false

-- `notify_one` wakes a worker that sleeps, and none only if none sleeps.
abbrev pub Wakes : Option ℕ → Pool → Type 0
Wakes none p = (j : ℕ) → p.at j ≢ sleeping
Wakes (some i) p = p.at i ≡ sleeping

-- What a worker does by itself.
pub data Works : Pool → Pool → Type 0 where
  checks : (i : ℕ) (p : Pool) → p.at i ≡ outside → Works p (check_quit i p)
  locks :
      (i : ℕ) (p : Pool)
      → p.at i ≡ entering ⊎ (p.at i ≡ woken)
      → p.lock ≡ none
      → Works p (take_lock i p)
  tests : (i : ℕ) (p : Pool) → p.at i ≡ holding → Works p (test_wait i p)
  tests_quit : (i : ℕ) (p : Pool) → p.at i ≡ ready → Works p (test_quit i p)
  takes : (i : ℕ) (p : Pool) → p.at i ≡ taking → Works p (take_task i p)
  sleeps : (i : ℕ) (p : Pool) → p.at i ≡ deciding → Works p (sleep i p)
  ends_task : (i t : ℕ) (p : Pool) → p.at i ≡ running t → Works p (move i outside p)

-- `wakes` is a wait that returns without a notification.
pub data Step : Pool → Pool → Type 0 where
  works : {p q : Pool} → Works p q → Step p q
  wakes : (i : ℕ) (p : Pool) → p.at i ≡ sleeping → Step p (move i woken p)
  inserts :
      (t : ℕ) (i : Option ℕ) (p : Pool) → p.lock ≡ none → Wakes i p → Step p (insert_task t i p)
  quits : (p : Pool) → Step p (store_quit p)
  notifies : (p : Pool) → p.quit ≡ true → Step p (notify_all p)

pub data Reach (p : Pool) : Pool → Type 0 where
  here : Reach p p
  next : {q r : Pool} → Reach p q → Step q r → Reach p r

abbrev pub count : ℕ → List ℕ → ℕ
count t [] = 0
count t (x ∷ xs) = (if x == t then 1 else 0) + count t xs

abbrev pub is_owner : ℕ → Option ℕ → Bool
is_owner j none = false
is_owner j (some i) = j == i

-- The lock is that of the one worker that has it, and every task that has come has been given to a
-- worker or is pending, each as often as it has come.
pub record IsAccounted (p : Pool) : Type 0 where
  pub owned : (j : ℕ) → has_lock (p.at j) ≡ is_owner j p.lock
  pub counted : (t : ℕ) → count t p.inserted ≡ count t p.ran + count t p.pending

-- What a move to a place makes of the lock.
has_lock-move :
    (i j : ℕ) (l : Location) (p : Pool)
    → has_lock ((move i l p).at j) ≡ (if j == i then has_lock l else has_lock (p.at j))
unfolding move
has_lock-move i j l p = elim (Bool-cases (j == i)) [
  | inl same ↦ rw (same, move) refl
  | inr other ↦ rw (other, move) refl
]

-- The tasks are not changed by a move.
move-IsAccounted :
    (i : ℕ) (l : Location) (p : Pool)
    → ((j : ℕ) → (if j == i then has_lock l else has_lock (p.at j)) ≡ is_owner j p.lock)
    → ((t : ℕ) → count t p.inserted ≡ count t p.ran + count t p.pending)
    → IsAccounted (move i l p)
unfolding move
move-IsAccounted i l p owned counted = record {
  owned = λ j. has_lock-move i j l p ∙ owned j;
  counted = counted;
}

-- A worker goes on and keeps the lock, or goes on without it.
move-same :
    (i : ℕ) (l l' : Location) (p : Pool)
    → IsAccounted p
    → p.at i ≡ l
    → has_lock l' ≡ has_lock l
    → IsAccounted (move i l' p)
move-same i l l' p inv at same_lock =
    move-IsAccounted i l' p
      (λ j. elim (Bool-cases (j == i)) [
        | inl same ↦
            let e : j ≡ i = ground arith in
            rw same (same_lock ∙ ap has_lock (sym (ap p.at e ∙ at)) ∙ inv.owned j)
        | inr other ↦ rw other (inv.owned j)
      ])
      inv.counted

-- The worker that has the lock gives it back.
move-release :
    (i : ℕ) (l l' : Location) (p : Pool) (ran pending : List ℕ)
    → IsAccounted p
    → p.at i ≡ l
    → has_lock l ≡ true
    → has_lock l' ≡ false
    → ((t : ℕ) → count t p.inserted ≡ count t ran + count t pending)
    → IsAccounted (move i l' (record p { lock = none; ran = ran; pending = pending }))
move-release i l l' p ran pending inv at before behind counted =
    move-IsAccounted i l' (record p { lock = none; ran = ran; pending = pending })
      (λ j. elim (Bool-cases (j == i)) [
        | inl same ↦ rw same behind
        | inr other ↦ rw other (inv.owned j ∙ alone j other)
      ])
      counted
  where
    mine : (k : Option ℕ) → true ≡ is_owner i k → (j : ℕ) → (j == i) ≡ false → is_owner j k ≡ false
    mine none h j other = refl
    mine (some k) h j other = ground arith

    alone : (j : ℕ) → (j == i) ≡ false → is_owner j p.lock ≡ false
    alone = mine p.lock (sym before ∙ ap has_lock (sym at) ∙ inv.owned i)

take_lock-IsAccounted :
    (i : ℕ) (p : Pool) → IsAccounted p → p.lock ≡ none → IsAccounted (take_lock i p)
unfolding take_lock
take_lock-IsAccounted i p inv free =
    move-IsAccounted i holding (record p { lock = some i })
      (λ j. elim (Bool-cases (j == i)) [
        | inl same ↦ rw same refl
        | inr other ↦ rw other (inv.owned j ∙ ap (is_owner j) free)
      ])
      inv.counted

test_wait-IsAccounted :
    (i : ℕ) (p : Pool) → IsAccounted p → p.at i ≡ holding → IsAccounted (test_wait i p)
unfolding test_wait
test_wait-IsAccounted i p inv at = move-same i holding _ p inv at (tested p.quit p.pending)
  where
    tested :
        (b : Bool) (ts : List ℕ)
        → has_lock (if b then ready else elim ts [ [] ↦ deciding | t ∷ us ↦ ready ]) ≡ true
    tested true ts = refl
    tested false [] = refl
    tested false (t ∷ ts) = refl

test_quit-IsAccounted :
    (i : ℕ) (p : Pool) → IsAccounted p → p.at i ≡ ready → IsAccounted (test_quit i p)
unfolding test_quit
test_quit-IsAccounted i p inv at = tested p.quit
  where
    tested :
        (b : Bool)
        → IsAccounted (if b then move i outside (record p { lock = none }) else move i taking p)
    tested true = move-release i ready outside p p.ran p.pending inv at refl refl inv.counted
    tested false = move-same i ready taking p inv at refl

take_task-IsAccounted :
    (i : ℕ) (p : Pool) → IsAccounted p → p.at i ≡ taking → IsAccounted (take_task i p)
unfolding take_task
take_task-IsAccounted i p inv at = given p.pending refl
  where
    given :
        (ts : List ℕ)
        → p.pending ≡ ts
        → IsAccounted (elim ts [
          | [] ↦ p
          | t ∷ us ↦ move i (running t) (record p { lock = none; pending = us; ran = t ∷ p.ran })
        ])
    given [] e = inv
    given (t ∷ ts) e =
        move-release i taking (running t) p (t ∷ p.ran) ts inv at refl refl (λ u.
          let all = inv.counted u ∙ ap (λ l. count u p.ran + count u l) e in omega (arith, all))

has_lock-wake : (l : Location) → has_lock (wake l) ≡ has_lock l
unfolding wake
has_lock-wake outside = refl
has_lock-wake entering = refl
has_lock-wake holding = refl
has_lock-wake deciding = refl
has_lock-wake ready = refl
has_lock-wake taking = refl
has_lock-wake sleeping = refl
has_lock-wake woken = refl
has_lock-wake finished = refl
has_lock-wake (running t) = refl

insert_task-IsAccounted :
    (t : ℕ) (i : Option ℕ) (p : Pool) → IsAccounted p → Wakes i p → IsAccounted (insert_task t i p)
unfolding insert_task notify_one
insert_task-IsAccounted t i p inv h = woken_up i h
  where
    more : IsAccounted (record p { pending = t ∷ p.pending; inserted = t ∷ p.inserted })
    more = record { owned = inv.owned; counted = λ u. omega (arith, inv.counted u) }

    woken_up : (i : Option ℕ) → Wakes i p → IsAccounted (insert_task t i p)
    woken_up none h = more
    woken_up (some i) h =
        move-same i sleeping woken (record p { pending = t ∷ p.pending; inserted = t ∷ p.inserted })
          more h refl

checked : (b : Bool) → has_lock (if b then finished else entering) ≡ has_lock outside
checked true = refl
checked false = refl

Works-IsAccounted : {p q : Pool} → Works p q → IsAccounted p → IsAccounted q
unfolding check_quit sleep
Works-IsAccounted (checks i p at) inv =
    move-same i outside (if p.quit then finished else entering) p inv at (checked p.quit)
Works-IsAccounted (locks i p at free) inv = take_lock-IsAccounted i p inv free
Works-IsAccounted (tests i p at) inv = test_wait-IsAccounted i p inv at
Works-IsAccounted (tests_quit i p at) inv = test_quit-IsAccounted i p inv at
Works-IsAccounted (takes i p at) inv = take_task-IsAccounted i p inv at
Works-IsAccounted (sleeps i p at) inv =
    move-release i deciding sleeping p p.ran p.pending inv at refl refl inv.counted
Works-IsAccounted (ends_task i t p at) inv = move-same i (running t) outside p inv at refl

pub Step-IsAccounted : {p q : Pool} → Step p q → IsAccounted p → IsAccounted q
unfolding notify_all store_quit
Step-IsAccounted (works w) inv = Works-IsAccounted w inv
Step-IsAccounted (wakes i p at) inv = move-same i sleeping woken p inv at refl
Step-IsAccounted (inserts t i p free h) inv = insert_task-IsAccounted t i p inv h
Step-IsAccounted (quits p) inv = record { owned = inv.owned; counted = inv.counted }
Step-IsAccounted (notifies p h) inv = record {
  owned = λ j. has_lock-wake (p.at j) ∙ inv.owned j;
  counted = inv.counted;
}

-- The workers in front of their loops.
abbrev pub started : Pool
started = record {
  quit = false;
  pending = [];
  lock = none;
  at = λ i. outside;
  inserted = [];
  ran = [];
}

-- In every state that the workers reach, however they and the clients take turns: the mutex is
-- that of the one worker that has taken it, and each task has been given to a worker or is pending
-- as often as it has been inserted, so none is lost and none runs twice.
pub Reach-IsAccounted : {p : Pool} → Reach started p → IsAccounted p
Reach-IsAccounted here = record { owned = λ j. refl; counted = λ t. refl }
Reach-IsAccounted (next reach step) = Step-IsAccounted step (Reach-IsAccounted reach)
