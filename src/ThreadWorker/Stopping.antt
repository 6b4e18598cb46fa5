-- ===== src/ThreadWorker/Stopping.antt =====
-- What the destructor stops.
use getodac.Common.{
  ℕ, ◌≡◌, ◌≢◌, ◌∙◌, refl, sym, ap, Bool, true, false, List, [], ◌∷◌, Option, none, some, ◌==◌,
  if◌then◌else◌, arith, Bool-cases, inl, inr, ◌⊎◌,
}
use getodac.ThreadWorker.Reachable.{
  Works, checks, locks, tests, tests_quit, takes, sleeps, ends_task, Step, works, wakes, inserts,
  quits, notifies, Reach, here, next, IsAccounted, Step-IsAccounted, started, Reach-IsAccounted,
  is_owner, has_lock,
}
use getodac.ThreadWorker.{
  Location, outside, entering, holding, deciding, sleeping, woken, ready, taking, finished, running,
  Pool, move, check_quit, take_lock, test_wait, test_quit, take_task, sleep, wake, notify_all,
  insert_task, store_quit,
}

-- `m_quit` stays, no task is given to a worker, and no worker comes in front of `top`.
abbrev Keeps : Pool → Pool → Type 0
Keeps p q = (q.quit ≡ true) × (q.ran ≡ p.ran) × ((j : ℕ) → q.at j ≡ taking → p.at j ≡ taking)

-- A worker in front of `top` gets a task, and no other one is there.
abbrev Gives : Pool → Pool → Type 0
Gives p q =
    (q.quit ≡ true)
    × (i : ℕ) × (t : ℕ) × (p.at i ≡ taking)
    × (q.ran ≡ t ∷ p.ran)
    × ((j : ℕ) → q.at j ≢ taking)

move-Keeps : (i : ℕ) (l : Location) (p : Pool) → p.quit ≡ true → l ≢ taking → Keeps p (move i l p)
unfolding move
move-Keeps i l p quit other = (
  quit,
  refl,
  (λ j at. elim (Bool-cases (j == i)) [
    | inl same ↦ absurd (other (sym (rw (same, move) refl) ∙ at))
    | inr apart ↦ sym (rw (apart, move) refl) ∙ at
  ]),
)

-- Only one worker has the lock.
alone : (i j : ℕ) (p : Pool) → IsAccounted p → p.at i ≡ taking → p.at j ≡ taking → (j == i) ≡ true
alone i j p inv at at' =
    one p.lock (sym (inv.owned i) ∙ ap has_lock at) (sym (inv.owned j) ∙ ap has_lock at')
  where
    one : (k : Option ℕ) → is_owner i k ≡ true → is_owner j k ≡ true → (j == i) ≡ true
    one none h h' = absurd cc
    one (some k) h h' = ground arith

take_task-Gives :
    (i : ℕ) (p : Pool)
    → IsAccounted p
    → p.quit ≡ true
    → p.at i ≡ taking
    → Keeps p (take_task i p) ⊎ Gives p (take_task i p)
unfolding take_task move
take_task-Gives i p inv quit at = given p.pending
  where
    given :
        (ts : List ℕ)
        → let q : Pool = elim ts [
          | [] ↦ p
          | t ∷ us ↦ move i (running t) (record p { lock = none; pending = us; ran = t ∷ p.ran })
        ] in
          Keeps p q ⊎ Gives p q
    given [] = inl (quit, refl, (λ j h. h))
    given (t ∷ ts) = inr (
      quit,
      i,
      t,
      at,
      refl,
      (λ j there. elim (Bool-cases (j == i)) [
        | inl same ↦ let e : running t ≡ taking = sym (rw same refl) ∙ there in cc
        | inr apart ↦
            let e : p.at j ≡ taking = sym (rw apart refl) ∙ there in
            let same = alone i j p inv at e in ground arith
      ]),
    )

wake-taking : (l : Location) → wake l ≡ taking → l ≡ taking
unfolding wake
wake-taking outside h = absurd cc
wake-taking entering h = absurd cc
wake-taking holding h = absurd cc
wake-taking deciding h = absurd cc
wake-taking sleeping h = absurd cc
wake-taking woken h = absurd cc
wake-taking ready h = absurd cc
wake-taking taking h = refl
wake-taking finished h = absurd cc
wake-taking (running t) h = absurd cc

Works-Gives : {p q : Pool} → Works p q → IsAccounted p → p.quit ≡ true → Keeps p q ⊎ Gives p q
unfolding check_quit take_lock test_wait test_quit sleep
Works-Gives (checks i p at) inv h = inl (move-Keeps i _ p h (rw h (λ e. cc)))
Works-Gives (locks i p at free) inv h =
    inl (move-Keeps i holding (record p { lock = some i }) h (λ e. cc))
Works-Gives (tests i p at) inv h = inl (move-Keeps i _ p h (rw h (λ e. cc)))
Works-Gives (tests_quit i p at) inv h = inl (tested p.quit h)
  where
    tested :
        (b : Bool)
        → b ≡ true
        → Keeps p (if b then move i outside (record p { lock = none }) else move i taking p)
    tested true e = move-Keeps i outside (record p { lock = none }) h (λ e. cc)
    tested false e = absurd cc
Works-Gives (takes i p at) inv h = take_task-Gives i p inv h at
Works-Gives (sleeps i p at) inv h =
    inl (move-Keeps i sleeping (record p { lock = none }) h (λ e. cc))
Works-Gives (ends_task i t p at) inv h = inl (move-Keeps i outside p h (λ e. cc))

Step-Gives : {p q : Pool} → Step p q → IsAccounted p → p.quit ≡ true → Keeps p q ⊎ Gives p q
unfolding insert_task store_quit notify_all
Step-Gives (works w) inv h = Works-Gives w inv h
Step-Gives (wakes i p at) inv h = inl (move-Keeps i woken p h (λ e. cc))
Step-Gives (inserts t none p free w) inv h = inl (h, refl, (λ j at. at))
Step-Gives (inserts t (some i) p free w) inv h = inl (
    move-Keeps i woken (record p { pending = t ∷ p.pending; inserted = t ∷ p.inserted }) h
      (λ e. cc))
Step-Gives (quits p) inv h = inl (refl, refl, (λ j at. at))
Step-Gives (notifies p k) inv h = inl (h, refl, (λ j at. wake-taking (p.at j) at))

in_turn : (p q r : Pool) → Keeps p q ⊎ Gives p q → Keeps q r ⊎ Gives q r → Keeps p r ⊎ Gives p r
in_turn p q r (inl (h, ran, there)) (inl (h', ran', there')) =
    inl (h', ran' ∙ ran, (λ j at. there j (there' j at)))
in_turn p q r (inl (h, ran, there)) (inr (h', i, t, at, ran', none_there)) =
    inr (h', i, t, there i at, ran' ∙ ap (λ s. t ∷ s) ran, none_there)
in_turn p q r (inr (h, i, t, at, ran, none_there)) (inl (h', ran', there')) =
    inr (h', i, t, at, ran' ∙ ran, (λ j at'. none_there j (there' j at')))
in_turn p q r (inr (h, i, t, at, ran, none_there)) (inr (h', i', t', at', ran', none_there')) =
    absurd (none_there i' at')

has_quit : (p q : Pool) → Keeps p q ⊎ Gives p q → q.quit ≡ true
has_quit p q (inl k) = k.0
has_quit p q (inr g) = g.0

Reach-Gives :
    {p q : Pool}
    → IsAccounted p
    → p.quit ≡ true
    → Reach p q
    → IsAccounted q × (Keeps p q ⊎ Gives p q)
Reach-Gives inv h here = (inv, inl (h, refl, (λ j at. at)))
Reach-Gives {p} inv h (next {q} {r} reach step) =
    let (inv', before) = Reach-Gives inv h reach in
    (Step-IsAccounted step inv', in_turn p q r before (Step-Gives step inv' (has_quit p q before)))

-- When the destructor has stored `m_quit`, in a state that the workers reach, the tasks that are
-- given to workers afterwards are none, or one, to a worker that has been between its test of
-- `m_quit` and `top`: no other task that is pending then, or that comes, is ever run.
pub Reach-Stops :
    {p q : Pool}
    → Reach started p
    → p.quit ≡ true
    → Reach p q
    → (q.ran ≡ p.ran) ⊎ ((i : ℕ) × (t : ℕ) × (p.at i ≡ taking) × (q.ran ≡ t ∷ p.ran))
Reach-Stops begun h reach = elim (Reach-Gives (Reach-IsAccounted begun) h reach).1 [
  | inl (_, ran, _) ↦ inl ran
  | inr (_, i, t, at, ran, _) ↦ inr (i, t, at, ran)
]
