-- ===== src/ThreadWorker.antt =====
-- include/dracon/thread_worker.h. A task is a number. Each function is what a thread does between
-- two points at which others may go on: `m_quit` is tested and stored without the mutex of the
-- others, so each test of it is a step.
pub mod Reachable
pub mod Stopping
pub mod Joining
pub mod Taking
mod Tests
use getodac.Common.{
  ℕ, zero, suc, ◌&&◌, Bool, true, false, List, [], ◌∷◌, Option, none, some, ◌==◌, if◌then◌else◌,
}

-- Where a worker stands: at `while (!m_quit)`, in front of the lock, behind it and in front of the
-- test of `wait`, behind that test when it has failed, asleep, woken and without the lock, behind
-- `wait`, behind `if (m_quit)` when that has failed, in a task, and at its end.
pub data Location : Type 0 where
  outside entering holding deciding sleeping woken ready taking finished : Location
  running : (task : ℕ) → Location

-- `lock` is the worker that has `m_lock`; `inserted` and `ran` keep the tasks that have come and
-- those that workers have got.
pub record Pool : Type 0 where
  pub quit : Bool
  pub pending : List ℕ
  pub lock : Option ℕ
  pub at : ℕ → Location
  pub inserted : List ℕ
  pub ran : List ℕ

unfoldable pub move : ℕ → Location → Pool → Pool
move i l p = record p { at = λ j. if j == i then l else p.at j }

unfoldable pub check_quit : ℕ → Pool → Pool
unfolding move
check_quit i p = move i (if p.quit then finished else entering) p

-- The lock of `nextTask`, and that of `wait` when it returns.
unfoldable pub take_lock : ℕ → Pool → Pool
unfolding move
take_lock i p = move i holding (record p { lock = some i })

-- The test of `wait`.
unfoldable pub test_wait : ℕ → Pool → Pool
unfolding move
test_wait i p =
    move i (if p.quit then ready else elim p.pending [ [] ↦ deciding | t ∷ ts ↦ ready ]) p

-- `if (m_quit) return {};`
unfoldable pub test_quit : ℕ → Pool → Pool
unfolding move
test_quit i p = if p.quit then move i outside (record p { lock = none }) else move i taking p

-- `top` and `pop`; without a task they are not defined, and the model stays.
unfoldable pub take_task : ℕ → Pool → Pool
unfolding move
take_task i p = elim p.pending [
  | [] ↦ p
  | t ∷ ts ↦ move i (running t) (record p { lock = none; pending = ts; ran = t ∷ p.ran })
]

unfoldable pub sleep : ℕ → Pool → Pool
unfolding move
sleep i p = move i sleeping (record p { lock = none })

unfoldable pub wake : Location → Location
wake sleeping = woken
wake l = l

-- `notify_one` wakes `i`, if a worker sleeps.
unfoldable pub notify_one : Option ℕ → Pool → Pool
unfolding move
notify_one none p = p
notify_one (some i) p = move i woken p

unfoldable pub notify_all : Pool → Pool
unfolding wake
notify_all p = record p { at = λ j. wake (p.at j) }

-- `insertTask`
unfoldable pub insert_task : ℕ → Option ℕ → Pool → Pool
unfolding notify_one
insert_task t i p = notify_one i (record p { pending = t ∷ p.pending; inserted = t ∷ p.inserted })

-- The first statement of the destructor.
unfoldable pub store_quit : Pool → Pool
store_quit p = record p { quit = true }

unfoldable pub is_finished : Location → Bool
is_finished finished = true
is_finished l = false

-- Whether `join` has returned for each of the first `n` workers.
unfoldable pub joined : ℕ → Pool → Bool
unfolding is_finished
joined zero p = true
joined (suc n) p = is_finished (p.at n) && joined n p
