-- ===== src/ThreadWorker/Tests.antt =====
-- A worker at concrete states.
use getodac.Common.{ℕ, ◌≡◌, ◌⊎◌, refl, true, false, [], ◌∷◌, none, inl, arith}
use getodac.ThreadWorker.Reachable.{
  works, checks, locks, tests, tests_quit, takes, quits, inserts, Reach, here, next, IsAccounted,
  started, Reach-IsAccounted,
}
use getodac.ThreadWorker.Stopping.{Reach-Stops}
use getodac.ThreadWorker.Joining.{begun, deciding-never_joined}
use getodac.ThreadWorker.{
  deciding, sleeping, taking, Pool, move, check_quit, take_lock, test_wait, test_quit, take_task,
  notify_one, insert_task, store_quit, notify_all, sleep, joined,
}

program : Unit {0}
unfolding check_quit take_lock test_wait test_quit take_task insert_task move notify_one store_quit
    notify_all sleep
program = tt

abbrev two_tasks : Pool
two_tasks = insert_task 8 none (insert_task 7 none started)

-- The worker has tested `m_quit`.
abbrev tested : Pool
tested = test_quit 0 (test_wait 0 (take_lock 0 (check_quit 0 two_tasks)))

-- The worker gets the task that was inserted last.
abbrev one_taken : Pool
one_taken = take_task 0 tested

order_test : one_taken.ran ≡ 8 ∷ []
unfolding program
order_test = refl

abbrev waited : Pool
waited = test_wait 0 (take_lock 0 (check_quit 0 two_tasks))

waited-Reach : Reach started waited
unfolding program
waited-Reach =
    next
      (next
        (next
          (next (next here (inserts 7 none started refl (λ j e. cc)))
            (inserts 8 none (insert_task 7 none started) refl (λ j e. cc)))
          (works (checks 0 two_tasks refl)))
        (works (locks 0 (check_quit 0 two_tasks) (inl refl) refl)))
      (works (tests 0 (take_lock 0 (check_quit 0 two_tasks)) refl))

tested-Reach : Reach started tested
unfolding program
tested-Reach = next waited-Reach (works (tests_quit 0 waited refl))

one_taken-Reach : Reach started one_taken
unfolding program
one_taken-Reach = next tested-Reach (works (takes 0 tested refl))

Reach-IsAccounted_example : IsAccounted one_taken
Reach-IsAccounted_example = Reach-IsAccounted one_taken-Reach

-- `m_quit` is stored behind the test of the worker, which gets a task nevertheless.
abbrev stopped : Pool
stopped = store_quit tested

stopped-Reach : Reach started stopped
stopped-Reach = next tested-Reach (quits tested)

stopped-quit : stopped.quit ≡ true
unfolding program
stopped-quit = refl

late-Reach : Reach stopped (take_task 0 stopped)
unfolding program
late-Reach = next here (works (takes 0 stopped refl))

late_test : (take_task 0 stopped).ran ≡ 8 ∷ []
unfolding program
late_test = refl

Reach-Stops_example :
    ((take_task 0 stopped).ran ≡ stopped.ran)
    ⊎ ((i : ℕ) × (t : ℕ) × (stopped.at i ≡ taking) × ((take_task 0 stopped).ran ≡ t ∷ stopped.ran))
Reach-Stops_example = Reach-Stops stopped-Reach stopped-quit late-Reach

abbrev nothing_found : Pool
nothing_found = test_wait 0 (take_lock 0 (check_quit 0 started))

nothing_found-deciding : nothing_found.at 0 ≡ deciding
unfolding program
nothing_found-deciding = refl

abbrev asleep : Pool
asleep = sleep 0 (notify_all (store_quit nothing_found))

deciding-never_joined_example :
    Reach nothing_found asleep
    × (asleep.quit ≡ true)
    × (asleep.at 0 ≡ sleeping)
    × (joined 1 asleep ≡ false)
deciding-never_joined_example =
    deciding-never_joined 1 0 nothing_found asleep (omega arith) nothing_found-deciding begun
