-- ===== src/EventLoop/Tests.antt =====
-- A round of the event loop at concrete values.
use mathlib.Core.List.{Perm}
use getodac.Common.{ℕ, ◌≡◌, true, false, refl, List, [], ◌∷◌, some, none, All, reverse}
use getodac.EventLoop.Order.Sorting.{IsSorted, of_order, order_events-IsSorted}
use getodac.EventLoop.Order.{Event, order_events}
use getodac.Common.Sets.{mem, insert, remove}
use getodac.EventLoop.Sessions.{
  Loop, register_session, unregister_session, stop_polling, schedule_deletion, destroy, destroy_all,
  delete_pending, throws, insert_session, start_polling, count_active, quit_session, Destruction,
}
use getodac.EventLoop.Timeout.Waiting.{WakesFor, AskedFor, expired, visit_sessions_lem}
use getodac.EventLoop.Timeout.{Found, visit_sessions}

program : Unit {0}
unfolding order_events visit_sessions
program = tt

lifetimes : Unit {0}
unfolding insert_session start_polling count_active quit_session register_session unregister_session
    stop_polling schedule_deletion destroy destroy_all delete_pending mem insert remove
lifetimes = tt

abbrev event : ℕ → ℕ → Event
event order session = record { order = order; session = session; events = 1 }

abbrev events : List Event
events = event 2 7 ∷ event 1 8 ∷ event 2 9 ∷ event 0 5 ∷ []

abbrev deadlines : List (ℕ × ℕ)
deadlines = (7, 0) ∷ (8, 900) ∷ (9, 5000) ∷ (5, 3000) ∷ []

abbrev no_round : Found
no_round = record { timeout = none; timed_out = [] }

tests :
    (order_events [] events ≡ event 0 5 ∷ event 1 8 ∷ event 2 7 ∷ event 2 9 ∷ [])
    × (visit_sessions 1000 deadlines no_round ≡ record { timeout = some 2050; timed_out = 8 ∷ [] })
unfolding program
tests = (refl, refl)

order_events-IsSorted_example :
    IsSorted (order_events [] events)
    × Perm (order_events [] events) events
    × ((n : ℕ) → of_order n (order_events [] events) ≡ of_order n events)
order_events-IsSorted_example = order_events-IsSorted events

visit_sessions_lem_example :
    ((visit_sessions 1000 deadlines no_round).timed_out ≡ reverse (expired 1000 deadlines))
    × All (WakesFor 1000 (visit_sessions 1000 deadlines no_round).timeout) deadlines
    × ((t : ℕ)
        → (visit_sessions 1000 deadlines no_round).timeout ≡ some t
        → AskedFor 1000 (some t) deadlines)
visit_sessions_lem_example = visit_sessions_lem 1000 deadlines

abbrev idle : Loop
idle = record { sessions = []; polled = []; active = 0; delete_later = []; deleted = [] }

abbrev well : ℕ → Destruction
well i = record { io_loop_throws = false; answer = none }

abbrev badly : ℕ → Destruction
badly i = record { io_loop_throws = true; answer = none }

-- Two sessions; the first asks twice to be deleted, and the round ends.
abbrev both : Loop
both = record {
  sessions = 4 ∷ 3 ∷ [];
  polled = 4 ∷ 3 ∷ [];
  active = 2;
  delete_later = [];
  deleted = [];
}

abbrev one_left : Loop
one_left = record {
  sessions = 4 ∷ [];
  polled = 4 ∷ [];
  active = 1;
  delete_later = 3 ∷ [];
  deleted = [];
}

abbrev rounded : Loop
rounded = record {
  sessions = 4 ∷ [];
  polled = 4 ∷ [];
  active = 1;
  delete_later = [];
  deleted = 3 ∷ [];
}

one_left_runs :
    ((register_session 4 none (register_session 3 none idle).0).0 ≡ both)
    × ((register_session 4 (some 28) idle).1 ≡ throws)
    × (schedule_deletion 3 none both ≡ one_left)
    × (schedule_deletion 3 (some 2) one_left ≡ one_left)
    × (delete_pending well one_left ≡ some rounded)
    × (delete_pending badly one_left ≡ none)
unfolding lifetimes
one_left_runs = (refl, refl, refl, refl, refl, refl)
