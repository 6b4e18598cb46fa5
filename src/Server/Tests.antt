-- ===== src/Server/Tests.antt =====
-- The accept loop and the plugins at concrete values.
use getodac.Common.Bytes.{Bytes, codes, bytes_eq}
use getodac.Common.Maps.{find, assign, erase}
use getodac.Common.{
  length, ℕ, ◌<◌, ◌≡◌, ◌≢◌, true, false, ◌↔◌, refl, List, [], ◌∷◌, none, some, ◌==◌, if◌then◌else◌,
  ◌+◌, ◌*◌,
}
use getodac.Server.Service.{uptime_parts}
use getodac.Server.Service.Page.{uptime_parts_lem}
use getodac.Server.Connections.Counts.{count, IsCounted}
use getodac.Server.Connections.Counting.{behind, accept_session-IsCounted}
use getodac.Server.Connections.Reachable.{Reach, Step, System, started, unsettled, Reach-IsCounted}
use getodac.Server.Connections.{
  ServerState, Accepted, refused, serving, registered, base_throws, accept_session, connections,
  erase_active, release, server_session_created, count_connection, server_session_deleted,
  best_loop,
}
use getodac.Server.Sessions.Reactions.{process_events_iff}
use getodac.Server.Sessions.{
  yields, ends, fails, throws, timeout, quit_io_loop, wakeup, any_of, error_events, ready_events,
  process_events,
}
use getodac.Server.Plugins.{ServerPlugin, create_session}

program : Unit {0}
unfolding accept_session server_session_created count_connection server_session_deleted best_loop
    erase_active release find assign erase bytes_eq
program = tt

abbrev home : Bytes
home = codes "::1"

abbrev one_session : ServerState
one_session = record {
  active_sessions = (4, home) ∷ [];
  connections_per_ip = (home, 1) ∷ [];
  peak_sessions = 0;
}

abbrev two_sessions : ServerState
two_sessions = record {
  active_sessions = (9, home) ∷ (4, home) ∷ [];
  connections_per_ip = (home, 2) ∷ [];
  peak_sessions = 0;
}

-- With a limit of 1 the second session is served, the third refused.
tests :
    (accept_session 1 4 home registered started.server ≡ some (one_session, serving 0))
    × (accept_session 1 9 home registered one_session ≡ some (two_sessions, serving 1))
    × (accept_session 1 6 home registered two_sessions ≡ some (two_sessions, refused))
    × (server_session_deleted 9 home two_sessions ≡ some one_session)
    × (best_loop 3 (2 ∷ 5 ∷ 2 ∷ []) ≡ 1)
unfolding program
tests = (refl, refl, refl, refl, refl)

-- The accept loop counts and creates one session, then counts another one while the first one is
-- erased.
abbrev counted_one : System
counted_one = record started {
  server = count_connection home started.server;
  accepting = some home;
}

abbrev created_one : System
created_one = record counted_one {
  server = server_session_created 4 home counted_one.server;
  accepting = none;
}

abbrev counted_two : System
counted_two = record created_one {
  server = count_connection home created_one.server;
  accepting = some home;
}

abbrev erased_one : System
erased_one = record counted_two { server = erase_active 4 counted_two.server; ending = home ∷ [] }

erased_one-Reach : Reach 1 started erased_one
unfolding program
erased_one-Reach =
    Reach.next
      (Reach.next
        (Reach.next (Reach.next Reach.here (Step.counts home started refl refl))
          (Step.creates 4 home counted_one refl))
        (Step.counts home created_one refl refl))
      (Step.erases 4 home counted_two refl)

-- Two connections are counted, and no session is active.
erased_one_tests :
    (connections home erased_one.server ≡ 2)
    × (length erased_one.server.active_sessions ≡ 0)
    × (unsettled erased_one home ≡ 2)
unfolding program
erased_one_tests = (refl, refl, refl)

erased_one-IsCounted : IsCounted 1 (unsettled erased_one) erased_one.server
erased_one-IsCounted = Reach-IsCounted erased_one-Reach

Reach-IsCounted_example : IsCounted 1 (unsettled erased_one) erased_one.server
Reach-IsCounted_example = Reach-IsCounted erased_one-Reach

accept_session-IsCounted_example :
    (s' : ServerState) × (r : Accepted) × (accept_session 1 6 home base_throws erased_one.server
      ≡ some (s', r))
    × IsCounted 1 (behind r base_throws home (unsettled erased_one)) s'
    × ((r ≡ refused)
        ↔ (1 < count home erased_one.server.active_sessions + unsettled erased_one home))
    × ((n : ℕ)
        → r ≡ serving n
        → n ≡ count home erased_one.server.active_sessions + unsettled erased_one home)
accept_session-IsCounted_example =
    accept_session-IsCounted 1 6 home base_throws (unsettled erased_one) erased_one.server
      erased_one-IsCounted

-- Requests are numbers, sessions too.
abbrev only : ℕ → ℕ → ServerPlugin ℕ ℕ
only wanted n = record {
  create_session = λ request. if request == wanted then some n else none;
  order = n;
}

abbrev loaded : List (ServerPlugin ℕ ℕ)
loaded = only 7 30 ∷ only 7 20 ∷ only 8 10 ∷ []

-- A coroutine that yields once more and ends, one whose I/O loop throws, and one that is resumed
-- when its I/O loop throws.
reaction_tests :
    (timeout (yields ∷ ends ∷ []) true ≡ record { running = false; deletes = true })
    × (quit_io_loop (yields ∷ fails ∷ []) true ≡ record { running = false; deletes = true })
    × (quit_io_loop (ends ∷ []) true ≡ record { running = false; deletes = false })
    × (wakeup fails true ≡ record { running = false; deletes = true })
unfolding timeout quit_io_loop wakeup
reaction_tests = (refl, refl, refl, refl)

-- The socket is readable, and the coroutine yields again.
process_events_iff_example : ((process_events 1 [] yields true).deletes ≡ false) ↔ (
    (any_of 1 error_events ≡ false)
    × (any_of 1 ready_events ≡ true)
    × (true ≡ true)
    × (yields ≢ fails)
    × (yields ≢ throws))
process_events_iff_example = process_events_iff 1 [] yields true

uptime_parts_lem_example :
    let u = uptime_parts 200000 in
    (((u.days * 24 + u.hours) * 60 + u.minutes) * 60 + u.seconds ≡ 200000)
    × (u.hours < 24)
    × (u.minutes < 60)
    × (u.seconds < 60)
uptime_parts_lem_example = uptime_parts_lem 200000
