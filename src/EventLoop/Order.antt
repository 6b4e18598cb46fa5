-- ===== src/EventLoop/Order.antt =====
-- src/server/sessionseventloop.cpp, `loop` with workload balancing: the events of a round, sorted
-- by the order of their sessions.
pub mod Sorting
use getodac.Common.{ℕ, List, [], ◌∷◌, ltb, if◌then◌else◌}

-- A session's order, the session, and its epoll events.
pub record Event : Type 0 where
  pub order : ℕ
  pub session : ℕ
  pub events : ℕ

-- `sessionEvents.insert(std::upper_bound(...), ev)`: in front of the first event with a greater
-- order.
unfoldable pub insert_event : Event → List Event → List Event
insert_event ev [] = ev ∷ []
insert_event ev (e ∷ es) = if ltb ev.order e.order then ev ∷ e ∷ es else e ∷ insert_event ev es

-- The loop over the triggered events. The wake-ups of the event descriptor are not
-- among them.
unfoldable pub order_events : List Event → List Event → List Event
unfolding insert_event
order_events session_events [] = session_events
order_events session_events (ev ∷ evs) = order_events (insert_event ev session_events) evs
