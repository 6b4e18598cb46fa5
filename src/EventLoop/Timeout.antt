-- ===== src/EventLoop/Timeout.antt =====
-- src/server/sessionseventloop.cpp, `loop`: the sessions that have timed out, and for how long
-- the next `epoll_wait` waits. Times are in milliseconds; the time point 0 stands for none.
pub mod Waiting
use getodac.Common.{
  ℕ, zero, suc, ◌+◌, ◌-◌, ◌≤◌, ◌<◌, ◌≡◌, ◌≢◌, ◌⊎◌, refl, true, false, List, [], ◌∷◌, Option, none,
  some, leb, ltb, ◌==◌, if◌then◌else◌, min, max, arith, All, Bool-cases, inl, inr,
}

-- What a round of the loop over the sessions has found: how long to wait, `none` for -1 ms, and
-- the sessions whose `timeout()` was called, last first.
pub record Found : Type 0 where
  pub timeout : Option ℕ
  pub timed_out : List ℕ

-- `timeout != -1ms ? std::min(timeout, next_timeout) : next_timeout`
unfoldable pub shorter : Option ℕ → ℕ → ℕ
shorter none next = next
shorter (some t) next = min t next

unfoldable pub visit_session : ℕ → ℕ → ℕ → Found → Found
unfolding shorter
visit_session now session deadline found =
    if deadline == 0
    then found
    else if leb deadline now
    then record found { timed_out = session ∷ found.timed_out }
    else record found { timeout = some (shorter found.timeout (max 1000 (deadline - now + 50))) }

-- The loop, over sessions with their `nextTimeout()`.
unfoldable pub visit_sessions : ℕ → List (ℕ × ℕ) → Found → Found
unfolding visit_session
visit_sessions now [] found = found
visit_sessions now ((session, deadline) ∷ sessions) found =
    visit_sessions now sessions (visit_session now session deadline found)
