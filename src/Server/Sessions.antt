-- ===== src/Server/Sessions.antt =====
-- src/server/serversession.h, class ServerSession: what a session does on events, on a timeout and
-- when it is woken. `m_ioYield` is its coroutine; what a call of it comes to is from outside.
pub mod Reactions
use Prim.Native.Nat.{bit_and}
use getodac.Common.{ℕ, ◌+◌, Bool, true, false, not, List, [], ◌∷◌, ◌==◌, if◌then◌else◌}

-- A call of the coroutine: it yields again, `ioLoop` of the stream returns and it ends, that throws
-- and it ends behind the catch clause of `ServerSession::ioLoop`, or an exception leaves it.
pub data Resumed : Type 0 where
  yields ends fails throws : Resumed

-- Whether `m_ioYield` can be called again, and whether `deleteLater(this)` has been called.
pub record Reaction : Type 0 where
  pub running : Bool
  pub deletes : Bool

-- `quitIoLoop`: `while (m_ioYield) m_ioYield(ec)`, whose exceptions are logged. The calls are
-- answered by the list; at its end the coroutine is still running.
unfoldable pub quit_io_loop : List Resumed → Bool → Reaction
quit_io_loop calls false = record { running = false; deletes = false }
quit_io_loop [] true = record { running = true; deletes = false }
quit_io_loop (yields ∷ calls) true = quit_io_loop calls true
quit_io_loop (ends ∷ calls) true = record { running = false; deletes = false }
quit_io_loop (fails ∷ calls) true = record { running = false; deletes = true }
quit_io_loop (throws ∷ calls) true = record { running = false; deletes = false }

-- `EPOLLERR | EPOLLRDHUP | EPOLLHUP`
abbrev pub error_events : ℕ
error_events = 8 + 8192 + 16

-- `EPOLLIN | EPOLLPRI | EPOLLOUT`
abbrev pub ready_events : ℕ
ready_events = 1 + 2 + 4

abbrev pub any_of : ℕ → ℕ → Bool
any_of events mask = not (bit_and events mask == 0)

-- `if (m_ioYield) m_ioYield({}); else m_eventLoop->deleteLater(this);` and the catch clauses; a coroutine
-- that fails has called `deleteLater(this)` itself.
unfoldable pub resume : Resumed → Bool → Reaction
resume call false = record { running = false; deletes = true }
resume throws true = record { running = false; deletes = true }
resume yields true = record { running = true; deletes = false }
resume fails true = record { running = false; deletes = true }
resume ends true = record { running = false; deletes = false }

unfoldable pub process_events : ℕ → List Resumed → Resumed → Bool → Reaction
unfolding quit_io_loop resume
process_events events calls call running =
    if any_of events error_events
    then record { running = (quit_io_loop calls running).running; deletes = true }
    else if any_of events ready_events
    then resume call running
    else record { running = running; deletes = true }

unfoldable pub timeout : List Resumed → Bool → Reaction
unfolding quit_io_loop
timeout calls running = record { running = (quit_io_loop calls running).running; deletes = true }

unfoldable pub wakeup : Resumed → Bool → Reaction
unfolding resume
wakeup call running = resume call running
