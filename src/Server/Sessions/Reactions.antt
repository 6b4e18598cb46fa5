-- ===== src/Server/Sessions/Reactions.antt =====
-- When a session is kept.
use getodac.Common.{ℕ, ◌≡◌, ◌≢◌, ◌↔◌, refl, Bool, true, false, List, arith, Bool-cases, inl, inr}
use getodac.Server.Sessions.{
  Resumed, yields, ends, fails, throws, error_events, ready_events, any_of, resume, process_events,
}

resume_iff :
    (call : Resumed) (running : Bool)
    → ((resume call running).deletes ≡ false)
      ↔ ((running ≡ true) × (call ≢ fails) × (call ≢ throws))
unfolding resume
resume_iff call false = (ground arith, ground arith)
resume_iff yields true = (ground arith, ground arith)
resume_iff ends true = (ground arith, ground arith)
resume_iff fails true = (ground arith, ground arith)
resume_iff throws true = (ground arith, ground arith)

-- Events keep a session exactly if they hold no error and no hang-up, its socket is ready, its
-- coroutine could be resumed, the I/O loop has not thrown then, and no exception has left the
-- coroutine. In every other case the session asks to be deleted.
pub process_events_iff :
    (events : ℕ) (calls : List Resumed) (call : Resumed) (running : Bool)
    → ((process_events events calls call running).deletes ≡ false) ↔ (
        (any_of events error_events ≡ false)
        × (any_of events ready_events ≡ true)
        × (running ≡ true)
        × (call ≢ fails)
        × (call ≢ throws))
unfolding process_events
process_events_iff events calls call running = elim (Bool-cases (any_of events error_events)) [
  | inl bad ↦ rw (bad, process_events) (ground arith, ground arith)
  | inr good ↦ elim (Bool-cases (any_of events ready_events)) [
    | inl ready ↦
        let (f, g) = resume_iff call running in
        rw (good, ready, process_events)
          ((λ e. let (r, k, c) = f e in (refl, refl, r, k, c)), λ h. g (h.2, h.3, h.4))
    | inr idle ↦ rw (good, idle, process_events) (ground arith, ground arith)
  ]
]
