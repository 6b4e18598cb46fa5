-- ===== src/EventLoop/Timeout/Waiting.antt =====
-- The sessions that time out, and the wait.
use mathlib.Core.List.{append_assoc, append-nil, reverse-cons}
use getodac.Common.{
  ℕ, ◌+◌, ◌-◌, ◌≤◌, ◌<◌, ◌≡◌, ◌⊎◌, ◌∙◌, refl, sym, List, [], ◌∷◌, ◌++◌, reverse, Option, none, some,
  leb, ◌==◌, if◌then◌else◌, max, arith, All, Bool-cases, inl, inr,
}
use getodac.EventLoop.Timeout.{Found, shorter, visit_session, visit_sessions}

-- No wait is longer than the time to a deadline that is still to come.
abbrev pub WakesFor : ℕ → Option ℕ → ℕ × ℕ → Type 0
WakesFor now none (session, deadline) = deadline ≤ now
WakesFor now (some t) (session, deadline) = now < deadline → t ≤ max 1000 (deadline - now + 50)

-- The wait is one of those that the deadlines to come ask for.
abbrev pub AskedFor : ℕ → Option ℕ → List (ℕ × ℕ) → Type 0
AskedFor now none sessions = ⊥
AskedFor now (some t) [] = ⊥
AskedFor now (some t) ((session, deadline) ∷ sessions) =
    ((now < deadline) × (t ≡ max 1000 (deadline - now + 50))) ⊎ AskedFor now (some t) sessions

-- The sessions whose deadline has passed, last first.
abbrev pub expired : ℕ → List (ℕ × ℕ) → List ℕ
expired now [] = []
expired now ((session, deadline) ∷ sessions) =
    if deadline == 0
    then expired now sessions
    else if leb deadline now
    then session ∷ expired now sessions
    else expired now sessions

WakesFor-shorter :
    (now : ℕ) (t : Option ℕ) (next : ℕ) (x : ℕ × ℕ)
    → WakesFor now t x
    → WakesFor now (some (shorter t next)) x
unfolding shorter
WakesFor-shorter now none next (s, d) h = λ l. absurd (omega arith)
WakesFor-shorter now (some t) next (s, d) h = λ l. omega (arith, h l)

module _ (now : ℕ) where
  visit_session-timed_out :
      (session deadline : ℕ) (ss : List (ℕ × ℕ)) (found : Found)
      → reverse (expired now ss) ++ (visit_session now session deadline found).timed_out
        ≡ reverse (expired now ((session, deadline) ∷ ss)) ++ found.timed_out
  unfolding visit_session
  visit_session-timed_out session deadline ss found = elim (Bool-cases (deadline == 0)) [
    | inl unset ↦ rw unset refl
    | inr set ↦ elim (Bool-cases (leb deadline now)) [
      | inl late ↦
          rw (set, late)
            (rw reverse-cons
              (sym (append_assoc (reverse (expired now ss)) (session ∷ []) found.timed_out)))
      | inr early ↦ rw (set, early) refl
    ]
  ]

  visit_sessions-timed_out :
      (ss : List (ℕ × ℕ)) (found : Found)
      → (visit_sessions now ss found).timed_out ≡ reverse (expired now ss) ++ found.timed_out
  unfolding visit_sessions
  visit_sessions-timed_out [] found = refl
  visit_sessions-timed_out ((session, deadline) ∷ ss) found =
      visit_sessions-timed_out ss (visit_session now session deadline found)
      ∙ visit_session-timed_out session deadline ss found

  visit_session-keeps :
      (session deadline : ℕ) (found : Found) (x : ℕ × ℕ)
      → WakesFor now found.timeout x
      → WakesFor now (visit_session now session deadline found).timeout x
  unfolding visit_session
  visit_session-keeps session deadline found x h = elim (Bool-cases (deadline == 0)) [
    | inl unset ↦ rw unset h
    | inr set ↦ elim (Bool-cases (leb deadline now)) [
      | inl late ↦ rw (set, late) h
      | inr early ↦ rw (set, early) (WakesFor-shorter now found.timeout _ x h)
    ]
  ]

  WakesFor-late :
      (t : Option ℕ) (session deadline : ℕ) → deadline ≤ now → WakesFor now t (session, deadline)
  WakesFor-late none session deadline h = h
  WakesFor-late (some t) session deadline h = λ l. absurd (omega arith)

  shorter-le : (t : Option ℕ) (n : ℕ) → shorter t n ≤ n
  unfolding shorter
  shorter-le none n = omega arith
  shorter-le (some t) n = omega arith

  visit_session-wakes :
      (session deadline : ℕ) (found : Found)
      → WakesFor now (visit_session now session deadline found).timeout (session, deadline)
  unfolding visit_session
  visit_session-wakes session deadline found = elim (Bool-cases (deadline == 0)) [
    | inl unset ↦ rw unset (WakesFor-late found.timeout session deadline (ground arith))
    | inr set ↦ elim (Bool-cases (leb deadline now)) [
      | inl late ↦ rw (set, late) (WakesFor-late found.timeout session deadline (ground arith))
      | inr early ↦ rw (set, early) (λ l. shorter-le found.timeout _)
    ]
  ]

  visit_sessions-keeps :
      (ss : List (ℕ × ℕ)) (found : Found) (x : ℕ × ℕ)
      → WakesFor now found.timeout x
      → WakesFor now (visit_sessions now ss found).timeout x
  unfolding visit_sessions
  visit_sessions-keeps [] found x h = h
  visit_sessions-keeps ((session, deadline) ∷ ss) found x h =
      visit_sessions-keeps ss (visit_session now session deadline found) x
        (visit_session-keeps session deadline found x h)

  visit_sessions-wakes :
      (ss : List (ℕ × ℕ)) (found : Found)
      → All (WakesFor now (visit_sessions now ss found).timeout) ss
  unfolding visit_sessions
  visit_sessions-wakes [] found = tt
  visit_sessions-wakes ((session, deadline) ∷ ss) found =
      let found' = visit_session now session deadline found in
      (
        visit_sessions-keeps ss found' (session, deadline)
            (visit_session-wakes session deadline found),
        visit_sessions-wakes ss found',
      )

  visit_session-asked :
      (session deadline : ℕ) (found : Found) (t : ℕ)
      → (visit_session now session deadline found).timeout ≡ some t
      → (found.timeout ≡ some t) ⊎ ((now < deadline) × (t ≡ max 1000 (deadline - now + 50)))
  unfolding visit_session shorter
  visit_session-asked session deadline found t e = ground arith

  visit_sessions-asked :
      (ss : List (ℕ × ℕ)) (found : Found) (t : ℕ)
      → (visit_sessions now ss found).timeout ≡ some t
      → (found.timeout ≡ some t) ⊎ AskedFor now (some t) ss
  unfolding visit_sessions
  visit_sessions-asked [] found t e = inl e
  visit_sessions-asked ((session, deadline) ∷ ss) found t e =
      elim (visit_sessions-asked ss (visit_session now session deadline found) t e) [
        | inr later ↦ inr (inr later)
        | inl here ↦ elim (visit_session-asked session deadline found t here) [
          | inl before ↦ inl before
          | inr asked ↦ inr (inl asked)
        ]
      ]

  -- In each round exactly the sessions with a deadline that has passed time out, in order. Then
  -- the loop waits without a limit only if no deadline is to come; otherwise it waits no longer
  -- than until 50 ms behind the first one, or a second if that is more, and for no other time
  -- than one of those.
  pub visit_sessions_lem :
      (ss : List (ℕ × ℕ))
      → ((visit_sessions now ss (record { timeout = none; timed_out = [] })).timed_out
          ≡ reverse (expired now ss))
        × All
            (WakesFor now
              (visit_sessions now ss (record { timeout = none; timed_out = [] })).timeout)
            ss
        × ((t : ℕ)
            → (visit_sessions now ss (record { timeout = none; timed_out = [] })).timeout ≡ some t
            → AskedFor now (some t) ss)
  visit_sessions_lem ss =
      let start : Found = record { timeout = none; timed_out = [] } in
      (
        visit_sessions-timed_out ss start ∙ append-nil (reverse (expired now ss)),
        visit_sessions-wakes ss start,
        λ t e. elim (visit_sessions-asked ss start t e) [
          | inl never ↦ absurd (ground arith)
          | inr asked ↦ asked
        ],
      )
