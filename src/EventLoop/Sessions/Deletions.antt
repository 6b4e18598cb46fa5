-- ===== src/EventLoop/Sessions/Deletions.antt =====
-- When the end of a round deletes the sessions that wait for it.
use getodac.Common.Sets.{mem, remove, mem-insert, mem-remove}
use getodac.Common.{
  subst, ◌==◌, Option, ℕ, ◌≡◌, refl, ap, true, false, List, [], ◌∷◌, arith, Bool-cases,
  Option-cases, inl, inr,
}
use getodac.EventLoop.Sessions.{
  Loop, stop_polling, unregister_session, schedule_deletion, Destruction,
}

-- A session that waits for its deletion is not registered.
abbrev pub AreUnregistered : Loop → Type 0
AreUnregistered l = (j : ℕ) → mem j l.delete_later ≡ true → mem j l.sessions ≡ false

-- The deleted sessions behind `destroy_all`, the last one first.
abbrev pub bury : List ℕ → List ℕ → List ℕ
bury [] dead = dead
bury (session ∷ rest) dead = bury rest (session ∷ dead)

-- A session whose `ioLoop` does not throw when the destructor resumes it.
abbrev pub EndsWell : (ℕ → Destruction) → ℕ → Type 0
EndsWell meets session = (meets session).io_loop_throws ≡ false

unregister_session-sessions :
    (session : ℕ) (answer : Option ℕ) (l : Loop)
    → (mem session (unregister_session session answer l).0.sessions ≡ false)
      × ((j : ℕ)
          → mem j l.sessions ≡ false
          → mem j (unregister_session session answer l).0.sessions ≡ false)
      × ((unregister_session session answer l).0.delete_later ≡ l.delete_later)
unfolding unregister_session stop_polling
unregister_session-sessions session answer l = elim (Bool-cases (mem session l.sessions)) [
  | inr absent ↦ rw (absent, unregister_session) (absent, (λ j h. h), refl)
  | inl there ↦ elim (Option-cases answer) [
    | inl removed ↦ rw (there, removed, unregister_session) (without, stays, refl)
    | inr (errno, kept) ↦ rw (there, kept, unregister_session) (without, stays, refl)
  ]
]
  where
    without : mem session (remove session l.sessions) ≡ false
    without = ground (arith, mem-remove session session l.sessions)

    stays : (j : ℕ) → mem j l.sessions ≡ false → mem j (remove session l.sessions) ≡ false
    stays j h = ground (arith, mem-remove j session l.sessions)

-- `deleteLater` leaves no session that waits for its deletion registered, whatever `epoll_ctl`
-- answers, if there was none before.
pub schedule_deletion-AreUnregistered :
    (session : ℕ) (answer : Option ℕ) (l : Loop)
    → AreUnregistered l
    → AreUnregistered (schedule_deletion session answer l)
unfolding schedule_deletion
schedule_deletion-AreUnregistered session answer l h j k =
    let l' = (unregister_session session answer l).0 in
    let (out, stays, same) = unregister_session-sessions session answer l in
    elim (Bool-cases (session == j)) [
      | inl mine ↦
          let e : session ≡ j = ground arith in subst (λ i. mem i l'.sessions ≡ false) e out
      | inr other ↦
          stays j (h j (ground (arith, mem-insert j session l'.delete_later, ap (mem j) same)))
    ]
