-- ===== src/EventLoop/Sessions.antt =====
-- src/server/sessionseventloop.cpp: `registerSession`, `unregisterSession`, `deleteLater` and the
-- deletions at the end of a round. A session is a number, which stands for its address. What
-- `epoll_ctl` answers comes from outside: `none`, or an error number.
pub mod Deletions
use getodac.Common.Sets.{mem, insert, remove}
use getodac.Common.{
  ℕ, ◌+◌, ◌-◌, Bool, true, false, List, [], ◌∷◌, Option, none, some, if◌then◌else◌,
}

-- `m_sessions`, the sessions that epoll listens for, `m_activeSessions`, `m_deleteLaterObjects`,
-- and the sessions that have been deleted.
pub record Loop : Type 0 where
  pub sessions : List ℕ
  pub polled : List ℕ
  pub active : ℕ
  pub delete_later : List ℕ
  pub deleted : List ℕ

-- How a call ends.
pub data Ending : Type 0 where
  returns throws : Ending

-- `registerSession` up to the end of its lock.
unfoldable pub insert_session : ℕ → Loop → Loop
insert_session session l = record l { sessions = insert session l.sessions }

-- `epoll_ctl` with EPOLL_CTL_ADD, which throws if it fails.
unfoldable pub start_polling : ℕ → Option ℕ → Loop → Loop × Ending
start_polling session (some errno) l = (l, throws)
start_polling session none l = (record l { polled = session ∷ l.polled }, returns)

-- `++m_activeSessions`
unfoldable pub count_active : Loop × Ending → Loop × Ending
count_active (l, throws) = (l, throws)
count_active (l, returns) = (record l { active = l.active + 1 }, returns)

-- `registerSession`, when no other thread goes on between its three parts.
unfoldable pub register_session : ℕ → Option ℕ → Loop → Loop × Ending
unfolding insert_session start_polling count_active
register_session session answer l =
    count_active (start_polling session answer (insert_session session l))

-- `unregisterSession`, behind `m_sessions.erase`.
unfoldable pub stop_polling : ℕ → Option ℕ → Loop → Loop × Ending
stop_polling session (some errno) l = (l, throws)
stop_polling session none l =
    (record l { polled = remove session l.polled; active = l.active - 1 }, returns)

-- `if (!m_sessions.erase(session)) return;` and the rest.
unfoldable pub unregister_session : ℕ → Option ℕ → Loop → Loop × Ending
unfolding stop_polling
unregister_session session answer l = elim (mem session l.sessions) [
  | false ↦ (l, returns)
  | true ↦ stop_polling session answer (record l { sessions = remove session l.sessions })
]

-- `deleteLater`; it drops what `unregisterSession` throws.
unfoldable pub schedule_deletion : ℕ → Option ℕ → Loop → Loop
unfolding unregister_session
schedule_deletion session answer l =
    let l' = (unregister_session session answer l).0 in
    record l' { delete_later = insert session l'.delete_later }

-- What a destructor meets: whether its `ioLoop`, if it has not ended yet, throws when it is resumed,
-- and what `epoll_ctl` gives if it is called.
pub record Destruction : Type 0 where
  pub io_loop_throws : Bool
  pub answer : Option ℕ

-- `quitIoLoop` of a destructor at the end of a round. An `ioLoop` that throws calls `deleteLater`,
-- which waits for `m_deleteLaterMutex`; its own thread holds that: `none`.
unfoldable pub quit_session : Bool → Loop → Option Loop
quit_session io_loop_throws l = if io_loop_throws then none else some l

-- `~ServerSession` at the end of a round; it drops what `unregisterSession` throws.
unfoldable pub destroy : ℕ → Destruction → Loop → Option Loop
unfolding unregister_session quit_session
destroy session meets l = elim (quit_session meets.io_loop_throws l) [
  | none ↦ none
  | some quit ↦
      let l' = (unregister_session session meets.answer quit).0 in
      some (record l' { deleted = session ∷ l'.deleted })
]

unfoldable pub destroy_all : List ℕ → (ℕ → Destruction) → Loop → Option Loop
unfolding destroy
destroy_all [] meets l = some l
destroy_all (session ∷ rest) meets l = elim (destroy session (meets session) l) [
  | none ↦ none
  | some l' ↦ destroy_all rest meets l'
]

-- The end of a round: all pending sessions are deleted, with `m_deleteLaterMutex` held.
unfoldable pub delete_pending : (ℕ → Destruction) → Loop → Option Loop
unfolding destroy_all
delete_pending meets l = elim (destroy_all l.delete_later meets l) [
  | none ↦ none
  | some l' ↦ some (record l' { delete_later = [] })
]
