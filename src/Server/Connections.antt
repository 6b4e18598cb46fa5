-- ===== src/Server/Connections.antt =====
-- src/server/server.cpp, the accept loop of `exec`, `serverSessionCreated` and
-- `serverSessionDeleted`. Sessions are numbered; each keeps its peer's address.
pub mod Counts
pub mod Counting
pub mod Loops
pub mod Reachable
use getodac.Common.Bytes.{Bytes, bytes_eq}
use getodac.Common.Maps.{find, assign, erase}
use getodac.Common.{
  ℕ, zero, suc, ◌+◌, ◌-◌, Bool, true, false, List, [], ◌∷◌, Option, none, some, ltb, ◌==◌,
  if◌then◌else◌, length, max,
}

-- `m_activeSessions`, `m_connectionsPerIp` and `m_peakSessions`.
pub record ServerState : Type 0 where
  pub active_sessions : List (ℕ × Bytes)
  pub connections_per_ip : List (Bytes × ℕ)
  pub peak_sessions : ℕ

-- `m_connectionsPerIp[addr]`, read: an address that is not there counts 0.
abbrev pub at : Bytes → List (Bytes × ℕ) → ℕ
at addr conns = elim (find addr conns) [ none ↦ 0 | some n ↦ n ]

abbrev pub connections : Bytes → ServerState → ℕ
connections addr s = at addr s.connections_per_ip

unfoldable pub server_session_created : ℕ → Bytes → ServerState → ServerState
server_session_created session addr s = record s {
  active_sessions = (session, addr) ∷ s.active_sessions;
}

-- `m_activeSessions.erase(session)`
unfoldable pub erase_session : ℕ → List (ℕ × Bytes) → List (ℕ × Bytes)
erase_session session [] = []
erase_session session ((i, addr) ∷ sessions) =
    if i == session then sessions else (i, addr) ∷ erase_session session sessions

-- `if (--(it->second) == 0) m_connectionsPerIp.erase(it)`. `none` is the failed assertion.
unfoldable pub release_connection : Bytes → List (Bytes × ℕ) → Option (List (Bytes × ℕ))
release_connection addr conns = elim (find addr conns) [
  | none ↦ none
  | some n ↦ some (if n - 1 == 0 then erase addr conns else assign addr (n - 1) conns)
]

-- `serverSessionDeleted` up to the end of its first lock.
unfoldable pub erase_active : ℕ → ServerState → ServerState
unfolding erase_session
erase_active session s = record s { active_sessions = erase_session session s.active_sessions }

-- `serverSessionDeleted` under its second lock.
unfoldable pub release : Bytes → ServerState → Option ServerState
unfolding release_connection
release addr s = elim (release_connection addr s.connections_per_ip) [
  | none ↦ none
  | some conns ↦ some (record s { connections_per_ip = conns })
]

unfoldable pub server_session_deleted : ℕ → Bytes → ServerState → Option ServerState
unfolding erase_active release
server_session_deleted session addr s = release addr (erase_active session s)

-- How `(new ServerSession<...>(...))->initSession()` ends: the session is registered; `new` or the
-- constructor of its base throws, before the session is created for the server; its own
-- constructor throws, behind that of its base; or `registerSession` throws.
pub data Built : Type 0 where
  registered base_throws constructor_throws init_throws : Built

-- What becomes of the accepted socket.
pub data Accepted : Type 0 where
  refused : Accepted
  serving : (order : ℕ) → Accepted
  closed : (order : ℕ) → Accepted

-- `m_connectionsPerIp[addr]++`
unfoldable pub count_connection : Bytes → ServerState → ServerState
count_connection addr s = record s {
  connections_per_ip = assign addr (connections addr s + 1) s.connections_per_ip;
}

-- The `try` block, behind the count. An exception of the constructor runs the destructor of the
-- base, which takes the session out again; one of `initSession` leaves it in. One of `new` or of
-- the base leaves the count.
unfoldable pub build_session : ℕ → Bytes → ℕ → Built → ServerState → Option (ServerState × Accepted)
unfolding server_session_created server_session_deleted
build_session session addr order registered s =
    some (server_session_created session addr s, serving order)
build_session session addr order init_throws s =
    some (server_session_created session addr s, closed order)
build_session session addr order base_throws s = some (s, closed order)
build_session session addr order constructor_throws s =
    elim (server_session_deleted session addr (server_session_created session addr s)) [
      | none ↦ none
      | some s' ↦ some (s', closed order)
    ]

-- One round of the accept loop, from `addressText` on, while no session ends.
unfoldable pub accept_session :
    ℕ → ℕ → Bytes → Built → ServerState → Option (ServerState × Accepted)
unfolding build_session count_connection
accept_session max_per_ip session addr built s =
    if ltb max_per_ip (connections addr s)
    then some (s, refused)
    else build_session session addr (connections addr s) built (count_connection addr s)

-- `if (sessions > m_peakSessions) m_peakSessions = sessions`, in each round of the outer loop.
unfoldable pub update_peak : ServerState → ServerState
update_peak s =
    let sessions = length s.active_sessions in
    if ltb s.peak_sessions sessions then record s { peak_sessions = sessions } else s

-- The least used event loop: its position, from the numbers of active sessions.
unfoldable pub best_loop_from : ℕ → ℕ → ℕ → List ℕ → ℕ
best_loop_from best load i [] = best
best_loop_from best load i (l ∷ loops) =
    best_loop_from (if ltb l load then i else best) (if ltb l load then l else load) (i + 1) loops

unfoldable pub best_loop : ℕ → List ℕ → ℕ
unfolding best_loop_from
best_loop first loops = best_loop_from 0 first 1 loops
