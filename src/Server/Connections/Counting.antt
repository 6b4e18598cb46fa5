-- ===== src/Server/Connections/Counting.antt =====
-- What a round of the accept loop makes of the counts.
use getodac.Common.Bytes.{Bytes}
use getodac.Common.{
  ℕ, ◌+◌, ◌≤◌, ◌<◌, ◌≡◌, ◌≢◌, ◌∙◌, ◌↔◌, refl, sym, subst, true, some, ltb, ◌==◌, arith, Bool-cases,
  ltb→lt, inl, inr,
}
use getodac.Server.Connections.{
  ServerState, connections, server_session_created, erase_active, release, server_session_deleted,
  Built, registered, base_throws, constructor_throws, init_throws, Accepted, refused, serving,
  closed, count_connection, build_session, accept_session,
}
use getodac.Server.Connections.Counts.{
  count, address_of, IsCounted, more, erase_active-IsCounted, release-IsCounted,
  count_connection-IsCounted, server_session_created-IsCounted,
}

created_address :
    (session : ℕ) (addr : Bytes) (s : ServerState)
    → address_of session (server_session_created session addr s).active_sessions ≡ some addr
unfolding server_session_created
created_address session addr s =
    let same : (session == session) ≡ true = ground arith in rw same refl

-- What is counted without a session behind a round that has not refused the socket.
abbrev pub lost : Built → Bytes → (Bytes → ℕ) → Bytes → ℕ
lost base_throws addr extra = more addr extra
lost _ addr extra = extra

abbrev pub behind : Accepted → Built → Bytes → (Bytes → ℕ) → Bytes → ℕ
behind refused built addr extra = extra
behind _ built addr extra = lost built addr extra

accepted-lost :
    (r : Accepted) (built : Built) (addr : Bytes) (extra : Bytes → ℕ)
    → r ≢ refused
    → behind r built addr extra ≡ lost built addr extra
accepted-lost refused built addr extra h = absurd (h refl)
accepted-lost (serving n) built addr extra h = refl
accepted-lost (closed n) built addr extra h = refl

deleted_released :
    (session : ℕ) (addr : Bytes) (s s' : ServerState)
    → release addr (erase_active session s) ≡ some s'
    → server_session_deleted session addr s ≡ some s'
unfolding server_session_deleted
deleted_released session addr s s' e = e

build_session-IsCounted :
    (max_per_ip session : ℕ) (addr : Bytes) (order : ℕ) (built : Built) (extra : Bytes → ℕ)
    (s : ServerState)
    → IsCounted max_per_ip (more addr extra) s
    → (s' : ServerState) × (r : Accepted) × (build_session session addr order built s
        ≡ some (s', r))
      × IsCounted max_per_ip (lost built addr extra) s'
      × (r ≢ refused)
      × ((n : ℕ) → r ≡ serving n → n ≡ order)
unfolding build_session
build_session-IsCounted max_per_ip session addr order registered extra s inv = (
  _,
  serving order,
  refl,
  server_session_created-IsCounted max_per_ip session addr extra s inv,
  cc,
  λ n e. ground arith,
)
build_session-IsCounted max_per_ip session addr order init_throws extra s inv = (
  _,
  closed order,
  refl,
  server_session_created-IsCounted max_per_ip session addr extra s inv,
  cc,
  λ n e. cc,
)
build_session-IsCounted max_per_ip session addr order base_throws extra s inv =
    (s, closed order, refl, inv, cc, λ n e. cc)
build_session-IsCounted max_per_ip session addr order constructor_throws extra s inv =
    let created = server_session_created session addr s in
    let erased =
      erase_active-IsCounted max_per_ip session addr extra created
        (server_session_created-IsCounted max_per_ip session addr extra s inv)
        (created_address session addr s) in
    let (s', released, inv', _) =
      release-IsCounted max_per_ip addr extra (erase_active session created) erased in
    let deleted : server_session_deleted session addr created ≡ some s' =
      deleted_released session addr created s' released in
    (s', closed order, rw (deleted, build_session) refl, inv', cc, λ n e. cc)

-- Where each address is counted as often as it has sessions and as it is counted without one, and
-- at most once more than the limit, one round of the accept loop, while no session ends, never
-- fails the assertion and keeps it so; an address is counted once more without a session exactly
-- if `new` or the constructor of the base throws behind the count. The round refuses the socket
-- exactly if its address is counted more often than the limit, so that an address may have one
-- session more than the limit; if the session is served, its order is the count before.
pub accept_session-IsCounted :
    (max_per_ip session : ℕ) (addr : Bytes) (built : Built) (extra : Bytes → ℕ) (s : ServerState)
    → IsCounted max_per_ip extra s
    → (s' : ServerState) × (r : Accepted) × (accept_session max_per_ip session addr built s
        ≡ some (s', r))
      × IsCounted max_per_ip (behind r built addr extra) s'
      × ((r ≡ refused) ↔ (max_per_ip < count addr s.active_sessions + extra addr))
      × ((n : ℕ) → r ≡ serving n → n ≡ count addr s.active_sessions + extra addr)
unfolding accept_session
accept_session-IsCounted max_per_ip session addr built extra s inv =
    elim (Bool-cases (ltb max_per_ip (connections addr s))) [
      | inl full ↦ (
        s,
        refused,
        rw full refl,
        inv,
        (
          λ e. omega (arith, inv.counted addr, ltb→lt max_per_ip (connections addr s) full),
          λ h. refl,
        ),
        λ n e. cc,
      )
      | inr room ↦
          let fits : connections addr s ≤ max_per_ip = ground arith in
          let (s', r, e, inv', kept, order) =
            build_session-IsCounted max_per_ip session addr (connections addr s) built extra
              (count_connection addr s)
              (count_connection-IsCounted max_per_ip addr extra s inv fits) in
          (
            s',
            r,
            rw room e,
            subst (λ f. IsCounted max_per_ip f s') (sym (accepted-lost r built addr extra kept))
                inv',
            (λ h. absurd (kept h), λ h. absurd (omega (arith, inv.counted addr, fits))),
            λ n h. order n h ∙ inv.counted addr,
          )
    ]
