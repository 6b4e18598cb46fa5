-- ===== src/Server/Connections/Counts.antt =====
-- The counts of connections per address, by the scopes of the locks.
use getodac.Common.Bytes.{Bytes, bytes_eq, bytes_eq_iff, bytes_eq_refl}
use getodac.Common.Maps.{find, assign, erase, find-assign, find-erase}
use getodac.Common.{
  ℕ, suc, ◌+◌, ◌-◌, ◌≤◌, ◌<◌, ◌≡◌, ◌∙◌, refl, ap, List, [], ◌∷◌, Option, none, some, ◌==◌,
  if◌then◌else◌, arith, Bool-cases, Option-cases, inl, inr,
}
use getodac.Server.Connections.{
  ServerState, at, connections, server_session_created, erase_session, release_connection,
  erase_active, release, count_connection,
}

-- How many sessions have the address.
abbrev pub count : Bytes → List (ℕ × Bytes) → ℕ
count addr [] = 0
count addr ((i, a) ∷ sessions) =
    if bytes_eq a addr then suc (count addr sessions) else count addr sessions

-- The address of a session.
abbrev pub address_of : ℕ → List (ℕ × Bytes) → Option Bytes
address_of session [] = none
address_of session ((i, a) ∷ sessions) =
    if i == session then some a else address_of session sessions

-- Each address is counted as often as it has sessions, and as it is counted without a session;
-- and at most once more than the limit.
pub record IsCounted (max_per_ip : ℕ) (extra : Bytes → ℕ) (s : ServerState) : Type 0 where
  pub counted : (addr : Bytes) → connections addr s ≡ count addr s.active_sessions + extra addr
  pub bounded : (addr : Bytes) → connections addr s ≤ max_per_ip + 1

abbrev pub one : Bytes → Bytes → ℕ
one addr j = if bytes_eq addr j then 1 else 0

-- One more for an address.
abbrev pub more : Bytes → (Bytes → ℕ) → Bytes → ℕ
more addr extra j = extra j + one addr j

at-assign :
    (k j : Bytes) (n : ℕ) (conns : List (Bytes × ℕ))
    → at j (assign k n conns) ≡ (if bytes_eq k j then n else at j conns)
at-assign k j n conns = ground (arith, find-assign k j n conns)

at-erase :
    (k j : Bytes) (conns : List (Bytes × ℕ))
    → at j (erase k conns) ≡ (if bytes_eq k j then 0 else at j conns)
at-erase k j conns = ground (arith, find-erase k j conns)

-- Releasing a counted connection succeeds and takes one off.
release_connection-at :
    (addr : Bytes) (conns : List (Bytes × ℕ))
    → 0 < at addr conns
    → (conns' : List (Bytes × ℕ)) × (release_connection addr conns ≡ some conns')
      × ((j : Bytes) → at j conns' ≡ (if bytes_eq addr j then at addr conns - 1 else at j conns))
unfolding release_connection
release_connection-at addr conns h = elim (Option-cases (find addr conns)) [
  | inl missing ↦ absurd (ground arith)
  | inr (n, found) ↦ elim (Bool-cases (n - 1 == 0)) [
    | inl last ↦ (
      erase addr conns,
      rw (found, release_connection) (rw last refl),
      λ j. at-erase addr j conns ∙ ground arith,
    )
    | inr more ↦ (
      assign addr (n - 1) conns,
      rw (found, release_connection) (rw more refl),
      λ j. at-assign addr j (n - 1) conns ∙ ground arith,
    )
  ]
]

count-erase_session :
    (session : ℕ) (addr j : Bytes) (sessions : List (ℕ × Bytes))
    → address_of session sessions ≡ some addr
    → count j sessions
      ≡ count j (erase_session session sessions) + (if bytes_eq addr j then 1 else 0)
unfolding erase_session
count-erase_session session addr j [] h = absurd (ground arith)
count-erase_session session addr j ((i, a) ∷ sessions) h = elim (Bool-cases (i == session)) [
  | inl same ↦
      let e : a ≡ addr = ground arith in
      rw same (
        rw e (elim (Bool-cases (bytes_eq addr j)) [
          | inl eq ↦ rw eq (omega arith)
          | inr ne ↦ rw ne (omega arith)
        ]))
  | inr other ↦
      let ih = count-erase_session session addr j sessions (ground arith) in
      rw other
        (elim (Bool-cases (bytes_eq a j)) [ inl eq ↦ rw eq (omega arith) | inr ne ↦ rw ne ih ])
]

pub erase_active-IsCounted :
    (max_per_ip session : ℕ) (addr : Bytes) (extra : Bytes → ℕ) (s : ServerState)
    → IsCounted max_per_ip extra s
    → address_of session s.active_sessions ≡ some addr
    → IsCounted max_per_ip (more addr extra) (erase_active session s)
unfolding erase_active
erase_active-IsCounted max_per_ip session addr extra s inv live = record {
  counted =
      λ j. omega (arith, inv.counted j, count-erase_session session addr j s.active_sessions live);
  bounded = inv.bounded;
}

-- The assertion of `serverSessionDeleted` holds.
pub release-IsCounted :
    (max_per_ip : ℕ) (addr : Bytes) (extra : Bytes → ℕ) (s : ServerState)
    → IsCounted max_per_ip (more addr extra) s
    → (s' : ServerState) × (release addr s ≡ some s')
      × IsCounted max_per_ip extra s'
      × (s'.active_sessions ≡ s.active_sessions)
unfolding release
release-IsCounted max_per_ip addr extra s inv =
    let mine = rw (bytes_eq_refl addr) at (inv.counted addr) in
    let some_left : 0 < at addr s.connections_per_ip = omega (arith, mine) in
    let (conns, released, counts) = release_connection-at addr s.connections_per_ip some_left in
    (
      record s { connections_per_ip = conns },
      rw (released, release) refl,
      record { counted = λ j. counts j ∙ recount j; bounded = λ j. fits j (at j conns) (counts j) },
      refl,
    )
  where
    recount :
        (j : Bytes)
        → (if bytes_eq addr j then at addr s.connections_per_ip - 1 else at j s.connections_per_ip)
          ≡ count j s.active_sessions + extra j
    recount j = elim (Bool-cases (bytes_eq addr j)) [
      | inl eq ↦
          let same = ap (λ a. connections a s) ((bytes_eq_iff addr j).0 eq) in
          rw eq (omega (arith, same, rw eq at (inv.counted j)))
      | inr ne ↦ rw ne (omega (arith, rw ne at (inv.counted j)))
    ]

    fits :
        (j : Bytes) (n : ℕ)
        → n ≡ (
            if bytes_eq addr j then at addr s.connections_per_ip - 1 else at j s.connections_per_ip)
        → n ≤ max_per_ip + 1
    fits j n e = elim (Bool-cases (bytes_eq addr j)) [
      | inl eq ↦ omega (arith, rw eq at e, inv.bounded addr)
      | inr ne ↦ omega (arith, rw ne at e, inv.bounded j)
    ]

pub count_connection-IsCounted :
    (max_per_ip : ℕ) (addr : Bytes) (extra : Bytes → ℕ) (s : ServerState)
    → IsCounted max_per_ip extra s
    → connections addr s ≤ max_per_ip
    → IsCounted max_per_ip (more addr extra) (count_connection addr s)
unfolding count_connection
count_connection-IsCounted max_per_ip addr extra s inv room = record {
  counted = λ j. at-assign addr j (connections addr s + 1) s.connections_per_ip ∙ recount j;
  bounded = λ j. fits j _ (at-assign addr j (connections addr s + 1) s.connections_per_ip);
}
  where
    recount :
        (j : Bytes)
        → (if bytes_eq addr j then connections addr s + 1 else connections j s)
          ≡ count j s.active_sessions + more addr extra j
    recount j = elim (Bool-cases (bytes_eq addr j)) [
      | inl eq ↦
          let same = ap (λ a. connections a s) ((bytes_eq_iff addr j).0 eq) in
          rw eq (omega (arith, same, inv.counted j))
      | inr ne ↦ rw ne (omega (arith, inv.counted j))
    ]

    fits :
        (j : Bytes) (n : ℕ)
        → n ≡ (if bytes_eq addr j then connections addr s + 1 else connections j s)
        → n ≤ max_per_ip + 1
    fits j n e = elim (Bool-cases (bytes_eq addr j)) [
      | inl eq ↦ omega (arith, rw eq at e, room)
      | inr ne ↦ omega (arith, rw ne at e, inv.bounded j)
    ]

pub server_session_created-IsCounted :
    (max_per_ip session : ℕ) (addr : Bytes) (extra : Bytes → ℕ) (s : ServerState)
    → IsCounted max_per_ip (more addr extra) s
    → IsCounted max_per_ip extra (server_session_created session addr s)
unfolding server_session_created
server_session_created-IsCounted max_per_ip session addr extra s inv = record {
  counted = λ j. recount j;
  bounded = inv.bounded;
}
  where
    recount :
        (j : Bytes)
        → connections j s
          ≡ (if bytes_eq addr j then suc (count j s.active_sessions) else count j s.active_sessions)
            + extra j
    recount j = elim (Bool-cases (bytes_eq addr j)) [
      | inl eq ↦ rw eq (omega (arith, rw eq at (inv.counted j)))
      | inr ne ↦ rw ne (omega (arith, rw ne at (inv.counted j)))
    ]
