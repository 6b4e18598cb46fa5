-- ===== src/Server/Connections/Reachable.antt =====
-- The counts in every state that the server reaches, one lock at a time.
use getodac.Common.Bytes.{Bytes}
use getodac.Common.Maps.{find}
use getodac.Common.{
  ℕ, ◌+◌, ◌≡◌, ◌∙◌, refl, sym, ap, subst, List, [], ◌∷◌, ◌++◌, Option, none, some, ltb, length,
  false, arith, Bool-cases, inl, inr,
}
use getodac.Server.Connections.Counts.{
  address_of, count, one, more, IsCounted, erase_active-IsCounted, release-IsCounted,
  count_connection-IsCounted, server_session_created-IsCounted,
}
use getodac.Server.Connections.{
  ServerState, connections, count_connection, server_session_created, erase_active, release,
  update_peak,
}

-- The server with its threads between two locks: the address that the accept loop has counted and
-- for which no session is created yet; those of the sessions that are erased and not released
-- yet; and those whose construction has failed in `new` or in the base.
pub record System : Type 0 where
  pub server : ServerState
  pub accepting : Option Bytes
  pub ending : List Bytes
  pub lost : List Bytes

pub data Step (max_per_ip : ℕ) : System → System → Type 0 where
  counts :
      (addr : Bytes) (y : System)
      → y.accepting ≡ none
      → ltb max_per_ip (connections addr y.server) ≡ false
      → Step max_per_ip y
          (record y { server = count_connection addr y.server; accepting = some addr })
  creates :
      (session : ℕ) (addr : Bytes) (y : System)
      → y.accepting ≡ some addr
      → Step max_per_ip y
          (record y { server = server_session_created session addr y.server; accepting = none })
  fails :
      (addr : Bytes) (y : System)
      → y.accepting ≡ some addr
      → Step max_per_ip y (record y { accepting = none; lost = addr ∷ y.lost })
  erases :
      (session : ℕ) (addr : Bytes) (y : System)
      → address_of session y.server.active_sessions ≡ some addr
      → Step max_per_ip y
          (record y { server = erase_active session y.server; ending = addr ∷ y.ending })
  releases :
      {s : ServerState} (addr : Bytes) (before after : List Bytes) (y : System)
      → y.ending ≡ before ++ addr ∷ after
      → release addr y.server ≡ some s
      → Step max_per_ip y (record y { server = s; ending = before ++ after })
  peaks : (y : System) → Step max_per_ip y (record y { server = update_peak y.server })

pub data Reach (max_per_ip : ℕ) (y : System) : System → Type 0 where
  here : Reach max_per_ip y y
  next : {z w : System} → Reach max_per_ip y z → Step max_per_ip z w → Reach max_per_ip y w

-- How often an address is in a list.
abbrev pub among : Bytes → List Bytes → ℕ
among addr [] = 0
among addr (a ∷ addrs) = one a addr + among addr addrs

abbrev pub awaited : Bytes → Option Bytes → ℕ
awaited addr none = 0
awaited addr (some a) = one a addr

-- How often an address is counted without a session.
abbrev pub unsettled : System → Bytes → ℕ
unsettled y addr = awaited addr y.accepting + among addr y.ending + among addr y.lost

among-append :
    (addr a : Bytes) (xs ys : List Bytes)
    → among addr (xs ++ a ∷ ys) ≡ among addr (xs ++ ys) + one a addr
among-append addr a [] ys = omega arith
among-append addr a (x ∷ xs) ys = omega (arith, among-append addr a xs ys)

-- Only the numbers matter.
recounted :
    (max_per_ip : ℕ) (f g : Bytes → ℕ) (s : ServerState)
    → ((j : Bytes) → f j ≡ g j)
    → IsCounted max_per_ip f s
    → IsCounted max_per_ip g s
recounted max_per_ip f g s same inv = record {
  counted = λ j. inv.counted j ∙ ap (λ n. count j s.active_sessions + n) (same j);
  bounded = inv.bounded;
}

some-eq {ℓ} : {A : Type ℓ} {a b : A} → some a ≡ some b → a ≡ b
some-eq e = cc

update_peak-IsCounted :
    (max_per_ip : ℕ) (f : Bytes → ℕ) (s : ServerState)
    → IsCounted max_per_ip f s
    → IsCounted max_per_ip f (update_peak s)
unfolding update_peak
update_peak-IsCounted max_per_ip f s inv =
    elim (Bool-cases (ltb s.peak_sessions (length s.active_sessions))) [
      | inl larger ↦ rw larger (record { counted = inv.counted; bounded = inv.bounded })
      | inr less ↦ rw less inv
    ]

-- A session that has been erased and not released is counted.
ending-IsCounted :
    (max_per_ip : ℕ) (addr : Bytes) (before after : List Bytes) (y : System)
    → IsCounted max_per_ip (unsettled y) y.server
    → y.ending ≡ before ++ addr ∷ after
    → IsCounted max_per_ip (more addr (unsettled (record y { ending = before ++ after }))) y.server
ending-IsCounted max_per_ip addr before after y inv e =
    recounted max_per_ip (unsettled y)
      (more addr (unsettled (record y { ending = before ++ after }))) y.server
      (λ j. let n = ap (among j) e ∙ among-append j addr before after in omega (arith, n)) inv

Step-IsCounted :
    {max_per_ip : ℕ} {y z : System}
    → Step max_per_ip y z
    → IsCounted max_per_ip (unsettled y) y.server
    → IsCounted max_per_ip (unsettled z) z.server
Step-IsCounted {max_per_ip} (counts addr y free room) inv =
    recounted max_per_ip (more addr (unsettled y))
      (unsettled (record y { server = count_connection addr y.server; accepting = some addr }))
      (count_connection addr y.server) (λ j. let n = ap (awaited j) free in omega (arith, n))
      (count_connection-IsCounted max_per_ip addr (unsettled y) y.server inv (ground arith))
Step-IsCounted {max_per_ip} (creates session addr y e) inv =
    let settled = unsettled (record y { accepting = none }) in
    server_session_created-IsCounted max_per_ip session addr settled y.server (
      recounted max_per_ip (unsettled y) (more addr settled) y.server
        (λ j. let n = ap (awaited j) e in omega (arith, n)) inv)
Step-IsCounted {max_per_ip} (fails addr y e) inv =
    recounted max_per_ip (unsettled y)
      (unsettled (record y { accepting = none; lost = addr ∷ y.lost })) y.server
      (λ j. let n = ap (awaited j) e in omega (arith, n)) inv
Step-IsCounted {max_per_ip} (erases session addr y live) inv =
    recounted max_per_ip (more addr (unsettled y))
      (unsettled (record y { ending = addr ∷ y.ending })) (erase_active session y.server)
      (λ j. omega arith)
      (erase_active-IsCounted max_per_ip session addr (unsettled y) y.server inv live)
Step-IsCounted {max_per_ip} (releases {s} addr before after y e released) inv =
    let settled = unsettled (record y { ending = before ++ after }) in
    let (s', released', inv', _) =
      release-IsCounted max_per_ip addr settled y.server
        (ending-IsCounted max_per_ip addr before after y inv e) in
    subst (IsCounted max_per_ip settled) (some-eq (sym released' ∙ released)) inv'
Step-IsCounted {max_per_ip} (peaks y) inv =
    update_peak-IsCounted max_per_ip (unsettled y) y.server inv

-- The server before it accepts.
abbrev pub started : System
started = record {
  server = record { active_sessions = []; connections_per_ip = []; peak_sessions = 0 };
  accepting = none;
  ending = [];
  lost = [];
}

-- In every state that the server reaches, with the count, the creation and the failure of a
-- session, its erasure and the release of its address as steps of their own in any order: each
-- address is counted as often as it has active sessions, sessions that are counted and not created
-- yet, sessions that are erased and not released yet, and sessions that `new` or their base has
-- failed to construct; and at most once more than the limit.
pub Reach-IsCounted :
    {max_per_ip : ℕ} {y : System}
    → Reach max_per_ip started y
    → IsCounted max_per_ip (unsettled y) y.server
unfolding find
Reach-IsCounted here = record { counted = λ j. refl; bounded = λ j. omega arith }
Reach-IsCounted (next r step) = Step-IsCounted step (Reach-IsCounted r)

-- The address of a session that is erased and not
-- released is counted, so that the assertion of its destructor holds, and its release succeeds.
pub Reach-releases :
    {max_per_ip : ℕ} {y : System} (addr : Bytes) (before after : List Bytes)
    → Reach max_per_ip started y
    → y.ending ≡ before ++ addr ∷ after
    → (s : ServerState) × (release addr y.server ≡ some s)
      × (s.active_sessions ≡ y.server.active_sessions)
Reach-releases {max_per_ip} {y} addr before after reach e =
    let (s, released, _, same) =
      release-IsCounted max_per_ip addr (unsettled (record y { ending = before ++ after })) y.server
        (ending-IsCounted max_per_ip addr before after y (Reach-IsCounted reach) e) in
    (s, released, same)
