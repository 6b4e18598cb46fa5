-- ===== src/Server/Connections/Loops.antt =====
-- The event loop that a new session gets.
use getodac.Common.{
  ℕ, suc, ◌+◌, ◌≤◌, ◌≡◌, ◌∙◌, ◌⊎◌, refl, sym, ap, List, [], ◌∷◌, some, ltb, arith, All, Bool-cases,
  inl, inr, get_elem?,
}
use getodac.Server.Connections.{best_loop_from, best_loop}

-- The load of the loop at a position is the least of all loads.
pub record IsLeast (best : ℕ) (loads : List ℕ) : Type 0 where
  pub load : ℕ
  pub there : get_elem? loads best ≡ some load
  pub least : All (λ l. load ≤ l) loads

All-le : (m n : ℕ) (ls : List ℕ) → m ≤ n → All (λ l. n ≤ l) ls → All (λ l. m ≤ l) ls
All-le m n [] h k = tt
All-le m n (l ∷ ls) h (p, k) = (omega arith, All-le m n ls h k)

-- Either the best so far stays, and its load is the least, or a later loop has the least load.
best_loop_from_lem :
    (best load i : ℕ) (loads : List ℕ)
    → (m : ℕ) × (m ≤ load)
      × All (λ l. m ≤ l) loads
      × (((best_loop_from best load i loads ≡ best) × (m ≡ load))
          ⊎ ((k : ℕ) × (best_loop_from best load i loads ≡ i + k) × (get_elem? loads k ≡ some m)))
unfolding best_loop_from
best_loop_from_lem best load i [] = (load, omega arith, tt, inl (refl, refl))
best_loop_from_lem best load i (l ∷ loads) = elim (Bool-cases (ltb l load)) [
  | inl less ↦
      let (m, le, all, cases) = best_loop_from_lem i l (i + 1) loads in
      let below : m ≤ load = ground arith in
      (
        m,
        below,
        (le, all),
        inr (elim cases [
          | inl (stays, same) ↦ (0, rw less (stays ∙ omega arith), rw same refl)
          | inr (k, later, there) ↦ (suc k, rw less (later ∙ omega arith), there)
        ]),
      )
  | inr more ↦
      let (m, le, all, cases) = best_loop_from_lem best load (i + 1) loads in
      let below : m ≤ l = ground arith in
      (
        m,
        le,
        (below, all),
        elim cases [
          | inl (stays, same) ↦ inl (rw more stays, same)
          | inr (k, later, there) ↦ inr (suc k, rw more (later ∙ omega arith), there)
        ],
      )
]

-- A new session gets an event loop with the fewest active sessions.
pub best_loop-IsLeast :
    (first : ℕ) (loops : List ℕ) → IsLeast (best_loop first loops) (first ∷ loops)
unfolding best_loop
best_loop-IsLeast first loops =
    let (m, le, all, cases) = best_loop_from_lem 0 first 1 loops in
    elim cases [
      | inl (stays, same) ↦ record {
        load = m;
        there = rw stays (ap some (sym same));
        least = (le, all);
      }
      | inr (k, later, there) ↦ record {
        load = m;
        there = let e : 1 + k ≡ suc k = omega arith in rw (later ∙ e) there;
        least = (le, all);
      }
    ]
