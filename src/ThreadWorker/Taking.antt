-- ===== src/ThreadWorker/Taking.antt =====
-- That a worker takes a task only where there is one.
use getodac.Common.{ℕ, ◌≡◌, ◌≢◌, Bool, true, List, [], ◌⊎◌}
use getodac.ThreadWorker.{Location, ready, taking, Pool}

-- What a worker knows at a place: behind `wait` that there is a task or that `m_quit` is set, and
-- in front of `top` that there is a task.
abbrev Knows : Bool → List ℕ → Location → Type 0
Knows quit pending ready = (quit ≡ true) ⊎ (pending ≢ [])
Knows quit pending taking = pending ≢ []
Knows quit pending _ = Unit

abbrev HasTask : Pool → Type 0
HasTask p = (j : ℕ) → Knows p.quit p.pending (p.at j)
