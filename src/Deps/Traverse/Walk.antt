-- ===== src/Deps/Traverse/Walk.antt =====
-- The walks along the edges that a search follows.
use repolayer.Prelude.{ℕ, suc, List, map}
use repolayer.Prelude.Lists.{◌∈◌}
use repolayer.Prelude.Text.{FilePath}
use repolayer.Deps.Graph.{DepEdge}

-- one edge out of `u`
abbrev pub Leads : (FilePath → List DepEdge) → FilePath → FilePath → Type 0
Leads edges_at u v = v ∈ map (λ e. e.target) (edges_at u)

-- `Walk edges_at start v n`: `n` edges lead from `start` to `v`.
pub data Walk (edges_at : FilePath → List DepEdge) (start : FilePath) : FilePath → ℕ → Type 0 where
  here : Walk edges_at start start 0
  step :
      {u v : FilePath} {n : ℕ}
      → Walk edges_at start u n
      → Leads edges_at u v
      → Walk edges_at start v (suc n)
