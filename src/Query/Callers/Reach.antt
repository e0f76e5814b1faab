-- ===== src/Query/Callers/Reach.antt =====
-- Chains of calls in the graph.
use repolayer.Prelude.{ℕ, suc, ◌≡◌, some, List, map}
use repolayer.Prelude.Tests.{nat_eq}
use repolayer.Prelude.Lists.{◌∈◌}
use repolayer.Prelude.Text.{Text, text_eq, path_eq}
use repolayer.Graph.Model.{Node, Edge, calls}
use repolayer.Graph.Store.{Store, get_node}

-- `e` is a call of the node `id` from a node of the store.
pub record CallOf (s : Store) (id : Text) (e : Edge) : Type 0 where
  pub stored : e ∈ s.edges
  pub is_call : e.kind ≡ calls
  pub callee : e.target ≡ id
  pub known : (n : Node) × (get_node s e.source ≡ some n)

-- `Chain s starts id n`: `n` calls lead from `id` to one of `starts`.
pub data Chain (s : Store) (starts : List Node) : Text → ℕ → Type 0 where
  start : {id : Text} → id ∈ map (λ n. n.id) starts → Chain s starts id 0
  call :
      {id : Text} {n : ℕ} (e : Edge)
      → Chain s starts id n
      → CallOf s id e
      → {k : Text} → k ≡ e.source
      → Chain s starts k (suc n)
