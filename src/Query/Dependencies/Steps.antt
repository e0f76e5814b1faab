-- ===== src/Query/Dependencies/Steps.antt =====
-- Paths of imports in the graph.
use repolayer.Prelude.{ℕ, suc, ◌≡◌, some}
use repolayer.Prelude.Tests.{nat_eq}
use repolayer.Prelude.Lists.{◌∈◌}
use repolayer.Prelude.Text.{Text, text_eq, path_eq}
use repolayer.Graph.Store.{Store, get_node}
use repolayer.Graph.Model.{Edge, imports, Node}

-- `e` is an import of the node `id`, of a node of the store.
pub record ImportOf (s : Store) (id : Text) (e : Edge) : Type 0 where
  pub stored : e ∈ s.edges
  pub is_import : e.kind ≡ imports
  pub importer : e.source ≡ id
  pub known : (n : Node) × (get_node s e.target ≡ some n)

-- `Steps s start id n`: `n` imports lead from `start` to `id`.
pub data Steps (s : Store) (start : Text) : Text → ℕ → Type 0 where
  here : {id : Text} → id ≡ start → Steps s start id 0
  step :
      {id : Text} {n : ℕ} (e : Edge)
      → Steps s start id n
      → ImportOf s id e
      → {k : Text} → k ≡ e.target
      → Steps s start k (suc n)
