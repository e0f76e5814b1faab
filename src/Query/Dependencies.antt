-- ===== src/Query/Dependencies.antt =====
-- src/query/dependencies.rs: what a module imports, hop by hop.
pub mod Steps
mod Hop
pub mod Exact
mod Tests
use repolayer.Prelude.{
  ℕ, zero, suc, ◌+◌, ◌-◌, ◌*◌, ◌/◌, ◌%◌, ◌^◌, ◌≤◌, ◌<◌, min, max, ◌≡◌, refl, sym, ap, ◌∙◌, subst,
  ◌≢◌, ◌↔◌, ◌⊎◌, inl, inr, ⊎_elim, Bool, true, false, not, ◌&&◌, ◌||◌, Option, none, some, List, [],
  ◌∷◌, ◌++◌, map, arith,
}
use repolayer.Prelude.Tests.{
  ltb, leb, nat_beq, if◌then◌else◌, nat_beq_iff, Bool-cases, Option-cases, PartialEq, ◌==◌, nat_eq,
  beq-cases, beq_refl, beq_of_ne,
}
use repolayer.Prelude.Lists.{
  length, get_elem?, get_or, set, take, drop, replicate, ◌∈◌, All, Distinct,
}
use repolayer.Prelude.Dict.{Dict, contains, lookup, insert, update, keys, or_default}
use repolayer.Prelude.Text.{
  Text, FilePath, bytes, text_eq, path_eq, text_beq_iff, path_beq_iff, starts_with, ends_with,
}
use mathlib.Core.List.{reverse}
use repolayer.Graph.Model.{Node, Edge, imports, module_node}
use repolayer.Graph.Store.{
  Store, list_nodes_by_kind, outgoing_edges, get_node, search_symbols_substring,
}

-- `visited`, `next` and `result`
pub record Walk : Type 0 where
  pub visited : List Text
  pub next : List Text
  pub result : List Node

-- `if let Some(n) = store.get_node(&e.to)? { ... }`, after `e.to` is marked
unfoldable pub report : Option Node → Edge → Walk → Walk
report none e w = w
report (some n) e w = record w { result = w.result ++ n ∷ []; next = w.next ++ e.target ∷ [] }

module _ (s : Store) where
  -- the body of the loop over the outgoing edges of a module
  unfoldable pub visit : Walk → Edge → Walk
  unfolding report contains
  visit w e =
      if contains w.visited e.target
      then w
      else report (get_node s e.target) e (record w { visited = e.target ∷ w.visited })

  unfoldable pub visit_edges : Walk → List Edge → Walk
  unfolding visit
  visit_edges w [] = w
  visit_edges w (e ∷ edges) = visit_edges (visit w e) edges

  -- `for id in &frontier`
  unfoldable pub visit_frontier : Walk → List Text → Walk
  unfolding visit_edges outgoing_edges
  visit_frontier w [] = w
  visit_frontier w (id ∷ frontier) =
      visit_frontier (visit_edges w (outgoing_edges s id imports)) frontier

  -- one hop: `next` starts empty
  unfoldable pub hop : Walk → List Text → Walk
  unfolding visit_frontier
  hop w frontier = visit_frontier (record w { next = [] }) frontier

  -- `for _ in 0..depth`, which breaks where a hop finds nothing
  unfoldable pub hops : ℕ → Walk → List Text → Walk
  unfolding hop
  hops zero w frontier = w
  hops (suc depth) w frontier =
      let w' = hop w frontier in
      let rest = hops depth w' w'.next in elim w'.next [ [] ↦ w' | _ ∷ _ ↦ rest ]

  abbrev pub fresh_walk : Walk
  fresh_walk = record { visited = []; next = []; result = [] }

  unfoldable pub walk_imports : Node → ℕ → List Node
  unfolding hops
  walk_imports start depth = (hops depth fresh_walk (start.id ∷ [])).result

  -- `n.path == repo_or_module || n.path.ends_with(repo_or_module)`
  unfoldable pub first_module : Text → List Node → Option Node
  unfolding ends_with
  first_module name [] = none
  first_module name (n ∷ modules) =
      if (n.path == name) || ends_with n.path name then some n else first_module name modules

  abbrev first_of : List Node → Option Node
  first_of [] = none
  first_of (n ∷ _) = some n

  module _ (like : Text → Text → Bool) where
    -- the module of that path, else the first symbol that matches
    unfoldable pub find_start : Text → Option Node
    unfolding first_module list_nodes_by_kind search_symbols_substring
    find_start name = elim (first_module name (list_nodes_by_kind s module_node)) [
      | some n ↦ some n
      | none ↦ first_of (search_symbols_substring like s name 50)
    ]

    unfoldable pub get_dependencies : Text → ℕ → List Node
    unfolding find_start walk_imports
    get_dependencies name depth = elim (find_start name) [
      | none ↦ []
      | some start ↦ walk_imports start depth
    ]
