-- ===== src/Query/Symbol.antt =====
-- src/query/symbol.rs and src/query/list_repos.rs: one symbol with its neighbours, and the
-- repositories.
pub mod Exact
mod Tests
use repolayer.Prelude.{
  ℕ, zero, suc, ◌+◌, ◌-◌, ◌*◌, ◌/◌, ◌%◌, ◌^◌, ◌≤◌, ◌<◌, min, max, ◌≡◌, refl, sym, ap, ◌∙◌, subst,
  ◌≢◌, ◌↔◌, ◌⊎◌, inl, inr, ⊎_elim, Bool, true, false, not, ◌&&◌, ◌||◌, Option, none, some, List, [],
  ◌∷◌, ◌++◌, map, arith,
}
use repolayer.Prelude.Tests.{
  ltb, leb, nat_beq, if◌then◌else◌, nat_beq_iff, Bool-cases, Option-cases, PartialEq, ◌==◌, nat_eq,
  beq-cases, beq_refl, beq_of_ne,
}
use repolayer.Prelude.Lists.{
  length, get_elem?, get_or, set, take, drop, replicate, ◌∈◌, All, Distinct,
}
use repolayer.Prelude.Dict.{Dict, contains, lookup, insert, update, keys, or_default}
use repolayer.Prelude.Text.{
  Text, FilePath, bytes, text_eq, path_eq, text_beq_iff, path_beq_iff, starts_with,
}
use repolayer.Graph.Model.{Node, repo_node, Edge, calls}
use repolayer.Graph.Store.{
  Store, list_nodes_by_kind, search_symbols_substring, incoming_edges, outgoing_edges, get_node,
}
use repolayer.Prelude.Rows.{filter_map}

pub record SymbolResult : Type 0 where
  pub symbol : Node
  pub callers : List Node
  pub callees : List Node

-- `n.symbol.as_deref() == Some(name) && repo.map(|r| n.repo == r).unwrap_or(true)`
abbrev pub is_symbol : Text → Option Text → Node → Bool
is_symbol name repo n =
    elim n.symbol [ none ↦ false | some x ↦ x == name ]
    && elim repo [ none ↦ true | some r ↦ n.repo == r ]

unfoldable pub first_symbol : Text → Option Text → List Node → Option Node
first_symbol name repo [] = none
first_symbol name repo (n ∷ candidates) =
    if is_symbol name repo n then some n else first_symbol name repo candidates

module _ (s : Store) where
  -- the loops over the inbound and the outgoing calls
  unfoldable pub callers_of : Text → List Node
  unfolding filter_map incoming_edges
  callers_of id = filter_map (λ (e : Edge). get_node s e.source) (incoming_edges s id calls)

  unfoldable pub callees_of : Text → List Node
  unfolding filter_map outgoing_edges
  callees_of id = filter_map (λ (e : Edge). get_node s e.target) (outgoing_edges s id calls)

  unfoldable pub get_symbol : (like : Text → Text → Bool) → Text → Option Text → Option SymbolResult
  unfolding first_symbol callers_of callees_of search_symbols_substring
  get_symbol like name repo =
      elim (first_symbol name repo (search_symbols_substring like s name 50)) [
        | none ↦ none
        | some sym ↦
            some (record { symbol = sym; callers = callers_of sym.id; callees = callees_of sym.id })
      ]

  unfoldable pub list_repos : List Node
  unfolding list_nodes_by_kind
  list_repos = list_nodes_by_kind s repo_node
