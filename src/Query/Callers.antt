-- ===== src/Query/Callers.antt =====
-- src/query/callers.rs: who calls a symbol, hop by hop.
pub mod Reach
mod Round
mod Hop
pub mod Exact
mod Tests
use repolayer.Prelude.{
  ℕ, zero, suc, ◌+◌, ◌-◌, ◌*◌, ◌/◌, ◌%◌, ◌^◌, ◌≤◌, ◌<◌, min, max, ◌≡◌, refl, sym, ap, ◌∙◌, subst,
  ◌≢◌, ◌↔◌, ◌⊎◌, inl, inr, ⊎_elim, Bool, true, false, not, ◌&&◌, ◌||◌, Option, none, some, List, [],
  ◌∷◌, ◌++◌, map, arith,
}
use repolayer.Prelude.Tests.{
  ltb, leb, nat_beq, if◌then◌else◌, nat_beq_iff, Bool-cases, Option-cases, PartialEq, ◌==◌, nat_eq,
  beq-cases, beq_refl, beq_of_ne,
}
use repolayer.Prelude.Lists.{
  length, get_elem?, get_or, set, take, drop, replicate, ◌∈◌, All, Distinct,
}
use repolayer.Prelude.Dict.{Dict, contains, lookup, insert, update, keys, or_default}
use repolayer.Prelude.Text.{
  Text, FilePath, bytes, text_eq, path_eq, text_beq_iff, path_beq_iff, starts_with,
}
use repolayer.Graph.Model.{Node, Edge, EdgeKind, calls, Confidence}
use repolayer.Graph.Store.{
  Store, incoming_edges, get_node, search_symbols_substring, search_symbols_substring_filtered,
}
use repolayer.Prelude.Rows.{where_rows}

pub record CallerChain : Type 0 where
  pub caller : Node
  pub target : Node
  pub confidence : Confidence

-- `visited`, `next` and `result` of `walk_callers`
pub record Walk : Type 0 where
  pub visited : List Text
  pub next : List Node
  pub result : List CallerChain

-- `if let Some(caller) = store.get_node(&e.from)? { ... }`, after `e.from` is marked
report : Option Node → Node → Edge → Walk → Walk
report none target e w = w
report (some caller) target e w = record w {
  next = w.next ++ caller ∷ [];
  result =
      w.result ++ (record { caller = caller; target = target; confidence = e.confidence }) ∷ [];
}

module _ (s : Store) where
  -- the body of the loop over the inbound edges of `target`
  pub visit : Node → Walk → Edge → Walk
  unfolding report
  visit target w e =
      if contains w.visited e.source
      then w
      else report (get_node s e.source) target e (record w { visited = e.source ∷ w.visited })

  pub visit_edges : Node → Walk → List Edge → Walk
  unfolding visit
  visit_edges target w [] = w
  visit_edges target w (e ∷ edges) = visit_edges target (visit target w e) edges

  -- `for target in &frontier`
  pub visit_targets : Walk → List Node → Walk
  unfolding visit_edges
  visit_targets w [] = w
  visit_targets w (target ∷ frontier) =
      visit_targets (visit_edges target w (incoming_edges s target.id calls)) frontier

  -- one hop: `next` starts empty
  pub hop : Walk → List Node → Walk
  unfolding visit_targets
  hop w frontier = visit_targets (record w { next = [] }) frontier

  -- `for _ in 0..depth`, which breaks where a hop finds nobody
  pub hops : ℕ → Walk → List Node → Walk
  unfolding hop
  hops zero w frontier = w
  hops (suc depth) w frontier =
      let w' = hop w frontier in elim w'.next [ [] ↦ w' | _ ∷ _ ↦ hops depth w' w'.next ]

  abbrev pub begin : List Node → Walk
  begin starts = record { visited = map (λ n. n.id) starts; next = []; result = [] }

  unfoldable pub walk_callers : List Node → ℕ → List CallerChain
  unfolding hops
  walk_callers [] depth = []
  walk_callers (n ∷ starts) zero = []
  walk_callers (n ∷ starts) (suc depth) =
      (hops (suc depth) (begin (n ∷ starts)) (n ∷ starts)).result

  abbrev pub is_named : Text → Node → Bool
  is_named name n = elim n.symbol [ none ↦ false | some x ↦ x == name ]

  abbrev pub first_named : Text → List Node → Option Node
  first_named name [] = none
  first_named name (n ∷ rest) = if is_named name n then some n else first_named name rest

  abbrev pub with_chains : List Node → ℕ → List Node × List CallerChain
  with_chains [] depth = ([], [])
  with_chains (n ∷ starts) depth = (n ∷ starts, walk_callers (n ∷ starts) depth)

  module _ (like : Text → Text → Bool) where
    unfoldable pub get_callers : Text → ℕ → List Node
    unfolding walk_callers search_symbols_substring
    get_callers name depth = elim (first_named name (search_symbols_substring like s name 50)) [
      | none ↦ []
      | some start ↦ map (λ c. c.caller) (walk_callers (start ∷ []) depth)
    ]

    unfoldable pub get_callers_all : Text → ℕ → Option Text → List Node × List CallerChain
    unfolding walk_callers search_symbols_substring_filtered where_rows
    get_callers_all name depth repo_filter =
        with_chains
          (where_rows (is_named name)
            (search_symbols_substring_filtered like s name repo_filter 200))
          depth
