-- ===== src/Graph/Store.antt =====
-- src/graph/store.rs: the SQLite graph store. A table is the list of its rows; each SQL statement is
-- the list operation that it states. `LIKE` is a parameter of the operations that use it.
pub mod Nodes
pub mod Edges
pub mod Delete
mod Tests
use repolayer.Prelude.{
  ℕ, zero, suc, ◌+◌, ◌-◌, ◌*◌, ◌/◌, ◌%◌, ◌^◌, ◌≤◌, ◌<◌, min, max, ◌≡◌, refl, sym, ap, ◌∙◌, subst,
  ◌≢◌, ◌↔◌, ◌⊎◌, inl, inr, ⊎_elim, Bool, true, false, not, ◌&&◌, ◌||◌, Option, none, some, List, [],
  ◌∷◌, ◌++◌, map, arith,
}
use repolayer.Prelude.Tests.{
  ltb, leb, nat_beq, if◌then◌else◌, nat_beq_iff, Bool-cases, Option-cases, PartialEq, ◌==◌, nat_eq,
  beq-cases, beq_refl, beq_of_ne,
}
use repolayer.Prelude.Lists.{
  length, get_elem?, get_or, set, take, drop, replicate, ◌∈◌, All, Distinct,
}
use repolayer.Prelude.Dict.{Dict, contains, lookup, insert, update, keys, or_default}
use repolayer.Prelude.Text.{
  Text, FilePath, bytes, text_eq, path_eq, text_beq_iff, path_beq_iff, starts_with, text_leb,
}
use repolayer.Graph.Model.{
  Node, Edge, NodeKind, EdgeKind, type_node, method, function, idl_method, idl_service,
  edge_kind_eq, node_kind_eq,
}
use repolayer.Prelude.Rows.{where_rows}
use repolayer.Prelude.Sort.{dedup, sort_by}

pub record Store : Type 0 where
  pub nodes : List Node
  pub edges : List Edge

abbrev pub fresh_store : Store
fresh_store = record { nodes = []; edges = [] }

-- SQL `COALESCE(a, b)`
abbrev pub coalesce : {A : Type 0} → Option A → Option A → Option A
coalesce none b = b
coalesce (some a) b = some a

-- `ON CONFLICT(id) DO UPDATE SET ...`
unfoldable pub merge_node : Node → Node → Node
merge_node old new = record old {
  summary = coalesce new.summary old.summary;
  visibility = coalesce new.visibility old.visibility;
  native_kind = coalesce new.native_kind old.native_kind;
  loc_start = coalesce new.loc_start old.loc_start;
  loc_end = coalesce new.loc_end old.loc_end;
  deprecated = new.deprecated;
}

unfoldable pub put_node : Node → List Node → List Node
unfolding merge_node
put_node n [] = n ∷ []
put_node n (m ∷ rest) = if m.id == n.id then merge_node m n ∷ rest else m ∷ put_node n rest

unfoldable pub upsert_node : Node → Store → Store
unfolding put_node
upsert_node n s = record s { nodes = put_node n s.nodes }

unfoldable pub find_node : Text → List Node → Option Node
find_node id [] = none
find_node id (n ∷ rest) = if n.id == id then some n else find_node id rest

unfoldable pub get_node : Store → Text → Option Node
unfolding find_node
get_node s id = find_node id s.nodes

-- The rows with an id in `ids`, under their ids.
unfoldable pub get_nodes_by_ids : Store → List Text → Dict Text Node
unfolding where_rows contains
get_nodes_by_ids s ids =
    map (λ (n : Node). (n.id, n)) (where_rows (λ (n : Node). contains ids n.id) s.nodes)

-- the primary key (from_id, to_id, kind)
abbrev pub same_key : Edge → Edge → Bool
same_key a b = (a.source == b.source) && ((a.target == b.target) && (a.kind == b.kind))

unfoldable pub put_edge : Edge → List Edge → List Edge
put_edge e [] = e ∷ []
put_edge e (f ∷ rest) =
    if same_key f e then record f { confidence = e.confidence } ∷ rest else f ∷ put_edge e rest

unfoldable pub upsert_edge : Edge → Store → Store
unfolding put_edge
upsert_edge e s = record s { edges = put_edge e s.edges }

unfoldable pub get_edges_from : Store → Text → List Edge
unfolding where_rows
get_edges_from s id = where_rows (λ (e : Edge). e.source == id) s.edges

unfoldable pub outgoing_edges : Store → Text → EdgeKind → List Edge
unfolding where_rows
outgoing_edges s id kind = where_rows (λ (e : Edge). (e.source == id) && (e.kind == kind)) s.edges

unfoldable pub incoming_edges : Store → Text → EdgeKind → List Edge
unfolding where_rows
incoming_edges s id kind = where_rows (λ (e : Edge). (e.target == id) && (e.kind == kind)) s.edges

unfoldable pub list_nodes_by_kind : Store → NodeKind → List Node
unfolding where_rows
list_nodes_by_kind s kind = where_rows (λ (n : Node). n.kind == kind) s.nodes

unfoldable pub nodes_at_path : Store → Text → Text → List Node
unfolding where_rows
nodes_at_path s repo path = where_rows (λ (n : Node). (n.repo == repo) && (n.path == path)) s.nodes

abbrev pub has_node : List Node → Text → Bool
has_node nodes id = contains (map (λ (n : Node). n.id) nodes) id

-- The two DELETE statements, the second over what the first leaves.
unfoldable pub delete_module : Text → Text → Store → Store
unfolding where_rows contains
delete_module repo path s =
    let kept = where_rows (λ (n : Node). not ((n.repo == repo) && (n.path == path))) s.nodes in
    record {
      nodes = kept;
      edges = where_rows (λ (e : Edge). has_node kept e.source && has_node kept e.target) s.edges;
    }

-- `\`, `%` and `_` escaped by a backslash, between two `%`
unfoldable pub escape_like : Text → Text
escape_like [] = []
escape_like (c ∷ q) =
    if nat_beq c 92 || (nat_beq c 37 || nat_beq c 95)
    then 92 ∷ c ∷ escape_like q
    else c ∷ escape_like q

unfoldable pub like_pattern : Text → Text
unfolding escape_like
like_pattern q = 37 ∷ (escape_like q ++ 37 ∷ [])

abbrev pub is_listed : NodeKind → Bool
is_listed type_node = true
is_listed method = true
is_listed function = true
is_listed idl_method = true
is_listed idl_service = true
is_listed _ = false

abbrev pub or_false : Option Bool → Bool
or_false = or_default false

-- `like pattern value` is SQLite's `value LIKE pattern ESCAPE '\'`.
module _ (like : Text → Text → Bool) where
  abbrev pub symbol_like : Text → Node → Bool
  symbol_like pattern n = elim n.symbol [ none ↦ false | some s ↦ like pattern s ]

  abbrev pub matches : Text → Option Text → Node → Bool
  matches q repo_filter n =
      is_listed n.kind
      && (elim repo_filter [ none ↦ true | some r ↦ n.repo == r ]
          && (symbol_like (like_pattern q) n || like (like_pattern q) n.path))

  unfoldable pub search_symbols_substring_filtered : Store → Text → Option Text → ℕ → List Node
  unfolding where_rows like_pattern
  search_symbols_substring_filtered s q repo_filter limit =
      take limit (where_rows (matches q repo_filter) s.nodes)

  unfoldable pub search_symbols_substring : Store → Text → ℕ → List Node
  unfolding search_symbols_substring_filtered
  search_symbols_substring s q limit = search_symbols_substring_filtered s q none limit

  -- `s.starts_with(&prefix) || s.starts_with(svc)`
  abbrev pub has_service : Text → Node → Bool
  has_service svc n = elim n.symbol [
    | none ↦ false
    | some s ↦ starts_with s (svc ++ bytes ".") || starts_with s svc
  ]

  unfoldable pub find_idl_methods_by_name : Store → Text → Option Text → List Node
  unfolding where_rows like_pattern starts_with
  find_idl_methods_by_name s name service =
      let rows =
        where_rows (λ (n : Node). (n.kind == idl_method) && symbol_like (like_pattern name) n)
          s.nodes in
      elim service [ none ↦ rows | some svc ↦ where_rows (has_service svc) rows ]

-- `SELECT DISTINCT repo FROM nodes ORDER BY repo`
unfoldable pub list_repo_names : Store → List Text
list_repo_names s = dedup (sort_by text_leb (map (λ n. n.repo) s.nodes))
