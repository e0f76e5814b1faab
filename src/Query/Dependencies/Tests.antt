-- ===== src/Query/Dependencies/Tests.antt =====
-- Tests for `get_dependencies`: `a` imports `b`, and `b` imports `a`.
use repolayer.Prelude.{◌≡◌, refl, Bool, false, none, [], ◌∷◌, map}
use repolayer.Prelude.Tests.{nat_eq}
use repolayer.Prelude.Dict.{contains}
use repolayer.Prelude.Text.{Text, bytes, text_eq, path_eq, list_beq, ends_with}
use repolayer.Graph.Model.{Edge, Node, imports, module_node, edge_kind_beq, node_kind_beq}
use repolayer.Graph.Store.{Store, list_nodes_by_kind, outgoing_edges, get_node}
use repolayer.Query.Dependencies.{get_dependencies, find_start, walk_imports, first_module}
use repolayer.Query.Dependencies.Exact.{Reports, walk_imports-Reports}

abbrev node : Text → Node
node id = record {
  id = id;
  kind = module_node;
  repo = bytes "api";
  path = id;
  symbol = none;
  summary = none;
  visibility = none;
  native_kind = none;
  loc_start = none;
  loc_end = none;
  deprecated = false;
}

abbrev import_edge : Text → Text → Edge
import_edge a b = record { source = a; target = b; kind = imports; confidence = 100 }

abbrev cycle_store : Store
cycle_store = record {
  nodes = node (bytes "a") ∷ node (bytes "b") ∷ [];
  edges = import_edge (bytes "a") (bytes "b") ∷ import_edge (bytes "b") (bytes "a") ∷ [];
}

abbrev nothing_like : Text → Text → Bool
nothing_like pattern value = false

-- The start is reported where it imports itself over others.
cycle_reports_start :
    map (λ (n : Node). n.id) (get_dependencies cycle_store nothing_like (bytes "a") 5)
    ≡ bytes "b" ∷ bytes "a" ∷ []
unfolding get_dependencies find_start first_module list_nodes_by_kind walk_imports outgoing_edges
    get_node contains list_beq edge_kind_beq node_kind_beq ends_with
cycle_reports_start = refl

walk_imports-Reports_example :
    Reports cycle_store (bytes "a") 2 (walk_imports cycle_store (node (bytes "a")) 2)
walk_imports-Reports_example = walk_imports-Reports cycle_store (node (bytes "a")) 2
