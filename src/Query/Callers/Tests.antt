-- ===== src/Query/Callers/Tests.antt =====
-- Tests and instances for `walk_callers`: `top` calls `mid`, `mid` calls `low`, `low` calls `mid`.
use repolayer.Prelude.{◌≡◌, refl, false, none, some, List, [], ◌∷◌, map}
use repolayer.Prelude.Tests.{nat_eq}
use repolayer.Prelude.Dict.{contains}
use repolayer.Prelude.Text.{Text, bytes, text_eq, path_eq, list_beq}
use repolayer.Graph.Model.{Node, Edge, calls, function, edge_kind_beq}
use repolayer.Graph.Store.{Store, incoming_edges, get_node}
use repolayer.Query.Callers.{CallerChain, walk_callers}
use repolayer.Query.Callers.Exact.{Reports, walk_callers-Reports}

abbrev node : Text → Node
node id = record {
  id = id;
  kind = function;
  repo = bytes "api";
  path = bytes "f.go";
  symbol = some id;
  summary = none;
  visibility = none;
  native_kind = none;
  loc_start = none;
  loc_end = none;
  deprecated = false;
}

abbrev call : Text → Text → Edge
call a b = record { source = a; target = b; kind = calls; confidence = 100 }

abbrev chain_store : Store
chain_store = record {
  nodes = node (bytes "low") ∷ node (bytes "mid") ∷ node (bytes "top") ∷ [];
  edges =
      call (bytes "mid") (bytes "low")
      ∷ call (bytes "low") (bytes "mid")
      ∷ call (bytes "top") (bytes "mid")
      ∷ call (bytes "gone") (bytes "mid")
      ∷ [];
}

abbrev pairs : List CallerChain → List (Text × Text)
pairs = map (λ c. (c.caller.id, c.target.id))

two_hops :
    pairs (walk_callers chain_store (node (bytes "low") ∷ []) 5)
    ≡ (bytes "mid", bytes "low") ∷ (bytes "top", bytes "mid") ∷ []
unfolding walk_callers incoming_edges get_node contains list_beq edge_kind_beq
two_hops = refl

walk_callers-Reports_example :
    Reports chain_store
      (node (bytes "low") ∷ [])
      2
      (walk_callers chain_store (node (bytes "low") ∷ []) 2)
walk_callers-Reports_example = walk_callers-Reports chain_store (node (bytes "low")) [] 2
