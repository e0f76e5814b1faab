-- ===== src/Graph/Store/Tests.antt =====
-- Tests and instances for the graph store.
use repolayer.Prelude.{◌≡◌, refl, ◌↔◌, ◌⊎◌, false, none, some, [], ◌∷◌, arith}
use repolayer.Prelude.Tests.{if◌then◌else◌, nat_eq}
use repolayer.Prelude.Lists.{◌∈◌}
use repolayer.Prelude.Dict.{contains, lookup}
use repolayer.Prelude.Text.{Text, bytes, text_eq, path_eq, list_beq}
use repolayer.Graph.Model.{
  Node, Edge, NodeKind, new_node, module_node, function, calls, id_input, edge_kind_eq,
}
use repolayer.Graph.Model.Identity.{id_input_injective}
use repolayer.Graph.Store.{
  Store, fresh_store, upsert_node, upsert_edge, get_node, incoming_edges, delete_module,
  get_nodes_by_ids, like_pattern, same_key,
}
use repolayer.Graph.Store.Nodes.{get-upsert_node, IsUpsertOf, get_nodes_by_ids-eq-get_node}
use repolayer.Graph.Store.Edges.{IsValid, upsert-IsValid, incoming-upsert_edge}
use repolayer.Graph.Store.Delete.{Anchored, delete_module_exact}

-- A hash without collisions on these inputs: the identity.
abbrev digest : Text → Text
digest t = t

abbrev main_file : Node
unfolding new_node
main_file = new_node digest module_node (bytes "api") (bytes "main.go") none

abbrev get_user : Node
unfolding new_node
get_user =
    record (new_node digest function (bytes "api") (bytes "user.go") (some (bytes "GetUser"))) {
      loc_start = some 12;
    }

abbrev call : Edge
call = record { source = main_file.id; target = get_user.id; kind = calls; confidence = 100 }

abbrev two_nodes : Store
two_nodes = record { nodes = main_file ∷ get_user ∷ []; edges = [] }

abbrev small : Store
small = record { nodes = main_file ∷ get_user ∷ []; edges = call ∷ [] }

built : upsert_edge call (upsert_node get_user (upsert_node main_file fresh_store)) ≡ small
unfolding upsert_edge upsert_node list_beq new_node
built = refl

-- A second upsert without a line keeps the line of the first.
line_kept :
    get_node (upsert_node (record get_user { loc_start = none }) small) get_user.id ≡ some get_user
unfolding get_node upsert_node list_beq new_node
line_kept = refl

callee_deleted :
    delete_module (bytes "api") (bytes "user.go") small
    ≡ record { nodes = main_file ∷ []; edges = [] }
unfolding delete_module list_beq new_node
callee_deleted = refl

underscore_escaped : like_pattern (bytes "my_func") ≡ bytes "%my\\_func%"
unfolding like_pattern
underscore_escaped = refl

small-IsValid : IsValid small
unfolding new_node
small-IsValid = record {
  ids_distinct = (λ m. ground arith, ((λ m. m), tt));
  keys_distinct = ((λ m. m), tt);
}

id_input_injective_example :
    (id_input module_node (bytes "api") (bytes "a.go") none
      ≡ id_input function (bytes "api") (bytes "a.go") (some (bytes "Get")))
    ↔ ((◌≡◌ {A = NodeKind} module_node function)
        × (bytes "api" ≡ bytes "api")
        × (bytes "a.go" ≡ bytes "a.go")
        × (◌≡◌ {A = Text} [] (bytes "Get")))
id_input_injective_example =
    id_input_injective module_node function (bytes "api") (bytes "api") (bytes "a.go")
      (bytes "a.go") none (some (bytes "Get")) (λ m. ground arith) (λ m. ground arith)
      (λ m. ground arith) (λ m. ground arith)

get-upsert_node_example :
    IsUpsertOf main_file get_user.id
      (get_node small get_user.id)
      (get_node (upsert_node main_file small) get_user.id)
get-upsert_node_example = get-upsert_node small main_file get_user.id

get_nodes_by_ids-eq-get_node_example :
    lookup get_user.id (get_nodes_by_ids small (get_user.id ∷ []))
    ≡ (if contains (get_user.id ∷ []) get_user.id then get_node small get_user.id else none)
get_nodes_by_ids-eq-get_node_example =
    get_nodes_by_ids-eq-get_node small (get_user.id ∷ []) get_user.id

upsert-IsValid_example : IsValid (upsert_node get_user small) × IsValid (upsert_edge call small)
upsert-IsValid_example = upsert-IsValid small get_user call small-IsValid

incoming-upsert_edge_example :
    (call ∈ incoming_edges (upsert_edge call small) get_user.id calls) ↔ (
      (call.target ≡ get_user.id)
      × (call.kind ≡ calls)
      × ((call ≡ call) ⊎ (call ∈ small.edges) × (same_key call call ≡ false)))
incoming-upsert_edge_example = incoming-upsert_edge small call call get_user.id calls small-IsValid

delete_module_exact_example :
    ((main_file ∈ (delete_module (bytes "api") (bytes "user.go") small).nodes) ↔ (
      (main_file ∈ small.nodes)
      × (¬ ((main_file.repo ≡ bytes "api") × (main_file.path ≡ bytes "user.go")))))
    × ((call ∈ (delete_module (bytes "api") (bytes "user.go") small).edges) ↔ (
        (call ∈ small.edges) × Anchored (delete_module (bytes "api") (bytes "user.go") small) call))
    × (IsValid small → IsValid (delete_module (bytes "api") (bytes "user.go") small))
delete_module_exact_example =
    delete_module_exact (bytes "api") (bytes "user.go") small main_file call
