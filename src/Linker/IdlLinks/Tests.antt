-- ===== src/Linker/IdlLinks/Tests.antt =====
-- A handler that answers one of two interface methods of the same short name.

use repolayer.Prelude.{
  ◌<◌, ℕ, ◌≤◌, ◌≡◌, refl, sym, subst, inl, false, Option, none, some, List, [], ◌∷◌,
}
use repolayer.Prelude.Tests.{nat_eq}
use repolayer.Prelude.Lists.{length, ◌∈◌}
use repolayer.Prelude.Dict.{contains, lookup, update}
use repolayer.Prelude.Text.{Text, FilePath, bytes, text_eq, path_eq, list_beq}
use repolayer.Graph.Model.{Edge, Node, idl_method, implements, node_kind_beq}
use repolayer.Graph.Store.{Store}
use repolayer.Linker.Calls.{SourceFile}
use repolayer.Linker.IdlLinks.{idl_edges, methods_by_name, module_id, rate, is_server_side}
use repolayer.Linker.IdlLinks.Exact.{IsMethodEdge, idl_edge_bounds}
use repolayer.Linker.IdlLinks.Rules.{IsCalled}

abbrev node : Text → Node
node id = record {
  id = id;
  kind = idl_method;
  repo = bytes "idl";
  path = bytes "a.proto";
  symbol = some (bytes "S.GetUser");
  summary = none;
  visibility = none;
  native_kind = none;
  loc_start = none;
  loc_end = none;
  deprecated = false;
}

abbrev two_methods : Store
two_methods = record { nodes = node (bytes "m1") ∷ node (bytes "m2") ∷ []; edges = [] }

abbrev handler : SourceFile
handler = record {
  repo = bytes "api";
  root = bytes "r" ∷ [];
  path = bytes "r" ∷ bytes "handlers" ∷ bytes "user.go" ∷ [];
  content = some (bytes "func GetUser()");
}

abbrev any_lang : FilePath → Option ℕ
any_lang p = some 0

abbrev no_callees : Text → ℕ → List Text
no_callees content lang = []

abbrev all_hits : Text → List ℕ
all_hits content = 0 ∷ []

abbrev build : List Text → Option (Text → List ℕ)
build names = some all_hits

abbrev edges : List Edge
edges =
    idl_edges (λ t. t) (λ t. t) any_lang no_callees build (handler ∷ [])
      (methods_by_name two_methods)

abbrev to_first : Edge
to_first = record {
  source = module_id (λ t. t) (λ t. t) any_lang no_callees handler;
  target = bytes "m1";
  kind = implements;
  confidence = 20;
}

both_implemented : edges ≡ to_first ∷ record to_first { target = bytes "m2" } ∷ []
unfolding idl_edges methods_by_name update contains lookup list_beq node_kind_beq rate
    is_server_side
both_implemented = refl

idl_edge_bounds_example :
    (20 ≤ 20)
    × (20 ≤ 70)
    × ((f : SourceFile) × (short : Text) × (n : Node) × (f ∈ (handler ∷ []))
        × (n ∈ two_methods.nodes)
        × ((edge : IsMethodEdge
              (λ t. t)
              (λ t. t)
              any_lang
              no_callees
              all_hits
              two_methods
              f
              short
              n
              to_first)
            × (20 < 40 → 2 ≤ length edge.methods)
            × (40 < 20 → IsCalled (λ t. t) (λ t. t) any_lang no_callees f edge.content short)))
idl_edge_bounds_example =
    idl_edge_bounds (λ t. t) (λ t. t) any_lang no_callees build (handler ∷ []) two_methods all_hits
      to_first refl (subst (λ l. to_first ∈ l) (sym both_implemented) (inl refl))
