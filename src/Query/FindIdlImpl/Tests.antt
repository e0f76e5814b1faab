-- ===== src/Query/FindIdlImpl/Tests.antt =====
-- An interface method with one implementation, one ambiguous one and one invocation.

use repolayer.Prelude.{◌≡◌, refl, Bool, true, false, none, some, [], ◌∷◌, map}
use repolayer.Prelude.Tests.{nat_eq}
use repolayer.Prelude.Text.{Text, bytes, text_eq, path_eq, list_beq}
use repolayer.Graph.Model.{
  NodeKind, Node, idl_method, edge_kind_beq, module_node, implements, node_kind_beq, invokes,
}
use repolayer.Graph.Store.{Store, find_idl_methods_by_name}
use repolayer.Query.FindIdlImpl.{FindIdlImplArgs, find_idl_impl}
use repolayer.Query.FindIdlImpl.Exact.{Answers, find_idl_impl-Answers}

abbrev node : Text → NodeKind → Node
node id kind = record {
  id = id;
  kind = kind;
  repo = bytes "api";
  path = bytes "f.go";
  symbol = some id;
  summary = none;
  visibility = none;
  native_kind = none;
  loc_start = some 3;
  loc_end = none;
  deprecated = false;
}

abbrev idl_store : Store
idl_store = record {
  nodes =
      node (bytes "S.Get") idl_method
      ∷ node (bytes "a") module_node
      ∷ node (bytes "b") module_node
      ∷ [];
  edges =
      (record { source = bytes "a"; target = bytes "S.Get"; kind = implements; confidence = 40 })
      ∷ (record { source = bytes "b"; target = bytes "S.Get"; kind = implements; confidence = 70 })
      ∷ (record {
        source = bytes "gone";
        target = bytes "S.Get";
        kind = implements;
        confidence = 70;
      })
      ∷ (record { source = bytes "b"; target = bytes "S.Get"; kind = invokes; confidence = 70 })
      ∷ [];
}

abbrev args : FindIdlImplArgs
args = record {
  method = bytes "Get";
  service = none;
  include_invokes = false;
  include_implements = true;
}

abbrev anything : Text → Text → Bool
anything pattern value = true

both_found :
    map (λ l. l.confidence) (find_idl_impl idl_store anything args).implements ≡ 70 ∷ 40 ∷ []
unfolding find_idl_impl list_beq edge_kind_beq node_kind_beq
both_found = refl

find_idl_impl-Answers_example :
    Answers idl_store
      (find_idl_methods_by_name anything idl_store args.method args.service)
      args
      (find_idl_impl idl_store anything args)
find_idl_impl-Answers_example = find_idl_impl-Answers idl_store anything args
