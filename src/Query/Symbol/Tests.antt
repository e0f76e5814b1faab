-- ===== src/Query/Symbol/Tests.antt =====
-- `top` calls `low`.
use repolayer.Prelude.{◌≡◌, refl, Bool, true, false, none, some, [], ◌∷◌}
use repolayer.Prelude.Tests.{nat_eq}
use repolayer.Prelude.Text.{Text, bytes, text_eq, path_eq, list_beq}
use repolayer.Graph.Model.{Node, calls, function, edge_kind_beq}
use repolayer.Graph.Store.{Store, get_node}
use repolayer.Query.Symbol.{get_symbol}

abbrev node : Text → Node
node id = record {
  id = id;
  kind = function;
  repo = bytes "api";
  path = bytes "f.go";
  symbol = some id;
  summary = none;
  visibility = none;
  native_kind = none;
  loc_start = none;
  loc_end = none;
  deprecated = false;
}

abbrev call_store : Store
call_store = record {
  nodes = node (bytes "low") ∷ node (bytes "top") ∷ [];
  edges =
      (record { source = bytes "top"; target = bytes "low"; kind = calls; confidence = 100 }) ∷ [];
}

abbrev anything : Text → Text → Bool
anything pattern value = true

low_answer :
    get_symbol call_store anything (bytes "low") none
    ≡ some (record { symbol = node (bytes "low"); callers = node (bytes "top") ∷ []; callees = [] })
unfolding get_symbol get_node list_beq edge_kind_beq
low_answer = refl
