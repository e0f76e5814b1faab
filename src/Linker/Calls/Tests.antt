-- ===== src/Linker/Calls/Tests.antt =====
-- One file that calls one function.

use repolayer.Prelude.{ℕ, ◌≡◌, refl, false, Option, none, some, List, [], ◌∷◌}
use repolayer.Prelude.Tests.{nat_eq}
use repolayer.Prelude.Dict.{contains, lookup, update}
use repolayer.Prelude.Text.{Text, FilePath, bytes, text_eq, path_eq, list_beq}
use repolayer.Graph.Model.{Edge, Node, function, node_kind_beq}
use repolayer.Graph.Store.{Store}
use repolayer.Linker.Calls.{SourceFile, call_edges, link_all, unique_by_name, module_of}
use repolayer.Graph.Store.Edges.{IsValid}
use repolayer.Linker.Calls.Exact.{call_to}
use repolayer.Linker.Calls.Stored.{link_all_adds, IsLinked}

abbrev node : Node
node = record {
  id = bytes "f1";
  kind = function;
  repo = bytes "api";
  path = bytes "lib.rs";
  symbol = some (bytes "load_all");
  summary = none;
  visibility = none;
  native_kind = none;
  loc_start = none;
  loc_end = none;
  deprecated = false;
}

abbrev one_function : Store
one_function = record { nodes = node ∷ []; edges = [] }

abbrev main_file : SourceFile
main_file = record {
  repo = bytes "api";
  root = bytes "r" ∷ [];
  path = bytes "r" ∷ bytes "main.rs" ∷ [];
  content = some (bytes "load_all()");
}

abbrev any_lang : FilePath → Option ℕ
any_lang p = some 0

abbrev callees : Text → ℕ → List Text
callees content lang = bytes "load_all" ∷ []

abbrev all_hits : Text → List ℕ
all_hits content = 0 ∷ []

abbrev build : List Text → Option (Text → List ℕ)
build names = some all_hits

abbrev found_edge : Edge
found_edge = call_to (module_of (λ t. t) any_lang callees main_file).id (bytes "f1")

one_call :
    call_edges (λ t. t) any_lang callees build (main_file ∷ []) (unique_by_name one_function)
    ≡ found_edge ∷ []
unfolding call_edges unique_by_name update contains lookup list_beq node_kind_beq
one_call = refl

one_function-IsValid : IsValid one_function
one_function-IsValid = record { ids_distinct = ((λ m. m), tt); keys_distinct = tt }

link_all_adds_example :
    IsLinked
      (λ t. t)
      any_lang
      callees
      build
      (main_file ∷ [])
      one_function
      (link_all (λ t. t) any_lang callees build (main_file ∷ []) one_function).0
      (link_all (λ t. t) any_lang callees build (main_file ∷ []) one_function).1
link_all_adds_example =
    link_all_adds (λ t. t) any_lang callees build (main_file ∷ []) one_function one_function-IsValid
