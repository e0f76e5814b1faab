-- ===== src/Linker/Calls/Stored.antt =====
-- What `CallsLinker::link_all` leaves in the store.

use repolayer.Prelude.Dict.{keys}
use repolayer.Prelude.Text.{FilePath, Text, path_eq, text_eq}
use repolayer.Prelude.Lists.{Distinct, length, ◌∈◌}
use repolayer.Prelude.Tests.{nat_eq}
use repolayer.Prelude.{List, Option, [], arith, map, none, ℕ, ◌↔◌, ◌≡◌, ◌⊎◌}
use repolayer.Linker.Calls.{link_all, SourceFile, call_edges, unique_by_name, scan_file}
use repolayer.Linker.Calls.Once.{Distinct-scan_file}
use repolayer.Linker.Calls.Exact.{call_edges-mem}
use repolayer.Graph.Store.{Store}
use repolayer.Graph.Store.Edges.{IsValid, key}
use repolayer.Linker.Upserts.{mem-upsert_all, upsert_all_lem}
use repolayer.Graph.Model.{Edge, calls, new_node, module_node}

module _ (digest : Text → Text) {Language : Type 0} (lang_of : FilePath → Option Language)
    (collect_call_callees : Text → Language → List Text)
    (build : List Text → Option (Text → List ℕ)) (files : List SourceFile) (s : Store) where
  abbrev new_edges : List Edge
  new_edges = call_edges digest lang_of collect_call_callees build files (unique_by_name s)

  -- The store and the count after the pass, where the store was `s` before it.
  pub record IsLinked (after : Store) (count : ℕ) : Type 0 where
    pub valid : IsValid after
    pub same_nodes : after.nodes ≡ s.nodes
    pub counted : count ≡ length new_edges
    pub rows :
        (e : Edge)
        → (e ∈ after.edges) ↔ ((e ∈ new_edges) ⊎ ((e ∈ s.edges) × (¬ (key e ∈ map key new_edges))))
    pub no_repeats :
        (find_iter : Text → List ℕ) (f : SourceFile)
        → Distinct (
            scan_file digest lang_of collect_call_callees find_iter
              (keys (unique_by_name s))
              (unique_by_name s)
              f)

  -- An edge of the pass is known by its key.
  new_edges-one : (a b : Edge) → a ∈ new_edges → b ∈ new_edges → key a ≡ key b → a ≡ b
  new_edges-one a b i j same =
      let (_, f, _, _, (_, m, _, _, to_m)) =
        (call_edges-mem digest lang_of collect_call_callees build files (unique_by_name s) a).0 i in
      let (_, g, _, _, (_, n, _, _, to_n)) =
        (call_edges-mem digest lang_of collect_call_callees build files (unique_by_name s) b).0 j in
      cc (same, to_m, to_n)

-- The pass keeps the primary keys distinct and leaves the nodes alone. It returns the number of edges
-- it found, where no file gives an edge twice, and afterwards the rows of the store, with their
-- confidence, are the edges that the pass found and the old rows that have another key.
pub link_all_adds :
    (digest : Text → Text) {Language : Type 0} (lang_of : FilePath → Option Language)
    (collect_call_callees : Text → Language → List Text)
    (build : List Text → Option (Text → List ℕ)) (files : List SourceFile) (s : Store)
    → IsValid s
    → IsLinked digest lang_of collect_call_callees build files s
        (link_all digest lang_of collect_call_callees build files s).0
        (link_all digest lang_of collect_call_callees build files s).1
unfolding link_all
link_all_adds digest lang_of callees build files s v =
    let edges = call_edges digest lang_of callees build files (unique_by_name s) in
    let (valid, nodes, count, _) =
      upsert_all_lem edges (s, 0) ([], [], calls) (new_node digest module_node [] [] none) v in
    record {
      valid = valid;
      same_nodes = nodes;
      counted = omega (arith, count);
      no_repeats = λ find_iter f. Distinct-scan_file digest lang_of callees find_iter s f v;
      rows =
          λ e. mem-upsert_all edges (s, 0) e v (new_edges-one digest lang_of callees build files s);
    }
