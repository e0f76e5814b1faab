-- ===== src/Deps/Store/Tests.antt =====
-- A small database, and the theorems on it.
use repolayer.Prelude.{
  ℕ, ◌≡◌, refl, ap, subst, ◌≢◌, ◌↔◌, ◌⊎◌, ⊎_elim, none, some, List, [], ◌∷◌, ◌++◌, map, arith,
}
use repolayer.Prelude.Tests.{nat_beq, if◌then◌else◌, nat_eq}
use repolayer.Prelude.Lists.{◌∈◌}
use repolayer.Prelude.Text.{Text, FilePath, bytes, text_eq, path_eq, list_beq}
use repolayer.Deps.Graph.{DepEdge, DepGraph, empty, use_stmt}
use repolayer.Deps.Store.{
  DepStore, load_repo_graph, forward_row, parse_import_kind, replace_repo_graph, external_row,
  upsert_file_edges, ForwardRow, delete_file, ExternalRow, external_rows,
}
use repolayer.Deps.Store.RoundTrip.{Storable, load-replace_repo_graph}
use repolayer.Deps.Store.Put.{Holds, rows_of}
use repolayer.Deps.Store.Load.{listed}
use repolayer.Deps.Store.Isolation.{other_repo_untouched, upsert_file_edges_exact}

-- paths with `/` after each component, and back
abbrev slashed : FilePath → Text
slashed [] = []
slashed (c ∷ p) = c ++ (47 ∷ slashed p)

abbrev extend : ℕ → FilePath → FilePath
extend c [] = (c ∷ []) ∷ []
extend c (t ∷ p) = (c ∷ t) ∷ p

abbrev split_at_slash : Text → FilePath
split_at_slash [] = []
split_at_slash (c ∷ t) =
    let rest = split_at_slash t in if nat_beq c 47 then [] ∷ rest else extend c rest

abbrev main_file : FilePath
main_file = bytes "src" ∷ bytes "main.rs" ∷ []

abbrev lib_file : FilePath
lib_file = bytes "src" ∷ bytes "lib.rs" ∷ []

abbrev use_lib : DepEdge
use_lib = record {
  target = lib_file;
  kind = use_stmt;
  line = 3;
  local_name = none;
  raw_path = some (bytes "crate::lib");
}

abbrev small_graph : DepGraph
small_graph = record (empty (bytes "v1") 7 main_file) {
  forward = (main_file, use_lib ∷ []) ∷ [];
  external = (main_file, bytes "serde" ∷ []) ∷ [];
}

abbrev app : Text
app = bytes "app"

abbrev old_store : DepStore
old_store = record {
  forward_edges =
      forward_row slashed app (bytes "old.rs/") use_lib
      ∷ forward_row slashed (bytes "web") (bytes "a/") use_lib
      ∷ [];
  external_imports = external_row (bytes "web") (bytes "a/") (bytes "react") ∷ [];
}

bad_kind :
    load_repo_graph split_at_slash (bytes "v1") 0 app main_file (record {
      forward_edges =
          (record (forward_row slashed app (bytes "a/") use_lib) { edge_kind = bytes "goto" }) ∷ [];
      external_imports = [];
    })
    ≡ none
unfolding load_repo_graph parse_import_kind list_beq
bad_kind = refl

only_edge :
    (p : FilePath) (e : DepEdge) → Holds small_graph.forward p e → (p ≡ main_file) × (e ≡ use_lib)
unfolding empty
only_edge p e (vs, i, j) =
    (ap (λ (q : FilePath × List DepEdge). q.0) (here i), ⊎_elim (λ s. s) absurd edge_i)
  where
    here :
        (p, vs) ∈ small_graph.forward
        → ◌≡◌ {A = FilePath × List DepEdge} (p, vs) (main_file, use_lib ∷ [])
    here k = ⊎_elim (λ s. s) absurd k

    edge_i : e ∈ (use_lib ∷ [])
    edge_i = subst (λ (q : FilePath × List DepEdge). e ∈ q.1) (here i) j

only_external : (p : FilePath) (raw : Text) → Holds small_graph.external p raw → p ≡ main_file
unfolding empty
only_external p raw (vs, i, j) = ap (λ (q : FilePath × List Text). q.0) (⊎_elim (λ s. s) absurd i)

small_graph-Storable : Storable slashed split_at_slash app small_graph
unfolding rows_of
small_graph-Storable = record {
  keys_distinct = ((λ m. m), tt);
  files_kept = λ p e h. rw ((only_edge p e h).0) refl;
  targets_kept = λ p e h. rw ((only_edge p e h).1) refl;
  lines_small = λ p e h. rw ((only_edge p e h).1) (omega arith);
  externals_kept = λ p raw h. rw (only_external p raw h) refl;
}

load-replace_repo_graph_example :
    (h : DepGraph) × (load_repo_graph split_at_slash
        (bytes "v1")
        9
        app
        main_file
        (replace_repo_graph slashed app small_graph old_store)
      ≡ some h)
    × ((p : FilePath) (e : DepEdge) → (e ∈ listed h.forward p) ↔ Holds small_graph.forward p e)
    × ((p : FilePath) (raw : Text) → (raw ∈ listed h.external p) ↔ Holds small_graph.external p raw)
load-replace_repo_graph_example =
    load-replace_repo_graph slashed split_at_slash app small_graph old_store small_graph-Storable
      (bytes "v1") 9 main_file

upsert_file_edges_exact_example :
    let s = upsert_file_edges slashed app (bytes "old.rs/") (use_lib ∷ []) [] old_store in
    ((x : ForwardRow)
      → (x ∈ s.forward_edges) ↔ (
          (x ∈ map (forward_row slashed app (bytes "old.rs/")) (use_lib ∷ []))
          ⊎ ((x ∈ old_store.forward_edges) × ¬ ((x.repo ≡ app) × (x.from_path ≡ bytes "old.rs/")))))
    × ((x : ExternalRow)
        → (x ∈ s.external_imports) ↔ (
            (x ∈ external_rows app (bytes "old.rs/") [])
            ⊎ ((x ∈ old_store.external_imports)
                × ¬ ((x.repo ≡ app) × (x.from_path ≡ bytes "old.rs/")))))
upsert_file_edges_exact_example =
    upsert_file_edges_exact slashed app (bytes "old.rs/") (use_lib ∷ []) [] old_store ((λ m. m), tt)

app_not_web : app ≢ bytes "web"
app_not_web e = ground (arith, e)

other_repo_untouched_example :
    (load_repo_graph split_at_slash
        (bytes "v1")
        9
        (bytes "web")
        main_file
        (replace_repo_graph slashed app small_graph old_store)
      ≡ load_repo_graph split_at_slash (bytes "v1") 9 (bytes "web") main_file old_store)
    × (load_repo_graph split_at_slash
          (bytes "v1")
          9
          (bytes "web")
          main_file
          (upsert_file_edges slashed app (bytes "a/") (use_lib ∷ []) [] old_store)
        ≡ load_repo_graph split_at_slash (bytes "v1") 9 (bytes "web") main_file old_store)
    × (load_repo_graph split_at_slash
          (bytes "v1")
          9
          (bytes "web")
          main_file
          (delete_file app (bytes "a/") old_store)
        ≡ load_repo_graph split_at_slash (bytes "v1") 9 (bytes "web") main_file old_store)
other_repo_untouched_example =
    other_repo_untouched slashed split_at_slash (bytes "v1") 9 main_file app (bytes "web")
      (bytes "a/") small_graph (use_lib ∷ []) [] old_store app_not_web
