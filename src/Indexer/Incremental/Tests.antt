-- ===== src/Indexer/Incremental/Tests.antt =====
-- A changed file that now imports another one, and a rebuild of the same graph.
use repolayer.Prelude.{◌≡◌, refl, inl, ⊎_elim, Bool, true, none, some, [], ◌∷◌, map}
use repolayer.Prelude.Tests.{nat_eq}
use repolayer.Prelude.Text.{Text, FilePath, bytes, text_eq, path_eq, join_slash, list_beq}
use repolayer.Deps.Graph.{DepEdge, DepGraph, bare, empty}
use repolayer.Deps.Build.{FileDepResult}
use repolayer.Deps.Store.{DepStore, replace_repo_graph, ForwardRow}
use repolayer.Indexer.Incremental.{keys_of_existing, update_deps}
use repolayer.Indexer.Incremental.Tracked.{Tracks}
use repolayer.Indexer.Incremental.Refines.{GraphImports, update_deps-Tracks, rebuild-Tracks}
use repolayer.Prelude.Rows.{where_rows}
use repolayer.Indexer.Incremental.Loops.{AreTrue}

abbrev a_file : FilePath
a_file = bytes "a" ∷ []

abbrev to_b : DepEdge
to_b = record { target = bytes "b" ∷ []; kind = bare; line = 1; local_name = none; raw_path = none }

abbrev result : FileDepResult
result = record { file = a_file; edges = to_b ∷ []; external = [] }

abbrev no_rows : DepStore
no_rows = record { forward_edges = []; external_imports = [] }

abbrev all_exist : FilePath → Bool
all_exist p = true

abbrev Before : Text → Text → Type 0
Before p t = ⊥

abbrev After : Text → Text → Type 0
After p t = (p ≡ bytes "a") × (t ≡ bytes "b")

abbrev updated : DepStore
updated = update_deps join_slash all_exist (bytes "api") (a_file ∷ []) (some (result ∷ [])) no_rows

abbrev ends : ForwardRow → Text × Text
ends r = (r.from_path, r.to_path)

one_row : map ends updated.forward_edges ≡ (bytes "a", bytes "b") ∷ []
unfolding update_deps list_beq join_slash
one_row = refl

nothing_tracked : Tracks (bytes "api") no_rows Before
nothing_tracked p t = (λ (x, i, _, _, _). absurd i, λ e. absurd e)

result_true : AreTrue join_slash (bytes "api") After (result ∷ [])
unfolding join_slash
result_true r i t =
    ⊎_elim (λ same. rw same (⊎_elim (λ at. (refl, at)) (λ j. absurd j), λ (_, at). inl at))
      (λ j. absurd j) i

update_deps-Tracks_example : Tracks (bytes "api") updated After
unfolding keys_of_existing where_rows join_slash
update_deps-Tracks_example =
    update_deps-Tracks join_slash all_exist (bytes "api") (a_file ∷ []) (result ∷ []) no_rows Before
      After nothing_tracked result_true
      (λ p other t. (λ e. absurd e, λ (at, _). absurd (other (inl at)))) (λ p i. inl i)
      (λ p i absent t a. absent i)

abbrev a_graph : DepGraph
a_graph = record (empty (bytes "1") 0 []) { forward = (a_file, to_b ∷ []) ∷ [] }

rebuild-Tracks_example :
    Tracks
      (bytes "api")
      (replace_repo_graph join_slash (bytes "api") a_graph no_rows)
      (GraphImports join_slash (bytes "api") a_graph)
rebuild-Tracks_example = rebuild-Tracks join_slash (bytes "api") a_graph no_rows
