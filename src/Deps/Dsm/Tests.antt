-- ===== src/Deps/Dsm/Tests.antt =====
-- `a` imports `b`.
use repolayer.Deps.Graph.{bare, empty, DepEdge, DepGraph}
use repolayer.Prelude.{ℕ, ◌≡◌, refl, true, false, none, [], ◌∷◌}
use repolayer.Prelude.Tests.{nat_eq}
use repolayer.Prelude.Dict.{Dict, lookup}
use repolayer.Prelude.Text.{FilePath, bytes, text_eq, path_eq, list_beq}
use repolayer.Deps.Dsm.{build, file_leb}
use repolayer.Prelude.Sort.{sort_by}

abbrev a_file : FilePath
a_file = bytes "a" ∷ []

abbrev b_file : FilePath
b_file = bytes "b" ∷ []

abbrev to_b : DepEdge
to_b = record { target = b_file; kind = bare; line = 1; local_name = none; raw_path = none }

abbrev two_files : DepGraph
two_files = record (empty (bytes "1") 0 []) { forward = (a_file, to_b ∷ []) ∷ (b_file, []) ∷ [] }

abbrev levels_map : Dict FilePath ℕ
levels_map = (a_file, 1) ∷ (b_file, 0) ∷ []

leaf_first : (build levels_map two_files).files ≡ b_file ∷ a_file ∷ []
unfolding build sort_by file_leb lookup list_beq
leaf_first = refl

one_cell : (build levels_map two_files).cells ≡ (false ∷ false ∷ []) ∷ (true ∷ false ∷ []) ∷ []
unfolding build sort_by file_leb lookup list_beq
one_cell = refl
