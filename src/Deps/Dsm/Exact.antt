-- ===== src/Deps/Dsm/Exact.antt =====
-- The matrix against the graph that it is built from.
use repolayer.Prelude.{ℕ, ◌≡◌, ◌↔◌, true, some, List}
use repolayer.Prelude.Tests.{nat_eq}
use repolayer.Prelude.Lists.{length, get_elem?, ◌∈◌, Distinct}
use repolayer.Prelude.Dict.{Dict, keys}
use repolayer.Prelude.Text.{FilePath, text_eq, path_eq}
use repolayer.Deps.Dsm.{file_leb, Dsm, position}
use repolayer.Deps.Dsm.Cells.{IsSquare, cell}
use repolayer.Deps.Graph.{DepEdge, DepGraph}
use repolayer.Prelude.Sort.{IsSorted}

-- a marked edge of one entry of the graph
abbrev MarkedBy : List FilePath → ℕ → ℕ → FilePath × List DepEdge → Type 0
MarkedBy files a b entry =
    (e : DepEdge) × (e ∈ entry.1)
    × ((position entry.0 files ≡ some a) × (position e.target files ≡ some b))

-- What the matrix of a graph is.
pub record IsDsm (levels_map : Dict FilePath ℕ) (g : DepGraph) (d : Dsm) : Type 0 where
  pub same_files : (f : FilePath) → (f ∈ d.files) ↔ (f ∈ keys g.forward)
  pub once : Distinct d.files
  pub sorted : IsSorted (file_leb levels_map) d.files
  pub square : IsSquare (length d.files) d.cells
  pub marked :
      (a b : ℕ) (f h : FilePath)
      → get_elem? d.files a ≡ some f
      → get_elem? d.files b ≡ some h
      → (cell d.cells a b ≡ true) ↔ (
          (edges : List DepEdge) × ((f, edges) ∈ g.forward)
          × ((e : DepEdge) × (e ∈ edges) × (e.target ≡ h)))
