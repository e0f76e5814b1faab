-- ===== src/Deps/Dsm.antt =====
-- src/deps/dsm.rs: the matrix of the imports between the files of a graph, in the order of their
-- levels, which `compute_levels` gives.
pub mod Cells
pub mod Exact
mod Tests
use repolayer.Prelude.{
  ℕ, zero, suc, ◌+◌, ◌-◌, ◌*◌, ◌/◌, ◌%◌, ◌^◌, ◌≤◌, ◌<◌, min, max, ◌≡◌, refl, sym, ap, ◌∙◌, subst,
  ◌≢◌, ◌↔◌, ◌⊎◌, inl, inr, ⊎_elim, Bool, true, false, not, ◌&&◌, ◌||◌, Option, none, some, List, [],
  ◌∷◌, ◌++◌, map, arith,
}
use repolayer.Prelude.Tests.{
  ltb, leb, nat_beq, if◌then◌else◌, nat_beq_iff, Bool-cases, Option-cases, PartialEq, ◌==◌, nat_eq,
  beq-cases, beq_refl, beq_of_ne,
}
use repolayer.Prelude.Lists.{
  length, get_elem?, get_or, set, take, drop, replicate, ◌∈◌, All, Distinct,
}
use repolayer.Prelude.Dict.{Dict, contains, lookup, insert, update, keys, or_default}
use repolayer.Prelude.Text.{
  Text, FilePath, bytes, text_eq, path_eq, text_beq_iff, path_beq_iff, starts_with, path_leb,
}
use repolayer.Deps.Graph.{DepEdge, DepGraph}
use repolayer.Prelude.Sort.{sort_by}

pub record Dsm : Type 0 where
  pub files : List FilePath
  pub cells : List (List Bool)
  pub levels : List ℕ

-- `levels_map.get(f).copied().unwrap_or(0)`
unfoldable pub level_of : Dict FilePath ℕ → FilePath → ℕ
unfolding lookup
level_of levels_map f = or_default 0 (lookup f levels_map)

-- `la.cmp(&lb).then_with(|| a.cmp(b))` is not `Greater`
unfoldable pub file_leb : Dict FilePath ℕ → FilePath → FilePath → Bool
unfolding level_of path_leb
file_leb levels_map a b =
    ltb (level_of levels_map a) (level_of levels_map b)
    || (nat_beq (level_of levels_map a) (level_of levels_map b) && path_leb a b)

-- `pos.get(f)`, for the map from a file to its position
unfoldable pub position : FilePath → List FilePath → Option ℕ
position f [] = none
position f (g ∷ files) =
    let rest = position f files in
    if g == f then some 0 else elim rest [ none ↦ none | some i ↦ some (suc i) ]

-- `cells[i][j] = true`
unfoldable pub set_cell : ℕ → ℕ → List (List Bool) → List (List Bool)
set_cell i j cells = set cells i (set (get_or cells i []) j true)

-- `for e in edges`
unfoldable pub mark_edges : List FilePath → ℕ → List DepEdge → List (List Bool) → List (List Bool)
unfolding position set_cell
mark_edges files i [] cells = cells
mark_edges files i (e ∷ edges) cells =
    mark_edges files i edges
      (elim (position e.target files) [ none ↦ cells | some j ↦ set_cell i j cells ])

-- `for (src, edges) in &graph.forward`
unfoldable pub mark_files :
    List FilePath → Dict FilePath (List DepEdge) → List (List Bool) → List (List Bool)
unfolding mark_edges
mark_files files [] cells = cells
mark_files files ((src, edges) ∷ forward) cells =
    mark_files files forward
      (elim (position src files) [ none ↦ cells | some i ↦ mark_edges files i edges cells ])

-- `vec![vec![false; n]; n]`
abbrev pub no_cells : ℕ → List (List Bool)
no_cells n = replicate n (replicate n false)

-- `levels_map` is what `compute_levels(graph)` returns.
unfoldable pub build : Dict FilePath ℕ → DepGraph → Dsm
unfolding mark_files file_leb sort_by
build levels_map graph =
    let files = sort_by (file_leb levels_map) (keys graph.forward) in
    record {
      files = files;
      cells = mark_files files graph.forward (no_cells (length files));
      levels = map (level_of levels_map) files;
    }
