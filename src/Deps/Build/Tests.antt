-- ===== src/Deps/Build/Tests.antt =====
-- A repository of two files, and the theorems on it.

use repolayer.Deps.Graph.{bare, named_from, star_from, DepEdge, ImportKind, empty, dedup_edges}
use repolayer.Prelude.{ℕ, ◌≡◌, refl, ◌↔◌, inl, inr, Option, none, some, List, [], ◌∷◌, map}
use repolayer.Prelude.Tests.{if◌then◌else◌, nat_eq}
use repolayer.Prelude.Lists.{length, ◌∈◌, Distinct}
use repolayer.Prelude.Dict.{Dict, contains, lookup, insert, or_default}
use repolayer.Prelude.Text.{Text, FilePath, bytes, text_eq, path_eq, list_beq, text_leb}
use repolayer.Deps.Build.{
  RawImport, build_for_files, build_for_repo, FileDepResult, build_for_file, resolve_file,
  add_imports, assemble, edge_leb, dedup_sorted,
}
use repolayer.Deps.Build.Targets.{targets}
use repolayer.Deps.Build.Exact.{LeadsTo, build_for_files-agrees, build_for_repo_exact}
use repolayer.Prelude.Sort.{sort_by}

abbrev main_file : FilePath
main_file = bytes "main.ts" ∷ []

abbrev util_file : FilePath
util_file = bytes "util.ts" ∷ []

abbrev import_of : Text → ImportKind → ℕ → RawImport
import_of spec kind line = record {
  spec = spec;
  kind = kind;
  line = line;
  statement = [];
  local_name = none;
  raw_path = none;
}

abbrev by_file : Dict FilePath Text
by_file = (main_file, bytes "ts") ∷ (util_file, bytes "ts") ∷ []

-- `main.ts` imports a package and, by two kinds, `util.ts`
abbrev extract : FilePath → Text → List RawImport
extract file lang =
    if list_beq file main_file
    then import_of (bytes "u") named_from 2
      ∷ import_of (bytes "react") bare 1
      ∷ import_of (bytes "u") star_from 3
      ∷ []
    else []

abbrev resolve : Text → FilePath → Text → Option FilePath
resolve spec file lang = if list_beq spec (bytes "u") then some util_file else none

abbrev edge_count : Option (List DepEdge) → ℕ
edge_count edges = length (or_default [] edges)

-- a full build keeps one edge per target
one_edge :
    edge_count (lookup main_file (build_for_repo by_file extract resolve [] 0 []).forward) ≡ 1
unfolding build_for_repo resolve_file add_imports assemble insert lookup empty dedup_edges list_beq
    contains
one_edge = refl

-- an update keeps one per target and kind
two_edges :
    map (λ r. length r.edges) (build_for_files by_file extract resolve (main_file ∷ [])) ≡ 2 ∷ []
unfolding build_for_files build_for_file add_imports lookup list_beq sort_by edge_leb dedup_sorted
    text_leb
two_edges = refl

main_known : lookup main_file by_file ≡ some (bytes "ts")
unfolding lookup list_beq
main_known = refl

build_for_repo_exact_example :
    (es : List DepEdge) × (lookup main_file (build_for_repo by_file extract resolve [] 0 []).forward
      ≡ some es)
    × Distinct (targets es)
    × ((t : FilePath)
        → (t ∈ targets es) ↔ (
            (ri : RawImport) × (ri ∈ extract main_file (bytes "ts"))
            × LeadsTo by_file extract resolve main_file (bytes "ts") t ri))
build_for_repo_exact_example =
    build_for_repo_exact by_file extract resolve main_file (bytes "ts") main_known [] 0 []

build_for_files-agrees_example :
    let g = build_for_repo by_file extract resolve [] 0 [] in
    (r : FileDepResult) × (r ∈ build_for_files by_file extract resolve (util_file ∷ main_file ∷ []))
    × (r.file ≡ main_file)
    × ((t : FilePath)
        → (t ∈ targets r.edges) ↔ (t ∈ targets (or_default [] (lookup main_file g.forward))))
    × (r.external ≡ or_default [] (lookup main_file g.external))
build_for_files-agrees_example =
    build_for_files-agrees by_file extract resolve main_file (bytes "ts") main_known [] 0 []
      (util_file ∷ main_file ∷ []) (inr (inl refl))
