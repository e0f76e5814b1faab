-- ===== src/Deps/Traverse/Tests.antt =====
-- Tests and instances for the traversal: `a` imports `b` and `c`, `b` imports `c`, `c` imports `a`.
use repolayer.Prelude.{ℕ, ◌≡◌, refl, ◌↔◌, Option, none, some, List, [], ◌∷◌, map}
use repolayer.Prelude.Tests.{nat_eq}
use repolayer.Prelude.Lists.{take, ◌∈◌}
use repolayer.Prelude.Dict.{contains, lookup, update}
use repolayer.Prelude.Text.{FilePath, bytes, text_eq, path_eq, list_beq, path_leb}
use repolayer.Deps.Graph.{DepGraph, DepEdge, empty, named_from, Imports, reverse_adjacency}
use repolayer.Deps.Graph.Reverse.{row, reverse_adjacency_exact}
use repolayer.Deps.Traverse.{DepHit, forward, reverse, forward_edges, reverse_edges}
use repolayer.Deps.Traverse.Dual.{forward_exact, reverse_exact}
use repolayer.Deps.Traverse.Exact.{Finds}
use repolayer.Deps.Traverse.Walk.{Leads}
use repolayer.Prelude.Sort.{sort_by, dedup}

abbrev a : FilePath
a = bytes "src" ∷ bytes "a.ts" ∷ []

abbrev b : FilePath
b = bytes "src" ∷ bytes "b.ts" ∷ []

abbrev c : FilePath
c = bytes "src" ∷ bytes "c.ts" ∷ []

abbrev edge : FilePath → DepEdge
edge p = record { target = p; kind = named_from; line = 1; local_name = none; raw_path = none }

abbrev triangle : DepGraph
unfolding empty
triangle = record (empty (bytes "v1") 0 []) {
  forward = (a, edge b ∷ edge c ∷ []) ∷ (b, edge c ∷ []) ∷ (c, edge a ∷ []) ∷ [];
}

abbrev files_of : Option (List DepHit) → Option (List (FilePath × ℕ))
files_of none = none
files_of (some hits) = some (map (λ h. (h.file, h.depth)) hits)

forward_from_b : files_of (forward triangle b 5) ≡ some ((c, 1) ∷ (a, 2) ∷ [])
unfolding forward contains lookup list_beq empty
forward_from_b = refl

reverse_of_c : files_of (reverse triangle c 1 1) ≡ some ((a, 1) ∷ [])
unfolding reverse contains lookup update list_beq reverse_adjacency path_leb sort_by dedup empty
reverse_of_c = refl

forward_exact_example :
    (hits : List DepHit) × (forward triangle b 5 ≡ some hits)
    × Finds (forward_edges triangle) b 5 hits
forward_exact_example = forward_exact triangle b 5

reverse_exact_example :
    (hits : List DepHit) × (reverse triangle c 1 1 ≡ some (take 1 hits))
    × Finds (reverse_edges triangle) c 1 hits
    × ((u v : FilePath) → Leads (reverse_edges triangle) u v ↔ Imports triangle.forward v u)
reverse_exact_example = reverse_exact triangle c 1 1

reverse_adjacency_exact_example :
    (a ∈ row (reverse_adjacency triangle) c) ↔ Imports triangle.forward a c
reverse_adjacency_exact_example = reverse_adjacency_exact triangle a c
