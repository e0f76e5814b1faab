-- ===== src/Deps/Traverse/Dual.antt =====
-- `forward` and `reverse` against the edges of the graph, and against one another.
use repolayer.Prelude.{
  ℕ, zero, suc, ◌≤◌, ◌≡◌, refl, sym, ap, ◌↔◌, inl, inr, some, List, [], ◌∷◌, map, arith,
}
use repolayer.Prelude.Tests.{ltb, Bool-cases, ◌==◌, nat_eq}
use repolayer.Prelude.Lists.{length, take, ◌∈◌, mem-append_left, mem-append_right}
use repolayer.Prelude.Dict.{Dict, lookup, or_default}
use repolayer.Prelude.Text.{FilePath, text_eq, path_eq}
use repolayer.Deps.Traverse.{
  forward_edges, reverse_edges, reverse_edge, forward, reverse, truncate, all_targets, rounds,
  DepHit,
}
use repolayer.Deps.Graph.Reverse.{reverse_adjacency_exact}
use repolayer.Deps.Graph.{Imports, reverse_adjacency, DepGraph, DepEdge}
use repolayer.Deps.Traverse.Exact.{Finds, bfs-Finds}
use repolayer.Deps.Traverse.Walk.{Leads}
use repolayer.Deps.Traverse.Total.{bfs_total}

Leads-in-targets :
    {A : Type 0} (f : A → FilePath) (m : Dict FilePath (List A)) (u v : FilePath)
    → v ∈ map f (or_default [] (lookup u m))
    → v ∈ all_targets f m
unfolding lookup
Leads-in-targets f [] u v i = i
Leads-in-targets f ((k, r) ∷ rest) u v i = elim (Bool-cases (k == u)) [
  | inl same ↦ mem-append_left v (map f r) (all_targets f rest) (rw same at i)
  | inr other ↦
      mem-append_right v (map f r) (all_targets f rest)
        (Leads-in-targets f rest u v (rw other at i))
]

-- a target of a reverse edge is an importer
reverse-targets : (l : List FilePath) → map (λ e. e.target) (map reverse_edge l) ≡ map (λ p. p) l
reverse-targets [] = refl
reverse-targets (x ∷ l) = ap (λ t. x ∷ t) (reverse-targets l)

map_same : (l : List FilePath) → map (λ p. p) l ≡ l
map_same [] = refl
map_same (x ∷ l) = ap (λ t. x ∷ t) (map_same l)

-- For every graph, start and bound the search for imports ends, and it reports exactly the files at
-- the end of a walk of at least one edge within the bound, the start excepted: each once, at the
-- length of the shortest such walk.
pub forward_exact :
    (g : DepGraph) (start : FilePath) (max_depth : ℕ)
    → (hits : List DepHit) × (forward g start max_depth ≡ some hits)
      × Finds (forward_edges g) start max_depth hits
unfolding forward
forward_exact g start max_depth =
    let targets = all_targets (λ (e : DepEdge). e.target) g.forward in
    let (hits, e) =
      bfs_total targets (forward_edges g) max_depth
        (λ u v. Leads-in-targets (λ (e : DepEdge). e.target) g.forward u v) start in
    (hits, e, bfs-Finds (forward_edges g) start max_depth (rounds targets) hits e)

take_all : (n : ℕ) (l : List DepHit) → length l ≤ n → take n l ≡ l
take_all zero [] h = refl
take_all zero (x ∷ l) h = absurd (omega arith)
take_all (suc n) [] h = refl
take_all (suc n) (x ∷ l) h = ap (λ t. x ∷ t) (take_all n l (omega arith))

truncate-eq-take : (limit : ℕ) (l : List DepHit) → truncate limit l ≡ take limit l
unfolding truncate
truncate-eq-take limit l = elim (Bool-cases (ltb limit (length l))) [
  | inl long ↦ rw long
  | inr short ↦ rw short (sym (take_all limit l (ground arith)))
]

-- The search for importers ends, and returns the first `limit` of a list that reports exactly the
-- files at the end of a walk of reversed edges from the start within the bound, each once, at the
-- length of the shortest such walk; a reversed edge leads from `u` to `v` exactly when `v` imports
-- `u`.
pub reverse_exact :
    (g : DepGraph) (start : FilePath) (max_depth limit : ℕ)
    → (hits : List DepHit) × (reverse g start max_depth limit ≡ some (take limit hits))
      × Finds (reverse_edges g) start max_depth hits
      × ((u v : FilePath) → Leads (reverse_edges g) u v ↔ Imports g.forward v u)
unfolding reverse
reverse_exact g start max_depth limit =
    let rev = reverse_adjacency g in
    let targets = all_targets (λ (p : FilePath). p) rev in
    let (hits, e) =
      bfs_total targets (reverse_edges g) max_depth
        (λ u v i. Leads-in-targets (λ (p : FilePath). p) rev u v (rw reverse-targets at i)) start in
    (
      hits,
      rw (e, reverse) (rw truncate-eq-take),
      bfs-Finds (reverse_edges g) start max_depth (rounds targets) hits e,
      λ u v. (
        λ i. (reverse_adjacency_exact g v u).0 (rw (reverse-targets, map_same) at i),
        λ i. rw (reverse-targets, map_same) ((reverse_adjacency_exact g v u).1 i),
      ),
    )
