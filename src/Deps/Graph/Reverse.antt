-- ===== src/Deps/Graph/Reverse.antt =====
-- `reverse_adjacency` against the edges of `forward`.
use repolayer.Prelude.{◌≡◌, ◌↔◌, ◌⊎◌, inl, inr, ⊎_elim, List, [], ◌∷◌, ◌++◌, map, arith}
use repolayer.Prelude.Lists.{◌∈◌, mem-append_one}
use repolayer.Prelude.Dict.{Dict, lookup, update, or_default, lookup-update}
use repolayer.Prelude.Text.{FilePath, path_eq, path_leb, path_beq_iff}
use repolayer.Prelude.Sort.{sort_by, mem-sort_by, mem-dedup}
use repolayer.Deps.Graph.{
  DepEdge, DepGraph, Imports, add_importers, invert, tidy, reverse_adjacency,
}

-- the value at a key, empty where there is none
abbrev pub row : Dict FilePath (List FilePath) → FilePath → List FilePath
row rev t = or_default [] (lookup t rev)

mem-add_importers :
    (src : FilePath) (edges : List DepEdge) (rev : Dict FilePath (List FilePath)) (a t : FilePath)
    → (a ∈ row (add_importers src edges rev) t)
      ↔ ((a ∈ row rev t) ⊎ (src ≡ a) × (t ∈ map (λ e. e.target) edges))
unfolding add_importers
mem-add_importers src [] rev a t = (inl, ⊎_elim (λ m. m) (λ p. absurd p.1))
mem-add_importers src (e ∷ edges) rev a t = ground (
  arith,
  mem-add_importers src edges (update e.target [] (λ v. v ++ src ∷ []) rev) a t,
  lookup-update e.target t [] (λ v. v ++ src ∷ []) rev,
  path_beq_iff e.target t,
  mem-append_one a src (row rev t),
)

mem-invert :
    (fwd : Dict FilePath (List DepEdge)) (rev : Dict FilePath (List FilePath)) (a t : FilePath)
    → (a ∈ row (invert fwd rev) t) ↔ ((a ∈ row rev t) ⊎ Imports fwd a t)
unfolding invert
mem-invert [] rev a t = (inl, ⊎_elim (λ m. m) (λ p. absurd p))
mem-invert ((src, edges) ∷ rest) rev a t =
    ground (
      arith,
      mem-invert rest (add_importers src edges rev) a t,
      mem-add_importers src edges rev a t,
    )

row-tidy :
    (rev : Dict FilePath (List FilePath)) (a t : FilePath)
    → (a ∈ row (tidy rev) t) ↔ (a ∈ row rev t)
unfolding tidy lookup
row-tidy [] a t = (λ h. h, λ h. h)
row-tidy ((k, v) ∷ rest) a t =
    ground (arith, row-tidy rest a t, mem-dedup (sort_by path_leb v) a, mem-sort_by path_leb v a)

-- A file stands in the reverse row of `t` exactly when one of its edges has the target `t`.
pub reverse_adjacency_exact :
    (g : DepGraph) (a t : FilePath) → (a ∈ row (reverse_adjacency g) t) ↔ Imports g.forward a t
unfolding reverse_adjacency lookup
reverse_adjacency_exact g a t = (
  λ m.
      ⊎_elim (λ none_yet. absurd none_yet) (λ edge. edge)
        ((mem-invert g.forward [] a t).0 ((row-tidy (invert g.forward []) a t).0 m)),
  λ edge. (row-tidy (invert g.forward []) a t).1 ((mem-invert g.forward [] a t).1 (inr edge)),
)
