-- ===== src/Deps/Build/Targets.antt =====
-- The targets that deduplication keeps.

use repolayer.Prelude.{◌≡◌, refl, ◌↔◌, ◌⊎◌, inl, inr, List, [], ◌∷◌, ◌++◌, map, arith}
use repolayer.Prelude.Tests.{Bool-cases, nat_eq}
use repolayer.Prelude.Lists.{◌∈◌, Distinct, mem-map-cases, mem-map}
use repolayer.Prelude.Dict.{contains, contains_iff}
use repolayer.Prelude.Text.{FilePath, text_eq, path_eq, path_beq_iff}
use repolayer.Deps.Graph.{DepEdge, retain_new}
use repolayer.Deps.Build.{dedup_after, dedup_sorted, edge_leb}
use repolayer.Prelude.Sort.{sort_by, mem-sort_by}

abbrev pub targets : List DepEdge → List FilePath
targets = map (λ e. e.target)

pub mem-targets-append_one :
    (es : List DepEdge) (e : DepEdge) (t : FilePath)
    → (t ∈ targets (es ++ e ∷ [])) ↔ ((t ∈ targets es) ⊎ (t ≡ e.target))
mem-targets-append_one [] e t = ground arith
mem-targets-append_one (x ∷ es) e t = ground (arith, mem-targets-append_one es e t)

mem-dedup_after :
    (kept : DepEdge) (es : List DepEdge) (t : FilePath)
    → ((t ≡ kept.target) ⊎ (t ∈ targets (dedup_after kept es)))
      ↔ ((t ≡ kept.target) ⊎ (t ∈ targets es))
unfolding dedup_after
mem-dedup_after kept [] t = ((λ h. h), (λ h. h))
mem-dedup_after kept (e ∷ es) t =
    ground
      (arith, path_beq_iff e.target kept.target, mem-dedup_after kept es t, mem-dedup_after e es t)

mem-dedup_sorted :
    (es : List DepEdge) (t : FilePath) → (t ∈ targets (dedup_sorted es)) ↔ (t ∈ targets es)
unfolding dedup_sorted
mem-dedup_sorted [] t = ((λ h. h), (λ h. h))
mem-dedup_sorted (e ∷ es) t = mem-dedup_after e es t

-- Sorting and dropping neighbours of one target and kind keeps the set of targets.
pub mem-targets-sorted :
    (es : List DepEdge) (t : FilePath)
    → (t ∈ targets (dedup_sorted (sort_by edge_leb es))) ↔ (t ∈ targets es)
mem-targets-sorted es t = (
  λ i.
      let (e, j, q) =
        mem-map-cases (λ e. e.target) (sort_by edge_leb es) t
          ((mem-dedup_sorted (sort_by edge_leb es) t).0 i) in
      rw q (mem-map (λ e. e.target) es e ((mem-sort_by edge_leb es e).0 j)),
  λ i.
      let (e, j, q) = mem-map-cases (λ e. e.target) es t i in
      (mem-dedup_sorted (sort_by edge_leb es) t).1
        (rw q (mem-map (λ e. e.target) (sort_by edge_leb es) e ((mem-sort_by edge_leb es e).1 j))),
)

pub mem-retain_new :
    (seen : List FilePath) (es : List DepEdge) (t : FilePath)
    → (t ∈ targets (retain_new seen es)) ↔ ((t ∈ targets es) × ¬ (t ∈ seen))
unfolding retain_new
mem-retain_new seen [] t = ground arith
mem-retain_new seen (e ∷ es) t = ground (
  arith,
  contains_iff seen e.target,
  mem-retain_new seen es t,
  mem-retain_new (e.target ∷ seen) es t,
  path_beq_iff t e.target,
  same,
)
  where
    same : t ≡ e.target → (t ∈ seen) ↔ (e.target ∈ seen)
    same q = rw q ((λ i. i), (λ i. i))

pub Distinct-retain_new :
    (seen : List FilePath) (es : List DepEdge) → Distinct (targets (retain_new seen es))
unfolding retain_new
Distinct-retain_new seen [] = tt
Distinct-retain_new seen (e ∷ es) = elim (Bool-cases (contains seen e.target)) [
  | inl t ↦ rw t (Distinct-retain_new seen es)
  | inr f ↦ rw f (
    λ i. ((mem-retain_new (e.target ∷ seen) es e.target).0 i).1 (inl refl),
    Distinct-retain_new (e.target ∷ seen) es,
  )
]
