-- ===== src/Deps/Traverse/Exact.antt =====
-- The result of `bfs` against walks: what is found, and at which depth.
use repolayer.Deps.Traverse.Rounds.{Inv, Inv-begin, loop-Inv}
use repolayer.Prelude.{
  ℕ, ◌≤◌, ◌<◌, false, ◌≡◌, refl, ap, inl, inr, some, List, [], ◌∷◌, map, arith, ⊎_elim, subst, sym,
  ◌⊎◌,
}
use mathlib.Core.Option.{some-injective}
use mathlib.Core.List.{append-nil}
use repolayer.Prelude.Tests.{leb, Bool-cases, Option-cases, nat_beq}
use repolayer.Prelude.Lists.{◌∈◌, Distinct, mem-map-cases, mem-map}
use repolayer.Prelude.Text.{FilePath}
use repolayer.Deps.Graph.{DepEdge}
use repolayer.Deps.Traverse.{Search, loop, begin, bfs, DepHit}
use repolayer.Deps.Traverse.Walk.{Walk, here, step}
use repolayer.Deps.Traverse.Visit.{Entry, entry, entries, names, mem-names}

-- a list with distinct names gives each name one depth
one_depth :
    (l : List Entry) (v : FilePath) (a b : ℕ) → Distinct (names l) → (v, a) ∈ l → (v, b) ∈ l → a ≡ b
one_depth [] v a b h i j = absurd i
one_depth (x ∷ l) v a b h (inl p) (inl q) = cc
one_depth (x ∷ l) v a b h (inl p) (inr j) =
    absurd (h.0 (rw (← ap (λ y. y.0) p) (mem-names (v, b) l j)))
one_depth (x ∷ l) v a b h (inr i) (inl q) =
    absurd (h.0 (rw (← ap (λ y. y.0) q) (mem-names (v, a) l i)))
one_depth (x ∷ l) v a b h (inr i) (inr j) = one_depth l v a b h.1 i j

module _ (edges_at : FilePath → List DepEdge) (start : FilePath) (max_depth : ℕ) where
  -- With every entry popped, a walk within the bound ends at an entry no deeper than its length.
  complete :
      (all : List Entry) (t : Search)
      → Inv edges_at start max_depth all t
      → t.q ≡ []
      → {v : FilePath} {n : ℕ} → Walk edges_at start v n
      → n ≤ max_depth
      → (k : ℕ) × ((v, k) ∈ entries start t.out) × (k ≤ n)
  unfolding entries
  complete all t inv done here le = (0, inl refl, omega arith)
  complete all t inv done (step {u} {v} {n} w lead) le =
      let (k, at, k_le) = complete all t inv done w (omega arith) in
      let popped : (u, k) ∈ all = rw (← append-nil all, ← done, ← inv.split) at in
      let (j, j_at, j_le) = inv.closed (u, k) popped (omega arith) v lead in (j, j_at, omega arith)

  -- What `bfs` reports.
  pub record Finds (hits : List DepHit) : Type 0 where
    pub sound :
        (h : DepHit)
        → h ∈ hits
        → Walk edges_at start h.file h.depth × (0 < h.depth) × (h.depth ≤ max_depth)
    pub complete :
        (v : FilePath) (n : ℕ)
        → Walk edges_at start v n
        → n ≤ max_depth
        → (v ≡ start) ⊎ (h : DepHit) × (h ∈ hits) × (h.file ≡ v)
    pub shortest : (h : DepHit) → h ∈ hits → (n : ℕ) → Walk edges_at start h.file n → h.depth ≤ n
    pub distinct : Distinct (start ∷ map (λ h. h.file) hits)

  walk_zero : {v : FilePath} {n : ℕ} → Walk edges_at start v n → n ≡ 0 → v ≡ start
  walk_zero here e = refl
  walk_zero (step w lead) e = absurd (omega arith)

  Inv-Finds :
      (all : List Entry) (t : Search) → Inv edges_at start max_depth all t → t.q ≡ [] → Finds t.out
  unfolding entries
  Inv-Finds all t inv done = record {
    sound = λ h i.
        let at = inr (mem-map entry t.out h i) in
        (inv.walks (entry h) at, positive h i (inv.walks (entry h) at), inv.shallow (entry h) at);
    complete = λ v n w le.
        let (k, at, _) = complete all t inv done w le in
        ⊎_elim (λ same. inl (ap (λ x. x.0) same)) (λ m. inr (as_hit v k m)) at;
    shortest = λ h i n w. elim (Bool-cases (leb n max_depth)) [
      | inl near ↦
          let (k, at, le) = complete all t inv done w (ground arith) in
          let same =
            one_depth (entries start t.out) h.file h.depth k inv.distinct
              (inr (mem-map entry t.out h i)) at in
          omega arith
      | inr far ↦ le_far h n (inv.shallow (entry h) (inr (mem-map entry t.out h i))) far
    ];
    distinct = subst Distinct names-entries inv.distinct;
  }
    where
      names-map : (out : List DepHit) → names (map entry out) ≡ map (λ h. h.file) out
      names-map [] = refl
      names-map (h ∷ out) = ap (λ l. h.file ∷ l) (names-map out)

      names-entries : names (entries start t.out) ≡ start ∷ map (λ h. h.file) t.out
      names-entries = ap (λ l. start ∷ l) (names-map t.out)

      positive : (h : DepHit) → h ∈ t.out → Walk edges_at start h.file h.depth → 0 < h.depth
      positive h i w = elim (Bool-cases (nat_beq h.depth 0)) [
        | inl zero_depth ↦ absurd (
            inv.distinct.0 (
              rw (← walk_zero w (ground arith))
                (mem-names (entry h) (map entry t.out) (mem-map entry t.out h i))))
        | inr more ↦ ground arith
      ]

      as_hit :
          (v : FilePath) (k : ℕ)
          → (v, k) ∈ map entry t.out
          → (h : DepHit) × (h ∈ t.out) × (h.file ≡ v)
      as_hit v k m =
          let (h, i, e) = mem-map-cases entry t.out (v, k) m in (h, i, ap (λ x. x.0) (sym e))

      le_far : (h : DepHit) (n : ℕ) → h.depth ≤ max_depth → leb n max_depth ≡ false → h.depth ≤ n
      le_far h n near far = ground arith

  pub bfs-Finds :
      (fuel : ℕ) (hits : List DepHit) → bfs fuel start max_depth edges_at ≡ some hits → Finds hits
  unfolding bfs
  bfs-Finds fuel hits h = elim (Option-cases (loop edges_at max_depth fuel (begin start))) [
    | inl stuck ↦ absurd (cc (rw (stuck, bfs) at h))
    | inr (t, e) ↦
        let (all, inv, done) =
          loop-Inv edges_at start max_depth fuel [] (begin start) t
            (Inv-begin edges_at start max_depth) e in
        subst Finds (some-injective _ _ (rw (e, bfs) at h)) (Inv-Finds all t inv done)
  ]
