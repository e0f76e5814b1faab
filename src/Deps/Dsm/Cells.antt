-- ===== src/Deps/Dsm/Cells.antt =====
-- The cells of a square matrix, and the loops that mark them.
use repolayer.Prelude.{
  ℕ, zero, suc, ◌<◌, ◌≡◌, refl, sym, ap, ◌∙◌, subst, ◌≢◌, ◌↔◌, ◌⊎◌, inl, inr, ⊎_elim, Bool, true,
  false, Option, none, some, List, [], ◌∷◌, arith,
}
use repolayer.Prelude.Tests.{Option-cases, nat_eq, beq-cases, beq_of_ne}
use repolayer.Prelude.Lists.{
  length, get_elem?, get_or, set, ◌∈◌, Distinct, get_or-set_self, exists_cons, get_or-set_ne,
  length-set,
}
use repolayer.Prelude.Text.{FilePath, text_eq, path_eq, path_beq_iff}
use repolayer.Deps.Dsm.{mark_edges, position, set_cell}
use repolayer.Deps.Graph.{DepEdge}

abbrev pub cell : List (List Bool) → ℕ → ℕ → Bool
cell cells a b = get_or (get_or cells a []) b false

abbrev pub IsSquare : ℕ → List (List Bool) → Type 0
IsSquare n cells = (length cells ≡ n) × ((a : ℕ) → a < n → length (get_or cells a []) ≡ n)

nat_cases : (a b : ℕ) → (a ≡ b) ⊎ (a ≢ b)
nat_cases a b = ⊎_elim (λ (_, e). inl e) (λ (_, ne). inr ne) (beq-cases a b)

set_cell_lem :
    (n i j : ℕ) (cells : List (List Bool))
    → IsSquare n cells
    → i < n
    → j < n
    → IsSquare n (set_cell i j cells)
      × ((a b : ℕ)
          → (cell (set_cell i j cells) a b ≡ true)
            ↔ ((cell cells a b ≡ true) ⊎ ((a ≡ i) × (b ≡ j))))
unfolding set_cell
set_cell_lem n i j cells (len, rows) hi hj = (
  (
    length-set cells i (set (get_or cells i []) j true) ∙ len,
    λ a ha.
        ⊎_elim
          (λ same. ap length (row_at a same) ∙ length-set (get_or cells i []) j true ∙ rows i hi)
          (λ other. ap length (row_ne a other) ∙ rows a ha) (nat_cases a i),
  ),
  λ a b.
      ⊎_elim
        (λ same.
          ⊎_elim
            (λ at.
              subst (λ x. (x ≡ true) ↔ ((cell cells a b ≡ true) ⊎ ((a ≡ i) × (b ≡ j))))
                (sym (
                  ap (λ (r : List Bool). get_or r b false) (row_at a same)
                  ∙ ap (λ y. get_or (set (get_or cells i []) j true) y false) at
                  ∙ get_or-set_self (get_or cells i []) j true false
                      (subst (λ m. j < m) (sym (rows i hi)) hj)))
                (λ _. inr (same, at), λ _. refl))
            (λ off.
              as_before a b (λ (_, at). off at)
                (ap (λ (r : List Bool). get_or r b false) (row_at a same)
                  ∙ get_or-set_ne (get_or cells i []) j b true false (λ e. off (sym e))
                  ∙ ap (λ x. cell cells x b) (sym same)))
            (nat_cases b j))
        (λ other.
          as_before a b (λ (at, _). other at)
            (ap (λ (r : List Bool). get_or r b false) (row_ne a other)))
        (nat_cases a i),
)
  where
    row_at : (a : ℕ) → a ≡ i → get_or (set_cell i j cells) a [] ≡ set (get_or cells i []) j true
    row_at a same =
        ap (λ x. get_or (set_cell i j cells) x []) same
        ∙ get_or-set_self cells i (set (get_or cells i []) j true) []
            (subst (λ m. i < m) (sym len) hi)

    row_ne : (a : ℕ) → a ≢ i → get_or (set_cell i j cells) a [] ≡ get_or cells a []
    row_ne a other =
        get_or-set_ne cells i a (set (get_or cells i []) j true) [] (λ e. other (sym e))

    as_before :
        (a b : ℕ)
        → ¬ ((a ≡ i) × (b ≡ j))
        → cell (set_cell i j cells) a b ≡ cell cells a b
        → (cell (set_cell i j cells) a b ≡ true) ↔ ((cell cells a b ≡ true) ⊎ ((a ≡ i) × (b ≡ j)))
    as_before a b apart e = (λ h. inl (sym e ∙ h), ⊎_elim (λ h. e ∙ h) (λ at. absurd (apart at)))

pub position-some :
    (f : FilePath) (files : List FilePath) (i : ℕ)
    → position f files ≡ some i
    → (i < length files) × (get_elem? files i ≡ some f)
unfolding position
position-some f [] i h = cc
position-some f (g ∷ files) i h = elim (beq-cases g f) [
  | inl (t, same) ↦
      subst (λ k. (k < suc (length files)) × (get_elem? (g ∷ files) k ≡ some f))
        (first_is (rw t at h)) (omega arith, ap some same)
  | inr (t, other) ↦ elim (Option-cases (position f files)) [
    | inl e ↦ absurd (nowhere (rw (t, e) at h))
    | inr (k, e) ↦
        let rest = position-some f files k e in
        subst (λ m. (m < suc (length files)) × (get_elem? (g ∷ files) m ≡ some f))
          (next_is k (rw (t, e) at h)) (omega (arith, rest.0), rest.1)
  ]
]
  where
    first_is : {m : ℕ} → some 0 ≡ some m → 0 ≡ m
    first_is e = cc e

    next_is : (k : ℕ) {m : ℕ} → some (suc k) ≡ some m → suc k ≡ m
    next_is k e = cc e

    nowhere : {m : ℕ} → ◌≡◌ {A = Option ℕ} none (some m) → ⊥
    nowhere e = cc e

get_elem?-mem :
    (f : FilePath) (files : List FilePath) (i : ℕ) → get_elem? files i ≡ some f → f ∈ files
get_elem?-mem f [] i h = cc
get_elem?-mem f (g ∷ files) zero h = inl (cc h)
get_elem?-mem f (g ∷ files) (suc i) h = inr (get_elem?-mem f files i h)

pub position_of :
    (f : FilePath) (files : List FilePath) (i : ℕ)
    → Distinct files
    → get_elem? files i ≡ some f
    → position f files ≡ some i
unfolding position
position_of f [] i d h = cc
position_of f (g ∷ files) zero d h = rw ((path_beq_iff g f).1 (cc h)) refl
position_of f (g ∷ files) (suc i) d h =
    rw
      (
        beq_of_ne g f (λ same. d.0 (subst (λ x. x ∈ files) (sym same) (get_elem?-mem f files i h))),
        position_of f files i d.1 h,
      )
      refl

-- The loops mark exactly the cells of their edges, and keep the matrix square.
pub mark_edges_lem :
    (files : List FilePath) (i : ℕ) (edges : List DepEdge) (cells : List (List Bool))
    → IsSquare (length files) cells
    → i < length files
    → IsSquare (length files) (mark_edges files i edges cells)
      × ((a b : ℕ)
          → (cell (mark_edges files i edges cells) a b ≡ true) ↔ (
              (cell cells a b ≡ true)
              ⊎ ((e : DepEdge) × (e ∈ edges) × ((a ≡ i) × (position e.target files ≡ some b)))))
unfolding mark_edges
mark_edges_lem files i [] cells sq hi = (sq, λ a b. (inl, ⊎_elim (λ h. h) (λ (e, m, _). absurd m)))
mark_edges_lem files i (e ∷ edges) cells sq hi = elim (Option-cases (position e.target files)) [
  | inl absent ↦
      let rest = mark_edges_lem files i edges cells sq hi in
      rw (absent, mark_edges)
        (
          rest.0,
          λ a b.
              exists_cons (λ (g : DepEdge). (a ≡ i) × (position g.target files ≡ some b)) e edges
                (inl, ⊎_elim (λ h. h) (λ (_, at). cc (absent, at))) (rest.1 a b),
        )
  | inr (j, at_j) ↦
      let (hj, _) = position-some e.target files j at_j in
      let one = set_cell_lem (length files) i j cells sq hi hj in
      let rest = mark_edges_lem files i edges (set_cell i j cells) one.0 hi in
      rw (at_j, mark_edges)
        (
          rest.0,
          λ a b.
              exists_cons (λ (g : DepEdge). (a ≡ i) × (position g.target files ≡ some b)) e edges
                (
                  λ h. ⊎_elim inl (λ (x, y). inr (x, at_j ∙ ap some (sym y))) ((one.1 a b).0 h),
                  ⊎_elim (λ h. (one.1 a b).1 (inl h))
                      (λ (x, at). (one.1 a b).1 (inr (x, cc (at_j, at)))),
                )
                (rest.1 a b),
        )
]
