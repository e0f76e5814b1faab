-- ===== src/Linker/Upserts.antt =====
-- The last step of the linkers that scan files: each edge is put in the store, and counted.
use repolayer.Prelude.Text.{path_eq, text_eq}
use repolayer.Prelude.Lists.{length, mem-map-cases, ◌∈◌}
use repolayer.Prelude.Tests.{Bool-cases, nat_eq}
use repolayer.Prelude.{
  List, [], arith, false, inl, inr, map, none, refl, subst, sym, ℕ, ⊎_elim, ◌+◌, ◌↔◌, ◌∷◌, ◌≡◌, ◌⊎◌,
}
use repolayer.Graph.Store.{same_key, upsert_edge, Store}
use repolayer.Graph.Model.{new_node, module_node, Edge, Node}
use repolayer.Graph.Store.Edges.{
  mem-put_edge, same_key_iff, Key, IsValid, key, upsert-IsValid, mem-key-put_edge,
}

-- `for e in &edges { match self.store.upsert_edge(e) { Ok(()) => count += 1, ... } }`
unfoldable pub upsert_all : List Edge → Store × ℕ → Store × ℕ
unfolding upsert_edge
upsert_all [] s = s
upsert_all (e ∷ edges) s = upsert_all edges (upsert_edge e s.0, s.1 + 1)

pub upsert_all_lem :
    (edges : List Edge) (s : Store × ℕ) (k : Key) (n : Node)
    → IsValid s.0
    → IsValid (upsert_all edges s).0
      × ((upsert_all edges s).0.nodes ≡ s.0.nodes)
      × ((upsert_all edges s).1 ≡ s.1 + length edges)
      × ((k ∈ map key (upsert_all edges s).0.edges)
          ↔ ((k ∈ map key s.0.edges) ⊎ (k ∈ map key edges)))
unfolding upsert_all upsert_edge
upsert_all_lem [] s k n v = (v, refl, omega arith, (inl, ⊎_elim (λ m. m) (λ m. absurd m)))
upsert_all_lem (e ∷ edges) s k n v =
    let (valid, nodes, count, ks) =
      upsert_all_lem edges (upsert_edge e s.0, s.1 + 1) k n (upsert-IsValid s.0 n e v).1 in
    (valid, nodes, omega (arith, count), ground (arith, ks, mem-key-put_edge e s.0.edges k))

-- Whether the key of `e` is that of one of the edges.
key-cases : (e : Edge) (edges : List Edge) → (key e ∈ map key edges) ⊎ (¬ (key e ∈ map key edges))
key-cases e [] = inr (λ m. m)
key-cases e (f ∷ edges) = elim (Bool-cases (same_key e f)) [
  | inl t ↦ inl (inl ((same_key_iff e f).0 t))
  | inr other ↦ elim (key-cases e edges) [
    | inl i ↦ inl (inr i)
    | inr n ↦ inr (⊎_elim (λ same. cc ((same_key_iff e f).1 same, other)) n)
  ]
]

-- Where the edges with one key are one edge, the rows afterwards are the edges and the old rows with
-- other keys.
pub mem-upsert_all :
    (edges : List Edge) (s : Store × ℕ) (e : Edge)
    → IsValid s.0
    → ((a b : Edge) → a ∈ edges → b ∈ edges → key a ≡ key b → a ≡ b)
    → (e ∈ (upsert_all edges s).0.edges)
      ↔ ((e ∈ edges) ⊎ ((e ∈ s.0.edges) × (¬ (key e ∈ map key edges))))
unfolding upsert_all upsert_edge
mem-upsert_all [] s e v one = (λ m. inr (m, λ i. i), ⊎_elim (λ m. absurd m) (λ (m, _). m))
mem-upsert_all (x ∷ edges) s e v one =
    let rest =
      mem-upsert_all edges (upsert_edge x s.0, s.1 + 1) e
        (upsert-IsValid s.0 (new_node (λ t. t) module_node [] [] none) x v).1
        (λ a b i j. one a b (inr i) (inr j)) in
    let put = mem-put_edge x s.0.edges e v.keys_distinct in
    (
      λ m.
          ⊎_elim (λ i. inl (inr i))
            (λ (i, absent).
              ⊎_elim (λ same. inl (inl same))
                (λ (old, other).
                  inr (old, ⊎_elim (λ same. cc ((same_key_iff e x).1 same, other)) absent))
                (put.0 i))
            (rest.0 m),
      ⊎_elim
          (⊎_elim
            (λ same. elim (key-cases e edges) [
              | inl known ↦
                  let (a, i, k) = mem-map-cases key edges (key e) known in
                  rest.1 (inl (subst (λ y. y ∈ edges) (sym (one e a (inl same) (inr i) k)) i))
              | inr absent ↦ rest.1 (inr (put.1 (inl same), absent))
            ])
            (λ i. rest.1 (inl i)))
          (λ (old, absent).
            rest.1
              (inr (put.1 (inr (old, not_same (λ same. absent (inl same)))), λ i. absent (inr i)))),
    )
  where
    not_same : ¬ (key e ≡ key x) → same_key e x ≡ false
    not_same other = elim (Bool-cases (same_key e x)) [
      | inl t ↦ absurd (other ((same_key_iff e x).0 t))
      | inr f ↦ f
    ]
