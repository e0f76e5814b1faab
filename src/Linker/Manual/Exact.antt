-- ===== src/Linker/Manual/Exact.antt =====
-- What the configured links leave in the store.
use repolayer.Prelude.Text.{list_beq, Text, bytes, path_eq, text_eq}
use repolayer.Prelude.Lists.{mem-map, mem-map-cases, ◌∈◌}
use repolayer.Prelude.Tests.{beq-cases, beq_of_ne, nat_eq}
use repolayer.Prelude.{
  List, [], ap, inl, inr, map, none, refl, subst, sym, ℕ, ⊎_elim, ◌+◌, ◌↔◌, ◌∙◌, ◌∷◌, ◌≡◌, ◌≢◌, ◌⊎◌,
}
use repolayer.Graph.Model.{
  Edge, EdgeKind, Node, calls, compute_id, imports, invokes, new_node, repo_node,
}
use repolayer.Graph.Store.{Store, put_edge, upsert_edge, upsert_node}
use repolayer.Graph.Store.Edges.{IsValid, key, upsert-IsValid}
use repolayer.Linker.Manual.{LinkConfig, apply_link, apply_manual_links, link_kind, repo_of}
use repolayer.Linker.Upserts.{mem-upsert_all, upsert_all}

apply_manual_links-IsValid :
    (digest : Text → Text) (links : List LinkConfig) (s : Store × ℕ)
    → IsValid s.0
    → IsValid (apply_manual_links digest links s).0
unfolding apply_manual_links apply_link
apply_manual_links-IsValid digest [] s v = v
apply_manual_links-IsValid digest (link ∷ links) s v =
    apply_manual_links-IsValid digest links (apply_link digest link s.0, s.1 + 1)
      (upsert-IsValid
        (upsert_node (repo_of digest link.target) (upsert_node (repo_of digest link.source) s.0))
        (repo_of digest link.source)
        (record {
          source = (repo_of digest link.source).id;
          target = (repo_of digest link.target).id;
          kind = link_kind link.kind;
          confidence = 100;
        })
        (nodes_valid (repo_of digest link.target) (upsert_node (repo_of digest link.source) s.0)
          (nodes_valid (repo_of digest link.source) s.0 v))).1
  where
    any_edge : Edge
    any_edge = record { source = []; target = []; kind = calls; confidence = 0 }

    nodes_valid : (n : Node) (t : Store) → IsValid t → IsValid (upsert_node n t)
    nodes_valid n t w = (upsert-IsValid t n any_edge w).0

-- `calls` and `invokes` by their names, and any other word is `imports`.
abbrev pub IsLinkKind : Text → EdgeKind → Type 0
IsLinkKind word kind =
    ((word ≡ bytes "calls") × (kind ≡ calls))
    ⊎ ((word ≡ bytes "invokes") × (kind ≡ invokes))
    ⊎ ((word ≢ bytes "calls") × (word ≢ bytes "invokes") × (kind ≡ imports))

link_kind-IsLinkKind : (word : Text) → IsLinkKind word (link_kind word)
link_kind-IsLinkKind word = elim (beq-cases word (bytes "calls")) [
  | inl (t, same) ↦ rw (t, link_kind) (inl (same, refl))
  | inr (f, other) ↦ elim (beq-cases word (bytes "invokes")) [
    | inl (t, same) ↦ rw (f, t, link_kind) (inr (inl (same, refl)))
    | inr (g, another) ↦ rw (f, g, link_kind) (inr (inr (other, another, refl)))
  ]
]

IsLinkKind-only : (word : Text) (kind : EdgeKind) → IsLinkKind word kind → kind ≡ link_kind word
unfolding list_beq
IsLinkKind-only word kind is =
    ⊎_elim (λ (same, k). k ∙ rw same refl)
      (⊎_elim (λ (same, k). k ∙ rw same refl)
        (λ (not_calls, not_invokes, k).
          k
          ∙ rw
              (
                link_kind,
                beq_of_ne word (bytes "calls") not_calls,
                beq_of_ne word (bytes "invokes") not_invokes,
              )
              refl))
      is

module _ (digest : Text → Text) where
  -- The edge between the repositories of a link, with full confidence.
  pub record IsManualEdge (link : LinkConfig) (e : Edge) : Type 0 where
    pub from_repo : e.source ≡ compute_id digest repo_node link.source [] none
    pub to_repo : e.target ≡ compute_id digest repo_node link.target [] none
    pub kind : IsLinkKind link.kind e.kind
    pub sure : e.confidence ≡ 100

  edge_of : LinkConfig → Edge
  edge_of link = record {
    source = (repo_of digest link.source).id;
    target = (repo_of digest link.target).id;
    kind = link_kind link.kind;
    confidence = 100;
  }

  edges-upsert_all :
      (links : List LinkConfig) (s t : Store × ℕ)
      → s.0.edges ≡ t.0.edges
      → (apply_manual_links digest links s).0.edges ≡ (upsert_all (map edge_of links) t).0.edges
  unfolding apply_manual_links apply_link upsert_all upsert_edge upsert_node edge_of
  edges-upsert_all [] s t same = same
  edges-upsert_all (link ∷ links) s t same =
      edges-upsert_all links (apply_link digest link s.0, s.1 + 1)
        (upsert_edge (edge_of link) t.0, t.1 + 1) (ap (put_edge (edge_of link)) same)

  edge_of_iff : (link : LinkConfig) (e : Edge) → (e ≡ edge_of link) ↔ IsManualEdge link e
  unfolding edge_of new_node compute_id
  edge_of_iff link e = (
    λ h. record {
      from_repo = ap (λ (x : Edge). x.source) h;
      to_repo = ap (λ (x : Edge). x.target) h;
      kind =
          subst (λ k. IsLinkKind link.kind k) (sym (ap (λ (x : Edge). x.kind) h))
            (link_kind-IsLinkKind link.kind);
      sure = ap (λ (x : Edge). x.confidence) h;
    },
    λ of.
        let kind = IsLinkKind-only link.kind e.kind of.kind in
        cc (of.from_repo, of.to_repo, kind, of.sure),
  )

  abbrev pub IsOneOf : List LinkConfig → Edge → Type 0
  IsOneOf links e = (link : LinkConfig) × (link ∈ links) × IsManualEdge link e

  mem-edges : (links : List LinkConfig) (e : Edge) → (e ∈ map edge_of links) ↔ IsOneOf links e
  mem-edges links e = (
    λ m.
        let (link, i, same) = mem-map-cases edge_of links e m in
        (link, i, (edge_of_iff link e).0 same),
    λ (link, i, of).
        subst (λ x. x ∈ map edge_of links) (sym ((edge_of_iff link e).1 of))
          (mem-map edge_of links link i),
  )

  edges-one :
      (links : List LinkConfig) (a b : Edge)
      → a ∈ map edge_of links
      → b ∈ map edge_of links
      → key a ≡ key b
      → a ≡ b
  edges-one links a b i j same =
      let (_, _, one) = (mem-edges links a).0 i in
      let (_, _, two) = (mem-edges links b).0 j in cc (same, one.sure, two.sure)

-- The configured links keep the primary keys distinct, and afterwards the edges are one for each link,
-- from repository to repository, of the kind that its word names, with full confidence, and the old
-- rows with another key than all of these.
pub manual_links_exact :
    (digest : Text → Text) (links : List LinkConfig) (s : Store)
    → IsValid s
    → IsValid (apply_manual_links digest links (s, 0)).0
      × ((e : Edge)
          → (e ∈ (apply_manual_links digest links (s, 0)).0.edges) ↔ (
              IsOneOf digest links e
              ⊎ ((e ∈ s.edges) × (¬ ((f : Edge) × IsOneOf digest links f × (key e ≡ key f))))))
manual_links_exact digest links s v = (
  apply_manual_links-IsValid digest links (s, 0) v,
  λ e.
      let rows = mem-upsert_all (map (edge_of digest) links) (s, 0) e v (edges-one digest links) in
      let found = mem-edges digest links in
      subst
        (λ l. (e ∈ l) ↔ (
          IsOneOf digest links e
          ⊎ ((e ∈ s.edges) × (¬ ((f : Edge) × IsOneOf digest links f × (key e ≡ key f))))))
        (sym (edges-upsert_all digest links (s, 0) (s, 0) refl))
        (
          λ m.
              ⊎_elim (λ i. inl ((found e).0 i))
                (λ (old, absent). inr (
                  old,
                  λ (f, is_one, same). absent (
                      subst (λ k. k ∈ map key (map (edge_of digest) links)) (sym same)
                        (mem-map key (map (edge_of digest) links) f ((found f).1 is_one))),
                ))
                (rows.0 m),
          ⊎_elim (λ is_one. rows.1 (inl ((found e).1 is_one)))
              (λ (old, absent). rows.1 (
                inr (
                  old,
                  λ k.
                      let (f, i, same) = mem-map-cases key (map (edge_of digest) links) (key e) k in
                      absent (f, (found f).0 i, same),
                ))),
        ),
)
