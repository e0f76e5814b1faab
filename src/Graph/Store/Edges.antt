-- ===== src/Graph/Store/Edges.antt =====
-- The edge table: upserts and reads, and the invariant of the store.
use repolayer.Prelude.{
  ◌≡◌, ◌↔◌, ◌⊎◌, inl, inr, ⊎_elim, true, false, ◌&&◌, List, [], ◌∷◌, map, arith,
}
use repolayer.Prelude.Tests.{Bool-cases, ◌==◌, nat_eq}
use repolayer.Prelude.Lists.{◌∈◌, Distinct, mem-map}
use repolayer.Prelude.Text.{Text, text_eq, path_eq, text_beq_iff}
use repolayer.Graph.Model.{Node, Edge, EdgeKind, edge_kind_beq_iff, edge_kind_eq}
use repolayer.Graph.Store.{
  Store, upsert_node, put_edge, upsert_edge, same_key, incoming_edges, fresh_store, outgoing_edges,
}
use repolayer.Graph.Store.Nodes.{ids, Distinct-put_node}
use repolayer.Prelude.Rows.{mem-where_rows}

abbrev pub Key : Type 0
Key = Text × Text × EdgeKind

abbrev pub key : Edge → Key
key e = (e.source, e.target, e.kind)

-- The primary keys of both tables.
pub record IsValid (s : Store) : Type 0 where
  pub ids_distinct : Distinct (ids s.nodes)
  pub keys_distinct : Distinct (map key s.edges)

pub same_key_iff : (a b : Edge) → (same_key a b ≡ true) ↔ (key a ≡ key b)
same_key_iff a b = ground (
  arith,
  text_beq_iff a.source b.source,
  text_beq_iff a.target b.target,
  edge_kind_beq_iff a.kind b.kind,
)

pub mem-key-put_edge :
    (e : Edge) (l : List Edge) (k : Key)
    → (k ∈ map key (put_edge e l)) ↔ ((k ≡ key e) ⊎ (k ∈ map key l))
unfolding put_edge
mem-key-put_edge e [] k = ground arith
mem-key-put_edge e (f ∷ l) k = elim (Bool-cases (same_key f e)) [
  | inl t ↦ rw t (ground (arith, (same_key_iff f e).0 t))
  | inr f' ↦ rw f' (ground (arith, mem-key-put_edge e l k))
]

Distinct-put_edge :
    (e : Edge) (l : List Edge) → Distinct (map key l) → Distinct (map key (put_edge e l))
unfolding put_edge
Distinct-put_edge e [] h = ((λ m. m), tt)
Distinct-put_edge e (f ∷ l) h = elim (Bool-cases (same_key f e)) [
  | inl t ↦ rw t h
  | inr f' ↦ rw f' (
    λ i. ⊎_elim (λ same. cc ((same_key_iff f e).1 same)) h.0 ((mem-key-put_edge e l (key f)).0 i),
    Distinct-put_edge e l h.1,
  )
]

pub fresh_store-IsValid : IsValid fresh_store
fresh_store-IsValid = record { ids_distinct = tt; keys_distinct = tt }

-- Both upserts keep the primary keys distinct.
pub upsert-IsValid :
    (s : Store) (n : Node) (e : Edge)
    → IsValid s
    → IsValid (upsert_node n s) × IsValid (upsert_edge e s)
unfolding upsert_node upsert_edge
upsert-IsValid s n e v = (
  record {
    ids_distinct = Distinct-put_node n s.nodes v.ids_distinct;
    keys_distinct = v.keys_distinct;
  },
  record {
    ids_distinct = v.ids_distinct;
    keys_distinct = Distinct-put_edge e s.edges v.keys_distinct;
  },
)

not_same : (e f : Edge) (l : List Edge) → ¬ (key e ∈ map key l) → f ∈ l → same_key f e ≡ false
not_same e f l h m = elim (Bool-cases (same_key f e)) [
  | inl t ↦ absurd (h (rw (← (same_key_iff f e).0 t) (mem-map key l f m)))
  | inr f' ↦ f'
]

replaced : (e f : Edge) → same_key f e ≡ true → (record f { confidence = e.confidence }) ≡ e
replaced e f t = ground (arith, (same_key_iff f e).0 t)

pub mem-put_edge :
    (e : Edge) (l : List Edge) (f : Edge)
    → Distinct (map key l)
    → (f ∈ put_edge e l) ↔ ((f ≡ e) ⊎ (f ∈ l) × (same_key f e ≡ false))
unfolding put_edge
mem-put_edge e [] f h = ground arith
mem-put_edge e (g ∷ l) f h = elim (Bool-cases (same_key g e)) [
  | inl t ↦
      rw t
        (ground (arith, replaced e g t, not_same e f l (λ m. h.0 (rw ((same_key_iff g e).0 t) m))))
  | inr f' ↦ rw f' (ground (arith, mem-put_edge e l f h.1))
]

-- After an upsert the inbound `kind` edges of `id` are the new edge, where it is such an edge, and
-- the old ones whose primary key is another.
pub incoming-upsert_edge :
    (s : Store) (e f : Edge) (id : Text) (kind : EdgeKind)
    → IsValid s
    → (f ∈ incoming_edges (upsert_edge e s) id kind)
      ↔ ((f.target ≡ id) × (f.kind ≡ kind) × ((f ≡ e) ⊎ (f ∈ s.edges) × (same_key f e ≡ false)))
unfolding incoming_edges upsert_edge
incoming-upsert_edge s e f id kind v =
    let rows =
      mem-where_rows (λ (g : Edge). (g.target == id) && (g.kind == kind)) (put_edge e s.edges) f in
    let put = mem-put_edge e s.edges f v.keys_distinct in
    ground (arith, rows, put, text_beq_iff f.target id, edge_kind_beq_iff f.kind kind)

pub mem-incoming_edges :
    (s : Store) (id : Text) (kind : EdgeKind) (e : Edge)
    → (e ∈ incoming_edges s id kind) ↔ ((e ∈ s.edges) × (e.kind ≡ kind) × (e.target ≡ id))
unfolding incoming_edges
mem-incoming_edges s id kind e = ground (
  arith,
  mem-where_rows (λ (f : Edge). (f.target == id) && (f.kind == kind)) s.edges e,
  text_beq_iff e.target id,
  edge_kind_beq_iff e.kind kind,
)

pub mem-outgoing_edges :
    (s : Store) (id : Text) (kind : EdgeKind) (e : Edge)
    → (e ∈ outgoing_edges s id kind) ↔ ((e ∈ s.edges) × (e.kind ≡ kind) × (e.source ≡ id))
unfolding outgoing_edges
mem-outgoing_edges s id kind e = ground (
  arith,
  mem-where_rows (λ (f : Edge). (f.source == id) && (f.kind == kind)) s.edges e,
  text_beq_iff e.source id,
  edge_kind_beq_iff e.kind kind,
)
