-- ===== src/Linker/Calls/Once.antt =====
-- A file gives no edge twice.
use repolayer.Prelude.Rows.{Distinct-filter_map, mem-where_rows, where_rows, Distinct-where_rows}
use repolayer.Prelude.Dict.{Dict, keys}
use repolayer.Prelude.Text.{FilePath, Text, path_eq, text_beq_iff, text_eq}
use repolayer.Prelude.Lists.{Distinct, get_elem?, mem-map-cases, ◌∈◌, mem-append-cases}
use repolayer.Prelude.Tests.{Option-cases, nat_eq, ◌==◌}
use repolayer.Prelude.{
  Bool, List, Option, [], ap, false, inl, inr, none, refl, some, subst, suc, sym, true, zero, ℕ,
  ⊎_elim, ◌++◌, ◌∙◌, ◌∷◌, ◌≡◌,
}
use repolayer.Graph.Model.{Node, function, method, node_kind_eq}
use repolayer.Graph.Store.{Store, list_nodes_by_kind}
use repolayer.Graph.Store.Edges.{IsValid}
use repolayer.Graph.Store.Nodes.{find_node-mem}
use repolayer.Linker.Names.{Distinct-collect_hits, collect_hits, index_names-Distinct}
use repolayer.Linker.Calls.{
  SourceFile, functions, name_of_node, retain_unique, scan_file, unique_by_name,
}
use repolayer.Linker.Calls.Exact.{edge_at-some}
use repolayer.Linker.Calls.Unique.{IsOnly, has_symbol, lookup-unique_by_name}

get_elem?-mem :
    (names : List Text) (i : ℕ) (name : Text) → get_elem? names i ≡ some name → name ∈ names
get_elem?-mem [] i name h = cc h
get_elem?-mem (x ∷ names) zero name h = inl (cc h)
get_elem?-mem (x ∷ names) (suc i) name h = inr (get_elem?-mem names i name h)

get_elem?-one :
    (names : List Text) (i j : ℕ) (name : Text)
    → Distinct names
    → get_elem? names i ≡ some name
    → get_elem? names j ≡ some name
    → i ≡ j
get_elem?-one [] i j name d p q = cc p
get_elem?-one (x ∷ names) zero zero name d p q = refl
get_elem?-one (x ∷ names) zero (suc j) name d p q =
    let same : x ≡ name = cc p in
    absurd (d.0 (subst (λ y. y ∈ names) (sym same) (get_elem?-mem names j name q)))
get_elem?-one (x ∷ names) (suc i) zero name d p q =
    let same : x ≡ name = cc q in
    absurd (d.0 (subst (λ y. y ∈ names) (sym same) (get_elem?-mem names i name p)))
get_elem?-one (x ∷ names) (suc i) (suc j) name d p q = ap suc (get_elem?-one names i j name d.1 p q)

-- A name that only the node `id` has is the symbol of a stored node of that id.
IsOnly-node :
    (s : Store) (name id : Text)
    → IsOnly s name id
    → (n : Node) × (n ∈ s.nodes) × (n.symbol ≡ some name) × (n.id ≡ id)
unfolding list_nodes_by_kind
IsOnly-node s name id only =
    let nodes = list_nodes_by_kind s function ++ list_nodes_by_kind s method in
    let (n, i, same) =
      mem-map-cases (λ (n : Node). n.id) (where_rows (has_symbol name) nodes) id
        (subst (λ l. id ∈ l) (sym only.only) (inl refl)) in
    let (j, t) = (mem-where_rows (has_symbol name) nodes n).0 i in
    (n, stored n j, symbol n.symbol t, sym same)
  where
    stored :
        (n : Node)
        → n ∈ (list_nodes_by_kind s function ++ list_nodes_by_kind s method)
        → n ∈ s.nodes
    stored n j =
        ⊎_elim (λ i. ((mem-where_rows (λ (k : Node). k.kind == function) s.nodes n).0 i).0)
          (λ i. ((mem-where_rows (λ (k : Node). k.kind == method) s.nodes n).0 i).0)
          (mem-append-cases n (list_nodes_by_kind s function) (list_nodes_by_kind s method) j)

    symbol :
        (o : Option Text) → (elim o [ none ↦ false | some t ↦ t == name ]) ≡ true → o ≡ some name
    symbol none h = cc h
    symbol (some t) h = ap some ((text_beq_iff t name).0 h)

IsOnly-one : (s : Store) (a b id : Text) → IsValid s → IsOnly s a id → IsOnly s b id → a ≡ b
IsOnly-one s a b id v p q =
    let (n, i, symbol_n, id_n) = IsOnly-node s a id p in
    let (m, j, symbol_m, id_m) = IsOnly-node s b id q in
    let at_n = find_node-mem s.nodes n v.ids_distinct i in
    let at_m = find_node-mem s.nodes m v.ids_distinct j in
    let same : n ≡ m = cc (at_n, at_m, id_n, id_m) in cc (same, symbol_n, symbol_m)

Distinct-keys-where_rows :
    (p : Text × List Text → Bool) (rows : Dict Text (List Text))
    → Distinct (keys rows)
    → Distinct (keys (where_rows p rows))
Distinct-keys-where_rows p rows d = Distinct-where_rows (λ (r : Text × List Text). r.0) p rows d

pub Distinct-scan_file :
    (digest : Text → Text) {Language : Type 0} (lang_of : FilePath → Option Language)
    (collect_call_callees : Text → Language → List Text) (find_iter : Text → List ℕ) (s : Store)
    (f : SourceFile)
    → IsValid s
    → Distinct (
        scan_file digest lang_of collect_call_callees find_iter
          (keys (unique_by_name s))
          (unique_by_name s)
          f)
unfolding scan_file unique_by_name retain_unique
Distinct-scan_file digest lang_of callees find_iter s f v = elim (Option-cases f.content) [
  | inl unread ↦ rw (unread, scan_file) tt
  | inr (content, read) ↦ elim (Option-cases (lang_of f.path)) [
    | inl unknown ↦ rw (read, unknown, scan_file) tt
    | inr (lang, known) ↦
        rw (read, known, scan_file)
          (Distinct-filter_map _ (collect_hits (find_iter content))
            (λ x y e p q.
              let (a, id, at_a, _, only_a, to_a) =
                (edge_at-some digest lang_of callees _ _ _ _ x e).0 p in
              let (b, other, at_b, _, only_b, to_b) =
                (edge_at-some digest lang_of callees _ _ _ _ y e).0 q in
              let same_id : id ≡ other = cc (to_a, to_b) in
              let same : a ≡ b = IsOnly-one s a b id v ((lookup-unique_by_name s a id).0 only_a) (
                subst (λ k. IsOnly s b k) (sym same_id)
                  ((lookup-unique_by_name s b other).0 only_b)) in
              get_elem?-one (keys (unique_by_name s)) x y b
                (Distinct-keys-where_rows _ _
                  (index_names-Distinct name_of_node (functions s) [] tt))
                (at_a ∙ ap some same) at_b)
            (Distinct-collect_hits (find_iter content)))
  ]
]
