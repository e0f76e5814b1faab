-- ===== src/Linker/Names.antt =====
-- The index of short names that both scanning linkers make: a name with the ids of its nodes.
use repolayer.Prelude.{
  ◌≡◌, refl, sym, ap, ◌∙◌, ◌↔◌, ◌⊎◌, inl, inr, ⊎_elim, Bool, true, false, Option, none, some, List,
  [], ◌∷◌, ◌++◌, map, arith, ℕ, subst,
}
use repolayer.Prelude.Tests.{Bool-cases, ◌==◌, nat_eq, beq-cases, if◌then◌else◌}
use repolayer.Prelude.Lists.{◌∈◌, Distinct, mem-map-cases, mem-map}
use repolayer.Prelude.Dict.{
  Dict, lookup, update, keys, or_default, lookup-update, contains, contains_iff,
  not_mem_of_contains,
}
use repolayer.Prelude.Text.{Text, text_eq, path_eq, text_beq_iff}
use repolayer.Graph.Model.{Node}
use mathlib.Core.List.{append-nil, append_assoc}
use repolayer.Prelude.Rows.{where_rows, mem-where_rows}

-- `by_name.entry(sym.to_string()).or_default().push(n.id.clone())`
unfoldable pub add_name : Text → Option Text → Dict Text (List Text) → Dict Text (List Text)
unfolding update
add_name id none by_name = by_name
add_name id (some sym) by_name = update sym [] (λ ids. ids ++ id ∷ []) by_name

-- the loop over the nodes
unfoldable pub index_names :
    (Node → Option Text) → List Node → Dict Text (List Text) → Dict Text (List Text)
unfolding add_name
index_names name_of [] by_name = by_name
index_names name_of (n ∷ nodes) by_name =
    index_names name_of nodes (add_name n.id (name_of n) by_name)

abbrev pub same_name : Text → Option Text → Bool
same_name name none = false
same_name name (some sym) = sym == name

-- the ids of the nodes with a name
abbrev pub ids_named : (Node → Option Text) → Text → List Node → List Text
ids_named name_of name funcs =
    map (λ n. n.id) (where_rows (λ (n : Node). same_name name (name_of n)) funcs)

abbrev pub ids_of : Text → Dict Text (List Text) → List Text
ids_of name by_name = or_default [] (lookup name by_name)

abbrev one_if : Bool → Text → List Text
one_if true id = id ∷ []
one_if false id = []

add_name-ids :
    (id : Text) (o : Option Text) (by_name : Dict Text (List Text)) (name : Text)
    → ids_of name (add_name id o by_name) ≡ ids_of name by_name ++ one_if (same_name name o) id
unfolding add_name
add_name-ids id none by_name name = sym (append-nil (ids_of name by_name))
add_name-ids id (some symbol) by_name name =
    ap (or_default []) (lookup-update symbol name [] (λ ids. ids ++ id ∷ []) by_name)
    ∙ elim (beq-cases symbol name) [
      | inl (t, same) ↦ rw (t, same) refl
      | inr (f, other) ↦ rw f (sym (append-nil (ids_of name by_name)))
    ]

ids_named-cons :
    (name_of : Node → Option Text) (n : Node) (funcs : List Node) (name : Text)
    → ids_named name_of name (n ∷ funcs)
      ≡ one_if (same_name name (name_of n)) n.id ++ ids_named name_of name funcs
unfolding where_rows
ids_named-cons name_of n funcs name = elim (Bool-cases (same_name name (name_of n))) [
  | inl t ↦ rw t refl
  | inr f ↦ rw f refl
]

pub index_names-ids :
    (name_of : Node → Option Text) (funcs : List Node) (by_name : Dict Text (List Text))
    (name : Text)
    → ids_of name (index_names name_of funcs by_name)
      ≡ ids_of name by_name ++ ids_named name_of name funcs
unfolding index_names where_rows
index_names-ids name_of [] by_name name = sym (append-nil (ids_of name by_name))
index_names-ids name_of (n ∷ funcs) by_name name =
    index_names-ids name_of funcs (add_name n.id (name_of n) by_name) name
    ∙ ap (λ l. l ++ ids_named name_of name funcs) (add_name-ids n.id (name_of n) by_name name)
    ∙ append_assoc (ids_of name by_name) (one_if (same_name name (name_of n)) n.id)
        (ids_named name_of name funcs)
    ∙ ap (λ l. ids_of name by_name ++ l) (sym (ids_named-cons name_of n funcs name))

-- the keys of an index are distinct, so that a row that is kept is the row that is found
keys-update :
    (k : Text) (f : List Text → List Text) (by_name : Dict Text (List Text)) (j : Text)
    → (j ∈ keys (update k [] f by_name)) ↔ ((j ≡ k) ⊎ (j ∈ keys by_name))
unfolding update
keys-update k f [] j = ground arith
keys-update k f ((i, w) ∷ by_name) j = ground (arith, text_beq_iff i k, keys-update k f by_name j)

Distinct-update :
    (k : Text) (f : List Text → List Text) (by_name : Dict Text (List Text))
    → Distinct (keys by_name)
    → Distinct (keys (update k [] f by_name))
unfolding update
Distinct-update k f [] h = ((λ m. m), tt)
Distinct-update k f ((i, w) ∷ by_name) h = elim (beq-cases i k) [
  | inl (t, same) ↦ rw t h
  | inr (t, other) ↦
      rw t
        (λ m. ⊎_elim other h.0 ((keys-update k f by_name i).0 m), Distinct-update k f by_name h.1)
]

add_name-Distinct :
    (id : Text) (o : Option Text) (by_name : Dict Text (List Text))
    → Distinct (keys by_name)
    → Distinct (keys (add_name id o by_name))
unfolding add_name
add_name-Distinct id none by_name h = h
add_name-Distinct id (some symbol) by_name h =
    Distinct-update symbol (λ ids. ids ++ id ∷ []) by_name h

pub index_names-Distinct :
    (name_of : Node → Option Text) (funcs : List Node) (by_name : Dict Text (List Text))
    → Distinct (keys by_name)
    → Distinct (keys (index_names name_of funcs by_name))
unfolding index_names
index_names-Distinct name_of [] by_name h = h
index_names-Distinct name_of (n ∷ funcs) by_name h =
    index_names-Distinct name_of funcs (add_name n.id (name_of n) by_name)
      (add_name-Distinct n.id (name_of n) by_name h)

-- the ids under a name are those of the nodes that have it
pub mem-ids_named :
    (name_of : Node → Option Text) (name : Text) (nodes : List Node) (id : Text)
    → (id ∈ ids_named name_of name nodes)
      ↔ ((n : Node) × (n ∈ nodes) × (name_of n ≡ some name) × (id ≡ n.id))
mem-ids_named name_of name nodes id = (
  λ m.
      let (n, i, same) = mem-map-cases (λ (n : Node). n.id) (where_rows named nodes) id m in
      let (stored, test) = (mem-where_rows named nodes n).0 i in
      (n, stored, (is_named (name_of n)).0 test, same),
  λ (n, i, has, same). rw same (
      mem-map (λ (n : Node). n.id) (where_rows named nodes) n
        ((mem-where_rows named nodes n).1 (i, (is_named (name_of n)).1 has))),
)
  where
    named : Node → Bool
    named n = same_name name (name_of n)

    is_named : (o : Option Text) → (same_name name o ≡ true) ↔ (o ≡ some name)
    is_named none = (λ h. cc, λ h. cc)
    is_named (some t) =
        (λ h. ap some ((text_beq_iff t name).0 h), λ h. (text_beq_iff t name).1 (cc h))

-- `hit_indices`, the set of the indices that the automaton finds; its order is not used.
unfoldable pub collect_hits : List ℕ → List ℕ
unfolding contains
collect_hits [] = []
collect_hits (hit ∷ hits) =
    let rest = collect_hits hits in if contains rest hit then rest else hit ∷ rest

pub mem-collect_hits : (hits : List ℕ) (a : ℕ) → (a ∈ collect_hits hits) ↔ (a ∈ hits)
unfolding collect_hits
mem-collect_hits [] a = (λ m. m, λ m. m)
mem-collect_hits (hit ∷ hits) a = elim (Bool-cases (contains (collect_hits hits) hit)) [
  | inl t ↦
      let known = (contains_iff (collect_hits hits) hit).0 t in
      rw (t, collect_hits)
        (
          λ m. inr ((mem-collect_hits hits a).0 m),
          ⊎_elim (λ same. subst (λ x. x ∈ collect_hits hits) (sym same) known)
              (λ m. (mem-collect_hits hits a).1 m),
        )
  | inr f ↦
      rw (f, collect_hits)
        (
          ⊎_elim inl (λ m. inr ((mem-collect_hits hits a).0 m)),
          ⊎_elim inl (λ m. inr ((mem-collect_hits hits a).1 m)),
        )
]

pub Distinct-collect_hits : (hits : List ℕ) → Distinct (collect_hits hits)
unfolding collect_hits
Distinct-collect_hits [] = tt
Distinct-collect_hits (hit ∷ hits) = elim (Bool-cases (contains (collect_hits hits) hit)) [
  | inl t ↦ rw (t, collect_hits) (Distinct-collect_hits hits)
  | inr f ↦
      rw (f, collect_hits)
        (not_mem_of_contains (collect_hits hits) hit f, Distinct-collect_hits hits)
]
