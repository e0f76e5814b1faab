-- ===== src/Linker/IdlLinks/Methods.antt =====
-- The interface methods behind a short name, in the index and in the store.
use repolayer.Prelude.Rows.{
  Filtered, Filtered-where_rows, mem-where_rows, where_rows, where_rows-Filtered, where_rows-and,
}
use repolayer.Prelude.Dict.{lookup}
use repolayer.Prelude.Text.{Text, path_eq, text_beq_iff, text_eq}
use repolayer.Prelude.Lists.{length, length-map, mem-map, mem-map-cases, ◌∈◌}
use repolayer.Prelude.Tests.{nat_eq, ◌==◌}
use repolayer.Prelude.{
  Bool, List, Option, [], ap, arith, map, none, some, subst, sym, true, ◌&&◌, ◌↔◌, ◌∙◌, ◌≡◌,
}
use repolayer.Graph.Model.{Node, idl_method, node_kind_beq_iff, node_kind_eq}
use repolayer.Graph.Store.{Store, list_nodes_by_kind}
use repolayer.Linker.Names.{ids_of, index_names-ids, same_name}
use repolayer.Linker.IdlLinks.{idl_methods, methods_by_name, short_name_of}
use repolayer.Linker.IdlLinks.Rules.{IsShortOf, short_name_of_iff}

-- A stored interface method with that short name.
abbrev pub IsMethod : Text → Node → Type 0
IsMethod short n = (n.kind ≡ idl_method) × IsShortOf short n

pub method_test : Text → Node → Bool
method_test short n = (n.kind == idl_method) && same_name short (short_name_of n)

pub method_test_iff : (short : Text) (n : Node) → (method_test short n ≡ true) ↔ IsMethod short n
unfolding method_test
method_test_iff short n =
    let named = short_name_of_iff n short in
    let kinds = node_kind_beq_iff n.kind idl_method in
    let test = same_name_iff (short_name_of n) in
    (
      λ h. (kinds.0 (ground (arith, h)), named.0 (test.0 (ground (arith, h)))),
      λ (k, i). let t = kinds.1 k in let u = test.1 (named.1 i) in ground (arith, t, u),
    )
  where
    same_name_iff : (o : Option Text) → (same_name short o ≡ true) ↔ (o ≡ some short)
    same_name_iff none = (λ h. cc, λ h. cc)
    same_name_iff (some t) =
        (λ h. ap some ((text_beq_iff t short).0 h), λ h. (text_beq_iff t short).1 (cc h))

-- The ids under a short name are those of its methods.
ids_of-methods :
    (s : Store) (short : Text)
    → ids_of short (methods_by_name s)
      ≡ map (λ (n : Node). n.id) (where_rows (method_test short) s.nodes)
unfolding methods_by_name lookup idl_methods list_nodes_by_kind method_test
ids_of-methods s short =
    index_names-ids short_name_of (idl_methods s) [] short
    ∙ ap (map (λ (n : Node). n.id)) (
        where_rows-and (λ (n : Node). n.kind == idl_method)
          (λ (n : Node). same_name short (short_name_of n)) s.nodes)

pub methods-Filtered :
    (s : Store) (short : Text)
    → Filtered (IsMethod short) s.nodes (where_rows (method_test short) s.nodes)
methods-Filtered s short =
    where_rows-Filtered (IsMethod short) (method_test short) (method_test_iff short) s.nodes

pub length-ids_of :
    (s : Store) (short : Text) (methods : List Node)
    → Filtered (IsMethod short) s.nodes methods
    → length (ids_of short (methods_by_name s)) ≡ length methods
length-ids_of s short methods all =
    ap length (ids_of-methods s short)
    ∙ length-map (λ (n : Node). n.id) (where_rows (method_test short) s.nodes)
    ∙ ap length
        (sym (Filtered-where_rows (IsMethod short) (method_test short) (method_test_iff short) all))

pub mem-ids_of :
    (s : Store) (short id : Text)
    → (id ∈ ids_of short (methods_by_name s))
      ↔ ((n : Node) × (n ∈ s.nodes) × IsMethod short n × (id ≡ n.id))
mem-ids_of s short id = (
  λ m.
      let (n, i, same) =
        mem-map-cases (λ (n : Node). n.id) (where_rows (method_test short) s.nodes) id
          (subst (λ l. id ∈ l) (ids_of-methods s short) m) in
      let (stored, t) = (mem-where_rows (method_test short) s.nodes n).0 i in
      (n, stored, (method_test_iff short n).0 t, same),
  λ (n, stored, is_method, same).
      subst (λ l. id ∈ l) (sym (ids_of-methods s short))
        (subst (λ x. x ∈ map (λ (k : Node). k.id) (where_rows (method_test short) s.nodes))
          (sym same)
          (mem-map (λ (k : Node). k.id) (where_rows (method_test short) s.nodes) n
            ((mem-where_rows (method_test short) s.nodes n).1
              (stored, (method_test_iff short n).1 is_method)))),
)
