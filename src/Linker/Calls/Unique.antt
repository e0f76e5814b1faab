-- ===== src/Linker/Calls/Unique.antt =====
-- Which names `unique_by_name` keeps.
use repolayer.Prelude.Rows.{where_rows, where_rows-none, where_rows-same}
use repolayer.Prelude.Dict.{Dict, keys, lookup}
use repolayer.Prelude.Text.{Text, path_eq, text_beq_iff, text_eq}
use repolayer.Prelude.Lists.{All, Distinct, length, ◌∈◌}
use repolayer.Prelude.Tests.{Bool-cases, beq-cases, beq_of_ne, if◌then◌else◌, nat_eq, ◌==◌}
use repolayer.Prelude.{
  Bool, List, Option, [], ap, arith, false, inl, inr, map, none, not, refl, some, subst, sym, true,
  ◌&&◌, ◌++◌, ◌↔◌, ◌∙◌, ◌∷◌, ◌≡◌, ◌≤◌,
}
use repolayer.Graph.Store.{Store, list_nodes_by_kind}
use repolayer.Linker.Calls.{
  all_lowercase, is_noise_name, retain_unique, unique_by_name, name_of_node, functions,
}
use repolayer.Linker.Names.{
  ids_named, index_names-ids, ids_of, index_names, index_names-Distinct, same_name,
}
use repolayer.Graph.Model.{Node, function, method}

abbrev pub has_symbol : Text → Node → Bool
has_symbol name n = elim n.symbol [ none ↦ false | some symbol ↦ symbol == name ]

-- `name` is long and mixed enough, and `id` is that of the only function or method with it.
pub record IsOnly (s : Store) (name id : Text) : Type 0 where
  pub long : 4 ≤ length name
  pub mixed : ¬ All (λ b. (97 ≤ b) × (b ≤ 122)) name
  pub only :
      map
        (λ (n : Node). n.id)
        (where_rows
          (has_symbol name)
          (list_nodes_by_kind s function ++ list_nodes_by_kind s method))
      ≡ id ∷ []

all_lowercase_iff :
    (name : Text) → (all_lowercase name ≡ true) ↔ All (λ b. (97 ≤ b) × (b ≤ 122)) name
all_lowercase_iff [] = (λ h. tt, λ h. refl)
all_lowercase_iff (b ∷ name) = ground (arith, all_lowercase_iff name)

-- A name is no noise where it is long and mixed.
pub is_noise_name_iff :
    (name : Text)
    → (is_noise_name name ≡ false) ↔ ((4 ≤ length name) × (¬ All (λ b. (97 ≤ b) × (b ≤ 122)) name))
unfolding is_noise_name
is_noise_name_iff name = elim (Bool-cases (all_lowercase name)) [
  | inl t ↦
      let all = (all_lowercase_iff name).0 t in
      (λ h. absurd (ground (arith, t, h)), λ (long, mixed). absurd (mixed all))
  | inr f ↦ (
    λ h. (ground (arith, f, h), λ all. let t = (all_lowercase_iff name).1 all in cc (t, f)),
    λ (long, mixed). ground (arith, f, long),
  )
]

same_name-symbol :
    (name : Text) (n : Node)
    → same_name name (name_of_node n) ≡ (has_symbol name n && not (is_noise_name name))
same_name-symbol name n = by_symbol n.symbol
  where
    by_symbol :
        (o : Option Text)
        → same_name name
            (elim o [ none ↦ none | some sym ↦ if is_noise_name sym then none else some sym ])
          ≡ ((elim o [ none ↦ false | some symbol ↦ symbol == name ]) && not (is_noise_name name))
    by_symbol none = refl
    by_symbol (some symbol) =
        ground (arith, text_beq_iff symbol name, ap is_noise_name {x = symbol} {y = name})

ids_named-fine :
    (name : Text) (ns : List Node)
    → is_noise_name name ≡ false
    → ids_named name_of_node name ns ≡ map (λ (n : Node). n.id) (where_rows (has_symbol name) ns)
ids_named-fine name ns fine = ap (map (λ (n : Node). n.id)) (
    where_rows-same (λ n. same_name name (name_of_node n)) (has_symbol name) ns
      (λ n. let e = same_name-symbol name n in ground (arith, e, fine)))

ids_named-noise :
    (name : Text) (ns : List Node) → is_noise_name name ≡ true → ids_named name_of_node name ns ≡ []
ids_named-noise name ns noise = ap (map (λ (n : Node). n.id)) (
    where_rows-none (λ n. same_name name (name_of_node n)) ns
      (λ n i. let e = same_name-symbol name n in ground (arith, e, noise)))

IsOnly-iff :
    (s : Store) (name id : Text)
    → (ids_named name_of_node name (functions s) ≡ id ∷ []) ↔ IsOnly s name id
unfolding functions
IsOnly-iff s name id = elim (Bool-cases (is_noise_name name)) [
  | inl noise ↦ (
    λ h. absurd (no_id noise h),
    λ only. let fine = (is_noise_name_iff name).1 (only.long, only.mixed) in cc (noise, fine),
  )
  | inr fine ↦
      let (long, mixed) = (is_noise_name_iff name).0 fine in
      let same = ids_named-fine name (functions s) fine in
      (λ h. record { long = long; mixed = mixed; only = sym same ∙ h }, λ only. same ∙ only.only)
]
  where
    no_id : is_noise_name name ≡ true → ids_named name_of_node name (functions s) ≡ id ∷ [] → ⊥
    no_id noise h =
        let e : ◌≡◌ {A = List Text} [] (id ∷ []) =
          sym (ids_named-noise name (functions s) noise) ∙ h in
        cc e

lookup-none :
    (by_name : Dict Text (List Text)) (name : Text)
    → ¬ (name ∈ keys by_name)
    → lookup name by_name ≡ none
unfolding lookup
lookup-none [] name h = refl
lookup-none ((k, v) ∷ by_name) name h =
    rw (beq_of_ne k name (λ same. h (inl (sym same)))) (lookup-none by_name name (λ m. h (inr m)))

lookup-retain_unique :
    (by_name : Dict Text (List Text)) (name id : Text)
    → Distinct (keys by_name)
    → (lookup name (retain_unique by_name) ≡ some (id ∷ [])) ↔ (ids_of name by_name ≡ id ∷ [])
unfolding retain_unique lookup where_rows
lookup-retain_unique [] name id h = (λ e. cc, λ e. cc)
lookup-retain_unique ((k, v) ∷ by_name) name id h =
    let rest = lookup-retain_unique by_name name id h.1 in
    elim (beq-cases k name) [
      | inl (t, same) ↦ ground (
        arith,
        rest,
        t,
        lookup-none by_name name (λ m. h.0 (subst (λ x. x ∈ keys by_name) (sym same) m)),
      )
      | inr (f, other) ↦ ground (arith, rest, f)
    ]

-- A name that is kept has exactly one function or method, and its id is kept with it.
pub lookup-unique_by_name :
    (s : Store) (name id : Text)
    → (lookup name (unique_by_name s) ≡ some (id ∷ [])) ↔ IsOnly s name id
unfolding unique_by_name lookup
lookup-unique_by_name s name id =
    (λ h. (IsOnly-iff s name id).0 (named.0 h), λ only. named.1 ((IsOnly-iff s name id).1 only))
  where
    named :
        (lookup name (unique_by_name s) ≡ some (id ∷ []))
        ↔ (ids_named name_of_node name (functions s) ≡ id ∷ [])
    named =
        subst (λ l. (lookup name (unique_by_name s) ≡ some (id ∷ [])) ↔ (l ≡ id ∷ []))
          (index_names-ids name_of_node (functions s) [] name)
          (lookup-retain_unique (index_names name_of_node (functions s) []) name id
            (index_names-Distinct name_of_node (functions s) [] tt))
