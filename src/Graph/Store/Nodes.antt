-- ===== src/Graph/Store/Nodes.antt =====
-- The node table: upserts and reads.
use repolayer.Prelude.{
  ◌≡◌, ◌≢◌, refl, sym, subst, ◌↔◌, ◌⊎◌, inl, inr, ⊎_elim, Option, none, some, List, [], ◌∷◌, map,
  arith,
}
use repolayer.Prelude.Tests.{if◌then◌else◌, ◌==◌, nat_eq, beq-cases, Option-cases}
use repolayer.Prelude.Lists.{◌∈◌, Distinct, mem-map}
use repolayer.Prelude.Dict.{contains, lookup}
use repolayer.Prelude.Text.{Text, text_eq, path_eq, text_beq_iff}
use repolayer.Graph.Model.{Node, node_kind_eq}
use repolayer.Graph.Store.{
  Store, coalesce, merge_node, put_node, upsert_node, find_node, get_node, get_nodes_by_ids,
}
use repolayer.Prelude.Rows.{where_rows}

abbrev pub ids : List Node → List Text
ids = map (λ n. n.id)

-- what a row is after `n` is put over it
abbrev merged : Option Node → Node → Node
merged none n = n
merged (some m) n = merge_node m n

find_node-put_node :
    (n : Node) (j : Text) (l : List Node)
    → find_node j (put_node n l)
      ≡ (if n.id == j then some (merged (find_node n.id l) n) else find_node j l)
unfolding find_node put_node merge_node
find_node-put_node n j [] = refl
find_node-put_node n j (m ∷ l) = ground (
  arith,
  text_beq_iff n.id j,
  text_beq_iff m.id n.id,
  text_beq_iff m.id j,
  find_node-put_node n j l,
)

-- `v` is the new value where there is one, else the old one.
abbrev pub IsNewest : {A : Type 0} → (new old v : Option A) → Type 0
IsNewest (some a) old v = v ≡ some a
IsNewest none old v = v ≡ old

-- What of the row `old` and the node `n` is in the row `m`.
pub record IsOverlaid (old n m : Node) : Type 0 where
  pub same_id : m.id ≡ old.id
  pub same_kind : m.kind ≡ old.kind
  pub same_repo : m.repo ≡ old.repo
  pub same_path : m.path ≡ old.path
  pub same_symbol : m.symbol ≡ old.symbol
  pub summary : IsNewest n.summary old.summary m.summary
  pub visibility : IsNewest n.visibility old.visibility m.visibility
  pub native_kind : IsNewest n.native_kind old.native_kind m.native_kind
  pub loc_start : IsNewest n.loc_start old.loc_start m.loc_start
  pub loc_end : IsNewest n.loc_end old.loc_end m.loc_end
  pub deprecated : m.deprecated ≡ n.deprecated

coalesce-IsNewest : {A : Type 0} (new old : Option A) → IsNewest new old (coalesce new old)
coalesce-IsNewest none old = refl
coalesce-IsNewest (some a) old = refl

merge_node-IsOverlaid : (old n : Node) → IsOverlaid old n (merge_node old n)
unfolding merge_node
merge_node-IsOverlaid old n = record {
  same_id = refl;
  same_kind = refl;
  same_repo = refl;
  same_path = refl;
  same_symbol = refl;
  summary = coalesce-IsNewest n.summary old.summary;
  visibility = coalesce-IsNewest n.visibility old.visibility;
  native_kind = coalesce-IsNewest n.native_kind old.native_kind;
  loc_start = coalesce-IsNewest n.loc_start old.loc_start;
  loc_end = coalesce-IsNewest n.loc_end old.loc_end;
  deprecated = refl;
}

-- How the row of the id `j` before an upsert of `n` and the row after it belong together.
abbrev pub IsUpsertOf : Node → Text → (before after : Option Node) → Type 0
IsUpsertOf n j before after =
    ((n.id ≡ j) × (before ≡ none) × (after ≡ some n))
    ⊎ ((n.id ≡ j)
        × ((old : Node) × (m : Node) × (before ≡ some old) × (after ≡ some m) × IsOverlaid old n m))
    ⊎ ((n.id ≢ j) × (after ≡ before))

-- After an upsert of a node, its id reads as that node where it had no row. Where it had one, the row
-- keeps its identifying columns, takes `deprecated` from the node, and each optional column is the
-- value of the node, or the old one where the node has none. Every other id reads as before.
pub get-upsert_node :
    (s : Store) (n : Node) (j : Text) → IsUpsertOf n j (get_node s j) (get_node (upsert_node n s) j)
unfolding get_node upsert_node
get-upsert_node s n j =
    subst (λ after. IsUpsertOf n j (find_node j s.nodes) after)
      (sym (find_node-put_node n j s.nodes))
      (elim (beq-cases n.id j) [
        | inl (t, same) ↦ elim (Option-cases (find_node j s.nodes)) [
          | inl e ↦ inl (same, e, rw (t, same, e) refl)
          | inr (old, e) ↦ inr (
              inl (
                same,
                (old, merge_node old n, e, rw (t, same, e) refl, merge_node-IsOverlaid old n),
              ))
        ]
        | inr (f, other) ↦ inr (inr (other, rw f refl))
      ])

pub mem-ids-put_node :
    (n : Node) (l : List Node) (j : Text) → (j ∈ ids (put_node n l)) ↔ ((j ≡ n.id) ⊎ (j ∈ ids l))
unfolding put_node merge_node
mem-ids-put_node n [] j = ground arith
mem-ids-put_node n (m ∷ l) j = ground (arith, text_beq_iff m.id n.id, mem-ids-put_node n l j)

pub Distinct-put_node :
    (n : Node) (l : List Node) → Distinct (ids l) → Distinct (ids (put_node n l))
unfolding put_node merge_node
Distinct-put_node n [] h = ((λ m. m), tt)
Distinct-put_node n (m ∷ l) h = elim (beq-cases m.id n.id) [
  | inl (t, same) ↦ rw t h
  | inr (f, other) ↦
      rw f (λ i. ⊎_elim other h.0 ((mem-ids-put_node n l m.id).0 i), Distinct-put_node n l h.1)
]

pub find_node-some :
    (j : Text) (l : List Node) (n : Node) → find_node j l ≡ some n → (n ∈ l) × (n.id ≡ j)
unfolding find_node
find_node-some j [] n h = cc
find_node-some j (m ∷ l) n h = ground (arith, text_beq_iff m.id j, find_node-some j l n)

pub find_node-mem :
    (l : List Node) (n : Node) → Distinct (ids l) → n ∈ l → find_node n.id l ≡ some n
unfolding find_node
find_node-mem [] n h m = absurd m
find_node-mem (x ∷ l) n h (inl e) = ground (arith, text_beq_iff x.id n.id)
find_node-mem (x ∷ l) n h (inr m) = elim (beq-cases x.id n.id) [
  | inl (t, same) ↦ absurd (h.0 (rw same (mem-map (λ k. k.id) l n m)))
  | inr (f, other) ↦ rw f (find_node-mem l n h.1 m)
]

lookup-where_ids :
    (want : List Text) (l : List Node) (j : Text)
    → lookup j (map (λ (n : Node). (n.id, n)) (where_rows (λ (n : Node). contains want n.id) l))
      ≡ (if contains want j then find_node j l else none)
unfolding lookup where_rows find_node
lookup-where_ids want [] j = ground arith
lookup-where_ids want (m ∷ l) j = ground (arith, text_beq_iff m.id j, lookup-where_ids want l j)

-- The batch read gives, for each id asked for, what the single read gives, and nothing for others.
pub get_nodes_by_ids-eq-get_node :
    (s : Store) (want : List Text) (j : Text)
    → lookup j (get_nodes_by_ids s want) ≡ (if contains want j then get_node s j else none)
unfolding get_nodes_by_ids get_node
get_nodes_by_ids-eq-get_node s want j = lookup-where_ids want s.nodes j
