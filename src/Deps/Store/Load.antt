-- ===== src/Deps/Store/Load.antt =====
-- Reading the tables back.

use repolayer.Deps.Graph.{
  use_stmt, mod_stmt, from, bare, named_from, star_from, static, alias, glob, DepEdge, ImportKind,
}
use repolayer.Prelude.{◌≡◌, refl, ◌↔◌, ◌⊎◌, inl, inr, ⊎_elim, some, List, [], ◌∷◌, ◌++◌, arith}
use repolayer.Prelude.Tests.{nat_eq, beq-cases}
use repolayer.Prelude.Lists.{◌∈◌, All, mem-append_one, exists_cons}
use repolayer.Prelude.Dict.{Dict, lookup, update, or_default, lookup-update}
use repolayer.Prelude.Text.{Text, FilePath, text_eq, path_eq, list_beq}
use repolayer.Deps.Store.{
  load_edges, load_externals, parse_import_kind, ExternalRow, ForwardRow, import_kind_to_str,
  edge_of,
}

pub parse-import_kind_to_str : (k : ImportKind) → parse_import_kind (import_kind_to_str k) ≡ some k
unfolding parse_import_kind import_kind_to_str list_beq
parse-import_kind_to_str use_stmt = refl
parse-import_kind_to_str mod_stmt = refl
parse-import_kind_to_str from = refl
parse-import_kind_to_str bare = refl
parse-import_kind_to_str named_from = refl
parse-import_kind_to_str star_from = refl
parse-import_kind_to_str static = refl
parse-import_kind_to_str alias = refl
parse-import_kind_to_str glob = refl

abbrev pub listed : {V : Type 0} → Dict FilePath (List V) → FilePath → List V
listed m p = or_default [] (lookup p m)

mem-listed-update :
    {V : Type 0} (m : Dict FilePath (List V)) (p q : FilePath) (v w : V)
    → (w ∈ listed (update p [] (λ vs. vs ++ v ∷ []) m) q) ↔ ((w ∈ listed m q) ⊎ ((p ≡ q) × (w ≡ v)))
mem-listed-update m p q v w =
    rw (lookup-update p q [] (λ vs. vs ++ v ∷ []) m) (elim (beq-cases p q) [
      | inl (t, same) ↦ rw (t, same) (ground (arith, mem-append_one w v (listed m q)))
      | inr (t, other) ↦ rw t (ground arith)
    ])

module _ (to_path : Text → FilePath) where
  -- the row `r` is an edge `e` of the file `p`
  abbrev pub Filed : ForwardRow → FilePath → DepEdge → Type 0
  Filed r p e =
      (to_path r.from_path ≡ p)
      × ((k : ImportKind) × (parse_import_kind r.edge_kind ≡ some k) × (e ≡ edge_of to_path r k))

  Filed-at :
      (m : Dict FilePath (List DepEdge)) (r : ForwardRow) (k : ImportKind) (p : FilePath)
      (e : DepEdge)
      → parse_import_kind r.edge_kind ≡ some k
      → (e ∈ listed (update (to_path r.from_path) [] (λ es. es ++ edge_of to_path r k ∷ []) m) p)
        ↔ ((e ∈ listed m p) ⊎ Filed r p e)
  Filed-at m r k p e parsed =
      let one = mem-listed-update m (to_path r.from_path) p (edge_of to_path r k) e in
      (
        λ i. ⊎_elim inl (λ (at, q). inr (at, (k, parsed, q))) (one.0 i),
        λ i. one.1 (⊎_elim inl (λ (at, (k', parsed', q)). inr (at, cc)) i),
      )

  -- The loop reports no error where every kind parses, and files each edge under its path.
  pub load_edges-mem :
      (rows : List ForwardRow) (m : Dict FilePath (List DepEdge))
      → All (λ r. (k : ImportKind) × (parse_import_kind r.edge_kind ≡ some k)) rows
      → (g : Dict FilePath (List DepEdge)) × (load_edges to_path rows m ≡ some g)
        × ((p : FilePath) (e : DepEdge)
            → (e ∈ listed g p) ↔ ((e ∈ listed m p) ⊎ ((r : ForwardRow) × (r ∈ rows) × Filed r p e)))
  unfolding load_edges
  load_edges-mem [] m h =
      (m, refl, λ p e. ((λ i. inl i), (λ i. ⊎_elim (λ j. j) (λ (x, j, q). absurd j) i)))
  load_edges-mem (r ∷ rows) m h =
      let (k, parsed) = h.0 in
      let (g, done, at) =
        load_edges-mem rows
          (update (to_path r.from_path) [] (λ es. es ++ edge_of to_path r k ∷ []) m) h.1 in
      (
        g,
        rw (parsed, load_edges) done,
        λ p e. exists_cons (λ x. Filed x p e) r rows (Filed-at m r k p e parsed) (at p e),
      )

  pub mem-load_externals :
      (rows : List ExternalRow) (m : Dict FilePath (List Text)) (p : FilePath) (raw : Text)
      → (raw ∈ listed (load_externals to_path rows m) p) ↔ (
          (raw ∈ listed m p)
          ⊎ ((r : ExternalRow) × (r ∈ rows) × ((to_path r.from_path ≡ p) × (raw ≡ r.raw))))
  unfolding load_externals
  mem-load_externals [] m p raw = ((λ i. inl i), (λ i. ⊎_elim (λ j. j) (λ (x, j, q). absurd j) i))
  mem-load_externals (r ∷ rows) m p raw =
      exists_cons (λ x. (to_path x.from_path ≡ p) × (raw ≡ x.raw)) r rows
        (mem-listed-update m (to_path r.from_path) p r.raw raw)
        (mem-load_externals rows (update (to_path r.from_path) [] (λ raws. raws ++ r.raw ∷ []) m) p
          raw)
