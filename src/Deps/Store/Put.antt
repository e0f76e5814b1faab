-- ===== src/Deps/Store/Put.antt =====
-- The rows of `forward_edges` after a replacement.

use repolayer.Prelude.{
  ◌≡◌, refl, subst, ◌≢◌, ◌↔◌, ◌⊎◌, inl, inr, ⊎_elim, true, not, List, [], ◌∷◌, ◌++◌, map, arith,
}
use repolayer.Prelude.Tests.{nat_eq}
use repolayer.Prelude.Lists.{
  ◌∈◌, Distinct, mem-append_one, mem-append_left, mem-map, mem-append_right, mem-map-cases,
  mem-append-cases,
}
use repolayer.Prelude.Dict.{Dict}
use repolayer.Prelude.Text.{Text, FilePath, text_eq, path_eq, text_beq_iff}
use repolayer.Deps.Store.{
  ForwardRow, put_graph, put_row, put_rows, forward_row, row_key, same_row, put_externals,
  ExternalRow, external_rows, external_row,
}
use repolayer.Deps.Graph.{DepEdge}
use repolayer.Prelude.Rows.{where_rows, mem-where_rows}

pub same_row_iff : (a b : ForwardRow) → (same_row a b ≡ true) ↔ (row_key a ≡ row_key b)
same_row_iff a b = ground (
  arith,
  text_beq_iff a.repo b.repo,
  text_beq_iff a.from_path b.from_path,
  text_beq_iff a.to_path b.to_path,
  text_beq_iff a.edge_kind b.edge_kind,
)

pub mem-put_row :
    (r : ForwardRow) (rows : List ForwardRow) (x : ForwardRow)
    → (x ∈ put_row r rows) ↔ (((x ∈ rows) × (row_key x ≢ row_key r)) ⊎ (x ≡ r))
unfolding put_row
mem-put_row r rows x = ground (
  arith,
  mem-append_one x r (where_rows (λ y. not (same_row y r)) rows),
  mem-where_rows (λ y. not (same_row y r)) rows x,
  same_row_iff x r,
)

-- Rows with distinct keys are all stored, and the old rows of other keys stay.
pub mem-put_rows :
    (new rows : List ForwardRow) (x : ForwardRow)
    → Distinct (map row_key new)
    → (x ∈ put_rows new rows) ↔ ((x ∈ new) ⊎ ((x ∈ rows) × ¬ (row_key x ∈ map row_key new)))
unfolding put_rows
mem-put_rows [] rows x d = ground arith
mem-put_rows (r ∷ new) rows x d =
    ground (arith, mem-put_rows new (put_row r rows) x d.1, mem-put_row r rows x, apart)
  where
    apart : x ≡ r → ¬ (row_key x ∈ map row_key new)
    apart e = rw e d.0

-- the rows of a whole graph, in the order in which they are put
unfoldable pub rows_of : (FilePath → Text) → Text → Dict FilePath (List DepEdge) → List ForwardRow
rows_of to_text repo [] = []
rows_of to_text repo ((p, edges) ∷ rest) =
    map (forward_row to_text repo (to_text p)) edges ++ rows_of to_text repo rest

put_rows-append :
    (a b rows : List ForwardRow) → put_rows (a ++ b) rows ≡ put_rows b (put_rows a rows)
unfolding put_rows
put_rows-append [] b rows = refl
put_rows-append (r ∷ a) b rows = put_rows-append a b (put_row r rows)

pub put_graph-put_rows :
    (to_text : FilePath → Text) (repo : Text) (g : Dict FilePath (List DepEdge))
    (rows : List ForwardRow)
    → put_graph to_text repo g rows ≡ put_rows (rows_of to_text repo g) rows
unfolding put_graph rows_of put_rows
put_graph-put_rows to_text repo [] rows = refl
put_graph-put_rows to_text repo ((p, edges) ∷ g) rows =
    rw
      (put_rows-append (map (forward_row to_text repo (to_text p)) edges) (rows_of to_text repo g)
        rows)
      (put_graph-put_rows to_text repo g
        (put_rows (map (forward_row to_text repo (to_text p)) edges) rows))

-- `v` stands in a row of `k`.
abbrev pub Holds : {K V : Type 0} → Dict K (List V) → K → V → Type 0
Holds {V} m k v = (vs : List V) × ((k, vs) ∈ m) × (v ∈ vs)

pub mem-rows_of :
    (to_text : FilePath → Text) (repo : Text) (g : Dict FilePath (List DepEdge)) (x : ForwardRow)
    → (x ∈ rows_of to_text repo g) ↔ (
        (p : FilePath) × (e : DepEdge) × Holds g p e × (x ≡ forward_row to_text repo (to_text p) e))
unfolding rows_of
mem-rows_of to_text repo [] x = ((λ i. absurd i), λ (p, e, (vs, i, j), q). absurd i)
mem-rows_of to_text repo ((p, edges) ∷ g) x = (
  λ i.
      ⊎_elim
        (λ j.
          let (e, k, q) = mem-map-cases (forward_row to_text repo (to_text p)) edges x j in
          (p, e, (edges, inl refl, k), q))
        (λ j.
          let (p', e, (vs, k, l), q) = (mem-rows_of to_text repo g x).0 j in
          (p', e, (vs, inr k, l), q))
        (mem-append-cases x (map (forward_row to_text repo (to_text p)) edges)
          (rows_of to_text repo g) i),
  back (mem-rows_of to_text repo g x).1,
)
  where
    back :
        (((q : FilePath) × (e : DepEdge) × Holds g q e
            × (x ≡ forward_row to_text repo (to_text q) e))
          → x ∈ rows_of to_text repo g)
        → ((q : FilePath) × (e : DepEdge) × Holds ((p, edges) ∷ g) q e
            × (x ≡ forward_row to_text repo (to_text q) e))
        → x ∈ (map (forward_row to_text repo (to_text p)) edges ++ rows_of to_text repo g)
    back later (q, e, (vs, inl same, j), w) =
        mem-append_left x (map (forward_row to_text repo (to_text p)) edges)
          (rows_of to_text repo g)
          (rw w (
            subst
              (λ pe.
                forward_row to_text repo (to_text q) e
                ∈ map (forward_row to_text repo (to_text pe.0)) pe.1)
              same (mem-map (forward_row to_text repo (to_text q)) vs e j)))
    back later (q, e, (vs, inr i, j), w) =
        mem-append_right x (map (forward_row to_text repo (to_text p)) edges) _
          (later (q, e, (vs, i, j), w))

pub mem-put_externals :
    (to_text : FilePath → Text) (repo : Text) (g : Dict FilePath (List Text))
    (rows : List ExternalRow) (x : ExternalRow)
    → (x ∈ put_externals to_text repo g rows) ↔ (
        (x ∈ rows)
        ⊎ ((p : FilePath) × (raw : Text) × Holds g p raw × (x ≡ external_row repo (to_text p) raw)))
unfolding put_externals
mem-put_externals to_text repo [] rows x =
    (inl, λ i. ⊎_elim (λ j. j) (λ (p, raw, (vs, j, k), q). absurd j) i)
mem-put_externals to_text repo ((p, raws) ∷ g) rows x =
    let new = external_rows repo (to_text p) raws in
    let rest = mem-put_externals to_text repo g (rows ++ new) x in
    (
      λ i.
          ⊎_elim
            (λ j.
              ⊎_elim inl
                (λ k.
                  let (raw, l, q) = mem-map-cases (external_row repo (to_text p)) raws x k in
                  inr (p, raw, (raws, inl refl, l), q))
                (mem-append-cases x rows new j))
            (λ (p', raw, (vs, k, l), q). inr (p', raw, (vs, inr k, l), q)) (rest.0 i),
      λ i. rest.1 (
          ⊎_elim (λ j. inl (mem-append_left x rows new j))
            (λ (p', raw, (vs, k, l), q).
              ⊎_elim
                (λ same. inl (
                  mem-append_right x rows new (
                    rw q (
                      subst
                        (λ (pr : FilePath × List Text).
                          external_row repo (to_text p') raw
                          ∈ external_rows repo (to_text pr.0) pr.1)
                        same (mem-map (external_row repo (to_text p')) vs raw l)))))
                (λ k'. inr (p', raw, (vs, k', l), q)) k)
            i),
    )
