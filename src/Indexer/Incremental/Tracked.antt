-- ===== src/Indexer/Incremental/Tracked.antt =====
-- Which file imports which, by the rows of the dependency store.
use repolayer.Prelude.{
  ◌≡◌, refl, sym, ◌∙◌, ◌≢◌, ◌↔◌, ◌⊎◌, inl, inr, ⊎_elim, Bool, true, not, ◌&&◌, List, [], ◌∷◌, map,
  arith,
}
use repolayer.Prelude.Tests.{Bool-cases, ◌==◌, nat_eq}
use repolayer.Prelude.Lists.{◌∈◌}
use repolayer.Prelude.Text.{Text, FilePath, text_eq, path_eq, text_beq_iff}
use repolayer.Deps.Store.{
  DepStore, ForwardRow, delete_file, put_rows, upsert_file_edges, forward_row, put_row, same_row,
}
use repolayer.Deps.Graph.{DepEdge}
use repolayer.Prelude.Rows.{mem-where_rows}
use repolayer.Deps.Store.Put.{mem-put_row, same_row_iff}

-- a row of the repository from one path to another
abbrev pub HasRow : Text → List ForwardRow → Text → Text → Type 0
HasRow repo rows p t =
    (x : ForwardRow) × (x ∈ rows) × (x.repo ≡ repo) × (x.from_path ≡ p) × (x.to_path ≡ t)

-- `Imports p t`: the file `p` imports the file `t`. The rows of the repository say so.
abbrev pub Tracks : Text → DepStore → (Text → Text → Type 0) → Type 0
Tracks repo s Imports = (p t : Text) → HasRow repo s.forward_edges p t ↔ Imports p t

HasRow-put_row :
    (repo : Text) (r : ForwardRow) (rows : List ForwardRow) (p t : Text)
    → HasRow repo (put_row r rows) p t
      ↔ (HasRow repo rows p t ⊎ ((r.repo ≡ repo) × (r.from_path ≡ p) × (r.to_path ≡ t)))
HasRow-put_row repo r rows p t = (
  λ (x, i, a, b, c).
      ⊎_elim (λ (old, _). inl (x, old, a, b, c))
        (λ same. inr (cc (same, a), cc (same, b), cc (same, c))) ((mem-put_row r rows x).0 i),
  ⊎_elim
      (λ (x, i, a, b, c). elim (Bool-cases (same_row x r)) [
        | inl same ↦
            let e = (same_row_iff x r).0 same in
            (r, (mem-put_row r rows r).1 (inr refl), cc (e, a), cc (e, b), cc (e, c))
        | inr other ↦
            (x, (mem-put_row r rows x).1 (inl (i, λ e. ground (arith, same_row_iff x r))), a, b, c)
      ])
      (λ (a, b, c). (r, (mem-put_row r rows r).1 (inr refl), a, b, c)),
)

module _ (to_text : FilePath → Text) (repo : Text) where
  -- the targets of a file's edges, as text
  abbrev pub targets_text : List DepEdge → List Text
  targets_text edges = map (λ (e : DepEdge). to_text e.target) edges

  pub HasRow-put_rows :
      (path : Text) (edges : List DepEdge) (rows : List ForwardRow) (p t : Text)
      → HasRow repo (put_rows (map (forward_row to_text repo path) edges) rows) p t
        ↔ (HasRow repo rows p t ⊎ ((path ≡ p) × (t ∈ targets_text edges)))
  unfolding put_rows
  HasRow-put_rows path [] rows p t = (inl, ⊎_elim (λ h. h) (λ (_, m). absurd m))
  HasRow-put_rows path (e ∷ edges) rows p t =
      let one = HasRow-put_row repo (forward_row to_text repo path e) rows p t in
      let rest = HasRow-put_rows path edges (put_row (forward_row to_text repo path e) rows) p t in
      (
        λ h.
            ⊎_elim (λ g. ⊎_elim inl (λ (_, same, at). inr (same, inl (sym at))) (one.0 g))
              (λ (same, m). inr (same, inr m)) (rest.0 h),
        ⊎_elim (λ g. rest.1 (inl (one.1 (inl g))))
            (λ (same, m).
              ⊎_elim (λ at. rest.1 (inl (one.1 (inr (refl, same, sym at)))))
                (λ i. rest.1 (inr (same, i))) m),
      )

  -- the condition of the DELETE statement, negated
  abbrev outside : Text → ForwardRow → Bool
  outside path r = not ((r.repo == repo) && (r.from_path == path))

  outside_iff :
      (path : Text) (r : ForwardRow)
      → (outside path r ≡ true) ↔ (¬ ((r.repo ≡ repo) × (r.from_path ≡ path)))
  outside_iff path r = ground (arith, text_beq_iff r.repo repo, text_beq_iff r.from_path path)

  pub HasRow-delete_file :
      (path : Text) (s : DepStore) (p t : Text)
      → HasRow repo (delete_file repo path s).forward_edges p t
        ↔ ((p ≢ path) × HasRow repo s.forward_edges p t)
  unfolding delete_file
  HasRow-delete_file path s p t = (
    λ (x, i, a, b, c).
        let (stored, test) = (mem-where_rows (outside path) s.forward_edges x).0 i in
        (λ same. (outside_iff path x).0 test (a, b ∙ same), (x, stored, a, b, c)),
    λ (other, (x, i, a, b, c)). (
      x,
      (mem-where_rows (outside path) s.forward_edges x).1
          (i, (outside_iff path x).1 (λ (_, at). other (sym b ∙ at))),
      a,
      b,
      c,
    ),
  )

  pub HasRow-upsert_file_edges :
      (path : Text) (edges : List DepEdge) (externals : List Text) (s : DepStore) (p t : Text)
      → HasRow repo (upsert_file_edges to_text repo path edges externals s).forward_edges p t
        ↔ (((p ≢ path) × HasRow repo s.forward_edges p t) ⊎ ((path ≡ p) × (t ∈ targets_text edges)))
  unfolding upsert_file_edges
  HasRow-upsert_file_edges path edges externals s p t =
      let put = HasRow-put_rows path edges (delete_file repo path s).forward_edges p t in
      let cleared = HasRow-delete_file path s p t in
      (
        λ h. ⊎_elim (λ g. inl (cleared.0 g)) inr (put.0 h),
        ⊎_elim (λ g. put.1 (inl (cleared.1 g))) (λ g. put.1 (inr g)),
      )
