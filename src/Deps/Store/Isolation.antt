-- ===== src/Deps/Store/Isolation.antt =====
-- What an update of one file or of one repository leaves alone.
use repolayer.Prelude.{
  ℕ, ◌≡◌, refl, ◌∙◌, ◌≢◌, ◌↔◌, ◌⊎◌, inl, inr, ⊎_elim, not, ◌&&◌, List, [], ◌∷◌, ◌++◌, map, arith,
}
use repolayer.Prelude.Tests.{◌==◌, nat_eq, beq_of_ne}
use repolayer.Prelude.Lists.{
  ◌∈◌, Distinct, mem-map-cases, mem-append-cases, mem-append_left, mem-append_right,
}
use repolayer.Prelude.Dict.{Dict}
use repolayer.Prelude.Text.{Text, FilePath, text_eq, path_eq, text_beq_iff}
use repolayer.Deps.Store.{
  ForwardRow, upsert_file_edges, delete_file, row_key, DepStore, put_rows, forward_row, ExternalRow,
  external_rows, put_externals, put_row, load_repo_graph, external_row, replace_repo_graph,
  same_row,
}
use repolayer.Deps.Graph.{DepEdge, DepGraph}
use repolayer.Prelude.Rows.{
  where_rows, mem-where_rows, where_rows-append_none, where_rows-where_rows,
}
use repolayer.Deps.Store.Put.{mem-put_rows, put_graph-put_rows, rows_of, mem-rows_of}

-- `upsert_file_edges` leaves exactly the new rows of the file, where no two of them have one key, and
-- the old rows of all other files and repositories.
pub upsert_file_edges_exact :
    (to_text : FilePath → Text) (repo path : Text) (edges : List DepEdge) (externals : List Text)
    (s : DepStore)
    → Distinct (map row_key (map (forward_row to_text repo path) edges))
    → let s' = upsert_file_edges to_text repo path edges externals s in
      ((x : ForwardRow)
        → (x ∈ s'.forward_edges) ↔ (
            (x ∈ map (forward_row to_text repo path) edges)
            ⊎ ((x ∈ s.forward_edges) × ¬ ((x.repo ≡ repo) × (x.from_path ≡ path)))))
      × ((x : ExternalRow)
          → (x ∈ s'.external_imports) ↔ (
              (x ∈ external_rows repo path externals)
              ⊎ ((x ∈ s.external_imports) × ¬ ((x.repo ≡ repo) × (x.from_path ≡ path)))))
unfolding upsert_file_edges delete_file
upsert_file_edges_exact to_text repo path edges externals s d = (
  λ x. ground (
    arith,
    mem-put_rows new
        (where_rows (λ (r : ForwardRow). not ((r.repo == repo) && (r.from_path == path)))
          s.forward_edges)
        x d,
    mem-where_rows (λ (r : ForwardRow). not ((r.repo == repo) && (r.from_path == path)))
        s.forward_edges x,
    text_beq_iff x.repo repo,
    text_beq_iff x.from_path path,
    ours x,
  ),
  λ x. ground (
    arith,
    mem-append-cases x
        (where_rows (λ (r : ExternalRow). not ((r.repo == repo) && (r.from_path == path)))
          s.external_imports)
        (external_rows repo path externals),
    mem-append_left x
        (where_rows (λ (r : ExternalRow). not ((r.repo == repo) && (r.from_path == path)))
          s.external_imports)
        (external_rows repo path externals),
    mem-append_right x
        (where_rows (λ (r : ExternalRow). not ((r.repo == repo) && (r.from_path == path)))
          s.external_imports)
        (external_rows repo path externals),
    mem-where_rows (λ (r : ExternalRow). not ((r.repo == repo) && (r.from_path == path)))
        s.external_imports x,
    text_beq_iff x.repo repo,
    text_beq_iff x.from_path path,
  ),
)
  where
    new : List ForwardRow
    new = map (forward_row to_text repo path) edges

    ours : (x : ForwardRow) → row_key x ∈ map row_key new → (x.repo ≡ repo) × (x.from_path ≡ path)
    ours x i =
        let (r, j, same) = mem-map-cases row_key new (row_key x) i in
        let (e, k, q) = mem-map-cases (forward_row to_text repo path) edges r j in
        ground (arith, same, q)

where_rows-put_row :
    (other : Text) (r : ForwardRow) (rows : List ForwardRow)
    → r.repo ≢ other
    → where_rows (λ (x : ForwardRow). x.repo == other) (put_row r rows)
      ≡ where_rows (λ (x : ForwardRow). x.repo == other) rows
unfolding put_row
where_rows-put_row other r rows n =
    where_rows-append_none (λ (x : ForwardRow). x.repo == other)
      (where_rows (λ x. not (same_row x r)) rows) (r ∷ [])
      (λ y i. ⊎_elim (λ e. rw e (beq_of_ne r.repo other n)) absurd i)
    ∙ where_rows-where_rows (λ (x : ForwardRow). x.repo == other) (λ x. not (same_row x r)) rows
        (λ x t. ground (arith, text_beq_iff x.repo other, text_beq_iff x.repo r.repo))

pub where_rows-put_rows :
    (other : Text) (new rows : List ForwardRow)
    → ((r : ForwardRow) → r ∈ new → r.repo ≢ other)
    → where_rows (λ (x : ForwardRow). x.repo == other) (put_rows new rows)
      ≡ where_rows (λ (x : ForwardRow). x.repo == other) rows
unfolding put_rows
where_rows-put_rows other [] rows h = refl
where_rows-put_rows other (r ∷ new) rows h =
    where_rows-put_rows other new (put_row r rows) (λ x i. h x (inr i))
    ∙ where_rows-put_row other r rows (h r (inl refl))

where_rows-put_externals :
    (to_text : FilePath → Text) (other repo : Text) (g : Dict FilePath (List Text))
    (rows : List ExternalRow)
    → repo ≢ other
    → where_rows (λ (x : ExternalRow). x.repo == other) (put_externals to_text repo g rows)
      ≡ where_rows (λ (x : ExternalRow). x.repo == other) rows
unfolding put_externals
where_rows-put_externals to_text other repo [] rows n = refl
where_rows-put_externals to_text other repo ((p, raws) ∷ g) rows n =
    where_rows-put_externals to_text other repo g (rows ++ external_rows repo (to_text p) raws) n
    ∙ where_rows-append_none (λ (x : ExternalRow). x.repo == other) rows
        (external_rows repo (to_text p) raws)
        (λ y i.
          let (raw, j, q) = mem-map-cases (external_row repo (to_text p)) raws y i in
          rw q (beq_of_ne repo other n))

load_repo_graph-same :
    (to_path : Text → FilePath) (schema : Text) (now : ℕ) (root : FilePath) (other : Text)
    (s t : DepStore)
    → where_rows (λ (x : ForwardRow). x.repo == other) s.forward_edges
      ≡ where_rows (λ (x : ForwardRow). x.repo == other) t.forward_edges
    → where_rows (λ (x : ExternalRow). x.repo == other) s.external_imports
      ≡ where_rows (λ (x : ExternalRow). x.repo == other) t.external_imports
    → load_repo_graph to_path schema now other root s
      ≡ load_repo_graph to_path schema now other root t
unfolding load_repo_graph
load_repo_graph-same to_path schema now root other s t forward external =
    rw (forward, external) refl

delete_file-same :
    (repo other path : Text) (s : DepStore)
    → repo ≢ other
    → (where_rows (λ (x : ForwardRow). x.repo == other) (delete_file repo path s).forward_edges
        ≡ where_rows (λ (x : ForwardRow). x.repo == other) s.forward_edges)
      × (where_rows
            (λ (x : ExternalRow). x.repo == other)
            (delete_file repo path s).external_imports
          ≡ where_rows (λ (x : ExternalRow). x.repo == other) s.external_imports)
unfolding delete_file
delete_file-same repo other path s n = (
  where_rows-where_rows (λ (x : ForwardRow). x.repo == other)
      (λ (r : ForwardRow). not ((r.repo == repo) && (r.from_path == path))) s.forward_edges
      (λ x t. ground (arith, text_beq_iff x.repo other, text_beq_iff x.repo repo)),
  where_rows-where_rows (λ (x : ExternalRow). x.repo == other)
      (λ (r : ExternalRow). not ((r.repo == repo) && (r.from_path == path))) s.external_imports
      (λ x t. ground (arith, text_beq_iff x.repo other, text_beq_iff x.repo repo)),
)

-- A replacement of one repository's graph, an update of one of its files and a deletion of one of
-- its files leave what is loaded for every other repository as it was.
pub other_repo_untouched :
    (to_text : FilePath → Text) (to_path : Text → FilePath) (schema : Text) (now : ℕ)
    (root : FilePath) (repo other path : Text) (g : DepGraph) (edges : List DepEdge)
    (externals : List Text) (s : DepStore)
    → repo ≢ other
    → (load_repo_graph to_path schema now other root (replace_repo_graph to_text repo g s)
        ≡ load_repo_graph to_path schema now other root s)
      × (load_repo_graph to_path schema now other root
            (upsert_file_edges to_text repo path edges externals s)
          ≡ load_repo_graph to_path schema now other root s)
      × (load_repo_graph to_path schema now other root (delete_file repo path s)
          ≡ load_repo_graph to_path schema now other root s)
unfolding load_repo_graph replace_repo_graph upsert_file_edges delete_file
other_repo_untouched to_text to_path schema now root repo other path g edges externals s n = (
  load_repo_graph-same to_path schema now root other (replace_repo_graph to_text repo g s) s
      (rw
        (put_graph-put_rows to_text repo g.forward
          (where_rows (λ (r : ForwardRow). not (r.repo == repo)) s.forward_edges))
        (where_rows-put_rows other (rows_of to_text repo g.forward)
            (where_rows (λ (r : ForwardRow). not (r.repo == repo)) s.forward_edges)
            (λ r i. let (p, e, h, q) = (mem-rows_of to_text repo g.forward r).0 i in rw q n)
          ∙ where_rows-where_rows (λ (x : ForwardRow). x.repo == other)
              (λ (r : ForwardRow). not (r.repo == repo)) s.forward_edges
              (λ x t. ground (arith, text_beq_iff x.repo other, text_beq_iff x.repo repo))))
      (where_rows-put_externals to_text other repo g.external
          (where_rows (λ (r : ExternalRow). not (r.repo == repo)) s.external_imports) n
        ∙ where_rows-where_rows (λ (x : ExternalRow). x.repo == other)
            (λ (r : ExternalRow). not (r.repo == repo)) s.external_imports
            (λ x t. ground (arith, text_beq_iff x.repo other, text_beq_iff x.repo repo))),
  load_repo_graph-same to_path schema now root other
      (upsert_file_edges to_text repo path edges externals s) s
      (where_rows-put_rows other (map (forward_row to_text repo path) edges)
          (delete_file repo path s).forward_edges
          (λ r i. let (e, j, q) = mem-map-cases (forward_row to_text repo path) edges r i in rw q n)
        ∙ (delete_file-same repo other path s n).0)
      (where_rows-append_none (λ (x : ExternalRow). x.repo == other)
          (delete_file repo path s).external_imports (external_rows repo path externals)
          (λ r i.
            let (raw, j, q) = mem-map-cases (external_row repo path) externals r i in
            rw q (beq_of_ne repo other n))
        ∙ (delete_file-same repo other path s n).1),
  load_repo_graph-same to_path schema now root other (delete_file repo path s) s
      (delete_file-same repo other path s n).0 (delete_file-same repo other path s n).1,
)
