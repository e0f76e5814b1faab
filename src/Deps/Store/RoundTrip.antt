-- ===== src/Deps/Store/RoundTrip.antt =====
-- What is loaded after a replacement.

use repolayer.Prelude.{
  ℕ, ◌%◌, ◌^◌, ◌<◌, ◌≡◌, refl, sym, ap, ◌∙◌, ◌↔◌, ◌⊎◌, inr, ⊎_elim, not, some, List, [], map, arith,
}
use repolayer.Prelude.Tests.{◌==◌, nat_eq}
use repolayer.Prelude.Lists.{◌∈◌, All, Distinct, All-of_mem}
use repolayer.Prelude.Dict.{lookup}
use repolayer.Prelude.Text.{Text, FilePath, text_eq, path_eq, text_beq_iff}
use repolayer.Deps.Graph.{DepEdge, DepGraph, ImportKind, empty}
use repolayer.Deps.Store.{
  DepStore, edge_of, row_key, ForwardRow, forward_row, replace_repo_graph, parse_import_kind,
  put_rows, load_repo_graph, load_externals, ExternalRow, put_externals, external_row, read_graph,
}
use repolayer.Deps.Store.Put.{
  rows_of, Holds, mem-rows_of, put_graph-put_rows, mem-put_rows, mem-put_externals,
}
use repolayer.Prelude.Rows.{where_rows, mem-where_rows}
use repolayer.Deps.Store.Load.{
  Filed, parse-import_kind_to_str, listed, load_edges-mem, mem-load_externals,
}

edge_of-forward_row :
    (to_text : FilePath → Text) (to_path : Text → FilePath) (repo from_path : Text) (e : DepEdge)
    → to_path (to_text e.target) ≡ e.target
    → e.line < 2 ^ 32
    → edge_of to_path (forward_row to_text repo from_path e) e.kind ≡ e
edge_of-forward_row to_text to_path repo from_path e kept small = rw (kept, fits) refl
  where
    fits : e.line % 2 ^ 32 ≡ e.line
    fits = omega (arith, small)

module _ (to_text : FilePath → Text) (to_path : Text → FilePath) where
  -- A graph that the tables can hold: no file has two edges of one target and kind, the paths are
  -- texts, and line numbers are 32-bit.
  pub record Storable (repo : Text) (g : DepGraph) : Type 0 where
    pub keys_distinct : Distinct (map row_key (rows_of to_text repo g.forward))
    pub files_kept : (p : FilePath) (e : DepEdge) → Holds g.forward p e → to_path (to_text p) ≡ p
    pub targets_kept :
        (p : FilePath) (e : DepEdge) → Holds g.forward p e → to_path (to_text e.target) ≡ e.target
    pub lines_small : (p : FilePath) (e : DepEdge) → Holds g.forward p e → e.line < 2 ^ 32
    pub externals_kept :
        (p : FilePath) (raw : Text) → Holds g.external p raw → to_path (to_text p) ≡ p

  module _ (repo : Text) (g : DepGraph) (s : DepStore) (ok : Storable repo g) where
    abbrev selected : List ForwardRow
    selected =
        where_rows (λ (r : ForwardRow). r.repo == repo)
          (replace_repo_graph to_text repo g s).forward_edges

    mem-selected :
        (x : ForwardRow)
        → (x ∈ selected) ↔ (
            (p : FilePath) × (e : DepEdge) × Holds g.forward p e
            × (x ≡ forward_row to_text repo (to_text p) e))
    unfolding replace_repo_graph
    mem-selected x =
        let kept = where_rows (λ (r : ForwardRow). not (r.repo == repo)) s.forward_edges in
        let rows = rows_of to_text repo g.forward in
        rw (put_graph-put_rows to_text repo g.forward kept) (
          ground (
            arith,
            mem-where_rows (λ (r : ForwardRow). r.repo == repo) (put_rows rows kept) x,
            mem-put_rows rows kept x ok.keys_distinct,
            mem-where_rows (λ (r : ForwardRow). not (r.repo == repo)) s.forward_edges x,
            text_beq_iff x.repo repo,
            mem-rows_of to_text repo g.forward x,
            ours,
          ))
      where
        ours : x ∈ rows_of to_text repo g.forward → x.repo ≡ repo
        ours i = let (p, e, h, q) = (mem-rows_of to_text repo g.forward x).0 i in ap (λ r. r.repo) q

    selected_parse : All (λ r. (k : ImportKind) × (parse_import_kind r.edge_kind ≡ some k)) selected
    selected_parse =
        All-of_mem (λ r. (k : ImportKind) × (parse_import_kind r.edge_kind ≡ some k)) selected
          (λ x i.
            let (p, e, h, q) = (mem-selected x).0 i in
            (e.kind, rw q (parse-import_kind_to_str e.kind)))

    Filed-iff :
        (p : FilePath) (e : DepEdge)
        → ((e ∈ listed {V = DepEdge} [] p)
            ⊎ ((r : ForwardRow) × (r ∈ selected) × Filed to_path r p e))
          ↔ Holds g.forward p e
    unfolding lookup
    Filed-iff p e = (
      λ i. ⊎_elim (λ j. absurd j) (λ (r, j, f). filed_from r f ((mem-selected r).0 j)) i,
      λ h. inr (
        forward_row to_text repo (to_text p) e,
        (mem-selected (forward_row to_text repo (to_text p) e)).1 (p, e, h, refl),
        (
          ok.files_kept p e h,
          (
            e.kind,
            parse-import_kind_to_str e.kind,
            sym (
                edge_of-forward_row to_text to_path repo (to_text p) e (ok.targets_kept p e h)
                  (ok.lines_small p e h)),
          ),
        ),
      ),
    )
      where
        filed_from :
            (r : ForwardRow)
            → Filed to_path r p e
            → ((p' : FilePath) × (e' : DepEdge) × Holds g.forward p' e'
                × (r ≡ forward_row to_text repo (to_text p') e'))
            → Holds g.forward p e
        filed_from r (at, (k, parsed, q)) (p', e', h, w) = rw (p_same, e_same) h
          where
            k_same : k ≡ e'.kind
            k_same = cc (
                sym parsed
                ∙ ap (λ x. parse_import_kind x.edge_kind) w
                ∙ parse-import_kind_to_str e'.kind)

            p_same : p ≡ p'
            p_same = sym at ∙ ap (λ x. to_path x.from_path) w ∙ ok.files_kept p' e' h

            e_same : e ≡ e'
            e_same =
                q
                ∙ ap (λ x. edge_of to_path x k) w
                ∙ ap (edge_of to_path (forward_row to_text repo (to_text p') e')) k_same
                ∙ edge_of-forward_row to_text to_path repo (to_text p') e' (ok.targets_kept p' e' h)
                    (ok.lines_small p' e' h)

    abbrev selected_externals : List ExternalRow
    selected_externals =
        where_rows (λ (r : ExternalRow). r.repo == repo)
          (replace_repo_graph to_text repo g s).external_imports

    mem-selected_externals :
        (x : ExternalRow)
        → (x ∈ selected_externals) ↔ (
            (p : FilePath) × (raw : Text) × Holds g.external p raw
            × (x ≡ external_row repo (to_text p) raw))
    unfolding replace_repo_graph
    mem-selected_externals x =
        let kept = where_rows (λ (r : ExternalRow). not (r.repo == repo)) s.external_imports in
        ground (
          arith,
          mem-where_rows (λ (r : ExternalRow). r.repo == repo)
              (put_externals to_text repo g.external kept) x,
          mem-put_externals to_text repo g.external kept x,
          mem-where_rows (λ (r : ExternalRow). not (r.repo == repo)) s.external_imports x,
          text_beq_iff x.repo repo,
          ours,
        )
      where
        ours :
            ((p : FilePath) × (raw : Text) × Holds g.external p raw
              × (x ≡ external_row repo (to_text p) raw))
            → x.repo ≡ repo
        ours (p, raw, h, q) = ap (λ r. r.repo) q

    externals_iff :
        (p : FilePath) (raw : Text)
        → (raw ∈ listed (load_externals to_path selected_externals []) p) ↔ Holds g.external p raw
    unfolding lookup
    externals_iff p raw = (
      λ i.
          ⊎_elim (λ j. absurd j)
            (λ (r, j, (at, same)).
              let (p', raw', h, q) = (mem-selected_externals r).0 j in
              rw (sym at, q, ok.externals_kept p' raw' h, same, q) h)
            ((mem-load_externals to_path selected_externals [] p raw).0 i),
      λ h. (mem-load_externals to_path selected_externals [] p raw).1 (
          inr (
            external_row repo (to_text p) raw,
            (mem-selected_externals (external_row repo (to_text p) raw)).1 (p, raw, h, refl),
            (ok.externals_kept p raw h, refl),
          )),
    )

    -- A graph with distinct edges per target and kind, paths that are texts and 32-bit lines is
    -- loaded without an error after it replaced the stored one: each file has exactly the edges and
    -- the external imports that it has in the graph.
    pub load-replace_repo_graph :
        (schema : Text) (now : ℕ) (root : FilePath)
        → (h : DepGraph) × (load_repo_graph to_path schema now repo root
              (replace_repo_graph to_text repo g s)
            ≡ some h)
          × ((p : FilePath) (e : DepEdge) → (e ∈ listed h.forward p) ↔ Holds g.forward p e)
          × ((p : FilePath) (raw : Text) → (raw ∈ listed h.external p) ↔ Holds g.external p raw)
    unfolding load_repo_graph
    load-replace_repo_graph schema now root =
        let (forward, done, at) = load_edges-mem to_path selected [] selected_parse in
        (
          record (empty schema now root) {
            forward = forward;
            external =
                load_externals to_path
                  (where_rows (λ (r : ExternalRow). r.repo == repo)
                    (replace_repo_graph to_text repo g s).external_imports)
                  [];
          },
          rw (done, load_repo_graph, read_graph) refl,
          λ p e. (λ i. (Filed-iff p e).0 ((at p e).0 i), λ h. (at p e).1 ((Filed-iff p e).1 h)),
          externals_iff,
        )
