-- ===== src/Linker/ImportsToRepo/Exact.antt =====
-- Which edges `link` puts in the store.
use repolayer.Prelude.Rows.{filter_map, mem-filter_map}
use repolayer.Prelude.Dict.{Dict, lookup}
use repolayer.Prelude.Text.{FilePath, Text, path_eq, text_eq}
use repolayer.Prelude.Lists.{mem-map, mem-map-cases, ◌∈◌}
use repolayer.Prelude.Tests.{Option-cases, beq-cases, nat_eq}
use repolayer.Prelude.{
  List, [], ap, inl, inr, map, none, refl, some, subst, sym, ℕ, ⊎_elim, ◌+◌, ◌↔◌, ◌∙◌, ◌∷◌, ◌≡◌,
  ◌⊎◌,
}
use repolayer.Linker.ImportsToRepo.{
  edge_for, link, link_imports, longest_match, relpath, RepoAlias, try_aliases,
}
use repolayer.Linker.ImportsToRepo.RelPath.{IsRelPath, relpath_iff}
use repolayer.Deps.Store.{DepStore, ExternalRow, list_external_imports}
use repolayer.Graph.Model.{Edge, compute_id, imports, module_node, repo_node, new_node}
use repolayer.Graph.Store.{Store, upsert_edge}
use repolayer.Graph.Store.Edges.{IsValid, key}
use repolayer.Linker.Upserts.{upsert_all, upsert_all_lem, mem-upsert_all}

module _ (digest : Text → Text) (to_path : Text → FilePath) (aliases : List RepoAlias)
    (roots : Dict Text FilePath) where
  -- The import `raw` of a file in another repository, which one of the aliases names.
  pub record IsImportOf (from_repo from_abs raw : Text) (e : Edge) : Type 0 where
    pub target : Text
    pub named : longest_match aliases raw ≡ some target
    pub other_repo : ¬ (target ≡ from_repo)
    pub root : FilePath
    pub known_root : lookup from_repo roots ≡ some root
    pub rel : Text
    pub below : IsRelPath (to_path from_abs) root rel
    pub from_file : e.source ≡ compute_id digest module_node from_repo rel none
    pub to_repo : e.target ≡ compute_id digest repo_node target [] none
    pub kind : e.kind ≡ imports
    pub sure : e.confidence ≡ 90

  edge_for_iff :
      (from_repo from_abs raw : Text) (e : Edge)
      → (edge_for digest to_path aliases roots (from_repo, from_abs, raw) ≡ some e)
        ↔ IsImportOf from_repo from_abs raw e
  unfolding edge_for
  edge_for_iff from_repo from_abs raw e = elim (Option-cases (longest_match aliases raw)) [
    | inl none_there ↦ rw (none_there, edge_for) (λ h. cc, λ i. cc (none_there, i.named))
    | inr (target, named) ↦ elim (beq-cases target from_repo) [
      | inl (t, same) ↦
          rw (named, t, edge_for) (λ h. cc, λ i. absurd (i.other_repo (cc (i.named, named, same))))
      | inr (f, other) ↦ elim (Option-cases (lookup from_repo roots)) [
        | inl unknown ↦ rw (named, f, unknown, edge_for) (λ h. cc, λ i. cc (unknown, i.known_root))
        | inr (root, known) ↦
            rw (named, f, known, edge_for)
              (
                λ h. record {
                  target = target;
                  named = named;
                  other_repo = other;
                  root = root;
                  known_root = known;
                  rel = relpath (to_path from_abs) root;
                  below = (relpath_iff (to_path from_abs) root _).0 refl;
                  from_file = cc h;
                  to_repo = cc h;
                  kind = cc h;
                  sure = cc h;
                },
                λ i.
                    let same_target : i.target ≡ target = cc (i.named, named) in
                    let same_root : i.root ≡ root = cc (i.known_root, known) in
                    let same_rel = (relpath_iff (to_path from_abs) i.root i.rel).1 i.below in
                    cc (same_target, same_root, same_rel, i.from_file, i.to_repo, i.kind, i.sure),
              )
      ]
    ]
  ]

  -- The loop puts the edges of the imports, in turn.
  link_imports-upsert_all :
      (rows : List (Text × Text × Text)) (s : Store × ℕ)
      → link_imports digest to_path aliases roots rows s
        ≡ upsert_all (filter_map (edge_for digest to_path aliases roots) rows) s
  unfolding link_imports upsert_all filter_map
  link_imports-upsert_all [] s = refl
  link_imports-upsert_all (row ∷ rows) s =
      elim (Option-cases (edge_for digest to_path aliases roots row)) [
        | inl e ↦ rw (e, filter_map) (link_imports-upsert_all rows s)
        | inr (edge, e) ↦
            rw (e, filter_map) (link_imports-upsert_all rows (upsert_edge edge s.0, s.1 + 1))
      ]

  -- `e` is the edge of a stored external import.
  abbrev pub IsImportEdge : DepStore → Edge → Type 0
  IsImportEdge deps_store e =
      (r : ExternalRow) × (r ∈ deps_store.external_imports) × IsImportOf r.repo r.from_path r.raw e

  import_edges : DepStore → List Edge
  import_edges deps_store =
      filter_map (edge_for digest to_path aliases roots) (list_external_imports deps_store)

  mem-import_edges :
      (deps_store : DepStore) (e : Edge) → (e ∈ import_edges deps_store) ↔ IsImportEdge deps_store e
  unfolding import_edges list_external_imports
  mem-import_edges deps_store e = (
    λ m.
        let (row, i, at) =
          (mem-filter_map (edge_for digest to_path aliases roots) (list_external_imports deps_store)
              e).0
            m in
        let (r, stored, same) =
          mem-map-cases (λ (r : ExternalRow). (r.repo, r.from_path, r.raw))
            deps_store.external_imports row i in
        (
          r,
          stored,
          (edge_for_iff r.repo r.from_path r.raw e).0
              (ap (edge_for digest to_path aliases roots) (sym same) ∙ at),
        ),
    λ (r, stored, of).
        (mem-filter_map (edge_for digest to_path aliases roots) (list_external_imports deps_store)
            e).1
          (
            (r.repo, r.from_path, r.raw),
            mem-map (λ (r : ExternalRow). (r.repo, r.from_path, r.raw)) deps_store.external_imports
                r stored,
            (edge_for_iff r.repo r.from_path r.raw e).1 of,
          ),
  )

  import_edges-one :
      (deps_store : DepStore) (a b : Edge)
      → a ∈ import_edges deps_store
      → b ∈ import_edges deps_store
      → key a ≡ key b
      → a ≡ b
  import_edges-one deps_store a b i j same =
      let (r, _, one) = (mem-import_edges deps_store a).0 i in
      let (q, _, two) = (mem-import_edges deps_store b).0 j in cc (same, one.sure, two.sure)

  -- The store after the pass, where it was `s` before it.
  pub record IsImportsLinked (deps_store : DepStore) (s after : Store) : Type 0 where
    pub valid : IsValid after
    pub same_nodes : after.nodes ≡ s.nodes
    pub rows :
        (e : Edge)
        → (e ∈ after.edges) ↔ (
            IsImportEdge deps_store e
            ⊎ ((e ∈ s.edges) × (¬ ((f : Edge) × IsImportEdge deps_store f × (key e ≡ key f)))))

no_alias :
    (digest : Text → Text) (to_path : Text → FilePath) (roots : Dict Text FilePath)
    (rows : List (Text × Text × Text))
    → filter_map (edge_for digest to_path [] roots) rows ≡ []
unfolding filter_map edge_for longest_match try_aliases
no_alias digest to_path roots [] = refl
no_alias digest to_path roots (row ∷ rows) = no_alias digest to_path roots rows

link-upsert_all :
    (digest : Text → Text) (to_path : Text → FilePath) (aliases : List RepoAlias)
    (roots : Dict Text FilePath) (deps_store : DepStore) (s : Store)
    → link digest to_path aliases roots deps_store s
      ≡ upsert_all (import_edges digest to_path aliases roots deps_store) (s, 0)
unfolding link upsert_all import_edges
link-upsert_all digest to_path [] roots deps_store s =
    ap (λ l. upsert_all l (s, 0))
      (sym (no_alias digest to_path roots (list_external_imports deps_store)))
link-upsert_all digest to_path (a ∷ aliases) roots deps_store s =
    link_imports-upsert_all digest to_path (a ∷ aliases) roots (list_external_imports deps_store)
      (s, 0)

-- The pass keeps the primary keys distinct and leaves the nodes alone. Afterwards the edges are those
-- of the stored external imports, from the module of the importing file to the repository that the
-- longest matching prefix names, with confidence 0.9, where that is another repository and the root of
-- the importing one is known, and the old rows with another key than all of these.
pub link_exact :
    (digest : Text → Text) (to_path : Text → FilePath) (aliases : List RepoAlias)
    (roots : Dict Text FilePath) (deps_store : DepStore) (s : Store)
    → IsValid s
    → IsImportsLinked digest to_path aliases roots deps_store s
        (link digest to_path aliases roots deps_store s).0
link_exact digest to_path aliases roots deps_store s v =
    let edges = import_edges digest to_path aliases roots deps_store in
    let found = mem-import_edges digest to_path aliases roots deps_store in
    let (valid, nodes, _, _) =
      upsert_all_lem edges (s, 0) ([], [], imports) (new_node digest module_node [] [] none) v in
    let rows = λ (e : Edge).
      mem-upsert_all edges (s, 0) e v (import_edges-one digest to_path aliases roots deps_store) in
    subst (λ (t : Store × ℕ). IsImportsLinked digest to_path aliases roots deps_store s t.0)
      (sym (link-upsert_all digest to_path aliases roots deps_store s))
      (record {
        valid = valid;
        same_nodes = nodes;
        rows = λ e. (
          λ m.
              ⊎_elim (λ i. inl ((found e).0 i))
                (λ (old, absent). inr (
                  old,
                  λ (f, is_import, same). absent (
                      subst (λ k. k ∈ map key edges) (sym same)
                        (mem-map key edges f ((found f).1 is_import))),
                ))
                ((rows e).0 m),
          ⊎_elim (λ is_import. (rows e).1 (inl ((found e).1 is_import)))
              (λ (old, absent). (rows e).1 (
                inr (
                  old,
                  λ k.
                      let (f, i, same) = mem-map-cases key edges (key e) k in
                      absent (f, (found f).0 i, same),
                ))),
        );
      })
