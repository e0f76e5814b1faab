-- ===== src/Deps/Build/Exact.antt =====
-- The graph of a repository against the imports of its files, and the incremental result against it.

use repolayer.Prelude.{
  ℕ, ◌≡◌, refl, sym, ap, ◌∙◌, ◌≢◌, ◌↔◌, ◌⊎◌, inl, inr, ⊎_elim, true, not, ◌&&◌, Option, none, some,
  List, [], ◌∷◌, map, arith,
}
use repolayer.Prelude.Tests.{
  if◌then◌else◌, Bool-cases, Option-cases, ◌==◌, nat_eq, beq-cases, beq_refl,
}
use repolayer.Prelude.Lists.{◌∈◌, Distinct, exists_cons, mem-map}
use repolayer.Prelude.Dict.{
  Dict, contains, lookup, keys, or_default, lookup-insert, contains_of_mem, lookup_mem,
}
use repolayer.Prelude.Text.{Text, FilePath, text_eq, path_eq}
use repolayer.Deps.Graph.{DepEdge, retain_new, DepGraph, dedup_edges, empty}
use repolayer.Deps.Build.{
  add_file, assemble, Resolved, is_empty, RawImport, add_import, add_imports, build_for_repo,
  edge_to, FileDepResult, build_for_files, dedup_sorted, nothing, resolve_file, edge_leb,
  build_for_file,
}
use repolayer.Deps.Build.Targets.{
  targets, mem-targets-append_one, Distinct-retain_new, mem-retain_new, mem-targets-sorted,
}
use repolayer.Prelude.Sort.{sort_by}

lookup-retained :
    (p : FilePath) (m : Dict FilePath (List DepEdge))
    → lookup p (map (λ q. (q.0, retain_new [] q.1)) m)
      ≡ elim (lookup p m) [ none ↦ none | some es ↦ some (retain_new [] es) ]
unfolding lookup
lookup-retained p [] = refl
lookup-retained p ((k, es) ∷ m) = elim (Bool-cases (k == p)) [
  | inl t ↦ rw t refl
  | inr f ↦ rw f (lookup-retained p m)
]

lookup-add_file :
    (f : FilePath → Resolved) (file : FilePath) (g : DepGraph) (p : FilePath)
    → lookup p (add_file g file (f file)).forward
      ≡ (if file == p then some (f p).edges else lookup p g.forward)
unfolding add_file
lookup-add_file f file g p = elim (beq-cases file p) [
  | inl (t, same) ↦ rw (lookup-insert file p (f file).edges g.forward, t, same) refl
  | inr (t, other) ↦ rw (lookup-insert file p (f file).edges g.forward, t) refl
]

external-add_file :
    (f : FilePath → Resolved) (file : FilePath) (g : DepGraph) (p : FilePath)
    → or_default [] (lookup p (add_file g file (f file)).external) ≡ (
        if (file == p) && not (is_empty (f p).external)
        then (f p).external
        else or_default [] (lookup p g.external))
unfolding add_file
external-add_file f file g p = elim (beq-cases file p) [
  | inl (t, same) ↦ rw same (elim (Bool-cases (is_empty (f p).external)) [
    | inl none_ ↦ rw (none_, beq_refl p) refl
    | inr some_ ↦ rw (some_, lookup-insert p p (f p).external g.external, beq_refl p) refl
  ])
  | inr (t, other) ↦ rw t (elim (Bool-cases (is_empty (f file).external)) [
    | inl none_ ↦ rw none_ refl
    | inr some_ ↦ rw (some_, lookup-insert file p (f file).external g.external, t) refl
  ])
]

lookup-assemble :
    (f : FilePath → Resolved) (files : List FilePath) (g : DepGraph) (p : FilePath)
    → lookup p (assemble g (map (λ file. (file, f file)) files)).forward
      ≡ (if contains files p then some (f p).edges else lookup p g.forward)
unfolding assemble contains
lookup-assemble f [] g p = refl
lookup-assemble f (file ∷ files) g p =
    ground (arith, lookup-assemble f files (add_file g file (f file)) p, lookup-add_file f file g p)

external-assemble :
    (f : FilePath → Resolved) (files : List FilePath) (g : DepGraph) (p : FilePath)
    → or_default [] (lookup p (assemble g (map (λ file. (file, f file)) files)).external) ≡ (
        if contains files p && not (is_empty (f p).external)
        then (f p).external
        else or_default [] (lookup p g.external))
unfolding assemble contains
external-assemble f [] g p = refl
external-assemble f (file ∷ files) g p =
    ground
      (arith, external-assemble f files (add_file g file (f file)) p, external-add_file f file g p)

module _ {Lang : Type 0} (by_file : Dict FilePath Lang) (extract : FilePath → Lang → List RawImport)
    (resolve : Text → FilePath → Lang → Option FilePath) where
  -- the import resolves to `t`, another file
  abbrev pub LeadsTo : FilePath → Lang → FilePath → RawImport → Type 0
  LeadsTo file lang t ri = (resolve ri.spec file lang ≡ some t) × (t ≢ file)

  mem-add_import :
      (file : FilePath) (lang : Lang) (r : Resolved) (ri : RawImport) (t : FilePath)
      → (t ∈ targets (add_import by_file extract resolve file lang r ri).edges)
        ↔ ((t ∈ targets r.edges) ⊎ LeadsTo file lang t ri)
  unfolding add_import edge_to
  mem-add_import file lang r ri t = elim (Option-cases (resolve ri.spec file lang)) [
    | inl e ↦ rw (e, add_import) (inl, λ i. ⊎_elim (λ j. j) (λ l. absurd (none_some l.0)) i)
    | inr (target, e) ↦ elim (beq-cases target file) [
      | inl (q, same) ↦
          rw (e, add_import, q) (inl, λ i. ⊎_elim (λ j. j) (λ l. absurd (l.1 (cc l.0))) i)
      | inr (q, other) ↦
          rw (e, add_import, q)
            (
              λ i.
                  ⊎_elim inl (λ (h : t ≡ target). inr (ap some (sym h), λ k. other (sym h ∙ k)))
                    ((mem-targets-append_one r.edges (edge_to target ri) t).0 i),
              λ i.
                  (mem-targets-append_one r.edges (edge_to target ri) t).1
                    (⊎_elim inl (λ l. inr (cc l.0)) i),
            )
    ]
  ]
    where
      none_some : none ≡ some t → ⊥
      none_some h = cc

  mem-add_imports :
      (file : FilePath) (lang : Lang) (r : Resolved) (ris : List RawImport) (t : FilePath)
      → (t ∈ targets (add_imports by_file extract resolve file lang r ris).edges)
        ↔ ((t ∈ targets r.edges) ⊎ ((ri : RawImport) × (ri ∈ ris) × LeadsTo file lang t ri))
  unfolding add_imports
  mem-add_imports file lang r [] t = (inl, λ i. ⊎_elim (λ j. j) (λ (ri, j, l). absurd j) i)
  mem-add_imports file lang r (ri ∷ ris) t =
      exists_cons (LeadsTo file lang t) ri ris (mem-add_import file lang r ri t)
        (mem-add_imports file lang (add_import by_file extract resolve file lang r ri) ris t)

  module _ (file : FilePath) (lang : Lang) (known : lookup file by_file ≡ some lang) where
    abbrev found : Resolved
    found =
        add_imports by_file extract resolve file lang (nothing by_file extract resolve)
          (extract file lang)

    found_targets :
        (t : FilePath)
        → (t ∈ targets found.edges)
          ↔ ((ri : RawImport) × (ri ∈ extract file lang) × LeadsTo file lang t ri)
    found_targets t = (
      λ i.
          ⊎_elim absurd (λ l. l)
            ((mem-add_imports file lang (nothing by_file extract resolve) (extract file lang) t).0
              i),
      λ l.
          (mem-add_imports file lang (nothing by_file extract resolve) (extract file lang) t).1
            (inr l),
    )

    resolve_known : resolve_file by_file extract resolve file ≡ found
    unfolding resolve_file
    resolve_known = rw (known, resolve_file) refl

    is_key : contains (keys by_file) file ≡ true
    is_key =
        contains_of_mem (keys by_file) file
          (mem-map (λ p. p.0) by_file (file, lang) (lookup_mem by_file file lang known))

    module _ (schema : Text) (now : ℕ) (root : FilePath) where
      forward_known :
          lookup file (build_for_repo by_file extract resolve schema now root).forward
          ≡ some (retain_new [] found.edges)
      unfolding build_for_repo dedup_edges
      forward_known =
          rw
            (
              lookup-retained file
                  (assemble (empty schema now root) (
                    map (λ f. (f, resolve_file by_file extract resolve f)) (keys by_file))).forward,
              lookup-assemble (resolve_file by_file extract resolve) (keys by_file)
                  (empty schema now root) file,
              is_key,
              resolve_known,
            )
            refl

      external_known :
          or_default []
            (lookup file (build_for_repo by_file extract resolve schema now root).external)
          ≡ found.external
      unfolding build_for_repo dedup_edges empty lookup
      external_known =
          rw
            (
              external-assemble (resolve_file by_file extract resolve) (keys by_file)
                  (empty schema now root) file,
              is_key,
              resolve_known,
            )
            (none_kept found.external)
        where
          none_kept :
              (raws : List Text)
              → (if not (is_empty raws)
                  then raws
                  else or_default [] (lookup file (empty schema now root).external))
                ≡ raws
          none_kept [] = refl
          none_kept (raw ∷ raws) = refl

      -- For every indexed file the graph of the repository has a list of edges: their targets are
      -- exactly the other files to which an import of the file resolves, each once.
      pub build_for_repo_exact :
          (es : List DepEdge) × (lookup file
              (build_for_repo by_file extract resolve schema now root).forward
            ≡ some es)
          × Distinct (targets es)
          × ((t : FilePath)
              → (t ∈ targets es)
                ↔ ((ri : RawImport) × (ri ∈ extract file lang) × LeadsTo file lang t ri))
      build_for_repo_exact = (
        retain_new [] found.edges,
        forward_known,
        Distinct-retain_new [] found.edges,
        λ t. (
          λ i. (found_targets t).0 ((mem-retain_new [] found.edges t).0 i).0,
          λ l. (mem-retain_new [] found.edges t).1 ((found_targets t).1 l, λ j. j),
        ),
      )

      abbrev updated : FileDepResult
      updated = record {
        file = file;
        edges = dedup_sorted (sort_by edge_leb found.edges);
        external = found.external;
      }

      update_known : build_for_file by_file extract resolve file ≡ some updated
      unfolding build_for_file
      update_known = rw (known, build_for_file) refl

      mem-build_for_files :
          (files : List FilePath)
          → file ∈ files
          → updated ∈ build_for_files by_file extract resolve files
      unfolding build_for_files
      mem-build_for_files [] i = absurd i
      mem-build_for_files (f ∷ files) (inl same) =
          rw (sym same, update_known, build_for_files) (inl refl)
      mem-build_for_files (f ∷ files) (inr i) =
          elim (Option-cases (build_for_file by_file extract resolve f)) [
            | inl e ↦ rw (e, build_for_files) (mem-build_for_files files i)
            | inr (r, e) ↦ rw (e, build_for_files) (inr (mem-build_for_files files i))
          ]

      -- For every indexed file among `files` the incremental result is there: it has the targets that
      -- the file has in the graph of the whole repository, and the same external imports.
      pub build_for_files-agrees :
          (files : List FilePath)
          → file ∈ files
          → let g = build_for_repo by_file extract resolve schema now root in
            (r : FileDepResult) × (r ∈ build_for_files by_file extract resolve files)
            × (r.file ≡ file)
            × ((t : FilePath)
                → (t ∈ targets r.edges) ↔ (t ∈ targets (or_default [] (lookup file g.forward))))
            × (r.external ≡ or_default [] (lookup file g.external))
      build_for_files-agrees files i = (
        updated,
        mem-build_for_files files i,
        refl,
        λ t. rw forward_known (
          λ j. (mem-retain_new [] found.edges t).1 ((mem-targets-sorted found.edges t).0 j, λ k. k),
          λ j. (mem-targets-sorted found.edges t).1 ((mem-retain_new [] found.edges t).0 j).0,
        ),
        sym external_known,
      )
