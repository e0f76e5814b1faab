-- ===== src/Linker/IdlLinks/Scans.antt =====
-- The loops of the pass over the files: each edge comes from a hit.
use repolayer.Linker.IdlLinks.{
  scan_file, confidence_of, hit_edges, idl_edges, module_id, edge_kind, is_server_side,
}
use repolayer.Linker.IdlLinks.{scan_file}
use repolayer.Prelude.{
  ℕ, ◌≡◌, sym, ap, ◌∙◌, subst, ◌↔◌, inl, inr, Option, none, some, List, [], ◌∷◌,
}
use repolayer.Prelude.Tests.{Option-cases, nat_eq}
use repolayer.Prelude.Lists.{get_elem?, ◌∈◌}
use repolayer.Prelude.Dict.{Dict, lookup, keys}
use repolayer.Prelude.Text.{Text, FilePath, text_eq, path_eq}
use repolayer.Linker.Calls.{SourceFile}
use repolayer.Graph.Model.{Edge}
use repolayer.Linker.Names.{collect_hits, mem-collect_hits, ids_of}
use repolayer.Prelude.Rows.{flat_map, mem-flat_map}
use repolayer.Linker.IdlLinks.Hits.{mem-hit_edges}

module _ (digest : Text → Text) (to_lowercase : Text → Text) {Language : Type 0}
    (lang_of : FilePath → Option Language)
    (collect_call_callees : Text → Language → List Text) where
  -- The automaton finds `short` in the text of the file `f`.
  pub record IsHit (find_iter : Text → List ℕ) (names : List Text) (f : SourceFile)
      (content short : Text) : Type 0 where
    pub read : f.content ≡ some content
    pub hit : ℕ
    pub is_hit : hit ∈ find_iter content
    pub is_name : get_elem? names hit ≡ some short

  -- an edge of the file `f` for the name `short`, at the confidence of that hit
  pub record IsIdlEdge (find_iter : Text → List ℕ) (by_name : Dict Text (List Text))
      (f : SourceFile) (short : Text) (e : Edge) : Type 0 where
    pub content : Text
    pub found : IsHit find_iter (keys by_name) f content short
    pub sure :
        confidence_of digest to_lowercase lang_of collect_call_callees by_name f content short
        ≡ some e.confidence
    pub origin : e.source ≡ module_id digest to_lowercase lang_of collect_call_callees f
    pub kind :
        e.kind ≡ edge_kind (is_server_side digest to_lowercase lang_of collect_call_callees f)

  mem-scan_file :
      (find_iter : Text → List ℕ) (by_name : Dict Text (List Text)) (f : SourceFile) (e : Edge)
      → (e
          ∈ scan_file digest to_lowercase lang_of collect_call_callees find_iter
              (keys by_name)
              by_name
              f)
        ↔ ((short : Text) × IsIdlEdge find_iter by_name f short e
            × (e.target ∈ ids_of short by_name))
  unfolding scan_file
  mem-scan_file find_iter by_name f e = elim (Option-cases f.content) [
    | inl unread ↦ (
      λ m. absurd (
          subst
            (λ o. e ∈ elim o [
              | none ↦ []
              | some content ↦
                  flat_map
                    (hit_edges digest to_lowercase lang_of collect_call_callees (keys by_name)
                      by_name f content)
                    (collect_hits (find_iter content))
            ])
            unread m),
      λ (short, is_edge, _). cc (unread, is_edge.found.read),
    )
    | inr (content, read) ↦ (
      λ m.
          let (hit, i, at) =
            (mem-flat_map
                (hit_edges digest to_lowercase lang_of collect_call_callees (keys by_name) by_name f
                  content)
                (collect_hits (find_iter content)) e).0
              (subst
                (λ o. e ∈ elim o [
                  | none ↦ []
                  | some content ↦
                      flat_map
                        (hit_edges digest to_lowercase lang_of collect_call_callees (keys by_name)
                          by_name f content)
                        (collect_hits (find_iter content))
                ])
                read m) in
          let (short, conf, id, is_name, sure, listed_id, same) =
            (mem-hit_edges digest to_lowercase lang_of collect_call_callees (keys by_name) by_name f
                content hit e).0
              at in
          (
            short,
            record {
              content = content;
              found = record {
                read = read;
                hit = hit;
                is_hit = (mem-collect_hits (find_iter content) hit).0 i;
                is_name = is_name;
              };
              sure = sure ∙ ap some (sym (ap (λ (x : Edge). x.confidence) same));
              origin = ap (λ (x : Edge). x.source) same;
              kind = ap (λ (x : Edge). x.kind) same;
            },
            subst (λ x. x ∈ ids_of short by_name) (sym (ap (λ (x : Edge). x.target) same))
                listed_id,
          ),
      λ (short, is_edge, i).
          subst
            (λ o. e ∈ elim o [
              | none ↦ []
              | some content ↦
                  flat_map
                    (hit_edges digest to_lowercase lang_of collect_call_callees (keys by_name)
                      by_name f content)
                    (collect_hits (find_iter content))
            ])
            (sym is_edge.found.read)
            ((mem-flat_map
                (hit_edges digest to_lowercase lang_of collect_call_callees (keys by_name) by_name f
                  is_edge.content)
                (collect_hits (find_iter is_edge.content)) e).1
              (
                is_edge.found.hit,
                (mem-collect_hits (find_iter is_edge.content) is_edge.found.hit).1
                    is_edge.found.is_hit,
                (mem-hit_edges digest to_lowercase lang_of collect_call_callees (keys by_name)
                      by_name f is_edge.content is_edge.found.hit e).1
                    (
                      short,
                      e.confidence,
                      e.target,
                      is_edge.found.is_name,
                      is_edge.sure,
                      i,
                      cc (is_edge.origin, is_edge.kind),
                    ),
              )),
    )
  ]

  pub mem-idl_edges :
      (build : List Text → Option (Text → List ℕ)) (files : List SourceFile)
      (by_name : Dict Text (List Text)) (find_iter : Text → List ℕ) (e : Edge)
      → build (keys by_name) ≡ some find_iter
      → (e ∈ idl_edges digest to_lowercase lang_of collect_call_callees build files by_name) ↔ (
          (f : SourceFile) × (short : Text) × (f ∈ files)
          × IsIdlEdge find_iter by_name f short e
          × (e.target ∈ ids_of short by_name))
  unfolding idl_edges lookup
  mem-idl_edges build files [] find_iter e built =
      (λ m. absurd m, λ (f, short, i, is_edge, m). absurd m)
  mem-idl_edges build files (row ∷ rows) find_iter e built =
      rw (built, idl_edges)
        (
          λ m.
              let (f, i, here) =
                (mem-flat_map
                    (scan_file digest to_lowercase lang_of collect_call_callees find_iter
                      (keys (row ∷ rows)) (row ∷ rows))
                    files e).0
                  m in
              let (short, is_edge, j) = (mem-scan_file find_iter (row ∷ rows) f e).0 here in
              (f, short, i, is_edge, j),
          λ (f, short, i, is_edge, j).
              (mem-flat_map
                  (scan_file digest to_lowercase lang_of collect_call_callees find_iter
                    (keys (row ∷ rows)) (row ∷ rows))
                  files e).1
                (f, i, (mem-scan_file find_iter (row ∷ rows) f e).1 (short, is_edge, j)),
        )
