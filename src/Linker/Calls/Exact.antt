-- ===== src/Linker/Calls/Exact.antt =====
-- Which edges the pass over the files gives.

use repolayer.Prelude.Rows.{mem-filter_map, mem-flat_map}
use repolayer.Prelude.Dict.{Dict, contains, contains_iff, keys, lookup, not_mem_of_contains}
use repolayer.Prelude.Text.{FilePath, Text, path_eq, text_eq}
use repolayer.Prelude.Lists.{get_elem?, ◌∈◌}
use repolayer.Prelude.Tests.{Bool-cases, Option-cases, nat_eq}
use repolayer.Prelude.{List, Option, [], inl, inr, none, refl, some, subst, ℕ, ◌↔◌, ◌∷◌, ◌≡◌}
use repolayer.Linker.ImportsToRepo.RelPath.{IsRelPath}
use repolayer.Graph.Model.{compute_id, module_node, Edge, calls}
use repolayer.Linker.Calls.{
  SourceFile, call_edge, call_edges, edge_at, edge_to_only, scan_file, module_of,
}
use repolayer.Graph.Store.{Store}
use repolayer.Linker.Names.{collect_hits, mem-collect_hits}

abbrev pub call_to : Text → Text → Edge
call_to module_id id = record { source = module_id; target = id; kind = calls; confidence = 100 }

edge_to_only-some :
    (module_id : Text) (o : Option (List Text)) (e : Edge)
    → (edge_to_only module_id o ≡ some e)
      ↔ ((id : Text) × (o ≡ some (id ∷ [])) × (e ≡ call_to module_id id))
unfolding edge_to_only
edge_to_only-some module_id none e = (λ h. cc, λ (id, h, _). cc)
edge_to_only-some module_id (some []) e = (λ h. cc, λ (id, h, _). cc)
edge_to_only-some module_id (some (id ∷ [])) e = (λ h. (id, refl, cc), λ (j, h, same). cc)
edge_to_only-some module_id (some (id ∷ j ∷ ids)) e = (λ h. cc, λ (k, h, _). cc)

module _ (digest : Text → Text) {Language : Type 0} (lang_of : FilePath → Option Language)
    (collect_call_callees : Text → Language → List Text) where
  call_edge-some :
      (module_id : Text) (by_name : Dict Text (List Text)) (callees : List Text) (name : Text)
      (e : Edge)
      → (call_edge digest lang_of collect_call_callees module_id by_name callees name ≡ some e) ↔ (
          (name ∈ callees)
          × ((id : Text) × (lookup name by_name ≡ some (id ∷ [])) × (e ≡ call_to module_id id)))
  unfolding call_edge
  call_edge-some module_id by_name callees name e = elim (Bool-cases (contains callees name)) [
    | inl t ↦
        rw (t, call_edge)
          (let o = edge_to_only-some module_id (lookup name by_name) e in
            (λ h. ((contains_iff callees name).0 t, o.0 h), λ (i, h). o.1 h))
    | inr f ↦ rw (f, call_edge) (λ h. cc, λ (i, h). absurd (not_mem_of_contains callees name f i))
  ]

  pub edge_at-some :
      (module_id : Text) (names : List Text) (by_name : Dict Text (List Text)) (callees : List Text)
      (hit : ℕ) (e : Edge)
      → (edge_at digest lang_of collect_call_callees module_id names by_name callees hit ≡ some e)
        ↔ ((name : Text) × (id : Text) × (get_elem? names hit ≡ some name)
            × (name ∈ callees)
            × (lookup name by_name ≡ some (id ∷ []))
            × (e ≡ call_to module_id id))
  unfolding edge_at
  edge_at-some module_id names by_name callees hit e = elim (Option-cases (get_elem? names hit)) [
    | inl none_there ↦ rw (none_there, edge_at) (λ h. cc, λ (name, id, h, _, _, _). cc)
    | inr (name, there) ↦
        rw (there, edge_at)
          (
            λ h.
                let (i, (id, found, same)) =
                  (call_edge-some module_id by_name callees name e).0 h in
                (name, id, refl, i, found, same),
            λ (other, id, h, i, found, same). (call_edge-some module_id by_name callees name e).1 (
                (
                  subst (λ x. x ∈ callees) (cc h) i,
                  (id, subst (λ x. lookup x by_name ≡ some (id ∷ [])) (cc h) found, same),
                )),
          )
  ]

  -- A call of `name` in the file `f`, which the automaton finds in the text and the parser confirms.
  pub record IsCallSite (find_iter : Text → List ℕ) (names : List Text) (f : SourceFile)
      (name : Text) : Type 0 where
    pub content : Text
    pub read : f.content ≡ some content
    pub lang : Language
    pub known_lang : lang_of f.path ≡ some lang
    pub is_callee : name ∈ collect_call_callees content lang
    pub hit : ℕ
    pub is_hit : hit ∈ find_iter content
    pub is_name : get_elem? names hit ≡ some name

  mem-scan_file :
      (find_iter : Text → List ℕ) (names : List Text) (by_name : Dict Text (List Text))
      (f : SourceFile) (e : Edge)
      → (e ∈ scan_file digest lang_of collect_call_callees find_iter names by_name f) ↔ (
          (name : Text) × (id : Text) × IsCallSite find_iter names f name
          × (lookup name by_name ≡ some (id ∷ []))
          × (e ≡ call_to (module_of digest lang_of collect_call_callees f).id id))
  unfolding scan_file
  mem-scan_file find_iter names by_name f e = elim (Option-cases f.content) [
    | inl unread ↦
        rw (unread, scan_file) (λ m. absurd m, λ (name, id, site, _, _). cc (unread, site.read))
    | inr (content, read) ↦ elim (Option-cases (lang_of f.path)) [
      | inl unknown ↦
          rw (read, unknown, scan_file)
            (λ m. absurd m, λ (name, id, site, _, _). cc (unknown, site.known_lang))
      | inr (lang, known) ↦
          rw (read, known, scan_file)
            (
              λ m.
                  let (hit, is_hit, at) =
                    (mem-filter_map _ (collect_hits (find_iter content)) e).0 m in
                  let (name, id, is_name, is_callee, found, same) =
                    (edge_at-some _ names by_name _ hit e).0 at in
                  (
                    name,
                    id,
                    record {
                      content = content;
                      read = refl;
                      lang = lang;
                      known_lang = known;
                      is_callee = is_callee;
                      hit = hit;
                      is_hit = (mem-collect_hits (find_iter content) hit).0 is_hit;
                      is_name = is_name;
                    },
                    found,
                    same,
                  ),
              λ (name, id, site, found, same).
                  let same_content : site.content ≡ content = cc (read, site.read) in
                  let same_lang : site.lang ≡ lang = cc (known, site.known_lang) in
                  (mem-filter_map _ (collect_hits (find_iter content)) e).1 (
                    site.hit,
                    (mem-collect_hits (find_iter content) site.hit).1
                        (subst (λ c. site.hit ∈ find_iter c) same_content site.is_hit),
                    (edge_at-some _ names by_name _ site.hit e).1 (
                      name,
                      id,
                      site.is_name,
                      subst (λ c. name ∈ collect_call_callees c lang) same_content
                          (subst (λ l. name ∈ collect_call_callees site.content l) same_lang
                            site.is_callee),
                      found,
                      same,
                    ),
                  ),
            )
    ]
  ]

  pub call_edges-mem :
      (build : List Text → Option (Text → List ℕ)) (files : List SourceFile)
      (by_name : Dict Text (List Text)) (e : Edge)
      → (e ∈ call_edges digest lang_of collect_call_callees build files by_name) ↔ (
          (find_iter : Text → List ℕ) × (f : SourceFile) × (build (keys by_name) ≡ some find_iter)
          × (f ∈ files)
          × ((name : Text) × (id : Text) × IsCallSite find_iter (keys by_name) f name
              × (lookup name by_name ≡ some (id ∷ []))
              × (e ≡ call_to (module_of digest lang_of collect_call_callees f).id id)))
  unfolding call_edges lookup
  call_edges-mem build files [] e =
      (λ m. absurd m, λ (find_iter, f, _, _, (name, id, _, found, _)). cc found)
  call_edges-mem build files (row ∷ rows) e = elim (Option-cases (build (keys (row ∷ rows)))) [
    | inl unbuilt ↦ rw (unbuilt, call_edges) (λ m. absurd m, λ (find_iter, f, h, _, _). cc h)
    | inr (find_iter, built) ↦
        rw (built, call_edges)
          (
            λ m.
                let (f, i, here) =
                  (mem-flat_map
                      (scan_file digest lang_of collect_call_callees find_iter (keys (row ∷ rows))
                        (row ∷ rows))
                      files e).0
                    m in
                (
                  find_iter,
                  f,
                  refl,
                  i,
                  (mem-scan_file find_iter (keys (row ∷ rows)) (row ∷ rows) f e).0 here,
                ),
            λ (other, f, h, i, site).
                (mem-flat_map
                    (scan_file digest lang_of collect_call_callees find_iter (keys (row ∷ rows))
                      (row ∷ rows))
                    files e).1
                  (
                    f,
                    i,
                    (mem-scan_file find_iter (keys (row ∷ rows)) (row ∷ rows) f e).1 (
                        subst
                          (λ g.
                            (name : Text) × (id : Text) × IsCallSite g (keys (row ∷ rows)) f name
                            × (lookup name (row ∷ rows) ≡ some (id ∷ []))
                            × (e ≡ call_to (module_of digest lang_of collect_call_callees f).id id))
                          (cc h) site),
                  ),
          )
  ]

-- The edge from the module of the file `f` to the node `id`: a call, with full confidence.
pub record IsCallEdge (digest : Text → Text) (f : SourceFile) (id : Text) (e : Edge) : Type 0 where
  pub rel : Text
  pub below : IsRelPath f.path f.root rel
  pub from_file : e.source ≡ compute_id digest module_node f.repo rel none
  pub to_node : e.target ≡ id
  pub kind : e.kind ≡ calls
  pub sure : e.confidence ≡ 100
