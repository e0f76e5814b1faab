-- ===== src/Indexer/Incremental/Refines.antt =====
-- The update of changed files against a rebuild: both track the imports of the repository.
use repolayer.Prelude.{◌≡◌, ◌↔◌, ◌⊎◌, inl, inr, ⊎_elim, Bool, not, some, List, [], ◌∷◌, map, arith}
use repolayer.Prelude.Tests.{Bool-cases, ◌==◌, nat_eq}
use repolayer.Prelude.Lists.{◌∈◌, exists_cons}
use repolayer.Prelude.Dict.{Dict, contains, contains_iff, not_mem_of_contains}
use repolayer.Prelude.Text.{Text, FilePath, text_eq, path_eq, text_beq_iff}
use repolayer.Deps.Build.{FileDepResult}
use repolayer.Deps.Store.{
  DepStore, put_graph, replace_repo_graph, ForwardRow, put_rows, forward_row,
}
use repolayer.Indexer.Incremental.{delete_gone, update_deps, upsert_results, keys_of_existing}
use repolayer.Deps.Graph.{DepGraph, DepEdge}
use repolayer.Indexer.Incremental.Tracked.{HasRow, Tracks, targets_text, HasRow-put_rows}
use repolayer.Prelude.Rows.{where_rows, mem-where_rows}
use repolayer.Indexer.Incremental.Loops.{AreTrue, file_key, upsert_results_lem, delete_gone_lem}

module _ (to_text : FilePath → Text) (repo : Text) where
  -- the rows of a whole graph
  HasRow-put_graph :
      (g : Dict FilePath (List DepEdge)) (rows : List ForwardRow) (p t : Text)
      → HasRow repo (put_graph to_text repo g rows) p t ↔ (
          HasRow repo rows p t
          ⊎ ((entry : FilePath × List DepEdge) × (entry ∈ g)
              × ((to_text entry.0 ≡ p) × (t ∈ targets_text to_text repo entry.1))))
  unfolding put_graph
  HasRow-put_graph [] rows p t = (inl, ⊎_elim (λ h. h) (λ (entry, i, _). absurd i))
  HasRow-put_graph ((f, edges) ∷ g) rows p t =
      exists_cons
        (λ (entry : FilePath × List DepEdge).
          (to_text entry.0 ≡ p) × (t ∈ targets_text to_text repo entry.1))
        (f, edges) g (HasRow-put_rows to_text repo (to_text f) edges rows p t)
        (HasRow-put_graph g (put_rows (map (forward_row to_text repo (to_text f)) edges) rows) p t)

  -- what a dependency graph says
  abbrev pub GraphImports : DepGraph → Text → Text → Type 0
  GraphImports g p t =
      (entry : FilePath × List DepEdge) × (entry ∈ g.forward)
      × ((to_text entry.0 ≡ p) × (t ∈ targets_text to_text repo entry.1))

-- A rebuild makes the store track the graph: after `replace_repo_graph` a row leads from one path to
-- another exactly where the graph has that edge.
pub rebuild-Tracks :
    (to_text : FilePath → Text) (repo : Text) (g : DepGraph) (s : DepStore)
    → Tracks repo (replace_repo_graph to_text repo g s) (GraphImports to_text repo g)
unfolding replace_repo_graph
rebuild-Tracks to_text repo g s p t =
    let others = where_rows (λ (r : ForwardRow). not (r.repo == repo)) s.forward_edges in
    let has = HasRow-put_graph to_text repo g.forward others p t in
    (λ h. ⊎_elim (λ old. absurd (none_left old)) (λ e. e) (has.0 h), λ e. has.1 (inr e))
  where
    none_left :
        HasRow repo (where_rows (λ (r : ForwardRow). not (r.repo == repo)) s.forward_edges) p t → ⊥
    none_left (x, i, at, _, _) =
        let test =
          ((mem-where_rows (λ (r : ForwardRow). not (r.repo == repo)) s.forward_edges x).0 i).1 in
        ground (arith, text_beq_iff x.repo repo)

-- An update refines a rebuild: from a store that tracks the imports before the change it makes one
-- that tracks the imports after it, where the results are true, each changed file that exists has a
-- result or imports what it did, one that is gone imports nothing, and the other files do as before.
pub update_deps-Tracks :
    (to_text : FilePath → Text) (exists : FilePath → Bool) (repo : Text) (files : List FilePath)
    (results : List FileDepResult) (s : DepStore) (Before After : Text → Text → Type 0)
    → Tracks repo s Before
    → AreTrue to_text repo After results
    → ((p : Text) → ¬ (p ∈ map to_text files) → (t : Text) → Before p t ↔ After p t)
    → ((p : Text)
        → p ∈ keys_of_existing to_text exists files
        → (p ∈ map (file_key to_text repo) results) ⊎ ((t : Text) → Before p t ↔ After p t))
    → ((p : Text)
        → p ∈ map to_text files
        → ¬ (p ∈ keys_of_existing to_text exists files)
        → (t : Text) → ¬ After p t)
    → Tracks repo (update_deps to_text exists repo files (some results) s) After
unfolding update_deps
update_deps-Tracks to_text exists repo files results s Before After before says unchanged covered
      gone p t =
    elim (Bool-cases (contains (map to_text files) p)) [
      | inl changed ↦
          let i = (contains_iff (map to_text files) p).0 changed in
          elim (Bool-cases (contains resolved_keys p)) [
            | inl kept ↦
                let m = (contains_iff resolved_keys p).0 kept in
                here (⊎_elim inl (λ same. inr (from_before same)) (covered p m))
                  (λ (_, absent). absent m)
            | inr lost ↦
                let absent = not_mem_of_contains resolved_keys p lost in
                (
                  λ h. absurd (
                      ((delete_gone_lem to_text repo resolved_keys files s' p t).0 h).0
                        (i, absent)),
                  λ a. absurd (gone p i absent t a),
                )
          ]
      | inr other ↦
          let absent = not_mem_of_contains (map to_text files) p other in
          here (inr (from_before (unchanged p absent))) (λ (i, _). absent i)
    ]
  where
    resolved_keys : List Text
    resolved_keys = keys_of_existing to_text exists files

    s' : DepStore
    s' = upsert_results to_text repo results s

    from_before :
        ((u : Text) → Before p u ↔ After p u)
        → (u : Text) → HasRow repo s.forward_edges p u ↔ After p u
    from_before same u = (λ h. (same u).0 ((before p u).0 h), λ a. (before p u).1 ((same u).1 a))

    here :
        (p ∈ map (file_key to_text repo) results)
          ⊎ ((u : Text) → HasRow repo s.forward_edges p u ↔ After p u)
        → ¬ ((p ∈ map to_text files) × ¬ (p ∈ keys_of_existing to_text exists files))
        → HasRow repo (delete_gone to_text repo resolved_keys files s').forward_edges p t
          ↔ After p t
    here right stays =
        let fresh = (upsert_results_lem to_text repo After results s p says).0 right in
        let kept = delete_gone_lem to_text repo resolved_keys files s' p t in
        (λ h. (fresh t).0 (kept.0 h).1, λ a. kept.1 (stays, (fresh t).1 a))
