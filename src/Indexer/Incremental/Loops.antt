-- ===== src/Indexer/Incremental/Loops.antt =====
-- What the two loops of the update do to the rows of each path.
use repolayer.Prelude.{◌≡◌, refl, sym, subst, ◌≢◌, ◌↔◌, ◌⊎◌, inl, inr, ⊎_elim, List, [], ◌∷◌, map}
use repolayer.Prelude.Tests.{Bool-cases, nat_eq, beq-cases}
use repolayer.Prelude.Lists.{◌∈◌}
use repolayer.Prelude.Dict.{contains, contains_iff, not_mem_of_contains}
use repolayer.Prelude.Text.{Text, FilePath, text_eq, path_eq}
use repolayer.Deps.Build.{FileDepResult}
use repolayer.Deps.Store.{DepStore, upsert_file_edges, delete_file}
use repolayer.Indexer.Incremental.{delete_gone, upsert_results}
use repolayer.Indexer.Incremental.Tracked.{
  HasRow, targets_text, HasRow-upsert_file_edges, HasRow-delete_file,
}

module _ (to_text : FilePath → Text) (repo : Text) where
  abbrev pub file_key : FileDepResult → Text
  file_key r = to_text r.file

  -- What the results say is what the files import.
  abbrev pub AreTrue : (Text → Text → Type 0) → List FileDepResult → Type 0
  AreTrue Imports results =
      (r : FileDepResult)
      → r ∈ results
      → (t : Text) → (t ∈ targets_text to_text repo r.edges) ↔ Imports (file_key r) t

  -- the rows of a path as they should be
  abbrev IsFresh : (Text → Text → Type 0) → Text → DepStore → Type 0
  IsFresh Imports p s = (t : Text) → HasRow repo s.forward_edges p t ↔ Imports p t

  abbrev IsSame : Text → DepStore → DepStore → Type 0
  IsSame p s s' = (t : Text) → HasRow repo s'.forward_edges p t ↔ HasRow repo s.forward_edges p t

  upsert_one :
      (Imports : Text → Text → Type 0) (r : FileDepResult) (s : DepStore) (p : Text)
      → ((t : Text) → (t ∈ targets_text to_text repo r.edges) ↔ Imports (file_key r) t)
      → ((p ≡ file_key r)
          × IsFresh Imports p (upsert_file_edges to_text repo (file_key r) r.edges r.external s))
        ⊎ ((p ≢ file_key r)
            × IsSame p s (upsert_file_edges to_text repo (file_key r) r.edges r.external s))
  upsert_one Imports r s p says = elim (beq-cases p (file_key r)) [
    | inl (_, same) ↦ inl (
      same,
      λ t.
          let has = HasRow-upsert_file_edges to_text repo (file_key r) r.edges r.external s p t in
          (
            λ h.
                ⊎_elim (λ (other, _). absurd (other same))
                  (λ (at, m). subst (λ q. Imports q t) at ((says t).0 m)) (has.0 h),
            λ m. has.1 (inr (sym same, (says t).1 (subst (λ q. Imports q t) same m))),
          ),
    )
    | inr (_, other) ↦ inr (
      other,
      λ t.
          let has = HasRow-upsert_file_edges to_text repo (file_key r) r.edges r.external s p t in
          (
            λ h. ⊎_elim (λ (_, g). g) (λ (at, _). absurd (other (sym at))) (has.0 h),
            λ g. has.1 (inl (other, g)),
          ),
    )
  ]

  -- A path that was right, or has a result, is right after the first loop; the others are as before.
  pub upsert_results_lem :
      (Imports : Text → Text → Type 0) (results : List FileDepResult) (s : DepStore) (p : Text)
      → AreTrue Imports results
      → ((p ∈ map file_key results) ⊎ IsFresh Imports p s
          → IsFresh Imports p (upsert_results to_text repo results s))
        × (¬ (p ∈ map file_key results) → IsSame p s (upsert_results to_text repo results s))
  unfolding upsert_results
  upsert_results_lem Imports [] s p says =
      (⊎_elim (λ m. absurd m) (λ f. f), λ _ t. (λ h. h, λ h. h))
  upsert_results_lem Imports (r ∷ results) s p says =
      let s' = upsert_file_edges to_text repo (file_key r) r.edges r.external s in
      let rest = upsert_results_lem Imports results s' p (λ q i. says q (inr i)) in
      ⊎_elim (λ (same, fresh). (λ _. rest.0 (inr fresh), λ absent. absurd (absent (inl same))))
        (λ (other, kept). (
          ⊎_elim (⊎_elim (λ same. absurd (other same)) (λ i. rest.0 (inl i))) (λ fresh.
              rest.0
                (inr (λ t. (λ h. (fresh t).0 ((kept t).0 h), λ m. (kept t).1 ((fresh t).1 m))))),
          λ absent t. (
            λ h. (kept t).0 ((rest.1 (λ i. absent (inr i)) t).0 h),
            λ h. (rest.1 (λ i. absent (inr i)) t).1 ((kept t).1 h),
          ),
        ))
        (upsert_one Imports r s p (says r (inl refl)))

  -- a changed file that does not exist any more
  abbrev IsGone : List Text → List FilePath → Text → Type 0
  IsGone resolved_keys files p = (p ∈ map to_text files) × ¬ (p ∈ resolved_keys)

  pub delete_gone_lem :
      (resolved_keys : List Text) (files : List FilePath) (s : DepStore) (p t : Text)
      → HasRow repo (delete_gone to_text repo resolved_keys files s).forward_edges p t
        ↔ ((¬ IsGone resolved_keys files p) × HasRow repo s.forward_edges p t)
  unfolding delete_gone
  delete_gone_lem resolved_keys [] s p t = (λ h. ((λ (i, _). absurd i), h), λ (_, h). h)
  delete_gone_lem resolved_keys (path ∷ files) s p t =
      elim (Bool-cases (contains resolved_keys (to_text path))) [
        | inl found ↦
            let rest = delete_gone_lem resolved_keys files s p t in
            let here = (contains_iff resolved_keys (to_text path)).0 found in
            rw (found, delete_gone)
              (
                λ h. (
                  λ (i, absent).
                      ⊎_elim (λ same. absent (subst (λ q. q ∈ resolved_keys) (sym same) here))
                        (λ l. (rest.0 h).0 (l, absent)) i,
                  (rest.0 h).1,
                ),
                λ (stays, h). rest.1 ((λ (i, absent). stays (inr i, absent)), h),
              )
        | inr lost ↦
            let rest =
              delete_gone_lem resolved_keys files (delete_file repo (to_text path) s) p t in
            let one = HasRow-delete_file to_text repo (to_text path) s p t in
            let absent_here = not_mem_of_contains resolved_keys (to_text path) lost in
            rw (lost, delete_gone)
              (
                λ h.
                    let (stays, g) = rest.0 h in
                    (
                      λ (i, absent). ⊎_elim (λ same. (one.0 g).0 same) (λ l. stays (l, absent)) i,
                      (one.0 g).1,
                    ),
                λ (stays, h). rest.1 (
                  λ (i, absent). stays (inr i, absent),
                  one.1 (
                    λ same.
                        stays (inl same, λ m. absent_here (subst (λ q. q ∈ resolved_keys) same m)),
                    h,
                  ),
                ),
              )
      ]
