-- ===== src/Indexer/Incremental.antt =====
-- src/indexer/incremental.rs: the update of the dependency store after some files of a repository have
-- changed. `build_for_files` gives the results; what a path is as text (`to_text`) and whether it
-- exists are parameters.
pub mod Tracked
pub mod Loops
pub mod Refines
mod Tests
use repolayer.Prelude.{
  ℕ, zero, suc, ◌+◌, ◌-◌, ◌*◌, ◌/◌, ◌%◌, ◌^◌, ◌≤◌, ◌<◌, min, max, ◌≡◌, refl, sym, ap, ◌∙◌, subst,
  ◌≢◌, ◌↔◌, ◌⊎◌, inl, inr, ⊎_elim, Bool, true, false, not, ◌&&◌, ◌||◌, Option, none, some, List, [],
  ◌∷◌, ◌++◌, map, arith,
}
use repolayer.Prelude.Tests.{
  ltb, leb, nat_beq, if◌then◌else◌, nat_beq_iff, Bool-cases, Option-cases, PartialEq, ◌==◌, nat_eq,
  beq-cases, beq_refl, beq_of_ne,
}
use repolayer.Prelude.Lists.{
  length, get_elem?, get_or, set, take, drop, replicate, ◌∈◌, All, Distinct,
}
use repolayer.Prelude.Dict.{Dict, contains, lookup, insert, update, keys, or_default}
use repolayer.Prelude.Text.{
  Text, FilePath, bytes, text_eq, path_eq, text_beq_iff, path_beq_iff, starts_with,
}
use repolayer.Deps.Store.{delete_file, upsert_file_edges, DepStore}
use repolayer.Prelude.Rows.{where_rows}
use repolayer.Deps.Build.{FileDepResult}

module _ (to_text : FilePath → Text) where
  -- `for r in results`
  unfoldable pub upsert_results : Text → List FileDepResult → DepStore → DepStore
  unfolding upsert_file_edges
  upsert_results repo [] s = s
  upsert_results repo (r ∷ results) s =
      upsert_results repo results
        (upsert_file_edges to_text repo (to_text r.file) r.edges r.external s)

  -- `for path in &ch.files`, over the keys of the files that exist
  unfoldable pub delete_gone : Text → List Text → List FilePath → DepStore → DepStore
  unfolding contains delete_file
  delete_gone repo resolved_keys [] s = s
  delete_gone repo resolved_keys (path ∷ files) s =
      delete_gone repo resolved_keys files
        (if contains resolved_keys (to_text path) then s else delete_file repo (to_text path) s)

  unfoldable pub keys_of_existing : (exists : FilePath → Bool) → List FilePath → List Text
  unfolding where_rows
  keys_of_existing exists files = map to_text (where_rows exists files)

  -- `match crate::deps::build_for_files(...)`: an error changes nothing.
  unfoldable pub update_deps :
      (exists : FilePath → Bool)
      → Text
      → List FilePath
      → Option (List FileDepResult)
      → DepStore
      → DepStore
  unfolding upsert_results delete_gone keys_of_existing
  update_deps exists repo files none s = s
  update_deps exists repo files (some results) s =
      delete_gone repo (keys_of_existing exists files) files (upsert_results repo results s)
