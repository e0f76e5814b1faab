-- ===== src/Search/Cache/Removed.antt =====
-- What `compute_delta` reports as gone, and how many files it counts.

use repolayer.Prelude.{
  ℕ, ◌≡◌, sym, ap, ◌↔◌, ◌⊎◌, inl, inr, ⊎_elim, Option, none, some, List, [], ◌∷◌, map, arith,
}
use repolayer.Prelude.Tests.{Option-cases, PartialEq, nat_eq}
use repolayer.Prelude.Lists.{◌∈◌, exists_cons}
use repolayer.Prelude.Dict.{Dict, contains_iff}
use repolayer.Prelude.Text.{Text, FilePath, text_eq, path_eq}
use repolayer.Search.Cache.{
  Found, compute_delta, missing, visit_file, visit_files, FileRecord, Walking, by_path,
  nothing_seen,
}

module _ {Time : Type 0} ⦃time_eq : PartialEq Time⦄ (hash_file : FilePath → Option ℕ) where
  mem-missing :
      (seen : List Text) (records : List (FileRecord Time)) (p : Text)
      → (p ∈ missing hash_file seen records) ↔ ((p ∈ map (λ r. r.path) records) × ¬ (p ∈ seen))
  unfolding missing
  mem-missing seen [] p = ground arith
  mem-missing seen (r ∷ records) p =
      ground (arith, contains_iff seen r.path, mem-missing seen records p, same)
    where
      same : p ≡ r.path → (p ∈ seen) ↔ (r.path ∈ seen)
      same e = rw e ((λ i. i), (λ i. i))

  -- a file of the working tree has this path below the root
  abbrev pub IsFound : List (Found Time) → Text → Type 0
  IsFound found p = (f : Found Time) × (f ∈ found) × (f.rel ≡ some p)

  visit_file-seen :
      (cached : Dict Text (FileRecord Time)) (w : Walking) (f : Found Time) (p : Text)
      → (p ∈ (visit_file hash_file cached w f).seen) ↔ ((p ∈ w.seen) ⊎ (f.rel ≡ some p))
  unfolding visit_file
  visit_file-seen cached w f p = elim (Option-cases f.rel) [
    | inl e ↦ rw (e, visit_file) (inl, λ i. ⊎_elim (λ s. s) (λ h. absurd (no h)) i)
    | inr (rel, e) ↦
        rw (e, visit_file)
          (λ i. ⊎_elim (λ s. inr (ap some (sym s))) inl i, λ i. ⊎_elim inr (λ h. inl (cc h)) i)
  ]
    where
      no : none ≡ some p → ⊥
      no h = cc

  visit_files-seen :
      (cached : Dict Text (FileRecord Time)) (w : Walking) (found : List (Found Time)) (p : Text)
      → (p ∈ (visit_files hash_file cached w found).seen) ↔ ((p ∈ w.seen) ⊎ IsFound found p)
  unfolding visit_files
  visit_files-seen cached w [] p = (inl, λ i. ⊎_elim (λ s. s) (λ (f, j, e). absurd j) i)
  visit_files-seen cached w (f ∷ found) p =
      exists_cons (λ g. g.rel ≡ some p) f found (visit_file-seen cached w f p)
        (visit_files-seen cached (visit_file hash_file cached w f) found p)

  -- A path is reported as removed exactly when a cached record has it and no indexable file of the
  -- working tree has it.
  pub removed_exact :
      (found : List (Found Time)) (cached_files : List (FileRecord Time)) (p : Text)
      → (p ∈ (compute_delta hash_file found cached_files).removed)
        ↔ ((p ∈ map (λ r. r.path) cached_files) × ¬ IsFound found p)
  unfolding compute_delta
  removed_exact found cached_files p = ground (
    arith,
    mem-missing (visit_files hash_file (by_path hash_file cached_files []) nothing_seen found).seen
        cached_files p,
    visit_files-seen (by_path hash_file cached_files []) nothing_seen found p,
  )
