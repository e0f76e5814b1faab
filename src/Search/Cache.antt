-- ===== src/Search/Cache.antt =====
-- src/search/cache.rs: the cached files of an index against the working tree.
pub mod Removed
mod Tests
-- `Time` is the type of modification times, of which the code only tests equality.

use repolayer.Prelude.{
  ℕ, zero, suc, ◌+◌, ◌-◌, ◌*◌, ◌/◌, ◌%◌, ◌^◌, ◌≤◌, ◌<◌, min, max, ◌≡◌, refl, sym, ap, ◌∙◌, subst,
  ◌≢◌, ◌↔◌, ◌⊎◌, inl, inr, ⊎_elim, Bool, true, false, not, ◌&&◌, ◌||◌, Option, none, some, List, [],
  ◌∷◌, ◌++◌, map, arith,
}
use repolayer.Prelude.Tests.{
  ltb, leb, nat_beq, if◌then◌else◌, nat_beq_iff, Bool-cases, Option-cases, PartialEq, ◌==◌, nat_eq,
  beq-cases, beq_refl, beq_of_ne,
}
use repolayer.Prelude.Lists.{
  length, get_elem?, get_or, set, take, drop, replicate, ◌∈◌, All, Distinct,
}
use repolayer.Prelude.Dict.{Dict, contains, lookup, insert, update, keys, or_default}
use repolayer.Prelude.Text.{
  Text, FilePath, bytes, text_eq, path_eq, text_beq_iff, path_beq_iff, starts_with,
}

pub record FileRecord (Time : Type 0) : Type 0 where
  pub path : Text
  pub mtime_ns : Time
  pub size : ℕ
  pub content_hash : ℕ
  pub chunk_start : ℕ
  pub chunk_end : ℕ

pub record Delta : Type 0 where
  pub added : List FilePath
  pub modified : List FilePath
  pub removed : List Text
  pub mtime_only : List FilePath
  pub seen_count : ℕ

abbrev pub has_none : {A : Type 0} → List A → Bool
has_none [] = true
has_none (x ∷ xs) = false

unfoldable pub requires_rebuild : Delta → Bool
requires_rebuild d = not (has_none d.added && (has_none d.modified && has_none d.removed))

-- What the walker and the file system say of an indexable file: its path, the path relative to the
-- root if it is below the root, and its modification time and size if they can be read.
pub record Found (Time : Type 0) : Type 0 where
  pub file : FilePath
  pub rel : Option Text
  pub meta : Option (Time × ℕ)

-- the variables of the loop
pub record Walking : Type 0 where
  pub delta : Delta
  pub seen : List Text

abbrev pub add_modified : FilePath → Delta → Delta
add_modified file d = record d { modified = d.modified ++ file ∷ [] }

abbrev pub no_delta : Delta
no_delta = record { added = []; modified = []; removed = []; mtime_only = []; seen_count = 0 }

abbrev pub nothing_seen : Walking
nothing_seen = record { delta = no_delta; seen = [] }

-- `hash_file` gives `none` where the file cannot be read.
module _ {Time : Type 0} ⦃time_eq : PartialEq Time⦄ (hash_file : FilePath → Option ℕ) where
  -- `cached_files.iter().map(...).collect()`: the last record of a path stays
  unfoldable pub by_path :
      List (FileRecord Time) → Dict Text (FileRecord Time) → Dict Text (FileRecord Time)
  by_path [] cached = cached
  by_path (r ∷ records) cached = by_path records (insert r.path r cached)

  -- `match cached.get(...)`
  unfoldable pub compare_with : FilePath → Time × ℕ → Option (FileRecord Time) → Delta → Delta
  compare_with file (mtime_ns, size) none d = record d { added = d.added ++ file ∷ [] }
  compare_with file (mtime_ns, size) (some r) d =
      if (r.mtime_ns == mtime_ns) && (r.size == size) then d else elim (hash_file file) [
        | none ↦ add_modified file d
        | some hash ↦
            if hash == r.content_hash
            then record d { mtime_only = d.mtime_only ++ file ∷ [] }
            else add_modified file d
      ]

  -- the body of the loop from `delta.seen_count += 1` on
  unfoldable pub visit_file : Dict Text (FileRecord Time) → Walking → Found Time → Walking
  unfolding compare_with lookup
  visit_file cached w f =
      let counted = record w.delta { seen_count = w.delta.seen_count + 1 } in
      elim f.rel [
        | none ↦ record w { delta = counted }
        | some rel ↦ record {
          delta = elim f.meta [
            | none ↦ counted
            | some meta ↦ compare_with f.file meta (lookup rel cached) counted
          ];
          seen = rel ∷ w.seen;
        }
      ]

  unfoldable pub visit_files : Dict Text (FileRecord Time) → Walking → List (Found Time) → Walking
  unfolding visit_file
  visit_files cached w [] = w
  visit_files cached w (f ∷ found) = visit_files cached (visit_file cached w f) found

  -- `for record in cached_files`
  unfoldable pub missing : List Text → List (FileRecord Time) → List Text
  missing seen [] = []
  missing seen (r ∷ records) =
      let rest = missing seen records in if contains seen r.path then rest else r.path ∷ rest

  unfoldable pub compute_delta : List (Found Time) → List (FileRecord Time) → Delta
  compute_delta found cached_files =
      let w = visit_files (by_path cached_files []) nothing_seen found in
      record w.delta { removed = missing w.seen cached_files }
