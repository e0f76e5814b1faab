-- ===== src/Search/Cache/Tests.antt =====
-- A cache of two files, of which one is gone and one has changed.

use repolayer.Prelude.{ℕ, ◌≡◌, refl, ◌↔◌, Option, some, List, [], ◌∷◌, map}
use repolayer.Prelude.Tests.{nat_eq}
use repolayer.Prelude.Lists.{◌∈◌}
use repolayer.Prelude.Dict.{contains, lookup, insert}
use repolayer.Prelude.Text.{Text, FilePath, bytes, text_eq, path_eq, list_beq}
use repolayer.Search.Cache.{FileRecord, Found, compute_delta, visit_files, by_path, missing}
use repolayer.Search.Cache.Removed.{IsFound, removed_exact}

abbrev cached_file : Text → FileRecord ℕ
cached_file path = record {
  path = path;
  mtime_ns = 5;
  size = 10;
  content_hash = 99;
  chunk_start = 0;
  chunk_end = 1;
}

abbrev cached : List (FileRecord ℕ)
cached = cached_file (bytes "a.rs") ∷ cached_file (bytes "b.rs") ∷ []

abbrev on_disk : List (Found ℕ)
on_disk =
    (record { file = bytes "b.rs" ∷ []; rel = some (bytes "b.rs"); meta = some (6, 10) })
    ∷ (record { file = bytes "c.rs" ∷ []; rel = some (bytes "c.rs"); meta = some (1, 1) })
    ∷ []

abbrev hashes : FilePath → Option ℕ
hashes file = some 7

one_of_each : compute_delta hashes on_disk cached ≡ record {
  added = (bytes "c.rs" ∷ []) ∷ [];
  modified = (bytes "b.rs" ∷ []) ∷ [];
  removed = bytes "a.rs" ∷ [];
  mtime_only = [];
  seen_count = 2;
}
unfolding compute_delta visit_files by_path missing insert lookup contains list_beq
one_of_each = refl

removed_exact_example :
    (bytes "a.rs" ∈ (compute_delta hashes on_disk cached).removed)
    ↔ ((bytes "a.rs" ∈ map (λ r. r.path) cached) × ¬ IsFound hashes on_disk (bytes "a.rs"))
removed_exact_example = removed_exact hashes on_disk cached (bytes "a.rs")
