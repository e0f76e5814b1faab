-- ===== src/Search/Chunker/Tests.antt =====
-- Tests and instances for the chunker.
use repolayer.Prelude.{ℕ, ◌≡◌, refl, Bool, true, false, ◌&&◌, ◌||◌, List, [], ◌∷◌}
use repolayer.Prelude.Tests.{nat_beq, nat_eq}
use repolayer.Prelude.Lists.{length, ◌∈◌, All}
use repolayer.Prelude.Text.{Text, bytes, text_eq, path_eq}
use repolayer.Search.Chunker.{Child, split_points, windows, chunk_source}
use repolayer.Search.Chunker.Spans.{Tiles, flat}
use repolayer.Search.Chunker.Cover.{Fits, ChunksOf, chunk_source_covers}

-- `trim` on ASCII text
abbrev blank : Text → Bool
blank [] = true
blank (c ∷ t) = (nat_beq c 32 || nat_beq c 10) && blank t

abbrev source : Text
source = bytes "fn a\nfn b\n"

-- An unnamed child, one that ends before the last point and one past the end are skipped.
abbrev children : List Child
children =
    record { wanted = true; end = 5 }
    ∷ record { wanted = false; end = 7 }
    ∷ record { wanted = true; end = 3 }
    ∷ record { wanted = true; end = 99 }
    ∷ []

points_run : split_points 10 children ≡ 0 ∷ 5 ∷ 10 ∷ []
unfolding split_points
points_run = refl

one_chunk :
    chunk_source blank source (bytes "f.rs") (bytes "rust") children
    ≡ record {
      content = source;
      file_path = bytes "f.rs";
      start_line = 1;
      end_line = 2;
      start_byte = 0;
      end_byte = 10;
      language = bytes "rust";
    }
      ∷ []
unfolding chunk_source
one_chunk = refl

chunk_source_covers_example :
    (spans : List (ℕ × ℕ)) × Tiles 0 spans (length source)
    × (flat source spans ≡ source)
    × All
        (Fits blank source
          (bytes "f.rs")
          (bytes "rust")
          (λ r. r ∈ windows (split_points (length source) children)))
        spans
    × ChunksOf blank source
        (bytes "f.rs")
        (bytes "rust")
        spans
        (chunk_source blank source (bytes "f.rs") (bytes "rust") children)
chunk_source_covers_example =
    chunk_source_covers blank source (bytes "f.rs") (bytes "rust") children refl
