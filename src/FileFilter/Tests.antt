-- ===== src/FileFilter/Tests.antt =====
-- A file below `target`, and a test file.
use repolayer.Prelude.{◌≡◌, refl, ◌↔◌, ◌⊎◌, true, false, [], ◌∷◌, ◌++◌}
use repolayer.Prelude.Tests.{nat_eq}
use repolayer.Prelude.Text.{
  FilePath, bytes, text_eq, path_eq, starts_with, ends_with, strip_prefix, list_beq,
}
use repolayer.Deps.Resolver.Paths.{file_name}
use repolayer.FileFilter.{any, is_ignored_dir, has_ignored_suffix, should_skip_path}
use repolayer.FileFilter.Skipped.{should_skip_path_exact, IgnoredDir, IgnoredSuffix}

abbrev repo : FilePath
repo = bytes "r" ∷ []

abbrev built : FilePath
built = bytes "r" ∷ bytes "target" ∷ bytes "a.rs" ∷ []

built_skipped : should_skip_path built repo ≡ true
unfolding should_skip_path any is_ignored_dir strip_prefix list_beq
built_skipped = refl

test_file_skipped : should_skip_path (bytes "r" ∷ bytes "a_test.go" ∷ []) repo ≡ true
unfolding should_skip_path any is_ignored_dir has_ignored_suffix file_name ends_with starts_with
    strip_prefix list_beq
test_file_skipped = refl

source_kept : should_skip_path (bytes "r" ∷ bytes "a.go" ∷ []) repo ≡ false
unfolding should_skip_path any is_ignored_dir has_ignored_suffix file_name ends_with starts_with
    strip_prefix list_beq
source_kept = refl

should_skip_path_exact_example :
    (should_skip_path built repo ≡ true)
    ↔ ((rel : FilePath) × (built ≡ repo ++ rel) × (IgnoredDir rel ⊎ IgnoredSuffix built))
should_skip_path_exact_example = should_skip_path_exact built repo
