-- ===== src/FileFilter.antt =====
-- src/file_filter.rs: the paths that no walk of a repository indexes.
pub mod Skipped
mod Tests
use repolayer.Prelude.{
  ℕ, zero, suc, ◌+◌, ◌-◌, ◌*◌, ◌/◌, ◌%◌, ◌^◌, ◌≤◌, ◌<◌, min, max, ◌≡◌, refl, sym, ap, ◌∙◌, subst,
  ◌≢◌, ◌↔◌, ◌⊎◌, inl, inr, ⊎_elim, Bool, true, false, not, ◌&&◌, ◌||◌, Option, none, some, List, [],
  ◌∷◌, ◌++◌, map, arith,
}
use repolayer.Prelude.Tests.{
  ltb, leb, nat_beq, if◌then◌else◌, nat_beq_iff, Bool-cases, Option-cases, PartialEq, ◌==◌, nat_eq,
  beq-cases, beq_refl, beq_of_ne,
}
use repolayer.Prelude.Lists.{
  length, get_elem?, ◌∈◌, All, Distinct, exists_cons, mem-append_left, mem-append_right,
}
use repolayer.Prelude.Text.{
  Text, FilePath, bytes, text_eq, path_eq, text_beq_iff, path_beq_iff, starts_with, ends_with,
  ends_with_iff, strip_prefix, strip_prefix_iff, list_beq,
}
use repolayer.Deps.Resolver.Paths.{file_name}

abbrev pub ignore_file_suffixes : List Text
ignore_file_suffixes =
    bytes ".pb.go"
    ∷ bytes "_pb.go"
    ∷ bytes ".pb.cc"
    ∷ bytes ".pb.h"
    ∷ bytes "_pb2.py"
    ∷ bytes "_pb2_grpc.py"
    ∷ bytes "_test.go"
    ∷ bytes ".test.ts"
    ∷ bytes ".test.tsx"
    ∷ bytes ".test.js"
    ∷ bytes ".test.jsx"
    ∷ bytes ".spec.ts"
    ∷ bytes ".spec.tsx"
    ∷ bytes ".spec.js"
    ∷ bytes ".spec.jsx"
    ∷ bytes ".min.js"
    ∷ bytes ".min.css"
    ∷ bytes ".lepus.ts"
    ∷ bytes ".lepus.tsx"
    ∷ []

abbrev pub ignore_dirs : List Text
ignore_dirs =
    bytes ".git"
    ∷ bytes ".hg"
    ∷ bytes ".svn"
    ∷ bytes ".jj"
    ∷ bytes "__pycache__"
    ∷ bytes ".venv"
    ∷ bytes "venv"
    ∷ bytes ".tox"
    ∷ bytes ".mypy_cache"
    ∷ bytes ".pytest_cache"
    ∷ bytes ".ruff_cache"
    ∷ bytes "node_modules"
    ∷ bytes ".next"
    ∷ bytes ".nuxt"
    ∷ bytes ".turbo"
    ∷ bytes ".parcel-cache"
    ∷ bytes "dist"
    ∷ bytes "build"
    ∷ bytes "out"
    ∷ bytes ".eggs"
    ∷ bytes "target"
    ∷ bytes ".cache"
    ∷ bytes ".gradle"
    ∷ bytes ".idea"
    ∷ bytes ".vscode"
    ∷ bytes ".ast-outline"
    ∷ []

-- `iter().any(test)`
unfoldable pub any : (Text → Bool) → List Text → Bool
any test [] = false
any test (x ∷ xs) = test x || any test xs

-- the closure over the components of the relative path
unfoldable pub is_ignored_dir : Text → Bool
unfolding any
is_ignored_dir c = any (λ d. d == c) ignore_dirs

-- the test of the base name
unfoldable pub has_ignored_suffix : FilePath → Bool
unfolding any ends_with file_name
has_ignored_suffix path = elim (file_name path) [
  | none ↦ false
  | some name ↦ any (λ sfx. ends_with name sfx) ignore_file_suffixes
]

-- A component is UTF-8, so that `to_string_lossy` and `to_str` keep it.
unfoldable pub should_skip_path : FilePath → FilePath → Bool
unfolding strip_prefix any is_ignored_dir has_ignored_suffix
should_skip_path path repo_root = elim (strip_prefix path repo_root) [
  | none ↦ false
  | some rel ↦ if any is_ignored_dir rel then true else has_ignored_suffix path
]
