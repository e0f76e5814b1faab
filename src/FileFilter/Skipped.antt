-- ===== src/FileFilter/Skipped.antt =====
-- Which paths are skipped.
use repolayer.Prelude.{
  ◌≡◌, refl, sym, ◌∙◌, subst, ◌↔◌, ◌⊎◌, inl, inr, ⊎_elim, Bool, true, some, List, [], ◌∷◌, ◌++◌,
  arith,
}
use repolayer.Prelude.Tests.{if◌then◌else◌, Bool-cases, Option-cases, ◌==◌, nat_eq, beq_refl}
use repolayer.Prelude.Lists.{◌∈◌}
use repolayer.Prelude.Text.{
  Text, FilePath, text_eq, path_eq, text_beq_iff, ends_with, ends_with_iff, strip_prefix,
  strip_prefix_iff,
}
use repolayer.Deps.Resolver.Paths.{file_name}
use repolayer.FileFilter.{
  ignore_file_suffixes, ignore_dirs, any, is_ignored_dir, has_ignored_suffix, should_skip_path,
}

any_iff :
    (test : Text → Bool) (xs : List Text)
    → (any test xs ≡ true) ↔ ((x : Text) × (x ∈ xs) × (test x ≡ true))
unfolding any
any_iff test [] = (λ h. cc, λ (x, i, t). absurd i)
any_iff test (y ∷ ys) = (
  λ h. elim (Bool-cases (test y)) [
    | inl t ↦ (y, inl refl, t)
    | inr f ↦ let (x, i, t) = (any_iff test ys).0 (ground arith) in (x, inr i, t)
  ],
  λ (x, i, t). elim i [
    | inl e ↦ let y_holds : test y ≡ true = subst (λ z. test z ≡ true) e t in ground arith
    | inr j ↦ let rest = (any_iff test ys).1 (x, j, t) in ground arith
  ],
)

-- A component of the path below the root is an ignored directory.
abbrev pub IgnoredDir : FilePath → Type 0
IgnoredDir rel = (c : Text) × (c ∈ rel) × (c ∈ ignore_dirs)

-- The base name ends in an ignored suffix.
abbrev pub IgnoredSuffix : FilePath → Type 0
IgnoredSuffix path =
    (name : Text) × (file_name path ≡ some name)
    × ((sfx : Text) × (sfx ∈ ignore_file_suffixes) × ((r : Text) × (name ≡ r ++ sfx)))

is_ignored_dir_iff : (c : Text) → (is_ignored_dir c ≡ true) ↔ (c ∈ ignore_dirs)
unfolding is_ignored_dir
is_ignored_dir_iff c = (
  λ h.
      let (d, i, t) = (any_iff (λ d. d == c) ignore_dirs).0 h in
      subst (λ x. x ∈ ignore_dirs) ((text_beq_iff d c).0 t) i,
  λ i. (any_iff (λ d. d == c) ignore_dirs).1 (c, i, beq_refl c),
)

any-is_ignored_dir_iff : (rel : FilePath) → (any is_ignored_dir rel ≡ true) ↔ IgnoredDir rel
any-is_ignored_dir_iff rel = (
  λ h. let (c, i, t) = (any_iff is_ignored_dir rel).0 h in (c, i, (is_ignored_dir_iff c).0 t),
  λ (c, i, d). (any_iff is_ignored_dir rel).1 (c, i, (is_ignored_dir_iff c).1 d),
)

has_ignored_suffix-some :
    (path : FilePath) (name : Text)
    → file_name path ≡ some name
    → has_ignored_suffix path ≡ any (λ sfx. ends_with name sfx) ignore_file_suffixes
unfolding has_ignored_suffix any
has_ignored_suffix-some path name e = rw (has_ignored_suffix, e) refl

has_ignored_suffix_iff : (path : FilePath) → (has_ignored_suffix path ≡ true) ↔ IgnoredSuffix path
unfolding has_ignored_suffix
has_ignored_suffix_iff path = elim (Option-cases (file_name path)) [
  | inl no_name ↦ rw (has_ignored_suffix, no_name) (λ h. cc, λ (name, e, _). cc)
  | inr (name, e) ↦
      let tested = has_ignored_suffix-some path name e in
      let tests = any_iff (λ s. ends_with name s) ignore_file_suffixes in
      (
        λ h.
            let (sfx, i, t) = tests.0 (sym tested ∙ h) in
            (name, e, (sfx, i, (ends_with_iff name sfx).0 t)),
        λ (other, f, (sfx, i, (r, tail))).
            let same : name ≡ other = cc (e, f) in
            tested ∙ tests.1 (sfx, i, (ends_with_iff name sfx).1 (r, same ∙ tail)),
      )
]

should_skip_path-some :
    (path repo_root rel : FilePath)
    → strip_prefix path repo_root ≡ some rel
    → should_skip_path path repo_root
      ≡ (if any is_ignored_dir rel then true else has_ignored_suffix path)
unfolding should_skip_path any
should_skip_path-some path repo_root rel e = rw (should_skip_path, e) refl

-- A path is skipped exactly where it lies below the root of the repository and either some component
-- of it below the root is an ignored directory, or its base name ends in an ignored suffix.
pub should_skip_path_exact :
    (path repo_root : FilePath)
    → (should_skip_path path repo_root ≡ true)
      ↔ ((rel : FilePath) × (path ≡ repo_root ++ rel) × (IgnoredDir rel ⊎ IgnoredSuffix path))
unfolding should_skip_path file_name
should_skip_path_exact path repo_root = elim (Option-cases (strip_prefix path repo_root)) [
  | inl outside ↦
      rw (should_skip_path, outside)
        (λ h. cc, λ (rel, e, _). cc (outside, (strip_prefix_iff path repo_root rel).1 e))
  | inr (rel, inside) ↦
      let skips = should_skip_path-some path repo_root rel inside in
      let below = (strip_prefix_iff path repo_root rel).0 inside in
      (
        λ h. elim (Bool-cases (any is_ignored_dir rel)) [
          | inl t ↦ (rel, below, inl ((any-is_ignored_dir_iff rel).0 t))
          | inr f ↦
              (rel, below, inr ((has_ignored_suffix_iff path).0 (ground (arith, h, f, skips))))
        ],
        λ (other, e, why).
            let same : other ≡ rel = cc (inside, (strip_prefix_iff path repo_root other).1 e) in
            ⊎_elim
              (λ d.
                let t = (any-is_ignored_dir_iff rel).1 (subst IgnoredDir same d) in
                ground (arith, t, skips))
              (λ s. let t = (has_ignored_suffix_iff path).1 s in ground (arith, t, skips)) why,
      )
]
