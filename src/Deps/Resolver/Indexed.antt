-- ===== src/Deps/Resolver/Indexed.antt =====
-- What the suffix index holds, against the keys of each file.
use repolayer.Deps.Resolver.Build.{
  from_path, Lang, index_file, index_path_suffixes, stem_path, SuffixIndex, package_of,
  build_suffix_index, index_files, candidates, index_walked,
}
use repolayer.Prelude.{
  ◌≡◌, refl, sym, ◌∙◌, subst, ◌↔◌, ◌⊎◌, inl, inr, ⊎_elim, Option, none, some, List, [], ◌∷◌, ◌++◌,
}
use repolayer.Prelude.Tests.{Option-cases, nat_eq}
use repolayer.Prelude.Lists.{◌∈◌, exists_cons}
use repolayer.Prelude.Dict.{or_default}
use repolayer.Prelude.Text.{Text, FilePath, text_eq, path_eq, strip_prefix}
use repolayer.Deps.Resolver.Keyed.{
  Adds, listed, listed-tidy, suffix_keys, Adds-nil, init_keys, Adds-trans, type_keys, package_keys,
  push_suffixes-Adds, index_init-Adds, index_package-Adds,
}

module _ (extract_package_and_types : FilePath → Lang → Option (Option Text × List Text)) where
  -- the keys under which a file is to be found
  unfoldable pub file_keys : FilePath → FilePath → Lang → List Text
  unfolding suffix_keys init_keys type_keys strip_prefix stem_path
  file_keys root path lang = elim (strip_prefix path root) [
    | none ↦ []
    | some rel ↦
        suffix_keys (stem_path rel)
        ++ init_keys lang path rel
        ++ package_keys (package_of extract_package_and_types path lang).0
            (package_of extract_package_and_types path lang).1
  ]

  index_file-Adds :
      (idx : SuffixIndex) (path : FilePath) (lang : Lang)
      → Adds
          (file_keys idx.root path lang)
          path
          idx.by_suffix
          (index_file extract_package_and_types idx path lang).by_suffix
  unfolding index_file index_path_suffixes file_keys
  index_file-Adds idx path lang = elim (Option-cases (strip_prefix path idx.root)) [
    | inl e ↦ rw (e, index_file, file_keys) (Adds-nil path idx.by_suffix)
    | inr (rel, e) ↦
        rw (e, index_file, file_keys)
          (Adds-trans
            (Adds-trans (push_suffixes-Adds path (stem_path rel) idx.by_suffix)
              (index_init-Adds lang path rel _))
            (index_package-Adds (package_of extract_package_and_types path lang).0
              (package_of extract_package_and_types path lang).1 path _))
  ]

  index_file-root :
      (idx : SuffixIndex) (path : FilePath) (lang : Lang)
      → (index_file extract_package_and_types idx path lang).root ≡ idx.root
  unfolding index_file
  index_file-root idx path lang = elim (Option-cases (strip_prefix path idx.root)) [
    | inl e ↦ rw (e, index_file) refl
    | inr (rel, e) ↦ rw (e, index_file) refl
  ]

  -- `path` is in an indexed language, and `key` is one of its keys.
  abbrev pub HasKey : FilePath → Text → FilePath → Type 0
  HasKey root key path =
      (lang : Lang) × (from_path path ≡ some lang) × (key ∈ file_keys root path lang)

  index_walked-root :
      (idx : SuffixIndex) (path : FilePath) (o : Option Lang)
      → (index_walked extract_package_and_types idx path o).root ≡ idx.root
  unfolding index_walked
  index_walked-root idx path none = refl
  index_walked-root idx path (some lang) = index_file-root idx path lang

  index_walked-listed :
      (idx : SuffixIndex) (path : FilePath) (o : Option Lang) (key : Text) (p : FilePath)
      → (p ∈ listed key (index_walked extract_package_and_types idx path o).by_suffix) ↔ (
          (p ∈ listed key idx.by_suffix)
          ⊎ (((lang : Lang) × (o ≡ some lang) × (key ∈ file_keys idx.root path lang)) × (p ≡ path)))
  unfolding index_walked
  index_walked-listed idx path none key p = (inl, ⊎_elim (λ m. m) (λ ((lang, e, k), _). cc))
  index_walked-listed idx path (some lang) key p =
      let added = (index_file-Adds idx path lang).listed_iff key p in
      (
        λ m. ⊎_elim inl (λ (k, same). inr ((lang, refl, k), same)) (added.0 m),
        ⊎_elim (λ m. added.1 (inl m)) (λ ((l, e, k), same). added.1 (inr (at l e k, same))),
      )
    where
      at :
          (l : Lang)
          → some lang ≡ some l
          → key ∈ file_keys idx.root path l
          → key ∈ file_keys idx.root path lang
      at l e k = subst (λ o. key ∈ file_keys idx.root path (or_default lang o)) (sym e) k

  index_files-listed :
      (idx : SuffixIndex) (walked : List FilePath) (root : FilePath) (key : Text) (p : FilePath)
      → idx.root ≡ root
      → (p ∈ listed key (index_files extract_package_and_types idx walked).by_suffix) ↔ (
          (p ∈ listed key idx.by_suffix)
          ⊎ ((path : FilePath) × (path ∈ walked) × (HasKey root key path × (p ≡ path))))
  unfolding index_files
  index_files-listed idx [] root key p at_root = (inl, ⊎_elim (λ m. m) (λ (path, i, _). absurd i))
  index_files-listed idx (path ∷ walked) root key p at_root =
      exists_cons (λ path. HasKey root key path × (p ≡ path)) path walked
        (subst
          (λ r.
            (p
              ∈ listed key
                  (index_walked extract_package_and_types idx path (from_path path)).by_suffix)
            ↔ ((p ∈ listed key idx.by_suffix) ⊎ (HasKey r key path × (p ≡ path))))
          at_root (index_walked-listed idx path (from_path path) key p))
        (index_files-listed (index_walked extract_package_and_types idx path (from_path path))
          walked root key p (index_walked-root idx path (from_path path) ∙ at_root))

-- The index lists a file under a key exactly where the file was walked, is in an indexed language,
-- and has that key: a suffix of its path without the extension, the package directory of an
-- `__init__.py`, or one of the declared types, with and without the package.
pub build_suffix_index_exact :
    (extract_package_and_types : FilePath → Lang → Option (Option Text × List Text))
    (root : FilePath) (walked : List FilePath) (key : Text) (p : FilePath)
    → (p
        ∈ or_default [] (candidates (build_suffix_index extract_package_and_types root walked) key))
      ↔ ((p ∈ walked) × HasKey extract_package_and_types root key p)
unfolding build_suffix_index candidates
build_suffix_index_exact extract root walked key p =
    let begun : SuffixIndex = record { by_suffix = []; by_file = []; root = root } in
    let all = (index_files extract begun walked).by_suffix in
    let listed_iff = index_files-listed extract begun walked root key p refl in
    (
      λ m.
          ⊎_elim (λ i. absurd i) (λ (path, i, (has, same)). rw same (i, has))
            (listed_iff.0 ((listed-tidy all key p).0 m)),
      λ (i, has). (listed-tidy all key p).1 (listed_iff.1 (inr (p, i, (has, refl)))),
    )
