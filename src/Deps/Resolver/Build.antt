-- ===== src/Deps/Resolver/Build.antt =====
-- src/deps/resolver/build.rs: the suffix index. The directory walk gives the list of the files;
-- a file's declared package and types are a parameter.

use repolayer.Prelude.{Bool, true, false, ◌&&◌, Option, none, some, List, [], ◌∷◌, ◌++◌}
use repolayer.Prelude.Tests.{if◌then◌else◌, ◌==◌, nat_eq}
use repolayer.Prelude.Dict.{Dict, lookup, insert, update, or_default}
use repolayer.Prelude.Text.{
  Text, FilePath, bytes, text_eq, path_eq, path_leb, join_slash, strip_prefix,
}
use repolayer.Prelude.Sort.{dedup, sort_by}
use repolayer.Deps.Resolver.Keys.{is_any, replace_byte, rsplit_once, ascii_lowercase}
use repolayer.Deps.Resolver.Paths.{file_name, extension_of, parent, stem_of, join_stem}

pub data Lang : Type 0 where
  rust python typescript tsx javascript scala java kotlin csharp go other : Lang

unfoldable pub lang_of_extension : Text → Option Lang
unfolding is_any
lang_of_extension ext =
    if ext == bytes "rs"
    then some rust
    else if is_any ext (bytes "py" ∷ bytes "pyi" ∷ [])
    then some python
    else if is_any ext (bytes "ts" ∷ bytes "mts" ∷ bytes "cts" ∷ bytes "d.ts" ∷ [])
    then some typescript
    else if ext == bytes "tsx"
    then some tsx
    else if is_any ext (bytes "js" ∷ bytes "jsx" ∷ bytes "mjs" ∷ bytes "cjs" ∷ [])
    then some javascript
    else if is_any ext (bytes "scala" ∷ bytes "sc" ∷ [])
    then some scala
    else if ext == bytes "java"
    then some java
    else if is_any ext (bytes "kt" ∷ bytes "kts" ∷ [])
    then some kotlin
    else if ext == bytes "cs"
    then some csharp
    else if ext == bytes "go"
    then some go
    else none

unfoldable pub from_path : FilePath → Option Lang
unfolding file_name extension_of ascii_lowercase lang_of_extension
from_path p =
    let ext : Text = elim (file_name p) [
      | none ↦ []
      | some name ↦ or_default [] (extension_of name)
    ] in
    lang_of_extension (ascii_lowercase ext)

pub record IndexedFile : Type 0 where
  pub path : FilePath
  pub language : Lang
  pub package_name : Option Text
  pub top_level_types : List Text

pub record SuffixIndex : Type 0 where
  pub by_suffix : Dict Text (List FilePath)
  pub by_file : Dict FilePath IndexedFile
  pub root : FilePath

-- `SuffixIndex::lookup`
unfoldable pub candidates : SuffixIndex → Text → Option (List FilePath)
unfolding lookup
candidates idx suffix = lookup suffix idx.by_suffix

-- `by_suffix.entry(key).or_default().push(path)`
unfoldable pub push_candidate :
    Text → FilePath → Dict Text (List FilePath) → Dict Text (List FilePath)
unfolding update
push_candidate key path by_suffix = update key [] (λ v. v ++ path ∷ []) by_suffix

-- the relative path without the extension
unfoldable pub stem_path : FilePath → FilePath
unfolding file_name stem_of parent
stem_path rel = elim (file_name rel) [
  | none ↦ []
  | some name ↦ join_stem (or_default [] (parent rel)) (stem_of name)
]

-- `for start in 0..segs.len()`
unfoldable pub push_suffixes :
    FilePath → FilePath → Dict Text (List FilePath) → Dict Text (List FilePath)
unfolding push_candidate join_slash
push_suffixes abs_path [] by_suffix = by_suffix
push_suffixes abs_path (seg ∷ segs) by_suffix =
    push_suffixes abs_path segs (push_candidate (join_slash (seg ∷ segs)) abs_path by_suffix)

unfoldable pub index_path_suffixes :
    Dict Text (List FilePath) → FilePath → FilePath → Dict Text (List FilePath)
unfolding push_suffixes stem_path
index_path_suffixes by_suffix abs_path rel_path =
    push_suffixes abs_path (stem_path rel_path) by_suffix

-- `key.rsplit('/').next()`
abbrev pub last_segment : Text → Text
last_segment key = elim (rsplit_once 47 key) [ none ↦ key | some (before, after) ↦ after ]

abbrev pub is_python : Lang → Bool
is_python python = true
is_python _ = false

-- the entries of a package directory for its `__init__.py`
unfoldable pub index_init :
    Lang → FilePath → FilePath → Dict Text (List FilePath) → Dict Text (List FilePath)
unfolding push_candidate join_slash rsplit_once file_name parent
index_init lang path rel by_suffix =
    if is_python lang && (or_default [] (file_name path) == bytes "__init__.py")
    then elim (or_default [] (parent rel)) [
      | [] ↦ by_suffix
      | c ∷ above ↦
          push_candidate (last_segment (join_slash (c ∷ above))) path
            (push_candidate (join_slash (c ∷ above)) path by_suffix)
    ]
    else by_suffix

-- `for ty in &top_level_types`
unfoldable pub index_types :
    Text → List Text → FilePath → Dict Text (List FilePath) → Dict Text (List FilePath)
unfolding push_candidate replace_byte
index_types pkg [] path by_suffix = by_suffix
index_types pkg (ty ∷ types) path by_suffix = index_types pkg types path (
    push_candidate ty path
      (push_candidate (replace_byte 46 47 (pkg ++ bytes "." ++ ty)) path by_suffix))

abbrev pub has_packages : Lang → Bool
has_packages java = true
has_packages kotlin = true
has_packages scala = true
has_packages csharp = true
has_packages _ = false

abbrev pub index_package :
    Option Text → List Text → FilePath → Dict Text (List FilePath) → Dict Text (List FilePath)
index_package none types path by_suffix = by_suffix
index_package (some pkg) types path by_suffix = index_types pkg types path by_suffix

-- "Dedup + stable sort each candidate list."
unfoldable pub tidy_candidates : Dict Text (List FilePath) → Dict Text (List FilePath)
unfolding path_leb
tidy_candidates [] = []
tidy_candidates ((key, v) ∷ by_suffix) =
    (key, dedup (sort_by path_leb v)) ∷ tidy_candidates by_suffix

module _ (extract_package_and_types : FilePath → Lang → Option (Option Text × List Text)) where
  abbrev pub package_of : FilePath → Lang → Option Text × List Text
  package_of path lang =
      if has_packages lang
      then or_default (none, []) (extract_package_and_types path lang)
      else (none, [])

  -- the body of the loop, for a file in a language that is indexed
  unfoldable pub index_file : SuffixIndex → FilePath → Lang → SuffixIndex
  unfolding index_path_suffixes index_init index_types insert strip_prefix
  index_file idx path lang =
      let (pkg, types) = package_of path lang in
      let by_file =
        insert path
          (record { path = path; language = lang; package_name = pkg; top_level_types = types })
          idx.by_file in
      elim (strip_prefix path idx.root) [
        | none ↦ record idx { by_file = by_file }
        | some rel ↦ record idx {
          by_file = by_file;
          by_suffix =
              index_package pkg types path
                (index_init lang path rel (index_path_suffixes idx.by_suffix path rel));
        }
      ]

  -- `let Some(lang) = Lang::from_path(path) else { continue };`
  unfoldable pub index_walked : SuffixIndex → FilePath → Option Lang → SuffixIndex
  unfolding index_file
  index_walked idx path none = idx
  index_walked idx path (some lang) = index_file idx path lang

  unfoldable pub index_files : SuffixIndex → List FilePath → SuffixIndex
  unfolding index_walked from_path
  index_files idx [] = idx
  index_files idx (path ∷ walked) = index_files (index_walked idx path (from_path path)) walked

  -- `build_suffix_index`, over the files that the walk gives and the filter lets through
  unfoldable pub build_suffix_index : FilePath → List FilePath → SuffixIndex
  unfolding index_files tidy_candidates
  build_suffix_index root walked =
      let idx = index_files (record { by_suffix = []; by_file = []; root = root }) walked in
      record idx { by_suffix = tidy_candidates idx.by_suffix }
