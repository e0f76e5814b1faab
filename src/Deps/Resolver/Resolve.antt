-- ===== src/Deps/Resolver/Resolve.antt =====
-- src/deps/resolver/resolve.rs: one import string against the suffix index. `trim`, the components of
-- a path (`to_path`), its text (`display`) and `Path::is_file` are parameters.
use repolayer.Prelude.{
  ℕ, Bool, true, false, ◌&&◌, ◌||◌, Option, none, some, List, [], ◌∷◌, ◌++◌, map,
}
use repolayer.Prelude.Tests.{ltb, if◌then◌else◌, ◌==◌, nat_eq}
use repolayer.Prelude.Dict.{keys}
use repolayer.Prelude.Text.{
  Text, FilePath, bytes, text_eq, path_eq, starts_with, path_leb, strip_prefix, join_slash,
}
use repolayer.Deps.Resolver.Build.{
  rust, go, typescript, tsx, javascript, Lang, SuffixIndex, has_packages, is_python, candidates,
}
use repolayer.Deps.Resolver.Closest.{path_ltb, pick_closest}
use repolayer.Deps.Resolver.Paths.{join, parent, with_ext, ascend}
use repolayer.Deps.Resolver.Keys.{
  replace_byte, strip_text, replace_colons, rsplit_once, shorter_keys, strip_repeat,
  trim_quotes_start, strip_all, trim_quotes, trim_dot_slash,
}

pub record ResolveCtx : Type 0 where
  pub from_file : FilePath
  pub lang : Lang
  pub alias_prefix : Option Text
  pub path_aliases : List (Text × Text)

abbrev pub is_rust : Lang → Bool
is_rust rust = true
is_rust _ = false

abbrev pub is_go : Lang → Bool
is_go go = true
is_go _ = false

abbrev pub is_script : Lang → Bool
is_script typescript = true
is_script tsx = true
is_script javascript = true
is_script _ = false

abbrev pub ext_order : List Text
ext_order =
    bytes ".ts"
    ∷ bytes ".tsx"
    ∷ bytes ".mts"
    ∷ bytes ".cts"
    ∷ bytes ".d.ts"
    ∷ bytes ".js"
    ∷ bytes ".jsx"
    ∷ bytes ".mjs"
    ∷ bytes ".cjs"
    ∷ bytes ".json"
    ∷ []

abbrev pub python_exts : List Text
python_exts = bytes ".py" ∷ bytes ".pyi" ∷ []

-- the first of two results
abbrev pub or_else : {A : Type 0} → Option A → Option A → Option A
or_else none b = b
or_else (some a) b = some a

module _ (idx : SuffixIndex) (from_file : FilePath) where
  abbrev pub find_key : Text → Option FilePath
  find_key key = pick_closest (candidates idx key) from_file

  unfoldable pub first_key : List Text → Option FilePath
  unfolding pick_closest candidates
  first_key [] = none
  first_key (key ∷ keys) = or_else (find_key key) (first_key keys)

  unfoldable pub resolve_with_fallback : Text → Option FilePath
  unfolding first_key shorter_keys
  resolve_with_fallback key = first_key (key ∷ shorter_keys key)

-- the comparison of `find_dir_file`
abbrev pub lesser : Option FilePath → FilePath → Option FilePath
lesser none f = some f
lesser (some prev) f = if path_ltb f prev then some f else some prev

-- `f.starts_with(&dir_abs) && f.parent() == Some(dir_abs)`
abbrev pub is_in_dir : FilePath → FilePath → Bool
is_in_dir dir_abs f =
    elim (strip_prefix f dir_abs) [ none ↦ false | some _ ↦ true ]
    && elim (parent f) [ none ↦ false | some above ↦ above == dir_abs ]

unfoldable pub least_in_dir : FilePath → Option FilePath → List FilePath → Option FilePath
unfolding strip_prefix parent path_leb
least_in_dir dir_abs best [] = best
least_in_dir dir_abs best (f ∷ files) =
    least_in_dir dir_abs (if is_in_dir dir_abs f then lesser best f else best) files

module _ (trim : Text → Text) (to_path : Text → FilePath) (display : FilePath → Text)
    (is_file : FilePath → Bool) where
  unfoldable pub find_dir_file : SuffixIndex → Text → Option FilePath
  unfolding least_in_dir
  find_dir_file idx rel_dir = least_in_dir (join idx.root (to_path rel_dir)) none (keys idx.by_file)

  -- the first path that is a file
  unfoldable pub first_file : List FilePath → Option FilePath
  first_file [] = none
  first_file (p ∷ ps) = if is_file p then some p else first_file ps

  -- `cur.join(remaining)`, and `with_ext` of it
  abbrev pub target_of : FilePath → Text → FilePath
  target_of cur remaining = join cur (to_path remaining)

  abbrev pub target_with : FilePath → Text → Text → FilePath
  target_with cur remaining ext = join cur (to_path (remaining ++ ext))

  -- the paths that are tried in a language
  unfoldable pub relative_candidates : Lang → FilePath → Text → List FilePath
  unfolding with_ext parent
  relative_candidates lang cur remaining =
      let target = target_of cur remaining in
      if is_script lang
      then target
        ∷ (map (target_with cur remaining) ext_order
            ++ map (λ e. join target ((bytes "index" ++ e) ∷ [])) ext_order)
      else if is_python lang
      then target
        ∷ (map (target_with cur remaining) python_exts
            ++ (join target (bytes "__init__.py" ∷ []) ∷ elim (parent target) [
              | none ↦ []
              | some above ↦
                  map (with_ext above) python_exts ++ join above (bytes "__init__.py" ∷ []) ∷ []
            ]))
      else target ∷ []

  unfoldable pub resolve_relative_path : Text → ResolveCtx → SuffixIndex → Option FilePath
  unfolding parent ascend strip_repeat first_file relative_candidates strip_prefix join_slash
  resolve_relative_path spec ctx idx =
      let (up, rest) = strip_all (bytes "../") spec in
      let (dots, remaining) = strip_all (bytes "./") rest in
      elim (parent ctx.from_file) [
        | none ↦ none
        | some dir ↦ elim (ascend up dir) [
          | none ↦ none
          | some cur ↦
              let target = target_of cur remaining in
              or_else (first_file (relative_candidates ctx.lang cur remaining)) (
                find_key idx ctx.from_file (elim (strip_prefix target idx.root) [
                  | none ↦ display target
                  | some r ↦ join_slash r
                ]))
        ]
      ]

  unfoldable pub resolve_relative : Text → ResolveCtx → SuffixIndex → ℕ → Option FilePath
  unfolding parent ascend first_file strip_prefix join_slash
  resolve_relative key ctx idx up = elim (parent ctx.from_file) [
    | none ↦ none
    | some dir ↦ elim (ascend up dir) [
      | none ↦ none
      | some cur ↦
          let target = target_of cur key in
          or_else
            (first_file
              (target_with cur key (bytes ".rs") ∷ join target (bytes "mod.rs" ∷ []) ∷ target ∷ []))
            (elim (strip_prefix target idx.root) [
              | none ↦ none
              | some r ↦ find_key idx ctx.from_file (join_slash r)
            ])
    ]
  ]

  -- `if ctx.lang == Lang::Rust`
  unfoldable pub resolve_rust : Text → ResolveCtx → SuffixIndex → Option FilePath
  unfolding strip_text replace_colons resolve_with_fallback resolve_relative strip_repeat
  resolve_rust spec ctx idx = elim (strip_text spec (bytes "crate::")) [
    | some rest ↦ resolve_with_fallback idx ctx.from_file (replace_colons rest)
    | none ↦ elim (strip_text spec (bytes "self::")) [
      | some rest ↦ resolve_relative (replace_colons rest) ctx idx 0
      | none ↦
          let (up, s) = strip_all (bytes "super::") spec in
          if ltb 0 up
          then resolve_relative (replace_colons s) ctx idx up
          else resolve_with_fallback idx ctx.from_file (replace_colons spec)
    ]
  ]

  -- the loop over the path aliases of `tsconfig.json`
  unfoldable pub resolve_alias :
      Text → List (Text × Text) → ResolveCtx → SuffixIndex → Option FilePath
  unfolding strip_text strip_repeat pick_closest candidates
  resolve_alias spec [] ctx idx = none
  resolve_alias spec ((prefix, replacement) ∷ aliases) ctx idx =
      or_else
        (elim (strip_text spec prefix) [
          | none ↦ none
          | some rest ↦ find_key idx ctx.from_file (trim_dot_slash (replacement ++ rest))
        ])
        (resolve_alias spec aliases ctx idx)

  -- `if ctx.lang == Lang::Go`
  unfoldable pub resolve_go : Text → ResolveCtx → SuffixIndex → Option FilePath
  unfolding strip_text trim_quotes_start find_dir_file
  resolve_go spec ctx idx = elim ctx.alias_prefix [
    | none ↦ none
    | some prefix ↦
        let trimmed = trim_quotes spec in
        if trimmed == prefix then none else elim (strip_text trimmed (prefix ++ bytes "/")) [
          | none ↦ none
          | some rest ↦ find_dir_file idx rest
        ]
  ]

  -- the languages with packages
  unfoldable pub resolve_package : Text → ResolveCtx → SuffixIndex → Option FilePath
  unfolding replace_byte rsplit_once pick_closest candidates
  resolve_package spec ctx idx =
      let key = replace_byte 46 47 spec in
      or_else (find_key idx ctx.from_file key) (elim (rsplit_once 47 key) [
        | none ↦ none
        | some (above, last) ↦ find_key idx ctx.from_file above
      ])

  -- what is left once the relative imports are handled
  unfoldable pub resolve_absolute : Text → ResolveCtx → SuffixIndex → Option FilePath
  unfolding resolve_alias resolve_go resolve_package replace_byte
  resolve_absolute spec ctx idx =
      or_else (if is_script ctx.lang then resolve_alias spec ctx.path_aliases ctx idx else none) (
        if is_go ctx.lang
        then resolve_go spec ctx idx
        else if has_packages ctx.lang
        then resolve_package spec ctx idx
        else find_key idx ctx.from_file (replace_byte 46 47 spec))

  -- `spec` is trimmed
  unfoldable pub resolve_trimmed : Text → ResolveCtx → SuffixIndex → Option FilePath
  unfolding resolve_rust resolve_relative_path resolve_absolute starts_with
  resolve_trimmed [] ctx idx = none
  resolve_trimmed (b ∷ spec) ctx idx =
      if is_rust ctx.lang
      then resolve_rust (b ∷ spec) ctx idx
      else if starts_with (b ∷ spec) (bytes "./") || starts_with (b ∷ spec) (bytes "../")
      then resolve_relative_path (b ∷ spec) ctx idx
      else if is_script ctx.lang && starts_with (b ∷ spec) (bytes ".")
      then resolve_relative_path (b ∷ spec) ctx idx
      else resolve_absolute (b ∷ spec) ctx idx

  unfoldable pub resolve : Text → ResolveCtx → SuffixIndex → Option FilePath
  unfolding resolve_trimmed
  resolve spec ctx idx = resolve_trimmed (trim spec) ctx idx
