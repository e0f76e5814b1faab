-- ===== src/Deps/Resolver/Paths.antt =====
-- The operations of `std::path` on which the resolver relies, on the components of a path.
use repolayer.Prelude.{ℕ, zero, suc, ◌||◌, Option, none, some, [], ◌∷◌, ◌++◌}
use repolayer.Prelude.Tests.{if◌then◌else◌, ◌==◌, nat_eq}
use repolayer.Prelude.Text.{Text, FilePath, bytes, text_eq, path_eq}
use repolayer.Deps.Resolver.Keys.{rsplit_once}

-- `Path::parent`, none for the root and for the empty path
unfoldable pub parent : FilePath → Option FilePath
parent [] = none
parent (c ∷ []) = if c == bytes "/" then none else some []
parent (c ∷ d ∷ rest) =
    let above = parent (d ∷ rest) in elim above [ none ↦ none | some p ↦ some (c ∷ p) ]

-- `Path::file_name`, none for the root, `.` and `..`
unfoldable pub file_name : FilePath → Option Text
file_name [] = none
file_name (c ∷ []) =
    if (c == bytes "/") || ((c == bytes ".") || (c == bytes "..")) then none else some c
file_name (c ∷ d ∷ rest) = file_name (d ∷ rest)

-- `Path::extension` of a file name: a dot in front of the whole name starts no extension.
unfoldable pub extension_of : Text → Option Text
unfolding rsplit_once
extension_of name = elim (rsplit_once 46 name) [
  | none ↦ none
  | some (before, after) ↦ if before == [] then none else some after
]

-- `Path::file_stem` of a file name
unfoldable pub stem_of : Text → Text
unfolding rsplit_once
stem_of name = elim (rsplit_once 46 name) [
  | none ↦ name
  | some (before, after) ↦ if before == [] then name else before
]

-- `parent.join(stem)`
abbrev pub join_stem : FilePath → Text → FilePath
join_stem [] stem = stem ∷ []
join_stem (c ∷ above) stem = if stem == bytes "." then c ∷ above else (c ∷ above) ++ stem ∷ []

-- `base.join(p)`: an absolute `p` replaces the base, and a `.` counts only at the front of a path.
abbrev pub join : FilePath → FilePath → FilePath
join base [] = base
join [] p = p
join (b ∷ base) (c ∷ p) =
    if c == bytes "/" then c ∷ p else if c == bytes "." then b ∷ base ++ p else b ∷ base ++ c ∷ p

-- `with_ext(p, ext)`: the text of `p`, with `ext` behind it
unfoldable pub with_ext : FilePath → Text → FilePath
with_ext [] ext = ext ∷ []
with_ext (c ∷ []) ext = if c == bytes "/" then c ∷ ext ∷ [] else (c ++ ext) ∷ []
with_ext (c ∷ d ∷ p) ext = c ∷ with_ext (d ∷ p) ext

-- The directory `n` levels up, none above the root.
unfoldable pub ascend : ℕ → FilePath → Option FilePath
unfolding parent
ascend zero cur = some cur
ascend (suc n) cur = elim (parent cur) [ none ↦ none | some above ↦ ascend n above ]
