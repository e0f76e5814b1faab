-- ===== src/Deps/Resolver/Tests.antt =====
-- Two files of the same name, resolved from a third one.

use repolayer.Prelude.{
  ◌≡◌, refl, ◌↔◌, ◌⊎◌, inl, inr, true, false, Option, none, some, List, [], ◌∷◌, ◌++◌,
}
use repolayer.Prelude.Tests.{nat_eq}
use repolayer.Prelude.Lists.{◌∈◌}
use repolayer.Prelude.Dict.{lookup, update, or_default}
use repolayer.Prelude.Text.{
  Text, FilePath, bytes, text_eq, path_eq, starts_with, list_beq, path_leb, join_slash,
}
use repolayer.Deps.Resolver.Build.{
  Lang, build_suffix_index, candidates, from_path, python, index_file,
}
use repolayer.Deps.Resolver.Resolve.{ResolveCtx, resolve}
use repolayer.Deps.Resolver.Closest.{IsClosest}
use repolayer.Deps.Resolver.Keys.{replace_byte, strip_text, strip_all, shorter_keys}
use repolayer.Deps.Resolver.Indexed.{HasKey, build_suffix_index_exact, file_keys}
use repolayer.Deps.Resolver.Found.{resolve_sound, resolve_finds}
use repolayer.Deps.Resolver.Strip.{repeated, loops_end}
use repolayer.Prelude.Sort.{sort_by, dedup}

abbrev path : Text → Text → FilePath
path dir name = bytes "/" ∷ bytes "r" ∷ dir ∷ name ∷ []

abbrev root : FilePath
root = bytes "/" ∷ bytes "r" ∷ []

abbrev walked : List FilePath
walked =
    path (bytes "a") (bytes "util.py")
    ∷ path (bytes "b") (bytes "util.py")
    ∷ path (bytes "b") (bytes "notes.txt")
    ∷ []

abbrev no_package : FilePath → Lang → Option (Option Text × List Text)
no_package p lang = none

abbrev one_component : Text → FilePath
one_component t = t ∷ []

abbrev ctx : ResolveCtx
ctx = record {
  from_file = path (bytes "b") (bytes "main.py");
  lang = python;
  alias_prefix = none;
  path_aliases = [];
}

abbrev resolved : Text → Option FilePath
resolved spec =
    resolve (λ t. t) one_component join_slash (λ p. false) spec ctx
      (build_suffix_index no_package root walked)

both_listed :
    candidates (build_suffix_index no_package root walked) (bytes "util")
    ≡ some (path (bytes "a") (bytes "util.py") ∷ path (bytes "b") (bytes "util.py") ∷ [])
unfolding build_suffix_index candidates lookup update list_beq from_path index_file sort_by dedup
    path_leb
both_listed = refl

nearest : resolved (bytes "util") ≡ some (path (bytes "b") (bytes "util.py"))
unfolding build_suffix_index candidates resolve lookup update list_beq from_path index_file sort_by
    dedup path_leb
nearest = refl

build_suffix_index_exact_example :
    (path (bytes "a") (bytes "util.py")
      ∈ or_default [] (candidates (build_suffix_index no_package root walked) (bytes "a/util")))
    ↔ ((path (bytes "a") (bytes "util.py") ∈ walked)
        × HasKey no_package root (bytes "a/util") (path (bytes "a") (bytes "util.py")))
build_suffix_index_exact_example =
    build_suffix_index_exact no_package root walked (bytes "a/util")
      (path (bytes "a") (bytes "util.py"))

loops_end_example :
    (strip_text (strip_all (bytes "../") (bytes "../../x")).1 (bytes "../") ≡ none)
    × (bytes "../../x"
        ≡ repeated
            (strip_all (bytes "../") (bytes "../../x")).0
            (bytes "../")
            (strip_all (bytes "../") (bytes "../../x")).1)
    × ((bytes ".." ∈ shorter_keys (bytes "../../x"))
        ↔ ((r : Text) × (bytes "../../x" ≡ bytes ".." ++ 47 ∷ r)))
loops_end_example = loops_end 46 (bytes "./") (bytes "../../x") (bytes "..")

util_is_key : HasKey no_package root (bytes "util") (path (bytes "a") (bytes "util.py"))
unfolding from_path file_keys list_beq
util_is_key = (python, refl, inr (inl refl))

resolve_finds_example :
    (q : FilePath) × (resolved (bytes "util") ≡ some q)
    × (q ∈ walked)
    × HasKey no_package root (replace_byte 46 47 (bytes "util")) q
    × IsClosest ctx.from_file q (
        or_default [] (
          candidates
            (build_suffix_index no_package root walked)
            (replace_byte 46 47 (bytes "util"))))
unfolding starts_with replace_byte
resolve_finds_example =
    resolve_finds no_package (λ t. t) one_component join_slash (λ p. false) root walked
      (bytes "util") ctx 117 (bytes "til") (path (bytes "a") (bytes "util.py")) refl refl refl refl
      refl refl (inl refl) util_is_key

resolve_sound_example : (false ≡ true) ⊎ (path (bytes "b") (bytes "util.py") ∈ walked)
resolve_sound_example =
    resolve_sound no_package (λ t. t) one_component join_slash (λ p. false) root walked
      (bytes "util") ctx (path (bytes "b") (bytes "util.py")) nearest
