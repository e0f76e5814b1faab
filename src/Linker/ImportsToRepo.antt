-- ===== src/Linker/ImportsToRepo.antt =====
-- src/linker/imports_to_repo.rs: edges from a module to the repository that an import names.
pub mod Longest
pub mod RelPath
pub mod Exact
mod Tests
use repolayer.Graph.Model.{module_node, repo_node, imports, Edge, compute_id}
use repolayer.Prelude.{
  ℕ, zero, suc, ◌+◌, ◌-◌, ◌*◌, ◌/◌, ◌%◌, ◌^◌, ◌≤◌, ◌<◌, min, max, ◌≡◌, refl, sym, ap, ◌∙◌, subst,
  ◌≢◌, ◌↔◌, ◌⊎◌, inl, inr, ⊎_elim, Bool, true, false, not, ◌&&◌, ◌||◌, Option, none, some, List, [],
  ◌∷◌, ◌++◌, map, arith,
}
use repolayer.Prelude.Tests.{
  ltb, leb, nat_beq, if◌then◌else◌, nat_beq_iff, Bool-cases, Option-cases, PartialEq, ◌==◌, nat_eq,
  beq-cases, beq_refl, beq_of_ne,
}
use repolayer.Prelude.Lists.{
  length, get_elem?, get_or, set, take, drop, replicate, ◌∈◌, All, Distinct,
}
use repolayer.Prelude.Dict.{Dict, contains, lookup, insert, update, keys, or_default}
use repolayer.Prelude.Text.{
  Text, FilePath, bytes, text_eq, path_eq, text_beq_iff, path_beq_iff, starts_with, strip_prefix,
  join_slash,
}
use repolayer.Graph.Store.{upsert_edge, Store}
use repolayer.Deps.Store.{list_external_imports, DepStore}

pub record RepoAlias : Type 0 where
  pub repo_name : Text
  pub prefixes : List Text

-- `import == p || import.starts_with(&format!("{}/", p))`
unfoldable pub names_import : Text → Text → Bool
unfolding starts_with
names_import import p = (import == p) || starts_with import (p ++ bytes "/")

-- `best.map(|(_, n)| len > n).unwrap_or(true)`
abbrev pub is_longer : ℕ → Option (Text × ℕ) → Bool
is_longer len none = true
is_longer len (some (name, n)) = ltb n len

-- the body of the inner loop
unfoldable pub try_prefix : Text → Text → Option (Text × ℕ) → Text → Option (Text × ℕ)
try_prefix import name best p =
    if names_import import p && is_longer (length p) best then some (name, length p) else best

unfoldable pub try_prefixes : Text → Text → Option (Text × ℕ) → List Text → Option (Text × ℕ)
unfolding try_prefix
try_prefixes import name best [] = best
try_prefixes import name best (p ∷ ps) = try_prefixes import name (try_prefix import name best p) ps

unfoldable pub try_aliases : Text → Option (Text × ℕ) → List RepoAlias → Option (Text × ℕ)
unfolding try_prefixes
try_aliases import best [] = best
try_aliases import best (a ∷ aliases) =
    try_aliases import (try_prefixes import a.repo_name best a.prefixes) aliases

abbrev pub name_of : Option (Text × ℕ) → Option Text
name_of none = none
name_of (some best) = some best.0

unfoldable pub longest_match : List RepoAlias → Text → Option Text
unfolding try_aliases
longest_match aliases import = name_of (try_aliases import none aliases)

unfoldable pub relpath : FilePath → FilePath → Text
unfolding strip_prefix join_slash
relpath abs root = join_slash (or_default abs (strip_prefix abs root))

-- `digest` is that of a node id, and `to_path` is `Path::new`.
module _ (digest : Text → Text) (to_path : Text → FilePath) where
  -- the edge that one import gives, if any; the confidence is 0.9
  unfoldable pub edge_for : List RepoAlias → Dict Text FilePath → Text × Text × Text → Option Edge
  unfolding longest_match relpath lookup
  edge_for aliases repo_roots (from_repo, from_abs, raw) = elim (longest_match aliases raw) [
    | none ↦ none
    | some target ↦ if target == from_repo then none else elim (lookup from_repo repo_roots) [
      | none ↦ none
      | some root ↦ some (record {
        source = compute_id digest module_node from_repo (relpath (to_path from_abs) root) none;
        target = compute_id digest repo_node target [] none;
        kind = imports;
        confidence = 90;
      })
    ]
  ]

  unfoldable pub link_imports :
      List RepoAlias → Dict Text FilePath → List (Text × Text × Text) → Store × ℕ → Store × ℕ
  unfolding edge_for upsert_edge
  link_imports aliases repo_roots [] s = s
  link_imports aliases repo_roots (import ∷ rest) s =
      link_imports aliases repo_roots rest (elim (edge_for aliases repo_roots import) [
        | none ↦ s
        | some e ↦ (upsert_edge e s.0, s.1 + 1)
      ])

  -- `link`, with the aliases and roots that the configuration and the `go.mod` files give
  unfoldable pub link : List RepoAlias → Dict Text FilePath → DepStore → Store → Store × ℕ
  unfolding link_imports list_external_imports
  link [] repo_roots deps_store store = (store, 0)
  link (a ∷ aliases) repo_roots deps_store store =
      link_imports (a ∷ aliases) repo_roots (list_external_imports deps_store) (store, 0)
