-- ===== src/Linker/Tests.antt =====
-- Both linkers on an empty store.

use repolayer.Prelude.Dict.{lookup}
use repolayer.Prelude.Text.{FilePath, Text, bytes, list_beq, path_eq, text_eq}
use repolayer.Prelude.Lists.{◌∈◌}
use repolayer.Prelude.Tests.{nat_eq}
use repolayer.Prelude.{[], refl, ◌↔◌, ◌∷◌, ◌≡◌, ◌⊎◌}
use repolayer.Linker.ImportsToRepo.{RepoAlias, link, longest_match, try_prefix, names_import}
use repolayer.Deps.Store.{DepStore, external_row}
use repolayer.Graph.Store.Edges.{fresh_store-IsValid, key, IsValid}
use repolayer.Graph.Store.{fresh_store}
use repolayer.Graph.Model.{Edge}
use repolayer.Linker.Manual.{LinkConfig, apply_manual_links}
use repolayer.Linker.Manual.Exact.{IsOneOf, manual_links_exact}
use repolayer.Linker.ImportsToRepo.Exact.{IsImportsLinked, link_exact}

abbrev api_alias : RepoAlias
api_alias = record { repo_name = bytes "api"; prefixes = bytes "github.com/org/api" ∷ [] }

abbrev imported : DepStore
imported = record {
  forward_edges = [];
  external_imports =
      external_row (bytes "web") (bytes "main.go") (bytes "github.com/org/api/client") ∷ [];
}

abbrev no_split : Text → FilePath
no_split t = t ∷ []

one_import :
    (link (λ t. t) no_split (api_alias ∷ []) ((bytes "web", []) ∷ []) imported fresh_store).1 ≡ 1
unfolding link longest_match try_prefix names_import list_beq lookup
one_import = refl

link_exact_example :
    IsImportsLinked
      (λ t. t)
      no_split
      (api_alias ∷ [])
      ((bytes "web", []) ∷ [])
      imported
      fresh_store
      (link (λ t. t) no_split (api_alias ∷ []) ((bytes "web", []) ∷ []) imported fresh_store).0
link_exact_example =
    link_exact (λ t. t) no_split (api_alias ∷ []) ((bytes "web", []) ∷ []) imported fresh_store
      fresh_store-IsValid

abbrev manual_link : LinkConfig
manual_link = record { source = bytes "web"; target = bytes "api"; kind = bytes "invokes" }

manual_links_exact_example :
    IsValid (apply_manual_links (λ t. t) (manual_link ∷ []) (fresh_store, 0)).0
    × ((e : Edge)
        → (e ∈ (apply_manual_links (λ t. t) (manual_link ∷ []) (fresh_store, 0)).0.edges) ↔ (
            IsOneOf (λ t. t) (manual_link ∷ []) e
            ⊎ ((e ∈ fresh_store.edges)
                × (¬ ((f : Edge) × IsOneOf (λ t. t) (manual_link ∷ []) f × (key e ≡ key f))))))
manual_links_exact_example =
    manual_links_exact (λ t. t) (manual_link ∷ []) fresh_store fresh_store-IsValid
