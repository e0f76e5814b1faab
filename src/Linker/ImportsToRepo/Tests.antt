-- ===== src/Linker/ImportsToRepo/Tests.antt =====
-- Two repositories of one organisation.

use repolayer.Prelude.{◌≤◌, ◌≡◌, refl, ◌⊎◌, true, false, none, some, [], ◌∷◌}
use repolayer.Prelude.Tests.{nat_eq}
use repolayer.Prelude.Lists.{length, ◌∈◌}
use repolayer.Prelude.Text.{Text, bytes, text_eq, path_eq, list_beq}
use repolayer.Linker.ImportsToRepo.{RepoAlias, longest_match, names_import, try_prefix}
use repolayer.Linker.ImportsToRepo.Longest.{longest_match-cases}

abbrev org : RepoAlias
org = record { repo_name = bytes "platform"; prefixes = bytes "github.com/org" ∷ [] }

abbrev auth : RepoAlias
auth = record { repo_name = bytes "auth"; prefixes = bytes "github.com/org/auth" ∷ [] }

auth_import :
    longest_match (org ∷ auth ∷ []) (bytes "github.com/org/auth/token") ≡ some (bytes "auth")
unfolding longest_match try_prefix names_import list_beq
auth_import = refl

-- a prefix ends at a slash
authz_import :
    longest_match (org ∷ auth ∷ []) (bytes "github.com/org/authz") ≡ some (bytes "platform")
unfolding longest_match try_prefix names_import list_beq
authz_import = refl

longest_match-cases_example :
    ((longest_match (org ∷ auth ∷ []) (bytes "github.com/org/auth/token") ≡ none)
      × ((a : RepoAlias) (p : Text)
          → a ∈ (org ∷ auth ∷ [])
          → p ∈ a.prefixes
          → names_import (bytes "github.com/org/auth/token") p ≡ false))
    ⊎ ((a : RepoAlias) × (p : Text) × (longest_match
            (org ∷ auth ∷ [])
            (bytes "github.com/org/auth/token")
          ≡ some a.repo_name)
        × (a ∈ (org ∷ auth ∷ []))
        × (p ∈ a.prefixes)
        × (names_import (bytes "github.com/org/auth/token") p ≡ true)
        × ((c : RepoAlias) (q : Text)
            → c ∈ (org ∷ auth ∷ [])
            → q ∈ c.prefixes
            → names_import (bytes "github.com/org/auth/token") q ≡ true
            → length q ≤ length p))
longest_match-cases_example =
    longest_match-cases (bytes "github.com/org/auth/token") (org ∷ auth ∷ [])
