-- ===== src/Cli/RepoFilter/Tests.antt =====
-- Distances of short names.
use repolayer.Cli.RepoFilter.{
  found, no_repos, edit_distance, rows, range, next_row, fill_row, require_repo, score, take_close,
}
use repolayer.Prelude.{ℕ, ◌≤◌, ◌≡◌, refl, ◌⊎◌, List, [], ◌∷◌}
use repolayer.Prelude.Tests.{nat_eq}
use repolayer.Prelude.Lists.{◌∈◌}
use repolayer.Prelude.Dict.{contains}
use repolayer.Prelude.Text.{Text, bytes, text_eq, path_eq, starts_with, contains_text, list_beq}
use repolayer.Cli.RepoFilter.Distance.{Edits}
use repolayer.Cli.RepoFilter.Table.{edit_distance_least}
use repolayer.Cli.RepoFilter.Suggestions.{IsError, require_repo-cases}
use repolayer.Prelude.Sort.{sort_by}

one_typo : edit_distance (bytes "web_ap") (bytes "web_app") ≡ 1
unfolding edit_distance rows range next_row fill_row
one_typo = refl

kitten : edit_distance (bytes "kitten") (bytes "sitting") ≡ 3
unfolding edit_distance rows range next_row fill_row
kitten = refl

edit_distance_least_example :
    Edits (edit_distance (bytes "kitten") (bytes "sitting")) (bytes "kitten") (bytes "sitting")
    × ((n : ℕ)
        → Edits n (bytes "kitten") (bytes "sitting")
        → edit_distance (bytes "kitten") (bytes "sitting") ≤ n)
edit_distance_least_example = edit_distance_least (bytes "kitten") (bytes "sitting")

abbrev known_names : List Text
known_names = bytes "app" ∷ bytes "zzzzzzzz" ∷ []

require_repo-cases_example :
    ((bytes "ap" ∈ known_names)
      × (require_repo (λ t. t) (bytes "ap") known_names ≡ found (bytes "ap")))
    ⊎ ((¬ (bytes "ap" ∈ known_names))
        × IsError
            (λ t. t)
            (bytes "ap")
            known_names
            (require_repo (λ t. t) (bytes "ap") known_names))
require_repo-cases_example = require_repo-cases (λ t. t) (bytes "ap") known_names

-- an index of one repository, and the error that it has none
no_repos_at_all : require_repo (λ t. t) (bytes "x") (bytes "frontend" ∷ []) ≡ no_repos (bytes "x")
unfolding require_repo score take_close list_beq contains sort_by edit_distance rows range next_row
    fill_row contains_text starts_with
no_repos_at_all = refl
