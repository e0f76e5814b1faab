-- ===== src/Cli/RepoFilter.antt =====
-- src/cli/repo_filter.rs: known repository names, and suggestions for a mistyped one.
pub mod Distance
pub mod Table
pub mod Suggestions
pub mod Score
mod Tests
-- the inner loop of `edit_distance`: from `prev[j - 1]`, `prev[j..]` and `curr[j - 1]` to `curr[j..]`
use repolayer.Prelude.{
  ℕ, zero, suc, ◌+◌, ◌-◌, ◌*◌, ◌/◌, ◌%◌, ◌^◌, ◌≤◌, ◌<◌, min, max, ◌≡◌, refl, sym, ap, ◌∙◌, subst,
  ◌≢◌, ◌↔◌, ◌⊎◌, inl, inr, ⊎_elim, Bool, true, false, not, ◌&&◌, ◌||◌, Option, none, some, List, [],
  ◌∷◌, ◌++◌, map, arith,
}
use repolayer.Prelude.Tests.{
  ltb, leb, nat_beq, if◌then◌else◌, nat_beq_iff, Bool-cases, Option-cases, PartialEq, ◌==◌, nat_eq,
  beq-cases, beq_refl, beq_of_ne,
}
use repolayer.Prelude.Lists.{
  length, get_elem?, get_or, set, take, drop, replicate, ◌∈◌, All, Distinct,
}
use repolayer.Prelude.Dict.{Dict, contains, lookup, insert, update, keys, or_default}
use repolayer.Prelude.Text.{
  Text, FilePath, bytes, text_eq, path_eq, text_beq_iff, path_beq_iff, starts_with, contains_text,
}
use repolayer.Prelude.Sort.{sort_by}

unfoldable pub fill_row : ℕ → Text → ℕ → List ℕ → ℕ → List ℕ
fill_row a [] diagonal prev left = []
fill_row a (b ∷ bs) diagonal [] left = []
fill_row a (b ∷ bs) diagonal (above ∷ prev) left =
    let cost = if nat_beq a b then 0 else 1 in
    let here = min (min (above + 1) (left + 1)) (diagonal + cost) in
    here ∷ fill_row a bs above prev here

-- one round of the outer loop, `i` counted from 1: `curr` from `prev`
unfoldable pub next_row : ℕ → Text → ℕ → List ℕ → List ℕ
unfolding fill_row
next_row a bs i [] = []
next_row a bs i (first ∷ prev) = i ∷ fill_row a bs first prev i

unfoldable pub rows : Text → Text → ℕ → List ℕ → List ℕ
unfolding next_row
rows [] bs i prev = prev
rows (a ∷ xs) bs i prev = rows xs bs (i + 1) (next_row a bs i prev)

-- `(lo..lo + n)`
unfoldable pub range : ℕ → ℕ → List ℕ
range lo zero = []
range lo (suc n) = lo ∷ range (lo + 1) n

unfoldable pub edit_distance : Text → Text → ℕ
edit_distance [] b = length b
edit_distance (a ∷ xs) [] = length (a ∷ xs)
edit_distance (a ∷ xs) (b ∷ bs) =
    get_or (rows (a ∷ xs) (b ∷ bs) 1 (range 0 (length (b ∷ bs) + 1))) (length (b ∷ bs)) 0

pub data RepoCheck : Type 0 where
  found : Text → RepoCheck
  -- the error whose message says that the index has no repositories
  no_repos : Text → RepoCheck
  did_you_mean : Text → List Text → RepoCheck

abbrev pub u32 : ℕ → ℕ
u32 n = n % 2 ^ 32

-- `x.saturating_add(y)` on u32
abbrev pub saturating_add : ℕ → ℕ → ℕ
saturating_add x y = min (x + y) (2 ^ 32 - 1)

abbrev pub closer : ℕ × Text → ℕ × Text → Bool
closer a b = leb a.0 b.0

unfoldable pub take_close : ℕ → List (ℕ × Text) → List (ℕ × Text)
take_close cutoff [] = []
take_close cutoff (s ∷ scored) = if leb s.0 cutoff then s ∷ take_close cutoff scored else []

-- `lower` is `str::to_lowercase`.
module _ (lower : Text → Text) where
  unfoldable pub score : Text → Text → ℕ
  unfolding contains_text edit_distance
  score query name =
      if lower name == lower query
      then 0
      else if contains_text (lower name) (lower query) || contains_text (lower query) (lower name)
      then 1
      else 2 + u32 (edit_distance (lower query) (lower name))

  unfoldable pub closest_matches : Text → List Text → ℕ → List Text
  unfolding take_close
  closest_matches query known n =
      let scored = sort_by closer (map (λ name. (score query name, name)) known) in
      map (λ s. s.1) (take n (take_close (saturating_add (u32 (length query)) 2) scored))

  abbrev pub unknown_repo : Text → List Text → RepoCheck
  unknown_repo name [] = no_repos name
  unknown_repo name (s ∷ suggestions) = did_you_mean name (s ∷ suggestions)

  unfoldable pub require_repo : Text → List Text → RepoCheck
  unfolding closest_matches
  require_repo name known =
      if contains known name then found name else unknown_repo name (closest_matches name known 5)
