-- ===== src/Search/Tokens.antt =====
-- src/search/tokens.rs: identifiers and their parts. A text is its bytes; the identifiers are ASCII.
pub mod Keep
mod Tests
use repolayer.Prelude.{
  ℕ, zero, suc, ◌+◌, Bool, false, ◌&&◌, ◌||◌, Option, none, some, List, [], ◌∷◌, ◌++◌, map,
}
use repolayer.Prelude.Tests.{leb, nat_beq, if◌then◌else◌, nat_eq}
use repolayer.Prelude.Lists.{length}
use repolayer.Prelude.Dict.{contains}
use repolayer.Prelude.Text.{Text, text_eq, path_eq}

abbrev pub between : ℕ → ℕ → ℕ → Bool
between lo hi c = leb lo c && leb c hi

abbrev pub is_digit : ℕ → Bool
is_digit = between 48 57

abbrev pub is_upper : ℕ → Bool
is_upper = between 65 90

abbrev pub is_lower : ℕ → Bool
is_lower = between 97 122

-- `[a-zA-Z_]`
abbrev pub starts_ident : ℕ → Bool
starts_ident c = is_lower c || (is_upper c || nat_beq c 95)

-- `[a-zA-Z0-9_]`
abbrev pub in_ident : ℕ → Bool
in_ident c = starts_ident c || is_digit c

abbrev pub lower : ℕ → ℕ
lower c = if is_upper c then c + 32 else c

-- `str::to_ascii_lowercase`
abbrev pub to_ascii_lowercase : Text → Text
to_ascii_lowercase = map lower

-- `while end < n && p(chars[end]) { end += 1 }`: the run in front and what follows it
unfoldable pub span : (ℕ → Bool) → Text → Text × Text
span p [] = ([], [])
span p (c ∷ s) = let rest = span p s in if p c then (c ∷ rest.0, rest.1) else ([], c ∷ s)

-- `ident_re().find_iter(text)`: the leftmost identifier, as long as it goes, then on from its end.
-- Each round of the loop takes a byte at least, so that the length is fuel enough.
unfoldable pub scan : ℕ → Text → List Text
unfolding span
scan zero text = []
scan (suc fuel) [] = []
scan (suc fuel) (c ∷ text) =
    let run = span in_ident text in
    let skipped = scan fuel text in
    let found = scan fuel run.1 in if starts_ident c then (c ∷ run.0) ∷ found else skipped

unfoldable pub scan_identifiers : Text → List Text
unfolding scan
scan_identifiers text = scan (length text) text

abbrev pub followed_by_lower : Text → Bool
followed_by_lower [] = false
followed_by_lower (c ∷ s) = is_lower c

-- the upper run without its last letter, and that letter in front of what follows
unfoldable pub split_last : ℕ → Text → Text → Text × Text
split_last c [] rest = ([], c ∷ rest)
split_last c (d ∷ run) rest = let more = split_last d run rest in (c ∷ more.0, more.1)

-- the branch of an upper case letter `c`, with the run after it and what follows the run
unfoldable pub upper_part : ℕ → Text → Text → Text × Text
unfolding span split_last
upper_part c [] rest = let run = span is_lower rest in (c ∷ run.0, run.1)
upper_part c (d ∷ run) rest =
    if followed_by_lower rest then split_last c (d ∷ run) rest else (c ∷ d ∷ run, rest)

-- one round of the loop of `camel_split`: the part found, if any, and the rest
unfoldable pub next_part : ℕ → Text → Option Text × Text
unfolding span upper_part
next_part c s =
    if is_digit c
    then (let run = span is_digit s in (some (c ∷ run.0), run.1))
    else if is_upper c
    then (let run = span is_upper s in let part = upper_part c run.0 run.1 in (some part.0, part.1))
    else if is_lower c
    then (let run = span is_lower s in (some (c ∷ run.0), run.1))
    else (none, s)

abbrev pub push_part : Option Text → List Text → List Text
push_part none parts = parts
push_part (some part) parts = part ∷ parts

unfoldable pub split_loop : ℕ → Text → List Text
unfolding next_part
split_loop zero s = []
split_loop (suc fuel) [] = []
split_loop (suc fuel) (c ∷ s) =
    let step = next_part c s in push_part step.0 (split_loop fuel step.1)

unfoldable pub camel_split : Text → List Text
unfolding split_loop
camel_split s = split_loop (length s) s

-- `token.split('_')`
unfoldable pub split_underscore : Text → List Text
split_underscore [] = [] ∷ []
split_underscore (c ∷ s) =
    let rest = split_underscore s in
    if nat_beq c 95 then [] ∷ rest else elim rest [ [] ↦ (c ∷ []) ∷ [] | p ∷ ps ↦ (c ∷ p) ∷ ps ]

unfoldable pub non_empty : List Text → List Text
non_empty [] = []
non_empty ([] ∷ parts) = non_empty parts
non_empty ((c ∷ p) ∷ parts) = (c ∷ p) ∷ non_empty parts

-- `if parts.len() >= 2 { parts } else { Vec::new() }`
abbrev pub if_several : List Text → List Text
if_several parts = if leb 2 (length parts) then parts else []

unfoldable pub split_identifier : Text → List Text
unfolding camel_split split_underscore non_empty contains
split_identifier token = if_several (
    if contains token 95
    then map to_ascii_lowercase (non_empty (split_underscore token))
    else map to_ascii_lowercase (camel_split token))

unfoldable pub tokenize_all : List Text → List Text
unfolding split_identifier
tokenize_all [] = []
tokenize_all (ident ∷ idents) =
    to_ascii_lowercase ident ∷ split_identifier ident ++ tokenize_all idents

unfoldable pub tokenize : Text → List Text
unfolding tokenize_all scan_identifiers
tokenize text = tokenize_all (scan_identifiers text)
