-- ===== src/Deps/Resolver/Keys.antt =====
-- The operations of `str` on which the resolver relies, on keys and on the text of an import.
use repolayer.Prelude.{
  ℕ, zero, suc, ◌+◌, Bool, false, ◌&&◌, ◌||◌, Option, none, some, List, [], ◌∷◌,
}
use repolayer.Prelude.Tests.{leb, nat_beq, if◌then◌else◌, ◌==◌, nat_eq}
use repolayer.Prelude.Lists.{length}
use repolayer.Prelude.Text.{Text, bytes, text_eq, path_eq}
use mathlib.Core.List.{reverse}

-- `s.rsplit_once(c)`: the text before the last `c`, and the text after it
unfoldable pub rsplit_once : ℕ → Text → Option (Text × Text)
rsplit_once c [] = none
rsplit_once c (b ∷ s) =
    let rest = rsplit_once c s in
    elim rest [
      | none ↦ if nat_beq b c then some ([], s) else none
      | some (before, after) ↦ some (b ∷ before, after)
    ]

unfoldable pub ascii_lowercase : Text → Text
ascii_lowercase [] = []
ascii_lowercase (b ∷ s) = (if leb 65 b && leb b 90 then b + 32 else b) ∷ ascii_lowercase s

unfoldable pub is_any : Text → List Text → Bool
is_any t [] = false
is_any t (x ∷ xs) = (t == x) || is_any t xs

-- `s.replace('.', "/")`
unfoldable pub replace_byte : ℕ → ℕ → Text → Text
replace_byte old new [] = []
replace_byte old new (b ∷ s) = (if nat_beq b old then new else b) ∷ replace_byte old new s

-- `s.strip_prefix(p)`
unfoldable pub strip_text : Text → Text → Option Text
strip_text s [] = some s
strip_text [] (b ∷ p) = none
strip_text (c ∷ s) (b ∷ p) = if nat_beq c b then strip_text s p else none

-- `while let Some(rest) = s.strip_prefix(p)`: how often `p` is stripped, and what is left. The length
-- of the text is fuel enough, since `p` is not empty.
unfoldable pub strip_repeat : ℕ → Text → Text → ℕ × Text
unfolding strip_text
strip_repeat zero p s = (0, s)
strip_repeat (suc fuel) p s = elim (strip_text s p) [
  | none ↦ (0, s)
  | some rest ↦ let (n, left) = strip_repeat fuel p rest in (suc n, left)
]

abbrev pub strip_all : Text → Text → ℕ × Text
strip_all p s = strip_repeat (length s) p s

-- `s.replace("::", "/")`
unfoldable pub replace_colons : Text → Text
replace_colons [] = []
replace_colons (a ∷ []) = a ∷ []
replace_colons (a ∷ b ∷ s) =
    let pair = replace_colons s in
    let one = replace_colons (b ∷ s) in if nat_beq a 58 && nat_beq b 58 then 47 ∷ pair else a ∷ one

-- `s.trim_start_matches("./")`
abbrev pub trim_dot_slash : Text → Text
trim_dot_slash s = (strip_all (bytes "./") s).1

-- `s.trim_start_matches('"')`
unfoldable pub trim_quotes_start : Text → Text
trim_quotes_start [] = []
trim_quotes_start (b ∷ s) = if nat_beq b 34 then trim_quotes_start s else b ∷ s

-- `s.trim_matches('"')`
abbrev pub trim_quotes : Text → Text
trim_quotes s = reverse (trim_quotes_start (reverse (trim_quotes_start s)))

-- the loop of `resolve_with_fallback`: the key without its last segment, as long as one is left
unfoldable pub shorter_from : ℕ → Text → List Text
unfolding rsplit_once
shorter_from zero key = []
shorter_from (suc fuel) key = elim (rsplit_once 47 key) [
  | none ↦ []
  | some (before, after) ↦ before ∷ shorter_from fuel before
]

-- A key has fewer segments than bytes.
unfoldable pub shorter_keys : Text → List Text
unfolding shorter_from
shorter_keys key = shorter_from (length key) key
