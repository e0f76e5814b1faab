-- ===== src/Cli/RepoFilter/Table.antt =====
-- The rows of `edit_distance` hold the distances of prefixes.
use mathlib.Core.List.{append_assoc, append-nil}
use repolayer.Prelude.{ℕ, suc, ◌+◌, ◌≤◌, ◌≡◌, refl, sym, ap, ◌∙◌, subst, List, [], ◌∷◌, ◌++◌, arith}
use repolayer.Prelude.Tests.{nat_eq}
use repolayer.Prelude.Lists.{length, get_or}
use repolayer.Prelude.Text.{Text, text_eq, path_eq}
use repolayer.Cli.RepoFilter.Distance.{
  distance, Edits, reverse_text, reverse_text-reverse_text, Edits-reverse, distance-Edits,
  distance-least, distance_nil,
}
use repolayer.Cli.RepoFilter.{edit_distance, fill_row, range, rows, next_row}

-- the distances of `ra` from the longer and longer prefixes after `rb`, all reversed
unfoldable pub distances : Text → Text → Text → List ℕ
unfolding distance
distances ra rb [] = []
distances ra rb (b ∷ bs) = distance ra (b ∷ rb) ∷ distances ra (b ∷ rb) bs

unfoldable pub reverse_onto : Text → Text → Text
reverse_onto [] r = r
reverse_onto (c ∷ s) r = reverse_onto s (c ∷ r)

fill_row-distances :
    (a : ℕ) (ra rb bs : Text)
    → fill_row a bs (distance ra rb) (distances ra rb bs) (distance (a ∷ ra) rb)
      ≡ distances (a ∷ ra) rb bs
unfolding fill_row distances distance
fill_row-distances a ra rb [] = refl
fill_row-distances a ra rb (b ∷ bs) =
    ap (λ l. distance (a ∷ ra) (b ∷ rb) ∷ l) (fill_row-distances a ra (b ∷ rb) bs)

next_row-distances :
    (a : ℕ) (ra bs : Text) (i : ℕ)
    → i ≡ length ra + 1
    → next_row a bs i (distance ra [] ∷ distances ra [] bs)
      ≡ distance (a ∷ ra) [] ∷ distances (a ∷ ra) [] bs
unfolding next_row distance
next_row-distances a ra bs i h =
    rw h (ap (λ l. (length ra + 1) ∷ l) (fill_row-distances a ra [] bs))

rows-distances :
    (xs ra bs : Text) (i : ℕ)
    → i ≡ length ra + 1
    → rows xs bs i (distance ra [] ∷ distances ra [] bs)
      ≡ distance (reverse_onto xs ra) [] ∷ distances (reverse_onto xs ra) [] bs
unfolding rows reverse_onto
rows-distances [] ra bs i h = refl
rows-distances (a ∷ xs) ra bs i h =
    ap (rows xs bs (i + 1)) (next_row-distances a ra bs i h)
    ∙ rows-distances xs (a ∷ ra) bs (i + 1) (omega (arith, h))

range-distances :
    (rb bs : Text) (i : ℕ) → i ≡ length rb + 1 → range i (length bs) ≡ distances [] rb bs
unfolding range distances distance
range-distances rb [] i h = refl
range-distances rb (b ∷ bs) i h =
    rw (range-distances (b ∷ rb) bs (i + 1) (omega (arith, h)), first) refl
  where
    first : i ≡ suc (length rb)
    first = omega (arith, h)

last_distance :
    (ra rb bs : Text)
    → get_or (distance ra rb ∷ distances ra rb bs) (length bs) 0 ≡ distance ra (reverse_onto bs rb)
unfolding distances reverse_onto
last_distance ra rb [] = refl
last_distance ra rb (b ∷ bs) = last_distance ra (b ∷ rb) bs

length-reverse_onto : (s r : Text) → length (reverse_onto s r) ≡ length s + length r
unfolding reverse_onto
length-reverse_onto [] r = omega arith
length-reverse_onto (c ∷ s) r = omega (arith, length-reverse_onto s (c ∷ r))

reverse_onto-reverse_text : (s r : Text) → reverse_onto s r ≡ reverse_text s ++ r
unfolding reverse_onto reverse_text
reverse_onto-reverse_text [] r = refl
reverse_onto-reverse_text (c ∷ s) r =
    reverse_onto-reverse_text s (c ∷ r) ∙ sym (append_assoc (reverse_text s) (c ∷ []) r)

first_row : (bs : Text) → range 0 (length bs + 1) ≡ distance [] [] ∷ distances [] [] bs
unfolding range distance
first_row bs = rw (one_more, range) (ap (λ l. 0 ∷ l) (range-distances [] bs 1 (omega arith)))
  where
    one_more : length bs + 1 ≡ suc (length bs)
    one_more = omega arith

edit_distance-onto :
    (a b : Text) → edit_distance a b ≡ distance (reverse_onto a []) (reverse_onto b [])
unfolding edit_distance reverse_onto distance
edit_distance-onto [] b = omega (arith, length-reverse_onto b [])
edit_distance-onto (x ∷ a) [] =
    omega (arith, length-reverse_onto (x ∷ a) [], distance_nil (reverse_onto (x ∷ a) []))
edit_distance-onto (x ∷ a) (y ∷ b) =
    rw
      (
        first_row (y ∷ b),
        rows-distances (x ∷ a) [] (y ∷ b) 1 (omega arith),
        last_distance (reverse_onto (x ∷ a) []) [] (y ∷ b),
      )
      refl

pub edit_distance-distance :
    (a b : Text) → edit_distance a b ≡ distance (reverse_text a) (reverse_text b)
edit_distance-distance a b =
    rw
      (
        edit_distance-onto a b,
        reverse_onto-reverse_text a [],
        reverse_onto-reverse_text b [],
        append-nil (reverse_text a),
        append-nil (reverse_text b),
      )
      refl

-- `edit_distance` is the least number of one-byte insertions, deletions and replacements that turn
-- one text into the other: some script has that many edits, and none has fewer.
pub edit_distance_least :
    (a b : Text) → Edits (edit_distance a b) a b × ((n : ℕ) → Edits n a b → edit_distance a b ≤ n)
edit_distance_least a b = rw (edit_distance-distance a b) (
  subst (λ s. Edits (distance (reverse_text a) (reverse_text b)) s b) (reverse_text-reverse_text a)
      (subst
        (λ s. Edits (distance (reverse_text a) (reverse_text b)) (reverse_text (reverse_text a)) s)
        (reverse_text-reverse_text b)
        (Edits-reverse (distance-Edits (reverse_text a) (reverse_text b)))),
  λ n e. distance-least (Edits-reverse e),
)
