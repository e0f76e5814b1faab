-- ===== src/Deps/Resolver/Closest.antt =====
-- `pick_closest` of src/deps/resolver/resolve.rs.
use repolayer.Prelude.{
  ℕ, suc, ◌<◌, ◌≡◌, refl, ◌∙◌, ◌⊎◌, inl, inr, ⊎_elim, Bool, true, false, not, ◌&&◌, ◌||◌, Option,
  none, some, List, [], ◌∷◌, arith,
}
use repolayer.Prelude.Tests.{ltb, nat_beq, if◌then◌else◌, Bool-cases, ◌==◌, nat_eq}
use repolayer.Prelude.Lists.{◌∈◌}
use repolayer.Prelude.Text.{FilePath, text_eq, path_eq, path_leb}
use repolayer.Prelude.Order.{path_leb_total, path_leb_trans}

-- `.zip(..).take_while(|(a, b)| a == b).count()`
unfoldable pub common_prefix : FilePath → FilePath → ℕ
common_prefix (a ∷ p) (b ∷ q) = if a == b then suc (common_prefix p q) else 0
common_prefix _ _ = 0

-- `a < b` on paths
abbrev pub path_ltb : FilePath → FilePath → Bool
path_ltb a b = not (path_leb b a)

-- `common > prev_common || (common == prev_common && c < prev_c)`
abbrev pub is_closer : FilePath → FilePath → FilePath → Bool
is_closer from_file c prev =
    ltb (common_prefix from_file prev) (common_prefix from_file c)
    || (nat_beq (common_prefix from_file c) (common_prefix from_file prev) && path_ltb c prev)

-- the loop over the candidates, after the first one is taken
unfoldable pub closest : FilePath → FilePath → List FilePath → FilePath
unfolding common_prefix path_leb
closest from_file best [] = best
closest from_file best (c ∷ cands) =
    closest from_file (if is_closer from_file c best then c else best) cands

unfoldable pub pick_closest : Option (List FilePath) → FilePath → Option FilePath
unfolding closest
pick_closest none from_file = none
pick_closest (some []) from_file = none
pick_closest (some (c ∷ cands)) from_file = some (closest from_file c cands)

-- No candidate is closer than `p`.
abbrev pub IsClosest : FilePath → FilePath → List FilePath → Type 0
IsClosest from_file p cands =
    (p ∈ cands)
    × ((c : FilePath)
        → c ∈ cands
        → (common_prefix from_file c < common_prefix from_file p)
          ⊎ ((common_prefix from_file c ≡ common_prefix from_file p) × (path_leb p c ≡ true)))

not_closer_trans :
    (from_file a b c : FilePath)
    → is_closer from_file b a ≡ false
    → is_closer from_file c b ≡ false
    → is_closer from_file c a ≡ false
not_closer_trans from_file a b c p q = ground (arith, path_leb_trans a b c)

closer_is_not :
    (from_file a b : FilePath) → is_closer from_file a b ≡ true → is_closer from_file b a ≡ false
closer_is_not from_file a b h = ground (arith, path_leb_total b a)

not_closer_self : (from_file a : FilePath) → is_closer from_file a a ≡ false
not_closer_self from_file a = ground (arith, path_leb_total a a)

if_either :
    {A : Type 0} (b : Bool) (x y : A) → ((if b then x else y) ≡ x) ⊎ ((if b then x else y) ≡ y)
if_either true x y = inl refl
if_either false x y = inr refl

pub closest_mem :
    (from_file best : FilePath) (cands : List FilePath)
    → closest from_file best cands ∈ (best ∷ cands)
unfolding closest
closest_mem from_file best [] = inl refl
closest_mem from_file best (c ∷ cands) =
    ⊎_elim
      (λ e.
        ⊎_elim (λ l. inr (inl (e ∙ l))) (λ r. inl (e ∙ r))
          (if_either (is_closer from_file c best) c best))
      (λ i. inr (inr i))
      (closest_mem from_file (if is_closer from_file c best then c else best) cands)

closest_least :
    (from_file best : FilePath) (cands : List FilePath) (c : FilePath)
    → c ∈ (best ∷ cands)
    → is_closer from_file c (closest from_file best cands) ≡ false
unfolding closest
closest_least from_file best [] c m =
    ⊎_elim (λ same. rw same (not_closer_self from_file best)) absurd m
closest_least from_file best (d ∷ cands) c m = elim (Bool-cases (is_closer from_file d best)) [
  | inl t ↦
      rw (t, closest)
        (⊎_elim
          (λ same.
            not_closer_trans from_file (closest from_file d cands) d c
              (closest_least from_file d cands d (inl refl))
              (rw same (closer_is_not from_file d best t)))
          (closest_least from_file d cands c) m)
  | inr f ↦
      rw (f, closest)
        (⊎_elim (λ same. closest_least from_file best cands c (inl same))
          (⊎_elim
            (λ same.
              not_closer_trans from_file (closest from_file best cands) best c
                (closest_least from_file best cands best (inl refl)) (rw same f))
            (λ i. closest_least from_file best cands c (inr i)))
          m)
]

pub pick_closest-IsClosest :
    (from_file first : FilePath) (cands : List FilePath)
    → (pick_closest none from_file ≡ none)
      × (pick_closest (some []) from_file ≡ none)
      × ((p : FilePath) × (pick_closest (some (first ∷ cands)) from_file ≡ some p)
          × IsClosest from_file p (first ∷ cands))
unfolding pick_closest
pick_closest-IsClosest from_file first cands = (
  refl,
  refl,
  (
    closest from_file first cands,
    refl,
    (
      closest_mem from_file first cands,
      λ c m. ground (arith, closest_least from_file first cands c m),
    ),
  ),
)
