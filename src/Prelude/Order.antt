-- ===== src/Prelude/Order.antt =====
-- The orders of `str` and of `Path` are total orders.

use repolayer.Prelude.{◌≡◌, refl, ◌⊎◌, true, false, [], ◌∷◌, arith}
use repolayer.Prelude.Tests.{nat_eq}
use repolayer.Prelude.Text.{Text, FilePath, text_eq, path_eq, text_beq_iff, path_leb, text_leb}

pub text_leb_antisymm : (a b : Text) → text_leb a b ≡ true → text_leb b a ≡ true → a ≡ b
unfolding text_leb
text_leb_antisymm [] [] p q = refl
text_leb_antisymm [] (y ∷ b) p q = cc
text_leb_antisymm (x ∷ a) [] p q = cc
text_leb_antisymm (x ∷ a) (y ∷ b) p q = ground (arith, text_leb_antisymm a b)

pub text_leb_total : (a b : Text) → text_leb a b ≡ false → text_leb b a ≡ true
unfolding text_leb
text_leb_total [] b h = cc
text_leb_total (x ∷ a) [] h = refl
text_leb_total (x ∷ a) (y ∷ b) h = ground (arith, text_leb_total a b)

pub text_leb_trans :
    (a b c : Text) → text_leb a b ≡ true → text_leb b c ≡ true → text_leb a c ≡ true
unfolding text_leb
text_leb_trans [] b c p q = refl
text_leb_trans (x ∷ a) [] c p q = cc
text_leb_trans (x ∷ a) (y ∷ b) [] p q = cc
text_leb_trans (x ∷ a) (y ∷ b) (z ∷ c) p q = ground (arith, text_leb_trans a b c)

-- Two components are in order, in reverse order, or equal.
text_cases :
    (a b : Text)
    → ((text_leb a b ≡ true) × (text_leb b a ≡ false))
      ⊎ ((text_leb a b ≡ false) × (text_leb b a ≡ true))
      ⊎ (a ≡ b)
text_cases a b = ground (arith, text_leb_total a b, text_leb_total b a, text_leb_antisymm a b)

text_leb_refl : (a : Text) → text_leb a a ≡ true
text_leb_refl a = ground (arith, text_leb_total a a)

pub path_leb_total : (a b : FilePath) → path_leb a b ≡ false → path_leb b a ≡ true
unfolding path_leb
path_leb_total [] b h = cc
path_leb_total (x ∷ a) [] h = refl
path_leb_total (x ∷ a) (y ∷ b) h =
    ground (arith, text_cases x y, path_leb_total a b, text_beq_iff x y, text_beq_iff y x)

pub path_leb_trans :
    (a b c : FilePath) → path_leb a b ≡ true → path_leb b c ≡ true → path_leb a c ≡ true
unfolding path_leb
path_leb_trans [] b c p q = refl
path_leb_trans (x ∷ a) [] c p q = cc
path_leb_trans (x ∷ a) (y ∷ b) [] p q = cc
path_leb_trans (x ∷ a) (y ∷ b) (z ∷ c) p q = ground (
  arith,
  text_beq_iff x y,
  text_beq_iff y z,
  text_beq_iff x z,
  text_leb_trans x y z,
  text_leb_trans z x y,
  text_leb_trans y z x,
  text_leb_refl x,
  path_leb_trans a b c,
)
