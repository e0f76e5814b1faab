-- ===== src/Cli/RepoFilter/Distance.antt =====
-- `edit_distance` against edit scripts.
use mathlib.Core.List.{append-nil}
use repolayer.Prelude.{
  ℕ, ◌+◌, ◌≤◌, min, ◌≡◌, refl, ap, ◌∙◌, subst, ◌⊎◌, inl, inr, [], ◌∷◌, ◌++◌, arith,
}
use repolayer.Prelude.Tests.{nat_beq, if◌then◌else◌, nat_eq, beq-cases}
use repolayer.Prelude.Lists.{length}
use repolayer.Prelude.Text.{Text, text_eq, path_eq}

-- `Edits n a b`: `n` insertions, deletions and replacements of one byte turn `a` into `b`.
pub data Edits : ℕ → Text → Text → Type 0 where
  done : Edits 0 [] []
  keep : {n : ℕ} {a b : Text} (c : ℕ) → Edits n a b → Edits n (c ∷ a) (c ∷ b)
  replace : {n : ℕ} {a b : Text} (c d : ℕ) → Edits n a b → Edits (n + 1) (c ∷ a) (d ∷ b)
  remove : {n : ℕ} {a b : Text} (c : ℕ) → Edits n a b → Edits (n + 1) (c ∷ a) b
  add : {n : ℕ} {a b : Text} (d : ℕ) → Edits n a b → Edits (n + 1) a (d ∷ b)

-- The recursive definition of the distance.
unfoldable pub distance : Text → Text → ℕ
distance [] b = length b
distance (x ∷ a) [] = length a + 1
distance (x ∷ a) (y ∷ b) =
    min (min (distance a (y ∷ b) + 1) (distance (x ∷ a) b + 1))
      (distance a b + (if nat_beq x y then 0 else 1))

pub distance_nil : (a : Text) → distance a [] ≡ length a
unfolding distance
distance_nil [] = refl
distance_nil (x ∷ a) = omega arith

distance-remove : (c : ℕ) (a b : Text) → distance (c ∷ a) b ≤ distance a b + 1
unfolding distance
distance-remove c a [] = omega (arith, distance_nil a)
distance-remove c a (y ∷ b) = omega arith

distance-add : (d : ℕ) (a b : Text) → distance a (d ∷ b) ≤ distance a b + 1
unfolding distance
distance-add d [] b = omega arith
distance-add d (x ∷ a) b = omega arith

pub distance-least : {n : ℕ} {a b : Text} → Edits n a b → distance a b ≤ n
unfolding distance
distance-least done = omega arith
distance-least (keep {n} {a} {b} c e) = ground (arith, distance-least e)
distance-least (replace c d e) = ground (arith, distance-least e)
distance-least (remove {n} {a} {b} c e) = omega (arith, distance-least e, distance-remove c a b)
distance-least (add {n} {a} {b} d e) = omega (arith, distance-least e, distance-add d a b)

min3-cases : (p q r : ℕ) → (min (min p q) r ≡ p) ⊎ ((min (min p q) r ≡ q) ⊎ (min (min p q) r ≡ r))
min3-cases p q r = ground arith

adds : (b : Text) → Edits (length b) [] b
adds [] = done
adds (y ∷ b) = subst (λ n. Edits n [] (y ∷ b)) (omega arith) (add y (adds b))

removes : (a : Text) → Edits (length a) a []
removes [] = done
removes (x ∷ a) = subst (λ n. Edits n (x ∷ a) []) (omega arith) (remove x (removes a))

diagonal :
    (x y n : ℕ) (a b : Text)
    → Edits n a b
    → Edits (n + (if nat_beq x y then 0 else 1)) (x ∷ a) (y ∷ b)
diagonal x y n a b e = elim (beq-cases x y) [
  | inl (t, same) ↦ rw (t, same) (subst (λ m. Edits m (y ∷ a) (y ∷ b)) (omega arith) (keep y e))
  | inr (t, other) ↦ rw t (replace x y e)
]

pub distance-Edits : (a b : Text) → Edits (distance a b) a b
unfolding distance
distance-Edits [] b = adds b
distance-Edits (x ∷ a) [] = remove x (removes a)
distance-Edits (x ∷ a) (y ∷ b) =
    elim (min3-cases (distance a (y ∷ b) + 1) (distance (x ∷ a) b + 1)
      (distance a b + (if nat_beq x y then 0 else 1))) [
        | inl e ↦ rw e (remove x (distance-Edits a (y ∷ b)))
        | inr (inl e) ↦ rw e (add y (distance-Edits (x ∷ a) b))
        | inr (inr e) ↦ rw e (diagonal x y (distance a b) a b (distance-Edits a b))
      ]

Edits-append_keep : {n : ℕ} {a b : Text} (c : ℕ) → Edits n a b → Edits n (a ++ c ∷ []) (b ++ c ∷ [])
Edits-append_keep c done = keep c done
Edits-append_keep c (keep d e) = keep d (Edits-append_keep c e)
Edits-append_keep c (replace d f e) = replace d f (Edits-append_keep c e)
Edits-append_keep c (remove d e) = remove d (Edits-append_keep c e)
Edits-append_keep c (add d e) = add d (Edits-append_keep c e)

-- One more edit at the end.
Edits-append_edit :
    {n : ℕ} {a b : Text} (s t : Text) → Edits 1 s t → Edits n a b → Edits (n + 1) (a ++ s) (b ++ t)
Edits-append_edit s t one done = one
Edits-append_edit s t one (keep d e) = keep d (Edits-append_edit s t one e)
Edits-append_edit s t one (replace d f e) = replace d f (Edits-append_edit s t one e)
Edits-append_edit s t one (remove d e) = remove d (Edits-append_edit s t one e)
Edits-append_edit s t one (add d e) = add d (Edits-append_edit s t one e)

unfoldable pub reverse_text : Text → Text
reverse_text [] = []
reverse_text (c ∷ s) = reverse_text s ++ c ∷ []

-- Scripts work from the end as well as from the front.
pub Edits-reverse : {n : ℕ} {a b : Text} → Edits n a b → Edits n (reverse_text a) (reverse_text b)
unfolding reverse_text
Edits-reverse done = done
Edits-reverse (keep c e) = Edits-append_keep c (Edits-reverse e)
Edits-reverse (replace c d e) =
    Edits-append_edit (c ∷ []) (d ∷ []) (replace c d done) (Edits-reverse e)
Edits-reverse (remove {n} {a} {b} c e) =
    subst (λ u. Edits (n + 1) (reverse_text a ++ c ∷ []) u) (append-nil (reverse_text b))
      (Edits-append_edit (c ∷ []) [] (remove c done) (Edits-reverse e))
Edits-reverse (add {n} {a} {b} d e) =
    subst (λ u. Edits (n + 1) u (reverse_text b ++ d ∷ [])) (append-nil (reverse_text a))
      (Edits-append_edit [] (d ∷ []) (add d done) (Edits-reverse e))

reverse_text-append_one : (s : Text) (c : ℕ) → reverse_text (s ++ c ∷ []) ≡ c ∷ reverse_text s
unfolding reverse_text
reverse_text-append_one [] c = refl
reverse_text-append_one (d ∷ s) c = rw (reverse_text-append_one s c) refl

pub reverse_text-reverse_text : (s : Text) → reverse_text (reverse_text s) ≡ s
unfolding reverse_text
reverse_text-reverse_text [] = refl
reverse_text-reverse_text (c ∷ s) =
    reverse_text-append_one (reverse_text s) c ∙ ap (λ l. c ∷ l) (reverse_text-reverse_text s)
