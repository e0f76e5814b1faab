-- ===== src/Prelude/Text.antt =====
-- Rust's `str` as its bytes, with the tests of the standard library that the program makes.
use Prim.Native.Nat.{ℕ}
use Prim.Native.Char.{code}
use Prim.Native.String.{String}
use mathlib.Core.Path.{◌≡◌, refl, sym, ap, ◌∙◌}
use mathlib.Core.Logic.{◌↔◌, ◌⊎◌, inl, inr, ⊎_elim}
use mathlib.Core.Bool.{Bool, true, false, ◌&&◌, ◌||◌, not}
use mathlib.Core.List.{List, [], ◌∷◌, ◌++◌, reverse, reverse-reverse, reverse-append}
use native.Mathlib.Omega.{arith}
use mathlib.Core.Option.{Option, none, some}
use repolayer.Prelude.Tests.{Bool-cases, ltb, nat_beq, nat_eq, PartialEq, ◌==◌, if◌then◌else◌}

abbrev pub Text : Type 0
Text = List ℕ

-- The bytes of an ASCII literal.
abbrev pub bytes : String → Text
bytes String.[] = []
bytes (String.◌∷◌ c s) = code c ∷ bytes s

-- Equality of sequences, element by element.
module _ {A : Type 0} ⦃e : PartialEq A⦄ where
  unfoldable pub list_beq : List A → List A → Bool
  list_beq [] [] = true
  list_beq [] (y ∷ ys) = false
  list_beq (x ∷ xs) [] = false
  list_beq (x ∷ xs) (y ∷ ys) = (x == y) && list_beq xs ys

  pub list_beq_iff : (a b : List A) → (list_beq a b ≡ true) ↔ (a ≡ b)
  unfolding list_beq
  list_beq_iff [] [] = (λ _. refl, λ _. refl)
  list_beq_iff [] (y ∷ ys) = (λ h. cc, λ h. cc)
  list_beq_iff (x ∷ xs) [] = (λ h. cc, λ h. cc)
  list_beq_iff (x ∷ xs) (y ∷ ys) = ground (arith, e.eq_iff x y, list_beq_iff xs ys)

instance abbrev pub text_eq : PartialEq Text
text_eq = record { eq = list_beq; eq_iff = list_beq_iff }

-- A `PathBuf` by its components: paths are equal, and ordered, component by component.
abbrev pub FilePath : Type 0
FilePath = List Text

instance abbrev pub path_eq : PartialEq FilePath
path_eq = record { eq = list_beq; eq_iff = list_beq_iff }

pub text_beq_iff : (a b : Text) → ((a == b) ≡ true) ↔ (a ≡ b)
text_beq_iff a b = list_beq_iff a b

pub path_beq_iff : (a b : FilePath) → ((a == b) ≡ true) ↔ (a ≡ b)
path_beq_iff a b = list_beq_iff a b

-- The order of `str`, byte by byte.
unfoldable pub text_leb : Text → Text → Bool
text_leb [] ys = true
text_leb (x ∷ xs) [] = false
text_leb (x ∷ xs) (y ∷ ys) = ltb x y || (nat_beq x y && text_leb xs ys)

-- The order of `Path`, component by component.
unfoldable pub path_leb : FilePath → FilePath → Bool
unfolding text_leb
path_leb [] ys = true
path_leb (x ∷ xs) [] = false
path_leb (x ∷ xs) (y ∷ ys) = (text_leb x y && not (text_leb y x)) || ((x == y) && path_leb xs ys)

-- `s.starts_with(p)`
unfoldable pub starts_with : Text → Text → Bool
starts_with s [] = true
starts_with [] (p ∷ ps) = false
starts_with (c ∷ s) (p ∷ ps) = nat_beq c p && starts_with s ps

pub starts_with_iff : (s p : Text) → (starts_with s p ≡ true) ↔ ((r : Text) × (s ≡ p ++ r))
unfolding starts_with
starts_with_iff s [] = (λ _. (s, refl), λ _. refl)
starts_with_iff [] (p ∷ ps) = (λ h. cc, λ (r, h). cc)
starts_with_iff (c ∷ s) (p ∷ ps) = (
  λ h. let (r, t) = (starts_with_iff s ps).0 (ground arith) in (r, ground arith),
  λ (r, h). ground (arith, (starts_with_iff s ps).1 (r, ground arith)),
)

-- `s.contains(p)`
unfoldable pub contains_text : Text → Text → Bool
unfolding starts_with
contains_text [] p = starts_with [] p
contains_text (b ∷ s) p = starts_with (b ∷ s) p || contains_text s p

-- `p` occurs in `s`.
abbrev pub Occurs : Text → Text → Type 0
Occurs p s = (before : Text) × (after : Text) × (s ≡ before ++ (p ++ after))

Occurs-cases :
    (p : Text) (b : ℕ) (s before after : Text)
    → b ∷ s ≡ before ++ (p ++ after)
    → (starts_with (b ∷ s) p ≡ true) ⊎ Occurs p s
Occurs-cases p b s [] after e = inl ((starts_with_iff (b ∷ s) p).1 (after, e))
Occurs-cases p b s (c ∷ before) after e = inr (before, after, cc e)

Occurs-nil : (p before after : Text) → [] ≡ before ++ (p ++ after) → starts_with [] p ≡ true
Occurs-nil p [] after e = (starts_with_iff [] p).1 (after, e)
Occurs-nil p (b ∷ before) after e = cc e

pub contains_text_iff : (s p : Text) → (contains_text s p ≡ true) ↔ Occurs p s
unfolding contains_text
contains_text_iff [] p = (
  λ h. let (r, e) = (starts_with_iff [] p).0 h in ([], r, e),
  λ (before, after, e). Occurs-nil p before after e,
)
contains_text_iff (b ∷ s) p = (
  λ h. elim (Bool-cases (starts_with (b ∷ s) p)) [
    | inl t ↦ let (r, e) = (starts_with_iff (b ∷ s) p).0 t in ([], r, e)
    | inr f ↦
        let (before, after, e) = (contains_text_iff s p).0 (ground (arith, h, f)) in
        (b ∷ before, after, ap (λ l. b ∷ l) e)
  ],
  λ (before, after, e).
      ⊎_elim (λ t. ground (arith, t))
        (λ o. let t = (contains_text_iff s p).1 o in ground (arith, t))
        (Occurs-cases p b s before after e),
)

-- `s.ends_with(p)`
unfoldable pub ends_with : Text → Text → Bool
unfolding starts_with
ends_with s p = starts_with (reverse s) (reverse p)

pub ends_with_iff : (s p : Text) → (ends_with s p ≡ true) ↔ ((r : Text) × (s ≡ r ++ p))
unfolding ends_with
ends_with_iff s p = (
  λ h.
      let (r, e) = (starts_with_iff (reverse s) (reverse p)).0 h in
      (
        reverse r,
        sym (reverse-reverse s)
            ∙ ap reverse e
            ∙ reverse-append (reverse p) r
            ∙ ap (λ q. reverse r ++ q) (reverse-reverse p),
      ),
  λ (r, e).
      (starts_with_iff (reverse s) (reverse p)).1 (reverse r, ap reverse e ∙ reverse-append r p),
)

-- `abs.strip_prefix(root)`
unfoldable pub strip_prefix : FilePath → FilePath → Option FilePath
strip_prefix abs [] = some abs
strip_prefix [] (r ∷ root) = none
strip_prefix (c ∷ abs) (r ∷ root) =
    let rest = strip_prefix abs root in if c == r then rest else none

unfoldable pub join_slash : List Text → Text
join_slash [] = []
join_slash (c ∷ []) = c
join_slash (c ∷ d ∷ rest) = c ++ bytes "/" ++ join_slash (d ∷ rest)

pub strip_prefix_iff :
    (abs root : FilePath) (rel : FilePath)
    → (strip_prefix abs root ≡ some rel) ↔ (abs ≡ root ++ rel)
unfolding strip_prefix
strip_prefix_iff abs [] rel = (λ h. cc, λ h. cc)
strip_prefix_iff [] (r ∷ root) rel = (λ h. cc, λ h. cc)
strip_prefix_iff (c ∷ abs) (r ∷ root) rel =
    ground (arith, text_beq_iff c r, strip_prefix_iff abs root rel)
