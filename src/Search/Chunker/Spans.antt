-- ===== src/Search/Chunker/Spans.antt =====
-- Spans that tile a text, and the texts of them.
use mathlib.Core.Path.{◌≡⟨◌⟩◌, ◌∎}
use repolayer.Prelude.{
  ℕ, zero, suc, ◌+◌, ◌-◌, ◌≤◌, ◌<◌, ◌≡◌, refl, sym, ap, subst, inl, inr, ◌&&◌, List, [], ◌∷◌, ◌++◌,
  arith,
}
use repolayer.Prelude.Tests.{ltb, leb, Bool-cases, nat_eq}
use repolayer.Prelude.Lists.{length, take, drop}
use repolayer.Prelude.Text.{Text, text_eq, path_eq}
use repolayer.Search.Chunker.{Child, add_points, slice}

-- `Rising a l b`: from `a` the points of `l` grow strictly, and the last is `b`.
pub data Rising : ℕ → List ℕ → ℕ → Type 0 where
  last : {a : ℕ} → Rising a [] a
  next : {a p b : ℕ} {ps : List ℕ} → a < p → Rising p ps b → Rising a (p ∷ ps) b

-- `Tiles a spans b`: the spans follow one another without gap or overlap from `a` to `b`.
pub data Tiles : ℕ → List (ℕ × ℕ) → ℕ → Type 0 where
  none_left : {a : ℕ} → Tiles a [] a
  tile : {a c b : ℕ} {spans : List (ℕ × ℕ)} → a < c → Tiles c spans b → Tiles a ((a, c) ∷ spans) b

pub add_points-Rising :
    (len last : ℕ) (children : List Child)
    → last ≤ len
    → Rising last (add_points len last children) len
unfolding add_points
add_points-Rising len p [] h = elim (Bool-cases (ltb p len)) [
  | inl more ↦ rw more (next (ground arith) last)
  | inr done ↦ rw done (subst (λ b. Rising p [] b) (ground arith) last)
]
add_points-Rising len p (c ∷ children) h =
    elim (Bool-cases (c.wanted && (ltb p c.end && leb c.end len))) [
      | inl t ↦ rw t (next (ground arith) (add_points-Rising len c.end children (ground arith)))
      | inr f ↦ rw f (add_points-Rising len p children h)
    ]

-- The texts of spans that tile `[a, b)` are, one after the other, the text from `a` to `b`.
unfoldable pub flat : Text → List (ℕ × ℕ) → Text
flat source [] = []
flat source ((a, b) ∷ spans) = slice source a b ++ flat source spans

take-nil : (n : ℕ) → take {A = ℕ} n [] ≡ []
take-nil zero = refl
take-nil (suc n) = refl

take-drop-append : (m n k : ℕ) (t : Text) → m + n ≡ k → take m t ++ take n (drop m t) ≡ take k t
take-drop-append zero n k t e = ap (λ j. take j t) (omega arith)
take-drop-append (suc m) n zero t e = absurd (omega arith)
take-drop-append (suc m) n (suc k) [] e = take-nil n
take-drop-append (suc m) n (suc k) (c ∷ t) e =
    ap (λ r. c ∷ r) (take-drop-append m n k t (omega arith))

drop-drop : (m n k : ℕ) (t : Text) → m + n ≡ k → drop n (drop m t) ≡ drop k t
drop-drop zero n k t e = ap (λ j. drop j t) (omega arith)
drop-drop (suc m) n zero t e = absurd (omega arith)
drop-drop (suc m) zero (suc k) [] e = refl
drop-drop (suc m) (suc n) (suc k) [] e = refl
drop-drop (suc m) n (suc k) (c ∷ t) e = drop-drop m n k t (omega arith)

Tiles-le : {a b : ℕ} {spans : List (ℕ × ℕ)} → Tiles a spans b → a ≤ b
Tiles-le none_left = omega arith
Tiles-le (tile lt t) = omega (arith, Tiles-le t)

pub flat-Tiles :
    (source : Text) {a b : ℕ} {spans : List (ℕ × ℕ)}
    → Tiles a spans b
    → flat source spans ≡ slice source a b
unfolding flat
flat-Tiles source {a} none_left = ap (λ k. take k (drop a source)) {x = 0} {y = a - a} (omega arith)
flat-Tiles source {a} {b} (tile {c = c} {spans = spans} lt t) =
    let le = Tiles-le t in
    flat source ((a, c) ∷ spans)
    ≡⟨ ap (λ r. slice source a c ++ r) (flat-Tiles source t) ⟩ slice source a c ++ slice source c b
    ≡⟨ ap (λ d. slice source a c ++ take (b - c) d)
        (sym (drop-drop a (c - a) c source (omega arith))) ⟩
      slice source a c ++ take (b - c) (drop (c - a) (drop a source))
    ≡⟨ take-drop-append (c - a) (b - c) (b - a) (drop a source) (omega arith) ⟩ slice source a b ∎

pub take_all : (t : Text) → take (length t) t ≡ t
take_all [] = refl
take_all (c ∷ t) = ap (λ r. c ∷ r) (take_all t)

pub length_zero : (t : Text) → 0 ≡ length t → t ≡ []
length_zero [] e = refl
length_zero (c ∷ t) e = absurd (omega arith)
