-- ===== src/Prelude/Lists.antt =====
-- Lists measured and indexed by native numbers, under the library's names.
use Prim.Native.Nat.{ℕ, zero, suc, ◌+◌, ◌-◌, ◌<◌, min}
use mathlib.Core.Path.{◌≡◌, refl, ap}
use mathlib.Core.Logic.{◌≢◌, ◌↔◌, ◌⊎◌, inl, inr, ⊎_elim}
use mathlib.Core.List.{List, [], ◌∷◌, ◌++◌, map}
use mathlib.Core.Option.{Option, none, some}
use native.Mathlib.Omega.{arith}
use repolayer.Prelude.{subst}

module _ {ℓ} {A : Type ℓ} where
  abbrev pub length : List A → ℕ
  length [] = 0
  length (x ∷ xs) = suc (length xs)

  abbrev pub get_elem? : List A → ℕ → Option A
  get_elem? [] i = none
  get_elem? (x ∷ xs) zero = some x
  get_elem? (x ∷ xs) (suc i) = get_elem? xs i

  abbrev pub get_or : List A → ℕ → A → A
  get_or [] i d = d
  get_or (x ∷ xs) zero d = x
  get_or (x ∷ xs) (suc i) d = get_or xs i d

  -- A write out of bounds changes nothing.
  abbrev pub set : List A → ℕ → A → List A
  set [] i v = []
  set (x ∷ xs) zero v = v ∷ xs
  set (x ∷ xs) (suc i) v = x ∷ set xs i v

  abbrev pub take : ℕ → List A → List A
  take zero xs = []
  take (suc n) [] = []
  take (suc n) (x ∷ xs) = x ∷ take n xs

  abbrev pub drop : ℕ → List A → List A
  drop zero xs = xs
  drop (suc n) [] = []
  drop (suc n) (x ∷ xs) = drop n xs

  abbrev pub replicate : ℕ → A → List A
  replicate zero a = []
  replicate (suc n) a = a ∷ replicate n a

module _ {A : Type 0} where
  -- Membership, computing to a sum.
  infix 4 ◌∈◌
  abbrev pub ◌∈◌ : A → List A → Type 0
  a ∈ [] = ⊥
  a ∈ (x ∷ xs) = (a ≡ x) ⊎ (a ∈ xs)

  -- A predicate of every element.
  abbrev pub All {κ} : (A → Type κ) → List A → Type κ
  All P [] = Unit
  All P (x ∷ xs) = P x × All P xs

  -- No element occurs twice.
  abbrev pub Distinct : List A → Type 0
  Distinct [] = Unit {0}
  Distinct (x ∷ xs) = (¬ (x ∈ xs)) × Distinct xs

module _ {A : Type 0} where
  pub length-append : (xs ys : List A) → length (xs ++ ys) ≡ length xs + length ys
  length-append [] ys = omega arith
  length-append (x ∷ xs) ys = omega (arith, length-append xs ys)

  pub mem-append_left : (a : A) (xs ys : List A) → a ∈ xs → a ∈ (xs ++ ys)
  mem-append_left a [] ys h = elim h [ ]
  mem-append_left a (x ∷ xs) ys (inl e) = inl e
  mem-append_left a (x ∷ xs) ys (inr m) = inr (mem-append_left a xs ys m)

  pub mem-append_right : (a : A) (xs ys : List A) → a ∈ ys → a ∈ (xs ++ ys)
  mem-append_right a [] ys h = h
  mem-append_right a (x ∷ xs) ys h = inr (mem-append_right a xs ys h)

  pub mem-append-cases : (a : A) (xs ys : List A) → a ∈ (xs ++ ys) → (a ∈ xs) ⊎ (a ∈ ys)
  mem-append-cases a [] ys h = inr h
  mem-append-cases a (x ∷ xs) ys (inl e) = inl (inl e)
  mem-append-cases a (x ∷ xs) ys (inr m) =
      ⊎_elim (λ l. inl (inr l)) inr (mem-append-cases a xs ys m)

  pub mem-append_one : (a x : A) (xs : List A) → (a ∈ (xs ++ x ∷ [])) ↔ ((a ∈ xs) ⊎ (a ≡ x))
  mem-append_one a x xs = (
    λ m. ⊎_elim inl (λ o. ⊎_elim inr absurd o) (mem-append-cases a xs (x ∷ []) m),
    ⊎_elim (mem-append_left a xs (x ∷ [])) (λ e. mem-append_right a xs (x ∷ []) (inl e)),
  )

  pub All-mem {κ} : (P : A → Type κ) (xs : List A) → All P xs → (a : A) → a ∈ xs → P a
  All-mem P [] h a m = elim m [ ]
  All-mem P (x ∷ xs) h a (inl e) = rw e h.0
  All-mem P (x ∷ xs) h a (inr m) = All-mem P xs h.1 a m

  pub All-append {κ} : (P : A → Type κ) (xs ys : List A) → All P ys → All P xs → All P (xs ++ ys)
  All-append P [] ys right left = right
  All-append P (x ∷ xs) ys right left = (left.0, All-append P xs ys right left.1)

  pub All-of_mem {κ} : (P : A → Type κ) (xs : List A) → ((a : A) → a ∈ xs → P a) → All P xs
  All-of_mem P [] h = tt
  All-of_mem P (x ∷ xs) h = (h x (inl refl), All-of_mem P xs (λ a m. h a (inr m)))

  pub List-cases : (xs : List A) → (xs ≡ []) ⊎ ((x : A) × (rest : List A) × (xs ≡ x ∷ rest))
  List-cases [] = inl refl
  List-cases (x ∷ xs) = inr (x, xs, refl)

  pub length-set : (xs : List A) (i : ℕ) (v : A) → length (set xs i v) ≡ length xs
  length-set [] i v = refl
  length-set (x ∷ xs) zero v = refl
  length-set (x ∷ xs) (suc i) v = ap suc (length-set xs i v)

  pub get_or-set_self :
      (xs : List A) (i : ℕ) (v d : A) → i < length xs → get_or (set xs i v) i d ≡ v
  get_or-set_self [] i v d h = elim h [ ]
  get_or-set_self (x ∷ xs) zero v d h = refl
  get_or-set_self (x ∷ xs) (suc i) v d h = get_or-set_self xs i v d (omega arith)

  pub get_or-set_ne :
      (xs : List A) (i j : ℕ) (v d : A) → i ≢ j → get_or (set xs i v) j d ≡ get_or xs j d
  get_or-set_ne [] i j v d h = refl
  get_or-set_ne (x ∷ xs) zero zero v d h = absurd (h refl)
  get_or-set_ne (x ∷ xs) zero (suc j) v d h = refl
  get_or-set_ne (x ∷ xs) (suc i) zero v d h = refl
  get_or-set_ne (x ∷ xs) (suc i) (suc j) v d h = get_or-set_ne xs i j v d (λ e. h (ap suc e))

  pub take-append-drop : (n : ℕ) (xs : List A) → take n xs ++ drop n xs ≡ xs
  take-append-drop zero xs = refl
  take-append-drop (suc n) [] = refl
  take-append-drop (suc n) (x ∷ xs) = rw (take-append-drop n xs)

  pub length-take : (n : ℕ) (xs : List A) → length (take n xs) ≡ min n (length xs)
  length-take zero xs = omega arith
  length-take (suc n) [] = omega arith
  length-take (suc n) (x ∷ xs) = omega (arith, length-take n xs)

  pub length-drop : (n : ℕ) (xs : List A) → length (drop n xs) ≡ length xs - n
  length-drop zero xs = omega arith
  length-drop (suc n) [] = omega arith
  length-drop (suc n) (x ∷ xs) = omega (arith, length-drop n xs)

  pub mem-take : (n : ℕ) (xs : List A) (a : A) → a ∈ take n xs → a ∈ xs
  mem-take zero xs a h = elim h [ ]
  mem-take (suc n) [] a h = elim h [ ]
  mem-take (suc n) (x ∷ xs) a (inl e) = inl e
  mem-take (suc n) (x ∷ xs) a (inr m) = inr (mem-take n xs a m)

  pub Distinct-append :
      (xs ys : List A)
      → Distinct xs
      → Distinct ys
      → ((a : A) → a ∈ xs → ¬ (a ∈ ys))
      → Distinct (xs ++ ys)
  Distinct-append [] ys hx hy apart = hy
  Distinct-append (x ∷ xs) ys hx hy apart = (
    λ m. ⊎_elim hx.0 (apart x (inl refl)) (mem-append-cases x xs ys m),
    Distinct-append xs ys hx.1 hy (λ a m. apart a (inr m)),
  )

module _ {A B : Type 0} where
  pub length-map : (f : A → B) (xs : List A) → length (map f xs) ≡ length xs
  length-map f [] = refl
  length-map f (x ∷ xs) = ap suc (length-map f xs)

  pub mem-map : (f : A → B) (xs : List A) (a : A) → a ∈ xs → f a ∈ map f xs
  mem-map f [] a h = elim h [ ]
  mem-map f (x ∷ xs) a (inl e) = inl (ap f e)
  mem-map f (x ∷ xs) a (inr m) = inr (mem-map f xs a m)

  pub mem-map-cases :
      (f : A → B) (xs : List A) (b : B) → b ∈ map f xs → (a : A) × (a ∈ xs) × (b ≡ f a)
  mem-map-cases f [] b h = elim h [ ]
  mem-map-cases f (x ∷ xs) b (inl e) = (x, inl refl, e)
  mem-map-cases f (x ∷ xs) b (inr m) = let (a, i, e) = mem-map-cases f xs b m in (a, inr i, e)

-- One more element in front of an existence.
pub exists_cons :
    {R A B X : Type 0} (Q : R → Type 0) (r : R) (rows : List R)
    → A ↔ (B ⊎ Q r)
    → X ↔ (A ⊎ ((x : R) × (x ∈ rows) × Q x))
    → X ↔ (B ⊎ ((x : R) × (x ∈ (r ∷ rows)) × Q x))
exists_cons Q r rows one rest = (
  λ i.
      ⊎_elim (λ j. ⊎_elim inl (λ q. inr (r, inl refl, q)) (one.0 j))
        (λ (x, j, q). inr (x, inr j, q)) (rest.0 i),
  λ i. rest.1 (
      ⊎_elim (λ j. inl (one.1 (inl j)))
        (λ (x, j, q). ⊎_elim (λ s. inl (one.1 (inr (subst Q s q)))) (λ l. inr (x, l, q)) j) i),
)
