-- ===== src/Prelude/Rows.antt =====
-- Tables of a database as lists of rows: the WHERE clause of a SELECT or a DELETE.
use repolayer.Prelude.{
  Option, none, some, subst, ⊎_elim, refl, ◌≡◌, ◌↔◌, inl, inr, Bool, true, List, [], ◌∷◌, map,
  arith, false, ◌++◌, ap, ◌&&◌, sym,
}
use repolayer.Prelude.Tests.{if◌then◌else◌, Bool-cases, nat_eq, Option-cases}
use repolayer.Prelude.Lists.{
  ◌∈◌, Distinct, mem-map, mem-map-cases, mem-append-cases, mem-append_left, mem-append_right,
}
use repolayer.Prelude.Text.{text_eq, path_eq}

-- `WHERE ...` over a table
unfoldable pub where_rows : {A : Type 0} → (A → Bool) → List A → List A
where_rows p [] = []
where_rows p (x ∷ xs) = let rest = where_rows p xs in if p x then x ∷ rest else rest

pub mem-where_rows :
    {A : Type 0} (p : A → Bool) (xs : List A) (x : A)
    → (x ∈ where_rows p xs) ↔ ((x ∈ xs) × (p x ≡ true))
unfolding where_rows
mem-where_rows p [] x = ground arith
mem-where_rows p (y ∷ ys) x = ground (arith, mem-where_rows p ys x)

pub Distinct-where_rows :
    {A B : Type 0} (f : A → B) (p : A → Bool) (xs : List A)
    → Distinct (map f xs)
    → Distinct (map f (where_rows p xs))
unfolding where_rows
Distinct-where_rows f p [] h = tt
Distinct-where_rows {A} f p (y ∷ ys) h = elim (Bool-cases (p y)) [
  | inl in_ ↦ rw in_ (
    (λ m. h.0 (kept (mem-map-cases f (where_rows p ys) (f y) m))),
    Distinct-where_rows f p ys h.1,
  )
  | inr out ↦ rw out (Distinct-where_rows f p ys h.1)
]
  where
    kept : (a : A) × (a ∈ where_rows p ys) × (f y ≡ f a) → f y ∈ map f ys
    kept (a, m, e) = rw e (mem-map f ys a ((mem-where_rows p ys a).0 m).0)

-- A selection does not see a deletion of rows outside it.
pub where_rows-where_rows :
    {A : Type 0} (p q : A → Bool) (xs : List A)
    → ((x : A) → p x ≡ true → q x ≡ true)
    → where_rows p (where_rows q xs) ≡ where_rows p xs
unfolding where_rows
where_rows-where_rows p q [] h = refl
where_rows-where_rows p q (x ∷ xs) h = ground (arith, h x, where_rows-where_rows p q xs h)

pub where_rows-same :
    {A : Type 0} (p q : A → Bool) (xs : List A)
    → ((x : A) → p x ≡ q x)
    → where_rows p xs ≡ where_rows q xs
unfolding where_rows
where_rows-same p q [] same = refl
where_rows-same p q (x ∷ xs) same = ground (arith, same x, where_rows-same p q xs same)

pub where_rows-none :
    {A : Type 0} (p : A → Bool) (xs : List A)
    → ((x : A) → x ∈ xs → p x ≡ false)
    → where_rows p xs ≡ []
unfolding where_rows
where_rows-none p [] h = refl
where_rows-none p (x ∷ xs) h = rw (h x (inl refl)) (where_rows-none p xs (λ y i. h y (inr i)))

pub where_rows-append_none :
    {A : Type 0} (p : A → Bool) (xs ys : List A)
    → ((y : A) → y ∈ ys → p y ≡ false)
    → where_rows p (xs ++ ys) ≡ where_rows p xs
unfolding where_rows
where_rows-append_none p [] ys h = where_rows-none p ys h
where_rows-append_none p (x ∷ xs) ys h = ground (arith, where_rows-append_none p xs ys h)

-- `iter.filter_map(f)`
unfoldable pub filter_map : {A B : Type 0} → (A → Option B) → List A → List B
filter_map f [] = []
filter_map f (x ∷ xs) = let rest = filter_map f xs in elim (f x) [ none ↦ rest | some y ↦ y ∷ rest ]

pub mem-filter_map :
    {A B : Type 0} (f : A → Option B) (xs : List A) (y : B)
    → (y ∈ filter_map f xs) ↔ ((x : A) × (x ∈ xs) × (f x ≡ some y))
unfolding filter_map
mem-filter_map f [] y = (λ m. absurd m, λ (x, m, _). absurd m)
mem-filter_map f (z ∷ xs) y = elim (Option-cases (f z)) [
  | inl e ↦
      rw (e, filter_map)
        (
          λ m. let (x, i, h) = (mem-filter_map f xs y).0 m in (x, inr i, h),
          λ (x, i, h). ⊎_elim (λ same. cc) (λ j. (mem-filter_map f xs y).1 (x, j, h)) i,
        )
  | inr (w, e) ↦
      rw (e, filter_map)
        (
          ⊎_elim (λ same. (z, inl refl, cc))
              (λ m. let (x, i, h) = (mem-filter_map f xs y).0 m in (x, inr i, h)),
          λ (x, i, h). ⊎_elim (λ same. inl cc) (λ j. inr ((mem-filter_map f xs y).1 (x, j, h))) i,
        )
]

-- `iter.flat_map(f)`
unfoldable pub flat_map : {A B : Type 0} → (A → List B) → List A → List B
flat_map f [] = []
flat_map f (x ∷ xs) = f x ++ flat_map f xs

pub mem-flat_map :
    {A B : Type 0} (f : A → List B) (xs : List A) (y : B)
    → (y ∈ flat_map f xs) ↔ ((x : A) × (x ∈ xs) × (y ∈ f x))
unfolding flat_map
mem-flat_map f [] y = (λ m. absurd m, λ (x, m, _). absurd m)
mem-flat_map f (z ∷ xs) y = (
  λ m.
      ⊎_elim (λ i. (z, inl refl, i))
        (λ i. let (x, j, h) = (mem-flat_map f xs y).0 i in (x, inr j, h))
        (mem-append-cases y (f z) (flat_map f xs) m),
  λ (x, i, h).
      ⊎_elim (λ same. mem-append_left y (f z) (flat_map f xs) (subst (λ w. y ∈ f w) same h))
        (λ j. mem-append_right y (f z) (flat_map f xs) ((mem-flat_map f xs y).1 (x, j, h))) i,
)

-- The elements of a list that a predicate holds of, in their order.
pub data Filtered {A : Type 0} (P : A → Type 0) : List A → List A → Type 0 where
  done : Filtered P [] []
  keep : {x : A} {xs ys : List A} → P x → Filtered P xs ys → Filtered P (x ∷ xs) (x ∷ ys)
  skip : {x : A} {xs ys : List A} → ¬ P x → Filtered P xs ys → Filtered P (x ∷ xs) ys

pub where_rows-Filtered :
    {A : Type 0} (P : A → Type 0) (p : A → Bool)
    → ((x : A) → (p x ≡ true) ↔ P x)
    → (xs : List A) → Filtered P xs (where_rows p xs)
unfolding where_rows
where_rows-Filtered P p test [] = done
where_rows-Filtered P p test (x ∷ xs) = elim (Bool-cases (p x)) [
  | inl t ↦ rw t (keep ((test x).0 t) (where_rows-Filtered P p test xs))
  | inr f ↦ rw f (skip (λ h. let t = (test x).1 h in cc (t, f)) (where_rows-Filtered P p test xs))
]

pub Filtered-where_rows :
    {A : Type 0} (P : A → Type 0) (p : A → Bool)
    → ((x : A) → (p x ≡ true) ↔ P x)
    → {xs ys : List A} → Filtered P xs ys
    → ys ≡ where_rows p xs
unfolding where_rows
Filtered-where_rows P p test done = refl
Filtered-where_rows P p test (keep {x = x} h rest) =
    rw ((test x).1 h) (ap (λ l. x ∷ l) (Filtered-where_rows P p test rest))
Filtered-where_rows P p test (skip {x = x} n rest) = elim (Bool-cases (p x)) [
  | inl t ↦ absurd (n ((test x).0 t))
  | inr f ↦ rw f (Filtered-where_rows P p test rest)
]

pub where_rows-and :
    {A : Type 0} (p q : A → Bool) (xs : List A)
    → where_rows q (where_rows p xs) ≡ where_rows (λ x. p x && q x) xs
unfolding where_rows
where_rows-and p q [] = refl
where_rows-and p q (x ∷ xs) = ground (arith, where_rows-and p q xs)

pub Distinct-filter_map :
    {A B : Type 0} (f : A → Option B) (xs : List A)
    → ((x y : A) (b : B) → f x ≡ some b → f y ≡ some b → x ≡ y)
    → Distinct xs
    → Distinct (filter_map f xs)
unfolding filter_map
Distinct-filter_map f [] one h = tt
Distinct-filter_map f (x ∷ xs) one h = elim (Option-cases (f x)) [
  | inl e ↦ rw (e, filter_map) (Distinct-filter_map f xs one h.1)
  | inr (b, e) ↦
      rw (e, filter_map)
        (
          λ m.
              let (y, i, at) = (mem-filter_map f xs b).0 m in
              h.0 (subst (λ z. z ∈ xs) (sym (one x y b e at)) i),
          Distinct-filter_map f xs one h.1,
        )
]
