-- ===== src/Prelude/Sort.antt =====
-- `sort_by` (a stable sort: any stable sort has the same result) and `dedup`.
use mathlib.Core.Path.{◌≡◌, refl, sym}
use mathlib.Core.Logic.{◌↔◌, ◌⊎◌, inl, inr, ⊎_elim}
use mathlib.Core.Bool.{Bool, true, false}
use mathlib.Core.List.{List, [], ◌∷◌}
use Prim.Native.Nat.{suc}
use native.Mathlib.Omega.{arith}
use repolayer.Prelude.Tests.{if◌then◌else◌, Bool-cases, PartialEq, ◌==◌}
use repolayer.Prelude.Lists.{◌∈◌, Distinct, length, All, All-mem, All-of_mem}
use repolayer.Prelude.Rows.{where_rows}

module _ {A : Type 0} (le : A → A → Bool) where
  -- `x` comes before the first element that is strictly after it or ties with it.
  unfoldable pub insert_by : A → List A → List A
  insert_by x [] = x ∷ []
  insert_by x (y ∷ ys) = if le x y then x ∷ y ∷ ys else y ∷ insert_by x ys

  unfoldable pub sort_by : List A → List A
  unfolding insert_by
  sort_by [] = []
  sort_by (x ∷ xs) = insert_by x (sort_by xs)

  pub mem-insert_by : (x : A) (ys : List A) (a : A) → (a ∈ insert_by x ys) ↔ ((a ≡ x) ⊎ (a ∈ ys))
  unfolding insert_by
  mem-insert_by x [] a = (λ h. h, λ h. h)
  mem-insert_by x (y ∷ ys) a = ground (arith, mem-insert_by x ys a)

  pub mem-sort_by : (xs : List A) (a : A) → (a ∈ sort_by xs) ↔ (a ∈ xs)
  unfolding sort_by
  mem-sort_by [] a = (λ h. h, λ h. h)
  mem-sort_by (x ∷ xs) a = ground (arith, mem-insert_by x (sort_by xs) a, mem-sort_by xs a)

  pub length-insert_by : (x : A) (ys : List A) → length (insert_by x ys) ≡ suc (length ys)
  unfolding insert_by
  length-insert_by x [] = refl
  length-insert_by x (y ∷ ys) = ground (arith, length-insert_by x ys)

  pub length-sort_by : (xs : List A) → length (sort_by xs) ≡ length xs
  unfolding sort_by
  length-sort_by [] = refl
  length-sort_by (x ∷ xs) = ground (arith, length-insert_by x (sort_by xs), length-sort_by xs)

  -- The sort keeps the order of elements that tie.
  where_rows-insert_by :
      (p : A → Bool) (x : A) (ys : List A)
      → ((a b : A) → p a ≡ true → p b ≡ true → le a b ≡ true)
      → where_rows p (insert_by x ys) ≡ where_rows p (x ∷ ys)
  unfolding insert_by where_rows
  where_rows-insert_by p x [] tie = refl
  where_rows-insert_by p x (y ∷ ys) tie = ground (arith, tie x y, where_rows-insert_by p x ys tie)

  pub where_rows-sort_by :
      (p : A → Bool) (xs : List A)
      → ((a b : A) → p a ≡ true → p b ≡ true → le a b ≡ true)
      → where_rows p (sort_by xs) ≡ where_rows p xs
  unfolding sort_by where_rows
  where_rows-sort_by p [] tie = refl
  where_rows-sort_by p (x ∷ xs) tie =
      ground (arith, where_rows-insert_by p x (sort_by xs) tie, where_rows-sort_by p xs tie)

  Distinct-insert_by : (x : A) (ys : List A) → ¬ (x ∈ ys) → Distinct ys → Distinct (insert_by x ys)
  unfolding insert_by
  Distinct-insert_by x [] absent d = (absent, d)
  Distinct-insert_by x (y ∷ ys) absent d = elim (Bool-cases (le x y)) [
    | inl t ↦ rw t (absent, d)
    | inr f ↦ rw f (
      λ m. ⊎_elim (λ same. absent (inl (sym same))) d.0 ((mem-insert_by x ys y).0 m),
      Distinct-insert_by x ys (λ m. absent (inr m)) d.1,
    )
  ]

  pub Distinct-sort_by : (xs : List A) → Distinct xs → Distinct (sort_by xs)
  unfolding sort_by
  Distinct-sort_by [] d = tt
  Distinct-sort_by (x ∷ xs) d =
      Distinct-insert_by x (sort_by xs) (λ m. d.0 ((mem-sort_by xs x).0 m))
        (Distinct-sort_by xs d.1)

  -- Every element is at most each later one.
  abbrev pub IsSorted : List A → Type 0
  IsSorted [] = Unit
  IsSorted (x ∷ xs) = All (λ y. le x y ≡ true) xs × IsSorted xs

  module _ (total : (x y : A) → le x y ≡ false → le y x ≡ true)
      (trans : (x y z : A) → le x y ≡ true → le y z ≡ true → le x z ≡ true) where
    insert_by-IsSorted : (x : A) (ys : List A) → IsSorted ys → IsSorted (insert_by x ys)
    unfolding insert_by
    insert_by-IsSorted x [] h = (tt, tt)
    insert_by-IsSorted x (y ∷ ys) h = elim (Bool-cases (le x y)) [
      | inl t ↦ rw t ((t, All-of_mem _ ys (λ a m. trans x y a t (All-mem _ ys h.0 a m))), h)
      | inr f ↦ rw f (
        All-of_mem (λ z. le y z ≡ true) (insert_by x ys)
            λ a m.
              ⊎_elim (λ same. rw same (total x y f)) (All-mem (λ z. le y z ≡ true) ys h.0 a)
                ((mem-insert_by x ys a).0 m),
        insert_by-IsSorted x ys h.1,
      )
    ]

    pub sort_by-IsSorted : (xs : List A) → IsSorted (sort_by xs)
    unfolding sort_by
    sort_by-IsSorted [] = tt
    sort_by-IsSorted (x ∷ xs) = insert_by-IsSorted x (sort_by xs) (sort_by-IsSorted xs)

-- `Vec::dedup`: an element equal to the one before it is dropped.
module _ {A : Type 0} ⦃e : PartialEq A⦄ where
  dedup_after : A → List A → List A
  dedup_after x [] = []
  dedup_after x (y ∷ ys) = let rest = dedup_after y ys in if x == y then rest else y ∷ rest

  unfoldable pub dedup : List A → List A
  unfolding dedup_after
  dedup [] = []
  dedup (x ∷ xs) = x ∷ dedup_after x xs

  mem-dedup_after :
      (x : A) (ys : List A) (a : A) → ((a ≡ x) ⊎ (a ∈ dedup_after x ys)) ↔ ((a ≡ x) ⊎ (a ∈ ys))
  unfolding dedup_after
  mem-dedup_after x [] a = (λ h. h, λ h. h)
  mem-dedup_after x (y ∷ ys) a = ground (arith, e.eq_iff x y, mem-dedup_after y ys a)

  pub mem-dedup : (xs : List A) (a : A) → (a ∈ dedup xs) ↔ (a ∈ xs)
  unfolding dedup
  mem-dedup [] a = (λ h. h, λ h. h)
  mem-dedup (x ∷ xs) a = mem-dedup_after x xs a
