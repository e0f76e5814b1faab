-- ===== src/Prelude/Dict.antt =====
-- `HashSet` and `HashMap`, as lists with distinct keys in the order in which the keys came.
-- A `HashMap` is iterated in an order of its own, so that no result here depends on that order.
use mathlib.Core.Path.{◌≡◌, refl}
use mathlib.Core.Logic.{◌↔◌, inl, inr}
use mathlib.Core.Bool.{Bool, true, false, ◌||◌}
use mathlib.Core.List.{List, [], ◌∷◌, map}
use mathlib.Core.Option.{Option, none, some}
use native.Mathlib.Omega.{arith}
use repolayer.Prelude.Tests.{PartialEq, ◌==◌, if◌then◌else◌, beq-cases}
use repolayer.Prelude.Lists.{◌∈◌}

abbrev pub Dict : Type 0 → Type 0 → Type 0
Dict K V = List (K × V)

abbrev pub keys : {K V : Type 0} → Dict K V → List K
keys = map (λ p. p.0)

-- `o.unwrap_or(d)`
abbrev pub or_default {ℓ} : {V : Type ℓ} → V → Option V → V
or_default d none = d
or_default d (some v) = v

module _ {K : Type 0} ⦃e : PartialEq K⦄ where
  -- `set.contains(&k)`
  unfoldable pub contains : List K → K → Bool
  contains [] k = false
  contains (x ∷ xs) k = (x == k) || contains xs k

  pub contains_iff : (xs : List K) (k : K) → (contains xs k ≡ true) ↔ (k ∈ xs)
  unfolding contains
  contains_iff [] k = (λ h. cc, λ h. absurd h)
  contains_iff (x ∷ xs) k = ground (arith, e.eq_iff x k, contains_iff xs k)

  pub contains_of_mem : (xs : List K) (k : K) → k ∈ xs → contains xs k ≡ true
  contains_of_mem xs k = (contains_iff xs k).1

  pub not_mem_of_contains : (xs : List K) (k : K) → contains xs k ≡ false → ¬ (k ∈ xs)
  not_mem_of_contains xs k h m = cc (contains_of_mem xs k m)

module _ {K V : Type 0} ⦃e : PartialEq K⦄ where
  -- `map.insert(k, v)`
  unfoldable pub insert : K → V → Dict K V → Dict K V
  insert k v [] = (k, v) ∷ []
  insert k v ((j, w) ∷ m) = if j == k then (k, v) ∷ m else (j, w) ∷ insert k v m

  -- `map.entry(k).or_insert(v)`, then a change of the value
  unfoldable pub update : K → V → (V → V) → Dict K V → Dict K V
  update k v f [] = (k, f v) ∷ []
  update k v f ((j, w) ∷ m) = if j == k then (j, f w) ∷ m else (j, w) ∷ update k v f m

  -- `map.get(&k)`
  unfoldable pub lookup : K → Dict K V → Option V
  lookup k [] = none
  lookup k ((j, v) ∷ m) = if j == k then some v else lookup k m

  -- A key reads as its new value, and every other key as before.
  pub lookup-insert :
      (new old : K) (v : V) (dict : Dict K V)
      → lookup old (insert new v dict) ≡ (if new == old then some v else lookup old dict)
  unfolding insert lookup
  lookup-insert new old v [] = refl
  lookup-insert new old v ((here, w) ∷ rest) =
      ground (
        lookup-insert new old v rest,
        e.eq_iff new old,
        e.eq_iff here old,
        e.eq_iff here new,
        arith,
      )

  pub lookup-update :
      (k j : K) (v : V) (f : V → V) (m : Dict K V)
      → lookup j (update k v f m)
        ≡ (if k == j then some (f (or_default v (lookup k m))) else lookup j m)
  unfolding lookup update
  lookup-update k j v f [] = refl
  lookup-update k j v f ((i, w) ∷ m) =
      ground (arith, e.eq_iff k j, e.eq_iff i k, e.eq_iff i j, lookup-update k j v f m)

  pub lookup_mem : (m : Dict K V) (k : K) (v : V) → lookup k m ≡ some v → (k, v) ∈ m
  unfolding lookup
  lookup_mem [] k v h = cc
  lookup_mem ((j, w) ∷ m) k v h = elim (beq-cases j k) [
    | inl (t, same) ↦ inl (ground arith)
    | inr (t, other) ↦ inr (lookup_mem m k v (rw t at h))
  ]
