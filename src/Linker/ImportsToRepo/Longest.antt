-- ===== src/Linker/ImportsToRepo/Longest.antt =====
-- `longest_match` against all aliases.

use repolayer.Prelude.{
  ℕ, ◌≤◌, ◌≡◌, refl, sym, ap, ◌∙◌, subst, ◌↔◌, ◌⊎◌, inl, inr, ⊎_elim, true, false, Option, none,
  some, List, [], ◌∷◌, arith,
}
use repolayer.Prelude.Tests.{ltb, Bool-cases, nat_eq}
use repolayer.Prelude.Lists.{length, ◌∈◌, exists_cons}
use repolayer.Prelude.Text.{Text, text_eq, path_eq}
use repolayer.Linker.ImportsToRepo.{
  names_import, try_prefix, RepoAlias, longest_match, try_aliases, try_prefixes, name_of,
}

module _ (import : Text) where
  -- `best` is the longest prefix of the import among those of `S`, or there is none.
  abbrev pub IsBest : (Text × Text → Type 0) → Option (Text × ℕ) → Type 0
  IsBest S none = (x : Text × Text) → S x → names_import import x.1 ≡ false
  IsBest S (some best) =
      ((p : Text) × S (best.0, p) × (names_import import p ≡ true) × (length p ≡ best.1))
      × ((x : Text × Text) → S x → names_import import x.1 ≡ true → length x.1 ≤ best.1)

  IsBest-iff :
      (S T : Text × Text → Type 0) (best : Option (Text × ℕ))
      → ((x : Text × Text) → S x ↔ T x)
      → IsBest S best
      → IsBest T best
  IsBest-iff S T none h b = λ x t. b x ((h x).1 t)
  IsBest-iff S T (some best) h b =
      ((b.0.0, (h (best.0, b.0.0)).0 b.0.1, b.0.2, b.0.3), λ x t. b.1 x ((h x).1 t))

  try_prefix-IsBest :
      (S : Text × Text → Type 0) (name p : Text) (best : Option (Text × ℕ))
      → IsBest S best
      → IsBest (λ x. S x ⊎ (x ≡ (name, p))) (try_prefix import name best p)
  unfolding try_prefix
  try_prefix-IsBest S name p none b = elim (Bool-cases (names_import import p)) [
    | inl t ↦
        rw (t, try_prefix)
          (
            (p, inr refl, t, refl),
            λ x i m. ⊎_elim (λ s. absurd (cc (b x s, m))) (λ e. rw e (omega arith)) i,
          )
    | inr f ↦ rw (f, try_prefix) (λ x i. ⊎_elim (b x) (λ e. rw e f) i)
  ]
  try_prefix-IsBest S name p (some best) b = elim (Bool-cases (names_import import p)) [
    | inl t ↦ elim (Bool-cases (ltb best.1 (length p))) [
      | inl l ↦
          rw (t, l, try_prefix)
            (
              (p, inr refl, t, refl),
              λ x i m. ⊎_elim (λ s. ground (arith, b.1 x s m, l)) (λ e. rw e (omega arith)) i,
            )
      | inr l ↦
          rw (t, l, try_prefix)
            (
              (b.0.0, inl b.0.1, b.0.2, b.0.3),
              λ x i m. ⊎_elim (λ s. b.1 x s m) (λ e. rw e (ground (arith, l))) i,
            )
    ]
    | inr f ↦
        rw (f, try_prefix)
          (
            (b.0.0, inl b.0.1, b.0.2, b.0.3),
            λ x i m. ⊎_elim (λ s. b.1 x s m) (λ e. absurd (mismatch x e m f)) i,
          )
  ]
    where
      mismatch :
          (x : Text × Text)
          → x ≡ (name, p)
          → names_import import x.1 ≡ true
          → names_import import p ≡ false
          → ⊥
      mismatch x e m f = cc (sym (ap (λ (y : Text × Text). names_import import y.1) e) ∙ m, f)

  -- A prefix of the alias.
  abbrev pub PrefixOf : RepoAlias → Text × Text → Type 0
  PrefixOf a x = (x.0 ≡ a.repo_name) × (x.1 ∈ a.prefixes)

  try_prefixes-IsBest :
      (S : Text × Text → Type 0) (name : Text) (ps : List Text) (best : Option (Text × ℕ))
      → IsBest S best
      → IsBest (λ x. S x ⊎ ((x.0 ≡ name) × (x.1 ∈ ps))) (try_prefixes import name best ps)
  unfolding try_prefixes
  try_prefixes-IsBest S name [] best b =
      IsBest-iff S (λ x. S x ⊎ ((x.0 ≡ name) × (x.1 ∈ []))) best
        (λ x. (inl, λ i. ⊎_elim (λ s. s) (λ (e, j). absurd j) i)) b
  try_prefixes-IsBest S name (p ∷ ps) best b =
      IsBest-iff (λ x. (S x ⊎ (x ≡ (name, p))) ⊎ ((x.0 ≡ name) × (x.1 ∈ ps)))
        (λ x. S x ⊎ ((x.0 ≡ name) × (x.1 ∈ (p ∷ ps))))
        (try_prefixes import name (try_prefix import name best p) ps) (λ x. ground arith)
        (try_prefixes-IsBest (λ x. S x ⊎ (x ≡ (name, p))) name ps (try_prefix import name best p)
          (try_prefix-IsBest S name p best b))

  try_aliases-IsBest :
      (S : Text × Text → Type 0) (aliases : List RepoAlias) (best : Option (Text × ℕ))
      → IsBest S best
      → IsBest
          (λ x. S x ⊎ ((a : RepoAlias) × (a ∈ aliases) × PrefixOf a x))
          (try_aliases import best aliases)
  unfolding try_aliases
  try_aliases-IsBest S [] best b =
      IsBest-iff S (λ x. S x ⊎ ((a : RepoAlias) × (a ∈ []) × PrefixOf a x)) best
        (λ x. (inl, λ i. ⊎_elim (λ s. s) (λ (a, j, q). absurd j) i)) b
  try_aliases-IsBest S (a ∷ aliases) best b =
      IsBest-iff (λ x. (S x ⊎ PrefixOf a x) ⊎ ((c : RepoAlias) × (c ∈ aliases) × PrefixOf c x))
        (λ x. S x ⊎ ((c : RepoAlias) × (c ∈ (a ∷ aliases)) × PrefixOf c x))
        (try_aliases import (try_prefixes import a.repo_name best a.prefixes) aliases)
        (λ x. exists_cons (λ c. PrefixOf c x) a aliases ((λ i. i), (λ i. i)) ((λ i. i), (λ i. i)))
        (try_aliases-IsBest (λ x. S x ⊎ PrefixOf a x) aliases
          (try_prefixes import a.repo_name best a.prefixes)
          (try_prefixes-IsBest S a.repo_name a.prefixes best b))

  -- Either no prefix of an alias names the import and there is no match, or the match is the name of
  -- an alias with a prefix that names the import and that no other such prefix exceeds in length.
  pub longest_match-cases :
      (aliases : List RepoAlias)
      → ((longest_match aliases import ≡ none)
          × ((a : RepoAlias) (p : Text)
              → a ∈ aliases
              → p ∈ a.prefixes
              → names_import import p ≡ false))
        ⊎ ((a : RepoAlias) × (p : Text) × (longest_match aliases import ≡ some a.repo_name)
            × (a ∈ aliases)
            × (p ∈ a.prefixes)
            × (names_import import p ≡ true)
            × ((c : RepoAlias) (q : Text)
                → c ∈ aliases
                → q ∈ c.prefixes
                → names_import import q ≡ true
                → length q ≤ length p))
  unfolding longest_match
  longest_match-cases aliases =
      read (try_aliases import none aliases)
        (try_aliases-IsBest (λ x. ⊥) aliases none (λ x i. absurd i))
    where
      read :
          (best : Option (Text × ℕ))
          → IsBest (λ x. ⊥ ⊎ ((a : RepoAlias) × (a ∈ aliases) × PrefixOf a x)) best
          → ((name_of best ≡ none)
              × ((a : RepoAlias) (p : Text)
                  → a ∈ aliases
                  → p ∈ a.prefixes
                  → names_import import p ≡ false))
            ⊎ ((a : RepoAlias) × (p : Text) × (name_of best ≡ some a.repo_name)
                × (a ∈ aliases)
                × (p ∈ a.prefixes)
                × (names_import import p ≡ true)
                × ((c : RepoAlias) (q : Text)
                    → c ∈ aliases
                    → q ∈ c.prefixes
                    → names_import import q ≡ true
                    → length q ≤ length p))
      read none b = inl (refl, λ a p i j. b (a.repo_name, p) (inr (a, i, (refl, j))))
      read (some best) b =
          ⊎_elim absurd
            (λ (a, i, (e, j)). inr (
              a,
              b.0.0,
              ap some e,
              i,
              j,
              b.0.2,
              λ c q k l m.
                  subst (λ n. length q ≤ n) (sym b.0.3)
                    (b.1 (c.repo_name, q) (inr (c, k, (refl, l))) m),
            ))
            b.0.1
