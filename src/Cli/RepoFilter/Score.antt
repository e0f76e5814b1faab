-- ===== src/Cli/RepoFilter/Score.antt =====
-- The score of a known name, and the order of the names by score.
use repolayer.Prelude.Text.{Occurs, Text, contains_text, contains_text_iff, path_eq, text_eq}
use repolayer.Prelude.Lists.{All, All-mem, All-of_mem, length, take, ◌∈◌, mem-take}
use repolayer.Prelude.Tests.{Bool-cases, beq-cases, leb, nat_eq}
use repolayer.Prelude.{
  List, [], ap, arith, inl, inr, refl, suc, sym, true, zero, ℕ, ⊎_elim, ◌%◌, ◌+◌, ◌^◌, ◌||◌, ◌↔◌,
  ◌∙◌, ◌∷◌, ◌≡◌, ◌≢◌, ◌≤◌, ◌⊎◌,
}
use repolayer.Prelude.Sort.{IsSorted}
use repolayer.Cli.RepoFilter.{closer, edit_distance, score, take_close}
use repolayer.Cli.RepoFilter.Distance.{Edits}
use repolayer.Cli.RepoFilter.Table.{edit_distance_least}

-- The least number of edits from `a` to `b`.
abbrev pub IsDistance : ℕ → Text → Text → Type 0
IsDistance d a b = Edits d a b × ((n : ℕ) → Edits n a b → d ≤ n)

edit_distance-IsDistance : (d : ℕ) (a b : Text) → IsDistance d a b → d ≡ edit_distance a b
edit_distance-IsDistance d a b (edits, least) =
    let (found, best) = edit_distance_least a b in
    let below = least (edit_distance a b) found in
    let above = best d edits in omega (arith, below, above)

-- One of the texts is part of the other.
abbrev pub Overlap : Text → Text → Type 0
Overlap a b = Occurs a b ⊎ Occurs b a

module _ (lower : Text → Text) where
  -- Without regard to case: 0 for the same name, 1 where one is part of the other, else two more than
  -- the edit distance, which is kept to 32 bits.
  abbrev pub IsScore : Text → Text → ℕ → Type 0
  IsScore query name k =
      ((lower name ≡ lower query) × (k ≡ 0))
      ⊎ ((lower name ≢ lower query) × Overlap (lower query) (lower name) × (k ≡ 1))
      ⊎ ((lower name ≢ lower query)
          × (¬ Overlap (lower query) (lower name))
          × ((d : ℕ) × IsDistance d (lower query) (lower name) × (k ≡ 2 + d % 2 ^ 32)))

  Overlap-iff : (a b : Text) → ((contains_text b a || contains_text a b) ≡ true) ↔ Overlap a b
  Overlap-iff a b = ground (arith, contains_text_iff b a, contains_text_iff a b)

  pub score_iff : (query name : Text) (k : ℕ) → (score lower query name ≡ k) ↔ IsScore query name k
  unfolding score
  score_iff query name k = elim (beq-cases (lower name) (lower query)) [
    | inl (t, same) ↦
        rw (score, t)
          (
            λ h. inl (same, sym h),
            ⊎_elim (λ (_, e). sym e)
                (⊎_elim (λ (n, _, _). absurd (n same)) (λ (n, _, _). absurd (n same))),
          )
    | inr (f, other) ↦
        let over = Overlap-iff (lower query) (lower name) in
        elim (Bool-cases
          (contains_text (lower name) (lower query) || contains_text (lower query) (lower name))) [
            | inl t ↦
                rw (score, f, t)
                  (
                    λ h. inr (inl (other, over.0 t, sym h)),
                    ⊎_elim (λ (same, _). absurd (other same))
                        (⊎_elim (λ (_, _, e). sym e) (λ (_, n, _). absurd (n (over.0 t)))),
                  )
            | inr apart ↦
                rw (score, f, apart)
                  (
                    λ h. inr (
                        inr (
                          other,
                          λ o. let t = over.1 o in cc (t, apart),
                          (
                            edit_distance (lower query) (lower name),
                            edit_distance_least (lower query) (lower name),
                            sym h,
                          ),
                        )),
                    ⊎_elim (λ (same, _). absurd (other same))
                        (⊎_elim (λ (_, o, _). let t = over.1 o in cc (t, apart))
                          (λ (_, _, (d, is, e)).
                            let same = edit_distance-IsDistance d (lower query) (lower name) is in
                            ap (λ n. 2 + n % 2 ^ 32) (sym same) ∙ sym e)),
                  )
          ]
  ]

-- The scores never fall.
abbrev pub Rising : List (ℕ × Text) → Type 0
Rising [] = Unit
Rising (s ∷ scored) = All (λ (t : ℕ × Text). s.0 ≤ t.0) scored × Rising scored

pub IsSorted-Rising : (scored : List (ℕ × Text)) → IsSorted closer scored → Rising scored
IsSorted-Rising [] h = tt
IsSorted-Rising (s ∷ scored) h = (
  All-of_mem _ scored (λ t i. let le = All-mem _ scored h.0 t i in ground (arith, le)),
  IsSorted-Rising scored h.1,
)

-- `take_while` on rising scores keeps all up to the cutoff.
pub mem-take_close :
    (cutoff : ℕ) (scored : List (ℕ × Text)) (s : ℕ × Text)
    → Rising scored
    → (s ∈ take_close cutoff scored) ↔ ((s ∈ scored) × (s.0 ≤ cutoff))
unfolding take_close
mem-take_close cutoff [] s rise = (λ m. absurd m, λ (m, _). m)
mem-take_close cutoff (t ∷ scored) s rise = elim (Bool-cases (leb t.0 cutoff)) [
  | inl close ↦
      let rest = mem-take_close cutoff scored s rise.1 in
      rw (close, take_close)
        (
          ⊎_elim (λ same. (inl same, rw same (ground (arith, close))))
              (λ m. let (i, le) = rest.0 m in (inr i, le)),
          λ (i, le). ⊎_elim inl (λ j. inr (rest.1 (j, le))) i,
        )
  | inr far ↦
      rw (far, take_close)
        (
          λ m. absurd m,
          λ (i, le).
              ⊎_elim (λ same. let e = ap (λ (x : ℕ × Text). x.0) same in ground (arith, far, le, e))
                (λ j.
                  let above = All-mem (λ (x : ℕ × Text). t.0 ≤ x.0) scored rise.0 s j in
                  ground (arith, far, le, above))
                i,
        )
]

pub take_close-Rising :
    (cutoff : ℕ) (scored : List (ℕ × Text)) → Rising scored → Rising (take_close cutoff scored)
unfolding take_close
take_close-Rising cutoff [] rise = tt
take_close-Rising cutoff (t ∷ scored) rise = elim (Bool-cases (leb t.0 cutoff)) [
  | inl close ↦
      rw (close, take_close)
        (
          All-of_mem _ (take_close cutoff scored)
              (λ s m. All-mem _ scored rise.0 s ((mem-take_close cutoff scored s rise.1).0 m).0),
          take_close-Rising cutoff scored rise.1,
        )
  | inr far ↦ rw (far, take_close) tt
]

pub take-Rising : (n : ℕ) (scored : List (ℕ × Text)) → Rising scored → Rising (take n scored)
take-Rising zero scored rise = tt
take-Rising (suc n) [] rise = tt
take-Rising (suc n) (s ∷ scored) rise = (
  All-of_mem _ (take n scored) (λ t m. All-mem _ scored rise.0 t (mem-take n scored t m)),
  take-Rising n scored rise.1,
)

-- What is not among the first `n` is no better than any of them, and they are `n`.
pub take_best :
    (n : ℕ) (scored : List (ℕ × Text)) (s : ℕ × Text)
    → Rising scored
    → s ∈ scored
    → (s ∈ take n scored)
      ⊎ ((length (take n scored) ≡ n) × All (λ (t : ℕ × Text). t.0 ≤ s.0) (take n scored))
take_best zero scored s rise m = inr (refl, tt)
take_best (suc n) [] s rise m = absurd m
take_best (suc n) (t ∷ scored) s rise (inl same) = inl (inl same)
take_best (suc n) (t ∷ scored) s rise (inr m) = elim (take_best n scored s rise.1 m) [
  | inl i ↦ inl (inr i)
  | inr (full, all) ↦
      inr (ap suc full, (All-mem (λ (x : ℕ × Text). t.0 ≤ x.0) scored rise.0 s m, all))
]
