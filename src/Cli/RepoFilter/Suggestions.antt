-- ===== src/Cli/RepoFilter/Suggestions.antt =====
-- `require_repo` on every branch.
use repolayer.Prelude.Dict.{contains, contains_iff, not_mem_of_contains}
use repolayer.Prelude.Text.{Text, path_eq, text_eq}
use repolayer.Prelude.Lists.{
  All, All-of_mem, List-cases, length, length-take, mem-map, mem-map-cases, take, ◌∈◌, mem-take,
}
use repolayer.Prelude.Tests.{Bool-cases, leb, nat_eq}
use repolayer.Prelude.{
  List, [], arith, false, inl, inr, map, min, refl, subst, true, ℕ, ⊎_elim, ◌%◌, ◌+◌, ◌-◌, ◌<◌, ◌^◌,
  ◌∷◌, ◌≡◌, ◌≤◌, ◌⊎◌,
}
use repolayer.Cli.RepoFilter.{
  RepoCheck, closest_matches, closer, did_you_mean, found, no_repos, require_repo, score,
  take_close,
}
use repolayer.Cli.RepoFilter.Score.{
  IsScore, IsSorted-Rising, Rising, mem-take_close, score_iff, take-Rising, take_best,
  take_close-Rising,
}
use repolayer.Prelude.Sort.{mem-sort_by, sort_by, sort_by-IsSorted}

-- Two more than the length of the query, in 32 bits that saturate.
abbrev pub max_score : Text → ℕ
max_score query = min (length query % 2 ^ 32 + 2) (2 ^ 32 - 1)

module _ (lower : Text → Text) where
  -- The suggestions for `query` with their scores: the five best of the known names that are close.
  pub record IsNearest (query : Text) (known : List Text) (near : List (ℕ × Text)) : Type 0 where
    pub scored :
        All
          (λ (s : ℕ × Text). (s.1 ∈ known) × IsScore lower query s.1 s.0 × (s.0 ≤ max_score query))
          near
    pub best_first : Rising near
    pub few : length near ≤ 5
    pub best :
        (name : Text) (k : ℕ)
        → name ∈ known
        → IsScore lower query name k
        → k ≤ max_score query
        → ((k, name) ∈ near) ⊎ ((length near ≡ 5) × All (λ (s : ℕ × Text). s.0 ≤ k) near)

  closer_total : (a b : ℕ × Text) → closer a b ≡ false → closer b a ≡ true
  closer_total a b h = ground (arith, h)

  closer_trans : (a b c : ℕ × Text) → closer a b ≡ true → closer b c ≡ true → closer a c ≡ true
  closer_trans a b c p q = ground (arith, p, q)

  closest_matches-IsNearest :
      (query : Text) (known : List Text)
      → (near : List (ℕ × Text)) × IsNearest query known near
        × (closest_matches lower query known 5 ≡ map (λ (s : ℕ × Text). s.1) near)
  unfolding closest_matches
  closest_matches-IsNearest query known =
      let scored = map (λ name. (score lower query name, name)) known in
      let sorted = sort_by closer scored in
      let rise =
        IsSorted-Rising sorted (sort_by-IsSorted closer closer_total closer_trans scored) in
      let close = take_close (max_score query) sorted in
      let rise_close = take_close-Rising (max_score query) sorted rise in
      (
        take 5 close,
        record {
          scored = All-of_mem _ (take 5 close) (λ s m.
              let (i, le) =
                (mem-take_close (max_score query) sorted s rise).0 (mem-take 5 close s m) in
              let (name, stored, same) =
                mem-map-cases (λ name. (score lower query name, name)) known s
                  ((mem-sort_by closer scored s).0 i) in
              let same_name : name ≡ s.1 = cc same in
              (
                subst (λ x. x ∈ known) same_name stored,
                (score_iff lower query s.1 s.0).0 (cc (same, same_name)),
                le,
              ));
          best_first = take-Rising 5 close rise_close;
          few = omega (arith, length-take 5 close);
          best = λ name k i is le.
              take_best 5 close (k, name) rise_close
                ((mem-take_close (max_score query) sorted (k, name) rise).1 (
                  (mem-sort_by closer scored (k, name)).1 (
                      subst (λ j. (j, name) ∈ scored) ((score_iff lower query name k).1 is)
                        (mem-map (λ x. (score lower query x, x)) known name i)),
                  le,
                ));
        },
        refl,
      )

  no_best :
      (k : ℕ) (name : Text) (near : List (ℕ × Text))
      → near ≡ []
      → ((k, name) ∈ near) ⊎ ((length near ≡ 5) × All (λ (s : ℕ × Text). s.0 ≤ k) near)
      → ⊥
  no_best k name [] e h = ⊎_elim (λ m. m) (λ (full, _). omega (arith, full)) h
  no_best k name (s ∷ near) e h = cc e

  -- The answer for a name that is not known.
  abbrev pub IsError : Text → List Text → RepoCheck → Type 0
  IsError name known answer =
      ((answer ≡ no_repos name)
        × ((other : Text) (k : ℕ)
            → other ∈ known
            → IsScore lower name other k
            → max_score name < k))
      ⊎ ((near : List (ℕ × Text)) × IsNearest name known near
          × (1 ≤ length near)
          × (answer ≡ did_you_mean name (map (λ (s : ℕ × Text). s.1) near)))

  -- A known name is returned. An unknown one is an error: where every known name scores above the
  -- cutoff, the error whose message says that the index has no repositories; otherwise the error that
  -- suggests, best first, the at most five best of the known names up to the cutoff.
  pub require_repo-cases :
      (name : Text) (known : List Text)
      → ((name ∈ known) × (require_repo lower name known ≡ found name))
        ⊎ ((¬ (name ∈ known)) × IsError name known (require_repo lower name known))
  unfolding require_repo
  require_repo-cases name known = elim (Bool-cases (contains known name)) [
    | inl t ↦ inl ((contains_iff known name).0 t, rw (t, require_repo) refl)
    | inr f ↦
        let (near, nearest, matches) = closest_matches-IsNearest name known in
        inr (
          not_mem_of_contains known name f,
          elim (List-cases near) [
            | inl none_near ↦ inl (
              rw (f, matches, none_near, require_repo) refl,
              λ other k i is. elim (Bool-cases (leb k (max_score name))) [
                | inl le ↦ absurd (
                    no_best k other near none_near (nearest.best other k i is (ground (arith, le))))
                | inr far ↦ ground (arith, far)
              ],
            )
            | inr (s, rest, e) ↦
                inr (near, nearest, rw e (omega arith), rw (f, matches, e, require_repo) refl)
          ],
        )
  ]
