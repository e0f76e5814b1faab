-- ===== src/Deps/Traverse/Visit.antt =====
-- The inner loop: what one popped file adds to the search.
use mathlib.Core.List.{map-append, append_assoc}
use native.Mathlib.Numerals.{add-one}
use repolayer.Prelude.{
  ℕ, ◌+◌, ◌≤◌, ◌≡◌, refl, ap, inl, inr, ⊎_elim, List, [], ◌∷◌, ◌++◌, map, arith, ◌∙◌, ◌<◌,
}
use repolayer.Prelude.Lists.{
  ◌∈◌, All, Distinct, mem-append_left, mem-append_right, Distinct-append, mem-append_one, mem-map,
  mem-map-cases,
}
use repolayer.Prelude.Text.{FilePath, path_eq}
use repolayer.Deps.Graph.{DepEdge}
use repolayer.Deps.Traverse.{DepHit, Search, hit, push, offer, offer_all}
use repolayer.Deps.Traverse.Walk.{Walk, step, Leads}
use repolayer.Prelude.Tests.{Bool-cases}
use repolayer.Prelude.Dict.{contains, contains_iff, not_mem_of_contains}

abbrev pub Entry : Type 0
Entry = FilePath × ℕ

abbrev pub entry : DepHit → Entry
entry h = (h.file, h.depth)

-- the files found so far with their depths, in the order in which they were found
unfoldable pub entries : FilePath → List DepHit → List Entry
entries start out = (start, 0) ∷ map entry out

abbrev pub names : List Entry → List FilePath
names = map (λ p. p.0)

pub mem-names : (x : Entry) (l : List Entry) → x ∈ l → x.0 ∈ names l
mem-names x l = mem-map (λ p. p.0) l x

-- depths never fall along the list
abbrev pub Ascending : List Entry → Type 0
Ascending [] = Unit {0}
Ascending (x ∷ xs) = All (λ y. x.1 ≤ y.1) xs × Ascending xs

Ascending-append_one :
    (xs : List Entry) (v : FilePath) (d : ℕ)
    → Ascending xs
    → ((x : Entry) → x ∈ xs → x.1 ≤ d)
    → Ascending (xs ++ (v, d) ∷ [])
Ascending-append_one [] v d h below = (tt, tt)
Ascending-append_one (x ∷ xs) v d h below =
    (All-append_one xs h.0, Ascending-append_one xs v d h.1 (λ y m. below y (inr m)))
  where
    All-append_one :
        (l : List Entry) → All (λ y. x.1 ≤ y.1) l → All (λ y. x.1 ≤ y.1) (l ++ (v, d) ∷ [])
    All-append_one [] a = (below x (inl refl), tt)
    All-append_one (y ∷ l) a = (a.0, All-append_one l a.1)

module _ (edges_at : FilePath → List DepEdge) (start : FilePath) (max_depth : ℕ) where
  -- What holds while the edges of a file at depth `d` are offered. `done` has been popped.
  pub record Mid (done : List Entry) (d : ℕ) (s : Search) : Type 0 where
    pub split : entries start s.out ≡ done ++ s.q
    pub known : (v : FilePath) → v ∈ s.seen → v ∈ names (entries start s.out)
    pub marked : (v : FilePath) → v ∈ names (entries start s.out) → v ∈ s.seen
    pub distinct : Distinct (names (entries start s.out))
    pub walks : (x : Entry) → x ∈ entries start s.out → Walk edges_at start x.0 x.1
    pub shallow : (x : Entry) → x ∈ entries start s.out → x.1 ≤ max_depth
    pub bound : (x : Entry) → x ∈ entries start s.out → x.1 ≤ d + 1
    pub floor : (x : Entry) → x ∈ s.q → d ≤ x.1
    pub ascending : Ascending s.q

  entries-push :
      (d : ℕ) (s : Search) (e : DepEdge)
      → entries start (push d s e).out ≡ entries start s.out ++ (e.target, d + 1) ∷ []
  unfolding push entries
  entries-push d s e = ap (λ l. (start, 0) ∷ l) (map-append entry s.out (hit d e ∷ []))

  names-push :
      (d : ℕ) (s : Search) (e : DepEdge)
      → names (entries start (push d s e).out) ≡ names (entries start s.out) ++ e.target ∷ []
  names-push d s e =
      rw entries-push (map-append (λ p. p.0) (entries start s.out) ((e.target, d + 1) ∷ []))

  -- What holds of every entry and of a new one holds of every entry after a push.
  all_entries-push :
      (P : Entry → Type 0) (d : ℕ) (s : Search) (e : DepEdge)
      → ((x : Entry) → x ∈ entries start s.out → P x)
      → P (e.target, d + 1)
      → (x : Entry) → x ∈ entries start (push d s e).out
      → P x
  all_entries-push P d s e old new x i =
      ⊎_elim (old x) (λ same. rw same new) ((mem-append_one x _ _).0 (rw entries-push at i))

  module _ {done : List Entry} {d : ℕ} {s : Search} (m : Mid done d s) where
    open m use {split, known, marked, distinct, walks, shallow, bound, floor, ascending}

    mem-queue : (x : Entry) → x ∈ s.q → x ∈ entries start s.out
    mem-queue x i = rw split (mem-append_right x done s.q i)

    push-Mid :
        (e : DepEdge) (u : FilePath)
        → Walk edges_at start u d
        → Leads edges_at u e.target
        → d < max_depth
        → ¬ (e.target ∈ s.seen)
        → Mid done d (push d s e)
    unfolding push
    push-Mid e u walk leads room fresh = record {
      split =
          entries-push d s e
          ∙ (ap (λ l. l ++ (e.target, d + 1) ∷ []) split ∙ append_assoc done s.q _);
      known = λ v i. rw names-push (
          (mem-append_one v e.target (names (entries start s.out))).1
            (⊎_elim inr (λ old. inl (known v old)) i));
      marked = λ v i.
          ⊎_elim (λ old. inr (marked v old)) inl
            ((mem-append_one v e.target (names (entries start s.out))).0 (rw names-push at i));
      distinct = rw names-push (
          Distinct-append (names (entries start s.out)) (e.target ∷ []) distinct ((λ h. h), tt)
            (λ a i. ⊎_elim (λ same. fresh (rw same at (marked a i))) absurd));
      walks =
          all_entries-push (λ x. Walk edges_at start x.0 x.1) d s e walks
            (rw add-one (step walk leads));
      shallow = all_entries-push (λ x. x.1 ≤ max_depth) d s e shallow (omega arith);
      bound = all_entries-push (λ x. x.1 ≤ d + 1) d s e bound (omega arith);
      floor = λ x i. ⊎_elim (floor x) (λ same. rw same (omega arith)) ((mem-append_one x _ _).0 i);
      ascending =
          Ascending-append_one s.q e.target (d + 1) ascending (λ x i. bound x (mem-queue x i));
    }

  -- What the loop over some edges out of a file leaves behind.
  pub record Offered (done : List Entry) (d : ℕ) (es : List DepEdge) (s t : Search) : Type 0 where
    pub mid : Mid done d t
    pub grows : (x : Entry) → x ∈ entries start s.out → x ∈ entries start t.out
    pub found : (v : FilePath) → v ∈ map (λ e. e.target) es → v ∈ names (entries start t.out)

  offer-Offered :
      {done : List Entry} {d : ℕ} {s : Search} (e : DepEdge) (u : FilePath)
      → Mid done d s
      → Walk edges_at start u d
      → Leads edges_at u e.target
      → d < max_depth
      → Offered done d (e ∷ []) s (offer d s e)
  unfolding offer
  offer-Offered {done} {d} {s} e u m walk leads room =
      elim (Bool-cases (contains s.seen e.target)) [
        | inl old ↦ rw old (record {
          mid = m;
          grows = λ x i. i;
          found = λ v.
              ⊎_elim (λ same. rw same (m.known e.target ((contains_iff s.seen e.target).0 old)))
                absurd;
        })
        | inr new ↦ rw new (record {
          mid = push-Mid m e u walk leads room (not_mem_of_contains s.seen e.target new);
          grows = λ x i. rw entries-push (mem-append_left x _ _ i);
          found = λ v.
              ⊎_elim
                (λ same. rw names-push (
                  rw same (
                    mem-append_right e.target (names (entries start s.out)) (e.target ∷ [])
                      (inl refl))))
                absurd;
        })
      ]

  pub offer_all-Offered :
      {done : List Entry} {d : ℕ} (es : List DepEdge) {s : Search} (u : FilePath)
      → Mid done d s
      → Walk edges_at start u d
      → ((v : FilePath) → v ∈ map (λ e. e.target) es → Leads edges_at u v)
      → d < max_depth
      → Offered done d es s (offer_all d s es)
  unfolding offer_all
  offer_all-Offered [] u m walk leads room = record {
    mid = m;
    grows = λ x i. i;
    found = λ v i. absurd i;
  }
  offer_all-Offered {done} {d} (e ∷ es) {s} u m walk leads room =
      let first = offer-Offered e u m walk (leads e.target (inl refl)) room in
      let rest = offer_all-Offered es u first.mid walk (λ v i. leads v (inr i)) room in
      record {
        mid = rest.mid;
        grows = λ x i. rest.grows x (first.grows x i);
        found = λ v. ⊎_elim (λ same. keep v first rest (first.found v (inl same))) (rest.found v);
      }
    where
      keep :
          (v : FilePath)
          → Offered done d (e ∷ []) s (offer d s e)
          → Offered done d es (offer d s e) (offer_all d (offer d s e) es)
          → v ∈ names (entries start (offer d s e).out)
          → v ∈ names (entries start (offer_all d (offer d s e) es).out)
      keep v first rest i =
          let (x, at, same) = mem-map-cases (λ p. p.0) (entries start (offer d s e).out) v i in
          rw same (mem-names x _ (rest.grows x at))
