-- ===== src/Deps/Traverse/Rounds.antt =====
-- The outer loop of `bfs`: what holds before each round, kept by each round.
use repolayer.Prelude.{
  ℕ, zero, suc, ◌+◌, ◌≤◌, ◌<◌, true, false, ◌≡◌, refl, ap, inl, inr, some, List, [], ◌∷◌, ◌++◌,
  arith, ⊎_elim, ◌∙◌, sym,
}
use mathlib.Core.List.{append_assoc}
use repolayer.Prelude.Tests.{leb, Bool-cases}
use repolayer.Prelude.Lists.{
  ◌∈◌, List-cases, Distinct, All-mem, mem-append_one, mem-map-cases, mem-append_right,
}
use repolayer.Prelude.Text.{FilePath}
use repolayer.Deps.Graph.{DepEdge}
use repolayer.Deps.Traverse.{Search, expand, loop, begin, offer_all}
use repolayer.Deps.Traverse.Walk.{Leads, Walk, here}
use repolayer.Deps.Traverse.Visit.{
  Entry, entries, names, Ascending, Mid, Offered, offer_all-Offered,
}

module _ (edges_at : FilePath → List DepEdge) (start : FilePath) (max_depth : ℕ) where
  -- What holds before each round; `done` has been popped.
  pub record Inv (done : List Entry) (s : Search) : Type 0 where
    pub split : entries start s.out ≡ done ++ s.q
    pub known : (v : FilePath) → v ∈ s.seen → v ∈ names (entries start s.out)
    pub marked : (v : FilePath) → v ∈ names (entries start s.out) → v ∈ s.seen
    pub distinct : Distinct (names (entries start s.out))
    pub walks : (x : Entry) → x ∈ entries start s.out → Walk edges_at start x.0 x.1
    pub shallow : (x : Entry) → x ∈ entries start s.out → x.1 ≤ max_depth
    pub span : (x y : Entry) → x ∈ entries start s.out → y ∈ s.q → x.1 ≤ y.1 + 1
    pub ascending : Ascending s.q
    pub closed :
        (x : Entry)
        → x ∈ done
        → x.1 < max_depth
        → (v : FilePath) → Leads edges_at x.0 v
        → (n : ℕ) × ((v, n) ∈ entries start s.out) × (n ≤ x.1 + 1)

  pub Inv-begin : Inv [] (begin start)
  unfolding entries
  Inv-begin = record {
    split = refl;
    known = λ v m. m;
    marked = λ v m. m;
    distinct = ((λ h. h), tt);
    walks = λ x. ⊎_elim (λ same. rw same here) absurd;
    shallow = λ x. ⊎_elim (λ same. rw same (omega arith)) absurd;
    span = λ x y. ⊎_elim (λ same m. rw same (omega arith)) absurd;
    ascending = (tt, tt);
    closed = λ x m. absurd m;
  }

  module _ {done : List Entry} (s : Search) (item : Entry) (rest : List Entry)
      (e : s.q ≡ item ∷ rest) (inv : Inv done s) where
    open inv use {split, known, marked, distinct, walks, shallow, span, ascending, closed}

    head_mem : item ∈ s.q
    head_mem = rw e (inl refl)

    abbrev popped : Search
    popped = record s { q = rest }

    popped-Mid : Mid edges_at start max_depth (done ++ item ∷ []) item.1 popped
    popped-Mid = record {
      split = split ∙ (ap (λ l. done ++ l) e ∙ sym (append_assoc done (item ∷ []) rest));
      known = known;
      marked = marked;
      distinct = distinct;
      walks = walks;
      shallow = shallow;
      bound = λ x i. span x item i head_mem;
      floor = λ x i. All-mem (λ y. item.1 ≤ y.1) rest (rw e at ascending).0 x i;
      ascending = (rw e at ascending).1;
    }

    item_walk : Walk edges_at start item.0 item.1
    item_walk = walks item (rw split (mem-append_right item done s.q head_mem))

    -- A file at the bound is not expanded, and every walk on from it is too long.
    pop_only : leb max_depth item.1 ≡ true → Inv (done ++ item ∷ []) popped
    pop_only deep = record {
      split = popped-Mid.split;
      known = known;
      marked = marked;
      distinct = distinct;
      walks = walks;
      shallow = shallow;
      span = λ x y i j. span x y i (rw e (inr j));
      ascending = popped-Mid.ascending;
      closed = λ x i.
          ⊎_elim (closed x) (λ same. rw same (λ room v lead. absurd (ground arith)))
            ((mem-append_one x item done).0 i);
    }

    -- After the edges of the popped file are offered, its row is closed too.
    expanded :
        leb max_depth item.1 ≡ false
        → Inv (done ++ item ∷ []) (offer_all item.1 popped (edges_at item.0))
    expanded room =
        let o =
          offer_all-Offered edges_at start max_depth (edges_at item.0) item.0 popped-Mid item_walk
            (λ v i. i) (ground arith) in
        record {
          split = o.mid.split;
          known = o.mid.known;
          marked = o.mid.marked;
          distinct = o.mid.distinct;
          walks = o.mid.walks;
          shallow = o.mid.shallow;
          span = λ x y i j. omega (arith, o.mid.bound x i, o.mid.floor y j);
          ascending = o.mid.ascending;
          closed = λ x i room' v lead.
              ⊎_elim
                (λ old. let (n, at, le) = closed x old room' v lead in (n, o.grows (v, n) at, le))
                (λ same. found v o x same lead) ((mem-append_one x item done).0 i);
        }
      where
        found :
            (v : FilePath)
            → Offered edges_at start max_depth
                (done ++ item ∷ [])
                item.1
                (edges_at item.0)
                popped
                (offer_all item.1 popped (edges_at item.0))
            → (x : Entry) → x ≡ item
            → Leads edges_at x.0 v
            → (n : ℕ) × ((v, n) ∈ entries start (offer_all item.1 popped (edges_at item.0)).out)
              × (n ≤ x.1 + 1)
        found v o x same lead =
            let (y, at, is_v) = mem-map-cases (λ p. p.0) _ v (o.found v (rw same at lead)) in
            (y.1, rw is_v at, rw same (o.mid.bound y at))

    expand-Inv : Inv (done ++ item ∷ []) (expand edges_at max_depth popped item.0 item.1)
    unfolding expand
    expand-Inv = elim (Bool-cases (leb max_depth item.1)) [
      | inl deep ↦ rw deep (pop_only deep)
      | inr room ↦ rw room (expanded room)
    ]

  pub loop-Inv :
      (fuel : ℕ) (done : List Entry) (s t : Search)
      → Inv done s
      → loop edges_at max_depth fuel s ≡ some t
      → (all : List Entry) × Inv all t × (t.q ≡ [])
  unfolding loop
  loop-Inv zero done s t inv h = elim (List-cases s.q) [
    | inl empty ↦ (done, ground arith, ground arith)
    | inr (item, rest, e) ↦ absurd (cc (rw (e, loop) at h))
  ]
  loop-Inv (suc fuel) done s t inv h = elim (List-cases s.q) [
    | inl empty ↦ (done, ground arith, ground arith)
    | inr (item, rest, e) ↦
        loop-Inv fuel (done ++ item ∷ [])
          (expand edges_at max_depth (record s { q = rest }) item.0 item.1) t
          (expand-Inv s item rest e inv) (rw (e, loop) at h)
  ]
