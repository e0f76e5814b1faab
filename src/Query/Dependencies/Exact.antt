-- ===== src/Query/Dependencies/Exact.antt =====
-- The hops of `get_dependencies`, against the paths of imports.
use repolayer.Query.Dependencies.Steps.{step, here, Steps, ImportOf}
use repolayer.Prelude.{
  ℕ, zero, suc, ◌+◌, ◌≤◌, ◌<◌, ◌≡◌, ap, ◌∙◌, subst, ◌⊎◌, inl, inr, ⊎_elim, some, List, [], ◌∷◌,
  arith,
}
use repolayer.Prelude.Tests.{nat_eq}
use repolayer.Prelude.Lists.{◌∈◌, Distinct, List-cases, mem-map-cases}
use repolayer.Prelude.Text.{Text, text_eq, path_eq}
use repolayer.Graph.Store.{Store, get_node}
use repolayer.Query.Dependencies.{walk_imports, Walk, hop, hops, fresh_walk, visit_frontier}
use repolayer.Graph.Model.{Node, Edge}
use repolayer.Query.Dependencies.Hop.{Done, IsTrue, Mid, LookedAt, ids, visit_frontier-Done}

module _ (s : Store) (start : Text) where
  -- Every stored import of the module `id` is marked.
  abbrev IsClosed : Walk → Text → Type 0
  IsClosed w id = (e : Edge) → ImportOf s id e → e.target ∈ w.visited

  -- What holds after `k` hops, with `frontier` to be looked at next.
  record After (k : ℕ) (w : Walk) (frontier : List Text) : Type 0 where
    mid : Mid s start w.visited k w
    frontier_steps : (id : Text) → id ∈ frontier → Steps s start id k
    closed : (id : Text) → (id ≡ start) ⊎ (id ∈ ids w.result) → (id ∈ frontier) ⊎ IsClosed w id
    reached : {id : Text} {n : ℕ} → Steps s start id n → 0 < n → n ≤ k → id ∈ ids w.result

  -- the end of a path: the start itself, or else a reported node
  end_of :
      {id : Text} {n : ℕ} (l : List Text)
      → Steps s start id n
      → (0 < n → id ∈ l)
      → (id ≡ start) ⊎ (id ∈ l)
  end_of l (here same) h = inl same
  end_of l (step e before of same) h = inr (h (omega arith))

  -- A node that some import leads to is stored, so its mark comes from a report.
  marked_reported :
      {old : List Text} {k : ℕ} {w : Walk}
      → Mid s start old k w
      → (id : Text) → id ∈ w.visited
      → (n : Node) × (get_node s id ≡ some n)
      → id ∈ ids w.result
  marked_reported m id i (n, row) = ⊎_elim (λ r. r) (λ absent. cc (row, absent)) (m.origin id i)

  IsTrue-weaken : (k m : ℕ) (n : Node) → k ≤ m → IsTrue s start k n → IsTrue s start m n
  IsTrue-weaken k m n le t = record {
    stored = t.stored;
    hops_away = t.hops_away;
    steps = t.steps;
    some_hops = t.some_hops;
    few_hops = omega (arith, t.few_hops);
  }

  stored_of_mem :
      {old : List Text} {k : ℕ} {w : Walk}
      → Mid s start old k w
      → (id : Text) → id ∈ ids w.result
      → (n : Node) × (get_node s id ≡ some n)
  stored_of_mem {w = w} m id i =
      let (n, j, same) = mem-map-cases (λ (n : Node). n.id) w.result id i in
      (n, ap (get_node s) same ∙ (m.sound n j).stored)

  hop-After :
      (k : ℕ) (w : Walk) (frontier : List Text)
      → After k w frontier
      → After (suc k) (hop s w frontier) (hop s w frontier).next
  unfolding hop
  hop-After k w frontier a =
      let m = a.mid in
      let begun : Mid s start w.visited (suc k) (record w { next = [] }) = record {
        origin = m.origin;
        report_marked = m.report_marked;
        once = m.once;
        sound = λ n i. IsTrue-weaken k (suc k) n (omega arith) (m.sound n i);
        next_steps = λ id i. absurd i;
        fresh = λ id i. inl i;
      } in
      let d = visit_frontier-Done s start frontier begun a.frontier_steps in
      let looked : (id : Text)
          → (id ∈ frontier) ⊎ IsClosed w id
          → IsClosed (visit_frontier s (record w { next = [] }) frontier) id =
        λ id. ⊎_elim (λ f e of. d.found e (id, f, of)) (λ c e of. d.grows e.target (c e of)) in
      record {
        mid = record {
          origin = d.mid.origin;
          report_marked = d.mid.report_marked;
          once = d.mid.once;
          sound = d.mid.sound;
          next_steps = d.mid.next_steps;
          fresh = λ id i. inl i;
        };
        frontier_steps = d.mid.next_steps;
        closed = λ id.
            ⊎_elim (λ same. inr (looked id (a.closed id (inl same))))
              (λ r.
                ⊎_elim
                  (λ old. inr (
                    looked id
                      (a.closed id (inr (marked_reported m id old (stored_of_mem d.mid id r))))))
                  (⊎_elim inl (λ absent. cc ((stored_of_mem d.mid id r).1, absent)))
                  (d.mid.fresh id (d.mid.report_marked id r)));
        reached = λ steps far le. at d looked steps far le;
      }
    where
      at :
          Done s start w.visited
            (suc k)
            (LookedAt s start frontier)
            (record w { next = [] })
            (visit_frontier s (record w { next = [] }) frontier)
          → ((id : Text)
              → (id ∈ frontier) ⊎ IsClosed w id
              → IsClosed (visit_frontier s (record w { next = [] }) frontier) id)
          → {id : Text} {n : ℕ} → Steps s start id n
          → 0 < n
          → n ≤ suc k
          → id ∈ ids (visit_frontier s (record w { next = [] }) frontier).result
      at d looked (here same) far le = absurd (omega arith)
      at d looked (step {id = importer} e before of same) far le =
          let known_importer =
            end_of (ids w.result) before (λ more. a.reached before more (omega arith)) in
          rw same (
            marked_reported d.mid e.target (looked importer (a.closed importer known_importer) e of)
              of.known)

  all_reached :
      (k : ℕ) (w : Walk)
      → After k w []
      → {id : Text} {n : ℕ} → Steps s start id n
      → 0 < n
      → id ∈ ids w.result
  all_reached k w a (here same) far = absurd (omega arith)
  all_reached k w a (step {id = importer} e before of same) far =
      let known_importer = end_of (ids w.result) before (all_reached k w a before) in
      rw same (
        marked_reported a.mid e.target
          (⊎_elim absurd (λ c. c e of) (a.closed importer known_importer)) of.known)

  -- What at most `m` hops report.
  pub record Reports (m : ℕ) (result : List Node) : Type 0 where
    pub sound : (n : Node) → n ∈ result → IsTrue s start m n
    pub complete : {id : Text} {n : ℕ} → Steps s start id n → 0 < n → n ≤ m → id ∈ ids result
    pub once : Distinct (ids result)

  hops-Reports :
      (depth k : ℕ) (w : Walk) (frontier : List Text)
      → After k w frontier
      → Reports (k + depth) (hops s depth w frontier).result
  unfolding hops
  hops-Reports zero k w frontier a = record {
    sound = λ n i. IsTrue-weaken k (k + 0) n (omega arith) (a.mid.sound n i);
    complete = λ steps far le. a.reached steps far (omega arith);
    once = a.mid.once;
  }
  hops-Reports (suc depth) k w frontier a =
      let w' = hop s w frontier in
      let a' = hop-After k w frontier a in
      elim (List-cases w'.next) [
        | inl empty ↦
            rw (empty, hops)
              (record {
                sound =
                    λ n i. IsTrue-weaken (suc k) (k + suc depth) n (omega arith) (a'.mid.sound n i);
                complete = λ steps far le.
                    all_reached (suc k) w' (subst (After (suc k) w') empty a') steps far;
                once = a'.mid.once;
              })
        | inr (id, rest, e) ↦
            rw (e, hops)
              (subst (λ m. Reports m (hops s depth w' w'.next).result) (omega arith)
                (hops-Reports depth (suc k) w' w'.next a'))
      ]

-- The walk reports exactly the stored nodes that at least one and at most `depth` imports lead to,
-- each id once; so it reports the start itself where the start lies on a cycle of imports.
pub walk_imports-Reports :
    (s : Store) (start : Node) (depth : ℕ) → Reports s start.id depth (walk_imports s start depth)
unfolding walk_imports
walk_imports-Reports s start depth =
    subst (λ m. Reports s start.id m (hops s depth fresh_walk_of (start.id ∷ [])).result)
      (omega arith)
      (hops-Reports s start.id depth 0 fresh_walk_of (start.id ∷ []) (record {
        mid = record {
          origin = λ id i. absurd i;
          report_marked = λ id i. absurd i;
          once = tt;
          sound = λ n i. absurd i;
          next_steps = λ id i. absurd i;
          fresh = λ id i. absurd i;
        };
        frontier_steps = λ id. ⊎_elim here absurd;
        closed = λ id. ⊎_elim (λ same. inl (inl same)) absurd;
        reached = λ steps far le. absurd (omega arith);
      }))
  where
    fresh_walk_of : Walk
    fresh_walk_of = fresh_walk s
