-- ===== src/Query/Callers/Hop.antt =====
-- A whole hop, and the hops of `walk_callers` one after the other.
use repolayer.Prelude.{
  ℕ, suc, ◌≤◌, ◌≡◌, refl, ◌∙◌, ◌⊎◌, inl, inr, ⊎_elim, some, List, [], ◌∷◌, arith,
}
use repolayer.Prelude.Tests.{nat_eq}
use repolayer.Prelude.Lists.{◌∈◌}
use repolayer.Prelude.Text.{Text, text_eq, path_eq}
use repolayer.Graph.Model.{Node, Edge, calls, edge_kind_eq}
use repolayer.Graph.Store.{Store, incoming_edges, get_node}
use repolayer.Query.Callers.{CallerChain, Walk, visit_edges, visit_targets, hop}
use repolayer.Query.Callers.Reach.{CallOf, Chain, start, call}
use repolayer.Query.Callers.Round.{ids, IsTrue, IsUnknown, Mid, Done, visit-Done}
use repolayer.Graph.Store.Edges.{mem-incoming_edges}

module _ (s : Store) (starts : List Node) where
  visit_edges-Done :
      {old : List Text} {k : ℕ} (edges : List Edge) {w : Walk} (target : Node)
      → Mid s starts old (suc k) w
      → Chain s starts target.id k
      → ((e : Edge) → e ∈ edges → (n : Node) → get_node s e.source ≡ some n → CallOf s target.id e)
      → Done s starts old (suc k) (λ e. e ∈ edges) w (visit_edges s target w edges)
  unfolding visit_edges
  visit_edges-Done [] target m chain of = record {
    mid = m;
    grows = λ id i. i;
    found = λ e i. absurd i;
  }
  visit_edges-Done (e ∷ edges) {w} target m chain of =
      let first = visit-Done s starts target e m chain (of e (inl refl)) in
      let rest = visit_edges-Done edges target first.mid chain (λ f i. of f (inr i)) in
      record {
        mid = rest.mid;
        grows = λ id i. rest.grows id (first.grows id i);
        found = λ f. ⊎_elim (λ same. rest.grows f.source (first.found f same)) (rest.found f);
      }

  visit_targets-Done :
      {old : List Text} {k : ℕ} (frontier : List Node) {w : Walk}
      → Mid s starts old (suc k) w
      → ((n : Node) → n ∈ frontier → Chain s starts n.id k)
      → Done s starts old
          (suc k)
          (λ e. (id : Text) × (id ∈ ids frontier) × CallOf s id e)
          w
          (visit_targets s w frontier)
  unfolding visit_targets
  visit_targets-Done [] m chain = record {
    mid = m;
    grows = λ id i. i;
    found = λ e (id, i, of). absurd i;
  }
  visit_targets-Done (target ∷ frontier) {w} m chain =
      let incoming = incoming_edges s target.id calls in
      let first = visit_edges-Done incoming target m (chain target (inl refl)) (λ e i n row.
        let (stored, is_call, callee) = (mem-incoming_edges s target.id calls e).0 i in
        record { stored = stored; is_call = is_call; callee = callee; known = (n, row) }) in
      let rest = visit_targets-Done frontier first.mid (λ n i. chain n (inr i)) in
      record {
        mid = rest.mid;
        grows = λ id i. rest.grows id (first.grows id i);
        found = λ e (id, i, of).
            ⊎_elim
              (λ same. rest.grows e.source (
                first.found e (
                  (mem-incoming_edges s target.id calls e).1
                    (of.stored, of.is_call, of.callee ∙ same))))
              (λ j. rest.found e (id, j, of)) i;
      }

  -- All callers with a row of the node `id` are marked.
  abbrev pub IsClosed : Walk → Text → Type 0
  IsClosed w id = (e : Edge) → CallOf s id e → e.source ∈ w.visited

  -- What holds after `k` hops, with `frontier` to be looked at next.
  pub record After (k : ℕ) (w : Walk) (frontier : List Node) : Type 0 where
    pub mid : Mid s starts w.visited k w
    pub frontier_chain : (n : Node) → n ∈ frontier → Chain s starts n.id k
    pub closed :
        (id : Text) → id ∈ w.visited → (id ∈ ids frontier) ⊎ (IsClosed w id ⊎ IsUnknown s starts id)
    pub reached : {id : Text} {n : ℕ} → Chain s starts id n → n ≤ k → id ∈ w.visited

  -- A node at the end of a chain is no unknown one.
  pub chain_known : {id : Text} {n : ℕ} → Chain s starts id n → ¬ (IsUnknown s starts id)
  chain_known (start i) u = u.1 i
  chain_known (call e ch of same) u = cc (of.known.1, u.0, same)

  IsTrue-later : (k : ℕ) (c : CallerChain) → IsTrue s starts k c → IsTrue s starts (suc k) c
  IsTrue-later k c t = record {
    edge = t.edge;
    call_of = t.call_of;
    caller = t.caller;
    rate = t.rate;
    hops_away = t.hops_away;
    chain = t.chain;
    some_hops = t.some_hops;
    few_hops = omega (arith, t.few_hops);
  }

  pub hop-After :
      (k : ℕ) (w : Walk) (frontier : List Node)
      → After k w frontier
      → After (suc k) (hop s w frontier) (hop s w frontier).next
  unfolding hop
  hop-After k w frontier a =
      let m = a.mid in
      let begun : Mid s starts w.visited (suc k) (record w { next = [] }) = record {
        origin = m.origin;
        start_marked = m.start_marked;
        report_marked = m.report_marked;
        once = m.once;
        apart = m.apart;
        next_chain = λ n i. absurd i;
        true_chains = λ c i. IsTrue-later k c (m.true_chains c i);
        fresh = λ id i. inl i;
      } in
      let d = visit_targets-Done frontier begun a.frontier_chain in
      record {
        mid = record {
          origin = d.mid.origin;
          start_marked = d.mid.start_marked;
          report_marked = d.mid.report_marked;
          once = d.mid.once;
          apart = d.mid.apart;
          next_chain = d.mid.next_chain;
          true_chains = d.mid.true_chains;
          fresh = λ id i. inl i;
        };
        frontier_chain = d.mid.next_chain;
        closed = λ id i.
            ⊎_elim
              (λ old.
                ⊎_elim (λ f. inr (inl (λ e of. d.found e (id, f, of))))
                  (⊎_elim (λ c. inr (inl (λ e of. d.grows e.source (c e of)))) (λ u. inr (inr u)))
                  (a.closed id old))
              (⊎_elim inl (λ u. inr (inr u))) (d.mid.fresh id i);
        reached = λ ch le. at ch le d;
      }
    where
      at :
          {id : Text} {n : ℕ}
          → Chain s starts id n
          → n ≤ suc k
          → Done s starts w.visited
              (suc k)
              (λ e. (id : Text) × (id ∈ ids frontier) × CallOf s id e)
              (record w { next = [] })
              (visit_targets s (record w { next = [] }) frontier)
          → id ∈ (visit_targets s (record w { next = [] }) frontier).visited
      at (start i) le d = d.mid.start_marked _ i
      at (call {id = callee} e ch of same) le d = rw same (
          ⊎_elim (λ f. d.found e (callee, f, of))
            (⊎_elim (λ c. d.grows e.source (c e of)) (λ u. absurd (chain_known ch u)))
            (a.closed callee (a.reached ch (omega arith))))
