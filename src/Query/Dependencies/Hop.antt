-- ===== src/Query/Dependencies/Hop.antt =====
-- One hop of `get_dependencies`: what it reports and what it marks.
use repolayer.Prelude.{
  ℕ, suc, ◌≤◌, ◌<◌, ◌≡◌, refl, sym, ap, ◌∙◌, ◌↔◌, ◌⊎◌, inl, inr, ⊎_elim, none, some, List, [], ◌∷◌,
  ◌++◌, map, arith,
}
use repolayer.Prelude.Tests.{Bool-cases, Option-cases, nat_eq}
use repolayer.Prelude.Lists.{◌∈◌, Distinct, mem-append_one, Distinct-append}
use repolayer.Prelude.Dict.{contains, contains_iff, not_mem_of_contains}
use repolayer.Prelude.Text.{Text, text_eq, path_eq}
use repolayer.Graph.Model.{Node, Edge, imports}
use repolayer.Graph.Store.{Store, get_node, outgoing_edges}
use repolayer.Query.Dependencies.{Walk, report, visit, visit_edges, visit_frontier}
use repolayer.Query.Dependencies.Steps.{ImportOf, Steps, step}
use repolayer.Graph.Store.Nodes.{find_node-some}
use mathlib.Core.List.{map-append}
use repolayer.Graph.Store.Edges.{mem-outgoing_edges}

abbrev pub ids : List Node → List Text
ids = map (λ (n : Node). n.id)

module _ (s : Store) (start : Text) where
  -- a stored node that at least one and at most `k` imports lead to
  pub record IsTrue (k : ℕ) (n : Node) : Type 0 where
    pub stored : get_node s n.id ≡ some n
    pub hops_away : ℕ
    pub steps : Steps s start n.id hops_away
    pub some_hops : 0 < hops_away
    pub few_hops : hops_away ≤ k

  -- What holds during the hop `k`, which began with the marks `old`.
  pub record Mid (old : List Text) (k : ℕ) (w : Walk) : Type 0 where
    pub origin : (id : Text) → id ∈ w.visited → (id ∈ ids w.result) ⊎ (get_node s id ≡ none)
    pub report_marked : (id : Text) → id ∈ ids w.result → id ∈ w.visited
    pub once : Distinct (ids w.result)
    pub sound : (n : Node) → n ∈ w.result → IsTrue k n
    pub next_steps : (id : Text) → id ∈ w.next → Steps s start id k
    pub fresh : (id : Text) → id ∈ w.visited → (id ∈ old) ⊎ ((id ∈ w.next) ⊎ (get_node s id ≡ none))

  -- What a part of a hop leaves: the invariant, all marks, and marks for the imports it looked at.
  pub record Done (old : List Text) (k : ℕ) (Looked : Edge → Type 0) (w w' : Walk) : Type 0 where
    pub mid : Mid old k w'
    pub grows : (id : Text) → id ∈ w.visited → id ∈ w'.visited
    pub found : (e : Edge) → Looked e → e.target ∈ w'.visited

  mark-Mid :
      {old : List Text} {k : ℕ} {w : Walk} (e : Edge)
      → Mid old k w
      → get_node s e.target ≡ none
      → Mid old k (record w { visited = e.target ∷ w.visited })
  mark-Mid e m row = record {
    origin = λ id. ⊎_elim (λ same. inr (rw same row)) (m.origin id);
    report_marked = λ id i. inr (m.report_marked id i);
    once = m.once;
    sound = m.sound;
    next_steps = m.next_steps;
    fresh = λ id. ⊎_elim (λ same. inr (inr (rw same row))) (m.fresh id);
  }

  report-Mid :
      {old : List Text} {k : ℕ} {w : Walk} {id : Text} (n : Node) (e : Edge)
      → Mid old (suc k) w
      → ¬ (e.target ∈ w.visited)
      → get_node s e.target ≡ some n
      → ImportOf s id e
      → Steps s start id k
      → Mid old (suc k) (report (some n) e (record w { visited = e.target ∷ w.visited }))
  unfolding report get_node
  report-Mid {old} {k} {w} {id} n e m unmarked row of steps =
      let is_target : n.id ≡ e.target = (find_node-some e.target s.nodes n row).1 in
      let n_steps : Steps s start n.id (suc k) = step e steps of is_target in
      let in_ids : (j : Text) → (j ∈ ids (w.result ++ n ∷ [])) ↔ ((j ∈ ids w.result) ⊎ (j ≡ n.id)) =
        λ j. rw map-append (mem-append_one j n.id (ids w.result)) in
      record {
        origin = λ j.
            ⊎_elim (λ same. inl ((in_ids j).1 (inr (same ∙ sym is_target))))
              (λ i. ⊎_elim (λ r. inl ((in_ids j).1 (inl r))) inr (m.origin j i));
        report_marked = λ j i.
            ⊎_elim (λ r. inr (m.report_marked j r)) (λ same. inl (same ∙ is_target))
              ((in_ids j).0 i);
        once = rw map-append (
            Distinct-append (ids w.result) (n.id ∷ []) m.once ((λ h. h), tt)
              (λ j i.
                ⊎_elim (λ same. unmarked (rw (← is_target, ← same) (m.report_marked j i))) absurd));
        sound = λ c i.
            ⊎_elim (m.sound c)
              (λ same. rw same (record {
                stored = ap (get_node s) is_target ∙ row;
                hops_away = suc k;
                steps = n_steps;
                some_hops = omega arith;
                few_hops = omega arith;
              }))
              ((mem-append_one c n w.result).0 i);
        next_steps = λ j i.
            ⊎_elim (m.next_steps j) (λ same. step e steps of same)
              ((mem-append_one j e.target w.next).0 i);
        fresh = λ j.
            ⊎_elim (λ same. inr (inl ((mem-append_one j e.target w.next).1 (inr same))))
              (λ i.
                ⊎_elim inl
                  (⊎_elim (λ r. inr (inl ((mem-append_one j e.target w.next).1 (inl r))))
                    (λ u. inr (inr u)))
                  (m.fresh j i));
      }

  visit-Done :
      {old : List Text} {k : ℕ} {w : Walk} {id : Text} (e : Edge)
      → Mid old (suc k) w
      → Steps s start id k
      → ((n : Node) → get_node s e.target ≡ some n → ImportOf s id e)
      → Done old (suc k) (λ f. f ≡ e) w (visit s w e)
  unfolding visit report
  visit-Done {old} {k} {w} e m steps of = elim (Bool-cases (contains w.visited e.target)) [
    | inl marked ↦ rw marked (record {
      mid = m;
      grows = λ id i. i;
      found = λ f same. rw same ((contains_iff w.visited e.target).0 marked);
    })
    | inr unmarked ↦ rw unmarked (elim (Option-cases (get_node s e.target)) [
      | inl row ↦ rw row (record {
        mid = mark-Mid e m row;
        grows = λ id i. inr i;
        found = λ f same. inl (ap (λ (g : Edge). g.target) same);
      })
      | inr (n, row) ↦ rw row (record {
        mid =
            report-Mid n e m (not_mem_of_contains w.visited e.target unmarked) row (of n row) steps;
        grows = λ id i. inr i;
        found = λ f same. inl (ap (λ (g : Edge). g.target) same);
      })
    ])
  ]

  visit_edges-Done :
      {old : List Text} {k : ℕ} {id : Text} (edges : List Edge) {w : Walk}
      → Mid old (suc k) w
      → Steps s start id k
      → ((e : Edge) → e ∈ edges → (n : Node) → get_node s e.target ≡ some n → ImportOf s id e)
      → Done old (suc k) (λ e. e ∈ edges) w (visit_edges s w edges)
  unfolding visit_edges
  visit_edges-Done [] m steps of = record { mid = m; grows = λ id i. i; found = λ e i. absurd i }
  visit_edges-Done (f ∷ edges) m steps of =
      let first = visit-Done f m steps (of f (inl refl)) in
      let rest = visit_edges-Done edges first.mid steps (λ e i. of e (inr i)) in
      record {
        mid = rest.mid;
        grows = λ id i. rest.grows id (first.grows id i);
        found = λ e. ⊎_elim (λ same. rest.grows e.target (first.found e same)) (rest.found e);
      }

  -- an import of one of the modules looked at
  abbrev pub LookedAt : List Text → Edge → Type 0
  LookedAt frontier e = (id : Text) × (id ∈ frontier) × ImportOf s id e

  pub visit_frontier-Done :
      {old : List Text} {k : ℕ} (frontier : List Text) {w : Walk}
      → Mid old (suc k) w
      → ((id : Text) → id ∈ frontier → Steps s start id k)
      → Done old (suc k) (LookedAt frontier) w (visit_frontier s w frontier)
  unfolding visit_frontier
  visit_frontier-Done [] m steps = record {
    mid = m;
    grows = λ id i. i;
    found = λ e (id, i, of). absurd i;
  }
  visit_frontier-Done (id ∷ frontier) m steps =
      let first =
        visit_edges-Done (outgoing_edges s id imports) m (steps id (inl refl)) (λ e i n row.
          let (stored, is_import, importer) = (mem-outgoing_edges s id imports e).0 i in
          record {
            stored = stored;
            is_import = is_import;
            importer = importer;
            known = (n, row);
          }) in
      let rest = visit_frontier-Done frontier first.mid (λ j i. steps j (inr i)) in
      record {
        mid = rest.mid;
        grows = λ j i. rest.grows j (first.grows j i);
        found = λ e (j, i, of).
            ⊎_elim
              (λ same. rest.grows e.target (
                first.found e (
                  (mem-outgoing_edges s id imports e).1
                    (of.stored, of.is_import, of.importer ∙ same))))
              (λ l. rest.found e (j, l, of)) i;
      }
