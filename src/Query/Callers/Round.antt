-- ===== src/Query/Callers/Round.antt =====
-- One hop of `walk_callers`: what it reports and what it marks.
use mathlib.Core.List.{map-append}
use repolayer.Prelude.{
  ℕ, suc, ◌≤◌, ◌<◌, ◌≡◌, refl, sym, ap, ◌∙◌, ◌↔◌, ◌⊎◌, inl, inr, ⊎_elim, none, some, List, [], ◌∷◌,
  ◌++◌, map, arith,
}
use repolayer.Prelude.Tests.{Bool-cases, Option-cases, nat_eq}
use repolayer.Prelude.Lists.{◌∈◌, Distinct, Distinct-append, mem-append_one}
use repolayer.Prelude.Dict.{contains, contains_iff, not_mem_of_contains}
use repolayer.Prelude.Text.{Text, text_eq, path_eq}
use repolayer.Graph.Model.{Node, Edge, edge_kind_eq}
use repolayer.Graph.Store.{Store, get_node}
use repolayer.Graph.Store.Nodes.{find_node-some}
use repolayer.Query.Callers.{CallerChain, Walk, report, visit}
use repolayer.Query.Callers.Reach.{CallOf, Chain, call}

abbrev pub ids : List Node → List Text
ids = map (λ n. n.id)

abbrev pub reported : List CallerChain → List Text
reported = map (λ c. c.caller.id)

-- What a reported chain says: its caller calls its target, and reaches a start.
pub record IsTrue (s : Store) (starts : List Node) (k : ℕ) (c : CallerChain) : Type 0 where
  pub edge : Edge
  pub call_of : CallOf s c.target.id edge
  pub caller : c.caller.id ≡ edge.source
  pub rate : c.confidence ≡ edge.confidence
  pub hops_away : ℕ
  pub chain : Chain s starts c.caller.id hops_away
  pub some_hops : 0 < hops_away
  pub few_hops : hops_away ≤ k

module _ (s : Store) (starts : List Node) where
  -- no row, and no start either
  abbrev pub IsUnknown : Text → Type 0
  IsUnknown id = (get_node s id ≡ none) × (¬ (id ∈ ids starts))

  -- What holds during the hop `k`, which began with the marks `old`.
  pub record Mid (old : List Text) (k : ℕ) (w : Walk) : Type 0 where
    pub origin :
        (id : Text) → id ∈ w.visited → (id ∈ ids starts) ⊎ ((id ∈ reported w.result) ⊎ IsUnknown id)
    pub start_marked : (id : Text) → id ∈ ids starts → id ∈ w.visited
    pub report_marked : (id : Text) → id ∈ reported w.result → id ∈ w.visited
    pub once : Distinct (reported w.result)
    pub apart : (id : Text) → id ∈ reported w.result → ¬ (id ∈ ids starts)
    pub next_chain : (n : Node) → n ∈ w.next → Chain s starts n.id k
    pub true_chains : (c : CallerChain) → c ∈ w.result → IsTrue s starts k c
    pub fresh : (id : Text) → id ∈ w.visited → (id ∈ old) ⊎ ((id ∈ ids w.next) ⊎ IsUnknown id)

  mem-map-append_one :
      {A : Type 0} (f : A → Text) (l : List A) (x : A) (id : Text)
      → (id ∈ map f (l ++ x ∷ [])) ↔ ((id ∈ map f l) ⊎ (id ≡ f x))
  mem-map-append_one f l x id = rw map-append (mem-append_one id (f x) (map f l))

  -- An unmarked caller without a row is marked only.
  mark-Mid :
      {old : List Text} {k : ℕ} {w : Walk} (e : Edge)
      → Mid old k w
      → ¬ (e.source ∈ w.visited)
      → get_node s e.source ≡ none
      → Mid old k (record w { visited = e.source ∷ w.visited })
  mark-Mid {w = w} e m unmarked row = record {
    origin = λ id. ⊎_elim (λ same. inr (inr (unknown id same))) (m.origin id);
    start_marked = λ id i. inr (m.start_marked id i);
    report_marked = λ id i. inr (m.report_marked id i);
    once = m.once;
    apart = m.apart;
    next_chain = m.next_chain;
    true_chains = m.true_chains;
    fresh = λ id. ⊎_elim (λ same. inr (inr (unknown id same))) (m.fresh id);
  }
    where
      unknown : (id : Text) → id ≡ e.source → IsUnknown id
      unknown id same = rw same (row, λ i. unmarked (m.start_marked e.source i))

  -- An unmarked caller with a row is reported, and is one of the next targets.
  report-Mid :
      {old : List Text} {k : ℕ} {w : Walk} (target caller : Node) (e : Edge)
      → Mid old (suc k) w
      → ¬ (e.source ∈ w.visited)
      → get_node s e.source ≡ some caller
      → CallOf s target.id e
      → Chain s starts target.id k
      → Mid old
          (suc k)
          (report (some caller) target e (record w { visited = e.source ∷ w.visited }))
  unfolding report get_node
  report-Mid {old} {k} {w} target caller e m unmarked row of chain =
      let is_source : caller.id ≡ e.source = (find_node-some e.source s.nodes caller row).1 in
      let new : CallerChain = record {
        caller = caller;
        target = target;
        confidence = e.confidence;
      } in
      let caller_chain : Chain s starts caller.id (suc k) = call e chain of is_source in
      let in_result = λ (id : Text). mem-map-append_one (λ c. c.caller.id) w.result new id in
      let in_next = λ (id : Text). mem-map-append_one (λ n. n.id) w.next caller id in
      record {
        origin = λ id.
            ⊎_elim (λ same. inr (inl ((in_result id).1 (inr (same ∙ sym is_source)))))
              (λ i.
                ⊎_elim inl (⊎_elim (λ r. inr (inl ((in_result id).1 (inl r)))) (λ u. inr (inr u)))
                  (m.origin id i));
        start_marked = λ id i. inr (m.start_marked id i);
        report_marked = λ id i.
            ⊎_elim (λ r. inr (m.report_marked id r)) (λ same. inl (same ∙ is_source))
              ((in_result id).0 i);
        once = rw map-append (
            Distinct-append (reported w.result) (caller.id ∷ []) m.once ((λ h. h), tt)
              (λ id i.
                ⊎_elim (λ same. unmarked (rw (← is_source, ← same) (m.report_marked id i)))
                  absurd));
        apart = λ id i.
            ⊎_elim (m.apart id)
              (λ same j. unmarked (m.start_marked e.source (rw (← is_source, ← same) j)))
              ((in_result id).0 i);
        next_chain = λ n i.
            ⊎_elim (m.next_chain n) (λ same. rw same caller_chain)
              ((mem-append_one n caller w.next).0 i);
        true_chains = λ c i.
            ⊎_elim (m.true_chains c)
              (λ same. rw same (record {
                edge = e;
                call_of = of;
                caller = is_source;
                rate = refl;
                hops_away = suc k;
                chain = caller_chain;
                some_hops = omega arith;
                few_hops = omega arith;
              }))
              ((mem-append_one c new w.result).0 i);
        fresh = λ id.
            ⊎_elim (λ same. inr (inl ((in_next id).1 (inr (same ∙ sym is_source)))))
              (λ i.
                ⊎_elim inl (⊎_elim (λ r. inr (inl ((in_next id).1 (inl r)))) (λ u. inr (inr u)))
                  (m.fresh id i));
      }

  -- What a part of a hop leaves: the invariant, all marks, and marks for the callers it looked at.
  pub record Done (old : List Text) (k : ℕ) (Looked : Edge → Type 0) (w w' : Walk) : Type 0 where
    pub mid : Mid old k w'
    pub grows : (id : Text) → id ∈ w.visited → id ∈ w'.visited
    pub found : (e : Edge) → Looked e → e.source ∈ w'.visited

  pub visit-Done :
      {old : List Text} {k : ℕ} {w : Walk} (target : Node) (e : Edge)
      → Mid old (suc k) w
      → Chain s starts target.id k
      → ((n : Node) → get_node s e.source ≡ some n → CallOf s target.id e)
      → Done old (suc k) (λ f. f ≡ e) w (visit s target w e)
  unfolding visit report
  visit-Done {old} {k} {w} target e m chain of = elim (Bool-cases (contains w.visited e.source)) [
    | inl marked ↦ rw marked (record {
      mid = m;
      grows = λ id i. i;
      found = λ f same. rw same ((contains_iff w.visited e.source).0 marked);
    })
    | inr unmarked ↦ rw unmarked (elim (Option-cases (get_node s e.source)) [
      | inl row ↦ rw row (record {
        mid = mark-Mid e m (not_mem_of_contains w.visited e.source unmarked) row;
        grows = λ id i. inr i;
        found = λ f same. inl (ap (λ g. g.source) same);
      })
      | inr (caller, row) ↦ rw row (record {
        mid =
            report-Mid target caller e m (not_mem_of_contains w.visited e.source unmarked) row
              (of caller row) chain;
        grows = λ id i. inr i;
        found = λ f same. inl (ap (λ g. g.source) same);
      })
    ])
  ]
