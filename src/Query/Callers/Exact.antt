-- ===== src/Query/Callers/Exact.antt =====
-- `walk_callers` against the chains of calls in the graph.
use repolayer.Prelude.{ℕ, zero, suc, ◌+◌, ◌≤◌, subst, ◌⊎◌, inl, inr, ⊎_elim, List, [], ◌∷◌, arith}
use repolayer.Prelude.Tests.{nat_eq}
use repolayer.Prelude.Lists.{◌∈◌, Distinct, List-cases, mem-map}
use repolayer.Prelude.Text.{Text, text_eq, path_eq}
use repolayer.Graph.Model.{Node}
use repolayer.Graph.Store.{Store}
use repolayer.Query.Callers.{CallerChain, Walk, hop, hops, begin, walk_callers}
use repolayer.Query.Callers.Reach.{Chain, start, call}
use repolayer.Query.Callers.Round.{ids, reported, IsTrue}
use repolayer.Query.Callers.Hop.{After, hop-After, chain_known}

module _ (s : Store) (starts : List Node) where
  IsTrue-weaken : (k m : ℕ) (c : CallerChain) → k ≤ m → IsTrue s starts k c → IsTrue s starts m c
  IsTrue-weaken k m c le t = record {
    edge = t.edge;
    call_of = t.call_of;
    caller = t.caller;
    rate = t.rate;
    hops_away = t.hops_away;
    chain = t.chain;
    some_hops = t.some_hops;
    few_hops = omega (arith, t.few_hops);
  }

  -- What `m` hops report.
  pub record Reports (m : ℕ) (chains : List CallerChain) : Type 0 where
    pub sound : (c : CallerChain) → c ∈ chains → IsTrue s starts m c
    pub complete :
        {id : Text} {n : ℕ}
        → Chain s starts id n
        → n ≤ m
        → (id ∈ ids starts) ⊎ (id ∈ reported chains)
    pub once : Distinct (reported chains)
    pub no_start : (id : Text) → id ∈ reported chains → ¬ (id ∈ ids starts)

  After-begin : After s starts 0 (begin s starts) starts
  After-begin = record {
    mid = record {
      origin = λ id i. inl i;
      start_marked = λ id i. i;
      report_marked = λ id i. absurd i;
      once = tt;
      apart = λ id i. absurd i;
      next_chain = λ n i. absurd i;
      true_chains = λ c i. absurd i;
      fresh = λ id i. inl i;
    };
    frontier_chain = λ n i. start (mem-map (λ m. m.id) starts n i);
    closed = λ id i. inl i;
    reached = λ ch le. first ch le;
  }
    where
      first : {id : Text} {n : ℕ} → Chain s starts id n → n ≤ 0 → id ∈ ids starts
      first (start i) le = i
      first (call e ch of same) le = absurd (omega arith)

  -- With nobody left to look at, every chain is marked.
  all_reached :
      (k : ℕ) (w : Walk)
      → After s starts k w []
      → {id : Text} {n : ℕ} → Chain s starts id n
      → id ∈ w.visited
  all_reached k w a (start i) = a.mid.start_marked _ i
  all_reached k w a (call {id = callee} e ch of same) = rw same (
      ⊎_elim absurd (⊎_elim (λ c. c e of) (λ u. absurd (chain_known s starts ch u)))
        (a.closed callee (all_reached k w a ch)))

  After-Reports :
      (k m : ℕ) (w : Walk) (frontier : List Node)
      → After s starts k w frontier
      → k ≤ m
      → ((id : Text) (n : ℕ) → Chain s starts id n → n ≤ m → id ∈ w.visited)
      → Reports m w.result
  After-Reports k m w frontier a le reach = record {
    sound = λ c i. IsTrue-weaken k m c le (a.mid.true_chains c i);
    complete = λ {id} {n} ch few.
        ⊎_elim inl (⊎_elim inr (λ u. absurd (chain_known s starts ch u)))
          (a.mid.origin id (reach id n ch few));
    once = a.mid.once;
    no_start = a.mid.apart;
  }

  hops-Reports :
      (depth k : ℕ) (w : Walk) (frontier : List Node)
      → After s starts k w frontier
      → Reports (k + depth) (hops s depth w frontier).result
  unfolding hops
  hops-Reports zero k w frontier a =
      After-Reports k (k + 0) w frontier a (omega arith) (λ id n ch le. a.reached ch (omega arith))
  hops-Reports (suc depth) k w frontier a =
      let w' = hop s w frontier in
      let a' = hop-After s starts k w frontier a in
      elim (List-cases w'.next) [
        | inl empty ↦
            rw (empty, hops)
              (After-Reports (suc k) (k + suc depth) w' w'.next a' (omega arith) (λ id n ch le.
                all_reached (suc k) w' (subst (After s starts (suc k) w') empty a') ch))
        | inr (n, rest, e) ↦
            rw (e, hops)
              (subst (λ m. Reports m (hops s depth w' w'.next).result) (omega arith)
                (hops-Reports depth (suc k) w' w'.next a'))
      ]

-- From at least one start, `walk_callers` reports exactly the nodes, the starts excepted, from which
-- at least one and at most `depth` calls lead to a start, each node once; and each reported caller
-- has a stored call of the reported target, with that edge's confidence.
pub walk_callers-Reports :
    (s : Store) (first : Node) (rest : List Node) (depth : ℕ)
    → Reports s (first ∷ rest) depth (walk_callers s (first ∷ rest) depth)
unfolding walk_callers
walk_callers-Reports s first rest zero =
    subst (λ m. Reports s (first ∷ rest) m []) (omega arith)
      (hops-Reports s (first ∷ rest) 0 0 (begin s (first ∷ rest)) (first ∷ rest)
        (After-begin s (first ∷ rest)))
walk_callers-Reports s first rest (suc depth) =
    subst
      (λ m.
        Reports s (first ∷ rest) m
          (hops s (suc depth) (begin s (first ∷ rest)) (first ∷ rest)).result)
      (omega arith)
      (hops-Reports s (first ∷ rest) (suc depth) 0 (begin s (first ∷ rest)) (first ∷ rest)
        (After-begin s (first ∷ rest)))
