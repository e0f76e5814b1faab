-- ===== src/Deps/Traverse.antt =====
-- src/deps/traverse.rs: breadth-first traversal. `VecDeque` is a list with its front first.
-- The loop has fuel, `none` where it runs out; `Total` proves that the fuel given is enough.
pub mod Walk
mod Visit
mod Rounds
pub mod Total
pub mod Exact
pub mod Dual
mod Tests
use repolayer.Prelude.{
  ℕ, zero, suc, ◌+◌, Bool, true, false, ◌≡◌, Option, none, some, List, [], ◌∷◌, ◌++◌, map,
}
use repolayer.Prelude.Tests.{if◌then◌else◌, leb, ltb}
use repolayer.Prelude.Lists.{length, take}
use repolayer.Prelude.Dict.{Dict, lookup, or_default, contains}
use repolayer.Prelude.Text.{Text, FilePath, path_eq}
use repolayer.Deps.Graph.{DepEdge, DepGraph, ImportKind, bare, reverse_adjacency}

pub record DepHit : Type 0 where
  pub depth : ℕ
  pub file : FilePath
  pub kind : ImportKind
  pub line : ℕ
  pub local_name : Option Text

-- the variables of the loop in `bfs`
pub record Search : Type 0 where
  pub out : List DepHit
  pub seen : List FilePath
  pub q : List (FilePath × ℕ)

hit : ℕ → DepEdge → DepHit
hit depth e = record {
  depth = depth + 1;
  file = e.target;
  kind = e.kind;
  line = e.line;
  local_name = e.local_name;
}

-- `out.push(...)` and `q.push_back(...)`
push : ℕ → Search → DepEdge → Search
unfolding hit
push depth s e = record {
  out = s.out ++ hit depth e ∷ [];
  seen = e.target ∷ s.seen;
  q = s.q ++ (e.target, depth + 1) ∷ [];
}

-- the body of `for e in edges_at(&cur)`
offer : ℕ → Search → DepEdge → Search
unfolding push
offer depth s e = if contains s.seen e.target then s else push depth s e

pub offer_all : ℕ → Search → List DepEdge → Search
unfolding offer
offer_all depth s [] = s
offer_all depth s (e ∷ edges) = offer_all depth (offer depth s e) edges

module _ (edges_at : FilePath → List DepEdge) (max_depth : ℕ) where
  -- one round of `while let Some((cur, depth)) = q.pop_front()`, with `q` already popped
  pub expand : Search → FilePath → ℕ → Search
  unfolding offer_all
  expand s cur depth = if leb max_depth depth then s else offer_all depth s (edges_at cur)

  pub loop : ℕ → Search → Option Search
  unfolding expand
  loop zero s = elim s.q [ [] ↦ some s | _ ∷ _ ↦ none ]
  loop (suc fuel) s = elim s.q [
    | [] ↦ some s
    | item ∷ rest ↦ loop fuel (expand (record s { q = rest }) item.0 item.1)
  ]

abbrev pub begin : FilePath → Search
begin start = record { out = []; seen = start ∷ []; q = (start, 0) ∷ [] }

pub bfs : ℕ → FilePath → ℕ → (FilePath → List DepEdge) → Option (List DepHit)
unfolding loop
bfs fuel start max_depth edges_at = elim (loop edges_at max_depth fuel (begin start)) [
  | none ↦ none
  | some s ↦ some s.out
]

abbrev pub forward_edges : DepGraph → FilePath → List DepEdge
forward_edges g p = or_default [] (lookup p g.forward)

abbrev pub reverse_edge : FilePath → DepEdge
reverse_edge src = record {
  target = src;
  kind = bare;
  line = 0;
  local_name = none;
  raw_path = none;
}

abbrev pub reverse_edges : DepGraph → FilePath → List DepEdge
reverse_edges g p = map reverse_edge (or_default [] (lookup p (reverse_adjacency g)))

-- All targets of the rows of a map, the bound on what a search can find.
abbrev pub all_targets : {A : Type 0} → (A → FilePath) → Dict FilePath (List A) → List FilePath
all_targets f [] = []
all_targets f ((_, row) ∷ rest) = map f row ++ all_targets f rest

abbrev pub rounds : List FilePath → ℕ
rounds targets = length targets + 2

pub forward : DepGraph → FilePath → ℕ → Option (List DepHit)
unfolding bfs
forward g start max_depth =
    bfs (rounds (all_targets (λ e. e.target) g.forward)) start max_depth (forward_edges g)

-- `if all.len() > limit { all.truncate(limit); }`
truncate : ℕ → List DepHit → List DepHit
truncate limit all = if ltb limit (length all) then take limit all else all

pub reverse : DepGraph → FilePath → ℕ → ℕ → Option (List DepHit)
unfolding bfs truncate
reverse g start max_depth limit =
    elim (bfs (rounds (all_targets (λ p. p) (reverse_adjacency g))) start max_depth
      (reverse_edges g)) [ none ↦ none | some all ↦ some (truncate limit all) ]
