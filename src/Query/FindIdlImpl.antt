-- ===== src/Query/FindIdlImpl.antt =====
-- src/query/find_idl_impl.rs: the implementations and the invocations of an interface method.
pub mod Exact
mod Tests
use repolayer.Prelude.{
  ℕ, zero, suc, ◌+◌, ◌-◌, ◌*◌, ◌/◌, ◌%◌, ◌^◌, ◌≤◌, ◌<◌, min, max, ◌≡◌, refl, sym, ap, ◌∙◌, subst,
  ◌≢◌, ◌↔◌, ◌⊎◌, inl, inr, ⊎_elim, Bool, true, false, not, ◌&&◌, ◌||◌, Option, none, some, List, [],
  ◌∷◌, ◌++◌, map, arith,
}
use repolayer.Prelude.Tests.{
  ltb, leb, nat_beq, if◌then◌else◌, nat_beq_iff, Bool-cases, Option-cases, PartialEq, ◌==◌, nat_eq,
  beq-cases, beq_refl, beq_of_ne,
}
use repolayer.Prelude.Lists.{
  length, get_elem?, get_or, set, take, drop, replicate, ◌∈◌, All, Distinct,
}
use repolayer.Prelude.Dict.{Dict, contains, lookup, insert, update, keys, or_default}
use repolayer.Prelude.Text.{
  Text, FilePath, bytes, text_eq, path_eq, text_beq_iff, path_beq_iff, starts_with,
}
use repolayer.Graph.Model.{Confidence, Node, Edge, implements, EdgeKind, invokes}
use repolayer.Graph.Store.{Store, find_idl_methods_by_name, get_node, incoming_edges}
use repolayer.Prelude.Sort.{sort_by}

pub record FindIdlImplArgs : Type 0 where
  pub method : Text
  pub service : Option Text
  pub include_invokes : Bool
  pub include_implements : Bool

pub record IdlMethodInfo : Type 0 where
  pub repo : Text
  pub path : Text
  pub symbol : Text
  pub line : Option ℕ

pub record ImplLocation : Type 0 where
  pub repo : Text
  pub path : Text
  pub symbol : Option Text
  pub confidence : Confidence

-- without the version of the JSON schema
pub record FindIdlImplResult : Type 0 where
  pub method : Option IdlMethodInfo
  pub implements : List ImplLocation
  pub invokes : List ImplLocation

abbrev pub method_info : Node → IdlMethodInfo
method_info n = record {
  repo = n.repo;
  path = n.path;
  symbol = or_default [] n.symbol;
  line = n.loc_start;
}

abbrev pub location : Node → Edge → ImplLocation
location n e = record { repo = n.repo; path = n.path; symbol = n.symbol; confidence = e.confidence }

-- `b.confidence.partial_cmp(&a.confidence)` is not `Greater`
abbrev pub more_confident : ImplLocation → ImplLocation → Bool
more_confident a b = leb b.confidence a.confidence

module _ (s : Store) where
  -- the loop over the inbound edges
  unfoldable pub locations : List Edge → List ImplLocation
  unfolding get_node
  locations [] = []
  locations (e ∷ edges) =
      let rest = locations edges in
      elim (get_node s e.source) [ none ↦ rest | some n ↦ location n e ∷ rest ]

  -- `if args.include_...`, then the sort
  unfoldable pub gather : Bool → Text → EdgeKind → List ImplLocation
  unfolding locations incoming_edges sort_by
  gather wanted id kind =
      sort_by more_confident (if wanted then locations (incoming_edges s id kind) else [])

  unfoldable pub find_idl_impl : (like : Text → Text → Bool) → FindIdlImplArgs → FindIdlImplResult
  unfolding gather find_idl_methods_by_name
  find_idl_impl like args = elim (find_idl_methods_by_name like s args.method args.service) [
    | [] ↦ record { method = none; implements = []; invokes = [] }
    | n ∷ _ ↦ record {
      method = some (method_info n);
      implements = gather args.include_implements n.id implements;
      invokes = gather args.include_invokes n.id invokes;
    }
  ]
