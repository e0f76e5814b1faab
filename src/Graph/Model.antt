-- ===== src/Graph/Model.antt =====
-- src/graph/model.rs: nodes, edges and node ids.
pub mod Identity
use repolayer.Prelude.{
  ℕ, zero, suc, ◌+◌, ◌-◌, ◌*◌, ◌/◌, ◌%◌, ◌^◌, ◌≤◌, ◌<◌, min, max, ◌≡◌, refl, sym, ap, ◌∙◌, subst,
  ◌≢◌, ◌↔◌, ◌⊎◌, inl, inr, ⊎_elim, Bool, true, false, not, ◌&&◌, ◌||◌, Option, none, some, List, [],
  ◌∷◌, ◌++◌, map, arith,
}
use repolayer.Prelude.Tests.{
  ltb, leb, nat_beq, if◌then◌else◌, nat_beq_iff, Bool-cases, Option-cases, PartialEq, ◌==◌, nat_eq,
  beq-cases, beq_refl, beq_of_ne,
}
use repolayer.Prelude.Lists.{
  length, get_elem?, get_or, set, take, drop, replicate, ◌∈◌, All, Distinct,
}
use repolayer.Prelude.Dict.{Dict, contains, lookup, insert, update, keys, or_default}
use repolayer.Prelude.Text.{
  Text, FilePath, bytes, text_eq, path_eq, text_beq_iff, path_beq_iff, starts_with,
}

pub data NodeKind : Type 0 where
  repo_node module_node type_node method function idl_service idl_method : NodeKind

pub data EdgeKind : Type 0 where
  contains_edge imports calls implements invokes defines extends : EdgeKind

-- Confidences in hundredths: the program uses 1.0, 0.9, 0.7, 0.4 and halves of the last two.
abbrev pub Confidence : Type 0
Confidence = ℕ

pub record Node : Type 0 where
  pub id : Text
  pub kind : NodeKind
  pub repo : Text
  pub path : Text
  pub symbol : Option Text
  pub summary : Option Text
  pub visibility : Option Text
  pub native_kind : Option Text
  pub loc_start : Option ℕ
  pub loc_end : Option ℕ
  pub deprecated : Bool

pub record Edge : Type 0 where
  pub source : Text
  pub target : Text
  pub kind : EdgeKind
  pub confidence : Confidence

abbrev pub default_confidence : Confidence
default_confidence = 100

unfoldable pub id_tag : NodeKind → Text
id_tag repo_node = bytes "repo"
id_tag module_node = bytes "module"
id_tag type_node = bytes "type"
id_tag method = bytes "method"
id_tag function = bytes "function"
id_tag idl_service = bytes "idlservice"
id_tag idl_method = bytes "idlmethod"

-- The bytes that `compute_id` feeds to the hash, in order.
unfoldable pub id_input : NodeKind → Text → Text → Option Text → Text
unfolding id_tag
id_input kind repo path symbol =
    id_tag kind ++ (0 ∷ (repo ++ (0 ∷ (path ++ (0 ∷ or_default [] symbol)))))

-- `digest` is SHA-256 with the hexadecimal form of its first 16 bytes.
module _ (digest : Text → Text) where
  unfoldable pub compute_id : NodeKind → Text → Text → Option Text → Text
  unfolding id_input
  compute_id kind repo path symbol = digest (id_input kind repo path symbol)

  unfoldable pub new_node : NodeKind → Text → Text → Option Text → Node
  unfolding compute_id
  new_node kind repo path symbol = record {
    id = compute_id kind repo path symbol;
    kind = kind;
    repo = repo;
    path = path;
    symbol = symbol;
    summary = none;
    visibility = none;
    native_kind = none;
    loc_start = none;
    loc_end = none;
    deprecated = false;
  }

unfoldable pub edge_kind_beq : EdgeKind → EdgeKind → Bool
edge_kind_beq contains_edge contains_edge = true
edge_kind_beq imports imports = true
edge_kind_beq calls calls = true
edge_kind_beq implements implements = true
edge_kind_beq invokes invokes = true
edge_kind_beq defines defines = true
edge_kind_beq extends extends = true
edge_kind_beq _ _ = false

pub edge_kind_beq_iff : (a b : EdgeKind) → (edge_kind_beq a b ≡ true) ↔ (a ≡ b)
unfolding edge_kind_beq
edge_kind_beq_iff a b = ground arith

instance abbrev pub edge_kind_eq : PartialEq EdgeKind
edge_kind_eq = record { eq = edge_kind_beq; eq_iff = edge_kind_beq_iff }

unfoldable pub node_kind_beq : NodeKind → NodeKind → Bool
node_kind_beq repo_node repo_node = true
node_kind_beq module_node module_node = true
node_kind_beq type_node type_node = true
node_kind_beq method method = true
node_kind_beq function function = true
node_kind_beq idl_service idl_service = true
node_kind_beq idl_method idl_method = true
node_kind_beq _ _ = false

pub node_kind_beq_iff : (a b : NodeKind) → (node_kind_beq a b ≡ true) ↔ (a ≡ b)
unfolding node_kind_beq
node_kind_beq_iff a b = ground arith

instance abbrev pub node_kind_eq : PartialEq NodeKind
node_kind_eq = record { eq = node_kind_beq; eq_iff = node_kind_beq_iff }
