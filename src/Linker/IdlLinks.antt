-- ===== src/Linker/IdlLinks.antt =====
-- src/linker/idl_links.rs: edges from a file to the interface methods that it implements or invokes.
-- The parameters are those of the call linker, and `to_lowercase`.
mod Hits
pub mod Rules
pub mod Methods
pub mod Scans
pub mod Worth
pub mod Exact
mod Tests
-- `qualified.split('.').next_back()`
use repolayer.Prelude.{
  ℕ, zero, suc, ◌+◌, ◌-◌, ◌*◌, ◌/◌, ◌%◌, ◌^◌, ◌≤◌, ◌<◌, min, max, ◌≡◌, refl, sym, ap, ◌∙◌, subst,
  ◌≢◌, ◌↔◌, ◌⊎◌, inl, inr, ⊎_elim, Bool, true, false, not, ◌&&◌, ◌||◌, Option, none, some, List, [],
  ◌∷◌, ◌++◌, map, arith,
}
use repolayer.Prelude.Tests.{
  ltb, leb, nat_beq, if◌then◌else◌, nat_beq_iff, Bool-cases, Option-cases, PartialEq, ◌==◌, nat_eq,
  beq-cases, beq_refl, beq_of_ne,
}
use repolayer.Prelude.Lists.{
  length, get_elem?, get_or, set, take, drop, replicate, ◌∈◌, All, Distinct,
}
use repolayer.Prelude.Dict.{Dict, contains, lookup, insert, update, keys, or_default}
use repolayer.Prelude.Text.{
  Text, FilePath, bytes, text_eq, path_eq, text_beq_iff, path_beq_iff, contains_text,
}
use repolayer.Deps.Resolver.Keys.{is_any, rsplit_once}
use repolayer.Graph.Store.{list_nodes_by_kind, Store}
use repolayer.Linker.Names.{index_names, ids_of, collect_hits}
use repolayer.Deps.Resolver.Paths.{file_name, extension_of}
use repolayer.Graph.Model.{
  Confidence, EdgeKind, Edge, implements, new_node, Node, invokes, module_node, idl_method,
}
use repolayer.Linker.Calls.{SourceFile, is_noise_name}
use repolayer.Linker.ImportsToRepo.{relpath}
use repolayer.Prelude.Rows.{flat_map}
use repolayer.Linker.Upserts.{upsert_all}

abbrev pub short_name : Text → Text
short_name qualified = elim (rsplit_once 46 qualified) [
  | none ↦ qualified
  | some (before, after) ↦ after
]

-- the short name of a method, unless it is too short or all lowercase
unfoldable pub short_name_of : Node → Option Text
unfolding rsplit_once is_noise_name
short_name_of n = elim n.symbol [
  | none ↦ none
  | some qualified ↦
      if is_noise_name (short_name qualified) then none else some (short_name qualified)
]

-- `collect_idl_methods`; a node without a symbol has no short name.
unfoldable pub idl_methods : Store → List Node
unfolding list_nodes_by_kind
idl_methods s = list_nodes_by_kind s idl_method

unfoldable pub methods_by_name : Store → Dict Text (List Text)
unfolding index_names short_name_of idl_methods
methods_by_name s = index_names short_name_of (idl_methods s) []

abbrev pub server_dirs : List Text
server_dirs =
    bytes "service/"
    ∷ bytes "services/"
    ∷ bytes "handler/"
    ∷ bytes "handlers/"
    ∷ bytes "impl/"
    ∷ bytes "server/"
    ∷ []

unfoldable pub has_any_infix : List Text → Text → Bool
unfolding contains_text
has_any_infix [] s = false
has_any_infix (p ∷ ps) s = contains_text s p || has_any_infix ps s

abbrev pub backend_exts : List Text
backend_exts = bytes "go" ∷ bytes "py" ∷ bytes "rs" ∷ bytes "java" ∷ bytes "kt" ∷ bytes "scala" ∷ []

abbrev pub extension : FilePath → Text
extension path = elim (file_name path) [ none ↦ [] | some name ↦ or_default [] (extension_of name) ]

-- the half, where the name is ambiguous
abbrev pub halved : Bool → Confidence → Confidence
halved ambiguous conf = if ambiguous then conf / 2 else conf

-- `base_conf`, and the downgrade of an ambiguous name
unfoldable pub rate : (in_call is_server_side unknown_lang ambiguous : Bool) → Option Confidence
rate true is_server_side unknown_lang ambiguous = some (halved ambiguous 70)
rate false true unknown_lang ambiguous = some (halved ambiguous 40)
rate false false true ambiguous = some (halved ambiguous 40)
rate false false false ambiguous = none

abbrev pub edge_kind : Bool → EdgeKind
edge_kind is_server_side = if is_server_side then implements else invokes

module _ (digest : Text → Text) (to_lowercase : Text → Text) {Language : Type 0}
    (lang_of : FilePath → Option Language)
    (collect_call_callees : Text → Language → List Text) where
  unfoldable pub path_suggests_server : Text → Bool
  unfolding has_any_infix
  path_suggests_server rel = has_any_infix server_dirs (to_lowercase rel)

  unfoldable pub is_server_side : SourceFile → Bool
  unfolding path_suggests_server is_any relpath file_name extension_of
  is_server_side f =
      is_any (extension f.path) backend_exts && path_suggests_server (relpath f.path f.root)

  abbrev pub module_id : SourceFile → Text
  module_id f = (new_node digest module_node f.repo (relpath f.path f.root) none).id

  abbrev pub has_lang : SourceFile → Bool
  has_lang f = elim (lang_of f.path) [ none ↦ false | some _ ↦ true ]

  -- `callees.as_ref().map(|set| set.contains(short)).unwrap_or(false)`
  unfoldable pub is_called : SourceFile → Text → Text → Bool
  unfolding contains
  is_called f content short = elim (lang_of f.path) [
    | none ↦ false
    | some lang ↦ contains (collect_call_callees content lang) short
  ]

  -- what a hit of `short` is worth
  unfoldable pub confidence_of :
      Dict Text (List Text) → SourceFile → Text → Text → Option Confidence
  unfolding rate is_called is_server_side lookup
  confidence_of by_name f content short =
      rate (is_called f content short) (is_server_side f) (not (has_lang f))
        (ltb 1 (length (ids_of short by_name)))

  abbrev pub idl_edge : SourceFile → Confidence → Text → Edge
  idl_edge f conf id = record {
    source = module_id f;
    target = id;
    kind = edge_kind (is_server_side f);
    confidence = conf;
  }

  -- the body of the loop over the hits; every index is that of a name, which is in the index
  unfoldable pub hit_edges : List Text → Dict Text (List Text) → SourceFile → Text → ℕ → List Edge
  unfolding confidence_of relpath
  hit_edges unique_names by_name f content idx = elim (get_elem? unique_names idx) [
    | none ↦ []
    | some short ↦ elim (confidence_of by_name f content short) [
      | none ↦ []
      | some conf ↦ map (idl_edge f conf) (ids_of short by_name)
    ]
  ]

  unfoldable pub scan_file :
      (find_iter : Text → List ℕ) → List Text → Dict Text (List Text) → SourceFile → List Edge
  unfolding hit_edges flat_map collect_hits
  scan_file find_iter unique_names by_name f = elim f.content [
    | none ↦ []
    | some content ↦
        flat_map (hit_edges unique_names by_name f content) (collect_hits (find_iter content))
  ]

  -- `build` is none where the automaton cannot be built.
  unfoldable pub idl_edges :
      (build : List Text → Option (Text → List ℕ))
      → List SourceFile
      → Dict Text (List Text)
      → List Edge
  unfolding scan_file
  idl_edges build files [] = []
  idl_edges build files (row ∷ rows) = elim (build (keys (row ∷ rows))) [
    | none ↦ []
    | some find_iter ↦ flat_map (scan_file find_iter (keys (row ∷ rows)) (row ∷ rows)) files
  ]

  unfoldable pub link_all :
      (build : List Text → Option (Text → List ℕ)) → List SourceFile → Store → Store × ℕ
  unfolding idl_edges upsert_all methods_by_name
  link_all build files s = upsert_all (idl_edges build files (methods_by_name s)) (s, 0)
