-- ===== src/Linker/Calls.antt =====
-- src/linker/calls.rs: call edges from a file to the function that it calls. The files come with their
-- content; the automaton over the names (`build`), the language of a path and the callees of a text
-- are parameters.
pub mod Unique
pub mod Exact
pub mod Once
pub mod Stored
mod Tests
use repolayer.Prelude.{
  ℕ, zero, suc, ◌+◌, ◌-◌, ◌*◌, ◌/◌, ◌%◌, ◌^◌, ◌≤◌, ◌<◌, min, max, ◌≡◌, refl, sym, ap, ◌∙◌, subst,
  ◌≢◌, ◌↔◌, ◌⊎◌, inl, inr, ⊎_elim, Bool, true, false, not, ◌&&◌, ◌||◌, Option, none, some, List, [],
  ◌∷◌, ◌++◌, map, arith,
}
use repolayer.Prelude.Tests.{
  ltb, leb, nat_beq, if◌then◌else◌, nat_beq_iff, Bool-cases, Option-cases, PartialEq, ◌==◌, nat_eq,
  beq-cases, beq_refl, beq_of_ne,
}
use repolayer.Prelude.Lists.{
  length, get_elem?, get_or, set, take, drop, replicate, ◌∈◌, All, Distinct,
}
use repolayer.Prelude.Dict.{Dict, contains, lookup, insert, update, keys, or_default}
use repolayer.Prelude.Text.{
  Text, FilePath, bytes, text_eq, path_eq, text_beq_iff, path_beq_iff, starts_with,
}
use repolayer.Graph.Model.{Edge, Node, calls, new_node, function, module_node, method}
use repolayer.Prelude.Rows.{filter_map, flat_map, where_rows}
use repolayer.Graph.Store.{list_nodes_by_kind, Store}
use repolayer.Linker.Names.{index_names, collect_hits}
use repolayer.Linker.Upserts.{upsert_all}
use repolayer.Linker.ImportsToRepo.{relpath}

abbrev min_name_len : ℕ
min_name_len = 4

abbrev pub all_lowercase : Text → Bool
all_lowercase [] = true
all_lowercase (b ∷ name) = (leb 97 b && leb b 122) && all_lowercase name

unfoldable pub is_noise_name : Text → Bool
is_noise_name name = ltb (length name) min_name_len || all_lowercase name

-- the symbol of a node, unless it is noise
abbrev pub name_of_node : Node → Option Text
name_of_node n = elim n.symbol [
  | none ↦ none
  | some sym ↦ if is_noise_name sym then none else some sym
]

-- `by_name.retain(|_, ids| ids.len() == 1)`
unfoldable pub retain_unique : Dict Text (List Text) → Dict Text (List Text)
unfolding where_rows
retain_unique = where_rows (λ (row : Text × List Text). nat_beq (length row.1) 1)

unfoldable pub functions : Store → List Node
unfolding list_nodes_by_kind
functions s = list_nodes_by_kind s function ++ list_nodes_by_kind s method

unfoldable pub unique_by_name : Store → Dict Text (List Text)
unfolding index_names is_noise_name retain_unique functions
unique_by_name s = retain_unique (index_names name_of_node (functions s) [])

-- A file of the walk, with `read_to_string` of it.
pub record SourceFile : Type 0 where
  pub repo : Text
  pub root : FilePath
  pub path : FilePath
  pub content : Option Text

-- `if candidates.len() != 1 { continue; }`, and the edge
unfoldable pub edge_to_only : Text → Option (List Text) → Option Edge
edge_to_only module_id (some (id ∷ [])) =
    some (record { source = module_id; target = id; kind = calls; confidence = 100 })
edge_to_only module_id _ = none

module _ (digest : Text → Text) {Language : Type 0} (lang_of : FilePath → Option Language)
    (collect_call_callees : Text → Language → List Text) where
  abbrev pub module_of : SourceFile → Node
  module_of f = new_node digest module_node f.repo (relpath f.path f.root) none

  -- the edge to the only candidate, if the name is a callee
  unfoldable pub call_edge : Text → Dict Text (List Text) → List Text → Text → Option Edge
  unfolding contains lookup edge_to_only
  call_edge module_id by_name callees name =
      if contains callees name then edge_to_only module_id (lookup name by_name) else none

  -- the body of the loop over the hits; an index that is none of a name does not occur
  unfoldable pub edge_at : Text → List Text → Dict Text (List Text) → List Text → ℕ → Option Edge
  unfolding call_edge
  edge_at module_id unique_names by_name callees idx = elim (get_elem? unique_names idx) [
    | none ↦ none
    | some name ↦ call_edge module_id by_name callees name
  ]

  -- `find_iter` gives the indices of the names that occur in a text. Where there is none, or no
  -- callee, the loop has nothing to do.
  unfoldable pub scan_file :
      (find_iter : Text → List ℕ) → List Text → Dict Text (List Text) → SourceFile → List Edge
  unfolding edge_at filter_map relpath collect_hits
  scan_file find_iter unique_names by_name f = elim f.content [
    | none ↦ []
    | some content ↦ elim (lang_of f.path) [
      | none ↦ []
      | some lang ↦
          filter_map
            (edge_at (module_of f).id unique_names by_name (collect_call_callees content lang))
            (collect_hits (find_iter content))
    ]
  ]

  -- `file_targets.par_iter().flat_map_iter(...)`
  unfoldable pub scan_files :
      (find_iter : Text → List ℕ) → List Text → Dict Text (List Text) → List SourceFile → List Edge
  unfolding scan_file flat_map
  scan_files find_iter unique_names by_name files =
      flat_map (scan_file find_iter unique_names by_name) files

  -- `build` is none where the automaton cannot be built.
  unfoldable pub call_edges :
      (build : List Text → Option (Text → List ℕ))
      → List SourceFile
      → Dict Text (List Text)
      → List Edge
  unfolding scan_files
  call_edges build files [] = []
  call_edges build files (row ∷ rows) = elim (build (keys (row ∷ rows))) [
    | none ↦ []
    | some find_iter ↦ scan_files find_iter (keys (row ∷ rows)) (row ∷ rows) files
  ]

  unfoldable pub link_all :
      (build : List Text → Option (Text → List ℕ)) → List SourceFile → Store → Store × ℕ
  unfolding call_edges upsert_all unique_by_name
  link_all build files s = upsert_all (call_edges build files (unique_by_name s)) (s, 0)
