-- ===== src/Deps/Build.antt =====
-- src/deps/mod.rs: the import graph of a repository, and the edges of some of its files.
pub mod Targets
pub mod Exact
mod Tests
-- The parameters are what the manifest, the suffix index, the extraction and the resolver of the
-- repository give: the language of each indexed file, its imports, and the target of an import.

-- `kind as u8`
use repolayer.Deps.Graph.{
  use_stmt, mod_stmt, from, bare, named_from, star_from, static, alias, glob, DepEdge, DepGraph,
  ImportKind, empty, dedup_edges,
}
use repolayer.Prelude.{
  ℕ, Bool, true, false, not, ◌&&◌, ◌||◌, Option, none, some, List, [], ◌∷◌, ◌++◌, map,
}
use repolayer.Prelude.Tests.{ltb, leb, nat_beq, if◌then◌else◌, ◌==◌, nat_eq}
use repolayer.Prelude.Dict.{Dict, lookup, insert, keys, or_default}
use repolayer.Prelude.Text.{Text, FilePath, text_eq, path_eq, path_leb}
use repolayer.Prelude.Sort.{sort_by}

unfoldable pub discriminant : ImportKind → ℕ
discriminant use_stmt = 0
discriminant mod_stmt = 1
discriminant from = 2
discriminant bare = 3
discriminant named_from = 4
discriminant star_from = 5
discriminant static = 6
discriminant alias = 7
discriminant glob = 8

-- `a.kind == b.kind`, which the derived `PartialEq` decides by the discriminant
abbrev pub same_kind : ImportKind → ImportKind → Bool
same_kind a b = nat_beq (discriminant a) (discriminant b)

pub record RawImport : Type 0 where
  pub spec : Text
  pub kind : ImportKind
  pub line : ℕ
  pub statement : Text
  pub local_name : Option Text
  pub raw_path : Option Text

pub record FileDepResult : Type 0 where
  pub file : FilePath
  pub edges : List DepEdge
  pub external : List Text

-- The comparison that `edges.sort_by` is given.
unfoldable pub edge_leb : DepEdge → DepEdge → Bool
unfolding path_leb discriminant
edge_leb a b =
    (path_leb a.target b.target && not (path_leb b.target a.target))
    || ((a.target == b.target)
        && (ltb (discriminant a.kind) (discriminant b.kind)
            || (same_kind a.kind b.kind && leb a.line b.line)))

abbrev pub same_edge : DepEdge → DepEdge → Bool
same_edge a b = (a.target == b.target) && same_kind a.kind b.kind

-- `dedup_by`: an element goes where it is the same as the last one kept.
unfoldable pub dedup_after : DepEdge → List DepEdge → List DepEdge
dedup_after kept [] = []
dedup_after kept (e ∷ edges) =
    if same_edge e kept then dedup_after kept edges else e ∷ dedup_after e edges

unfoldable pub dedup_sorted : List DepEdge → List DepEdge
unfolding dedup_after
dedup_sorted [] = []
dedup_sorted (e ∷ edges) = e ∷ dedup_after e edges

-- the local variables `edges` and `external` of one file
pub record Resolved : Type 0 where
  pub edges : List DepEdge
  pub external : List Text

abbrev pub is_empty : {A : Type 0} → List A → Bool
is_empty [] = true
is_empty (x ∷ xs) = false

-- `g.forward.insert(...)`, and `g.external.insert(...)` where there is an external import
unfoldable pub add_file : DepGraph → FilePath → Resolved → DepGraph
unfolding insert
add_file g file r = record g {
  forward = insert file r.edges g.forward;
  external = if is_empty r.external then g.external else insert file r.external g.external;
}

unfoldable pub assemble : DepGraph → List (FilePath × Resolved) → DepGraph
unfolding add_file
assemble g [] = g
assemble g ((file, r) ∷ resolved) = assemble (add_file g file r) resolved

unfoldable pub edge_to : FilePath → RawImport → DepEdge
edge_to target ri = record {
  target = target;
  kind = ri.kind;
  line = ri.line;
  local_name = ri.local_name;
  raw_path = ri.raw_path;
}

module _ {Lang : Type 0} (by_file : Dict FilePath Lang) (extract : FilePath → Lang → List RawImport)
    (resolve : Text → FilePath → Lang → Option FilePath) where
  abbrev pub as_external : RawImport → Text
  as_external ri = or_default ri.spec ri.raw_path

  -- the body of `for ri in raw_imports`
  unfoldable pub add_import : FilePath → Lang → Resolved → RawImport → Resolved
  unfolding edge_to
  add_import file lang r ri = elim (resolve ri.spec file lang) [
    | none ↦ record r { external = r.external ++ as_external ri ∷ [] }
    | some target ↦
        if target == file
        then record r { external = r.external ++ as_external ri ∷ [] }
        else record r { edges = r.edges ++ edge_to target ri ∷ [] }
  ]

  unfoldable pub add_imports : FilePath → Lang → Resolved → List RawImport → Resolved
  unfolding add_import
  add_imports file lang r [] = r
  add_imports file lang r (ri ∷ raw_imports) =
      add_imports file lang (add_import file lang r ri) raw_imports

  abbrev pub nothing : Resolved
  nothing = record { edges = []; external = [] }

  unfoldable pub resolve_file : FilePath → Resolved
  resolve_file file = elim (lookup file by_file) [
    | none ↦ nothing
    | some lang ↦ add_imports file lang nothing (extract file lang)
  ]

  unfoldable pub build_for_repo : Text → ℕ → FilePath → DepGraph
  build_for_repo schema now root =
      dedup_edges
        (assemble (empty schema now root) (map (λ file. (file, resolve_file file)) (keys by_file)))

  unfoldable pub build_for_file : FilePath → Option FileDepResult
  build_for_file file = elim (lookup file by_file) [
    | none ↦ none
    | some lang ↦
        let r = add_imports file lang nothing (extract file lang) in
        some (record {
          file = file;
          edges = dedup_sorted (sort_by edge_leb r.edges);
          external = r.external;
        })
  ]

  -- `filter_map`
  unfoldable pub build_for_files : List FilePath → List FileDepResult
  build_for_files [] = []
  build_for_files (file ∷ files) = elim (build_for_file file) [
    | none ↦ build_for_files files
    | some r ↦ r ∷ build_for_files files
  ]
