-- ===== src/Deps/Store.antt =====
-- src/deps/store.rs: import graphs in the tables of a database.
pub mod Put
mod Load
pub mod RoundTrip
pub mod Isolation
mod Tests
-- `to_text` is `Path::to_string_lossy` and `to_path` is `PathBuf::from`. A SELECT without ORDER BY
-- is read in the order of the list.

use repolayer.Prelude.{ℕ, ◌%◌, ◌^◌, Bool, not, ◌&&◌, Option, none, some, List, [], ◌∷◌, ◌++◌, map}
use repolayer.Prelude.Tests.{if◌then◌else◌, ◌==◌, nat_eq}
use repolayer.Prelude.Dict.{Dict, update, or_default}
use repolayer.Prelude.Text.{Text, FilePath, bytes, text_eq, path_eq}
use repolayer.Deps.Graph.{
  DepEdge, ImportKind, DepGraph, empty, use_stmt, mod_stmt, from, bare, named_from, star_from,
  static, alias, glob,
}
use repolayer.Prelude.Rows.{where_rows}

pub record ForwardRow : Type 0 where
  pub repo : Text
  pub from_path : Text
  pub to_path : Text
  pub edge_kind : Text
  pub line : Option ℕ
  pub local_name : Option Text
  pub raw_path : Option Text

pub record ExternalRow : Type 0 where
  pub repo : Text
  pub from_path : Text
  pub raw : Text

pub record DepStore : Type 0 where
  pub forward_edges : List ForwardRow
  pub external_imports : List ExternalRow

unfoldable pub import_kind_to_str : ImportKind → Text
import_kind_to_str use_stmt = bytes "use"
import_kind_to_str mod_stmt = bytes "mod"
import_kind_to_str from = bytes "from"
import_kind_to_str bare = bytes "bare"
import_kind_to_str named_from = bytes "namedfrom"
import_kind_to_str star_from = bytes "starfrom"
import_kind_to_str static = bytes "static"
import_kind_to_str alias = bytes "alias"
import_kind_to_str glob = bytes "glob"

unfoldable pub parse_import_kind : Text → Option ImportKind
parse_import_kind s =
    if s == bytes "use"
    then some use_stmt
    else if s == bytes "mod"
    then some mod_stmt
    else if s == bytes "from"
    then some from
    else if s == bytes "bare"
    then some bare
    else if s == bytes "namedfrom"
    then some named_from
    else if s == bytes "starfrom"
    then some star_from
    else if s == bytes "static"
    then some static
    else if s == bytes "alias"
    then some alias
    else if s == bytes "glob"
    then some glob
    else none

-- PRIMARY KEY (repo, from_path, to_path, edge_kind)
abbrev pub Key : Type 0
Key = Text × Text × Text × Text

abbrev pub row_key : ForwardRow → Key
row_key r = (r.repo, r.from_path, r.to_path, r.edge_kind)

abbrev pub same_row : ForwardRow → ForwardRow → Bool
same_row a b =
    (a.repo == b.repo)
    && ((a.from_path == b.from_path) && ((a.to_path == b.to_path) && (a.edge_kind == b.edge_kind)))

-- `INSERT OR REPLACE`: the row of the same key goes, and the new one is the last.
unfoldable pub put_row : ForwardRow → List ForwardRow → List ForwardRow
unfolding where_rows
put_row r rows = where_rows (λ x. not (same_row x r)) rows ++ r ∷ []

unfoldable pub put_rows : List ForwardRow → List ForwardRow → List ForwardRow
unfolding put_row
put_rows [] rows = rows
put_rows (r ∷ new) rows = put_rows new (put_row r rows)

abbrev pub external_row : Text → Text → Text → ExternalRow
external_row repo from_path raw = record { repo = repo; from_path = from_path; raw = raw }

abbrev pub external_rows : Text → Text → List Text → List ExternalRow
external_rows repo from_path = map (external_row repo from_path)

-- `DELETE ... WHERE repo = ?1 AND from_path = ?2` on both tables
unfoldable pub delete_file : Text → Text → DepStore → DepStore
unfolding where_rows
delete_file repo path s = record {
  forward_edges =
      where_rows (λ (r : ForwardRow). not ((r.repo == repo) && (r.from_path == path)))
        s.forward_edges;
  external_imports =
      where_rows (λ (r : ExternalRow). not ((r.repo == repo) && (r.from_path == path)))
        s.external_imports;
}

unfoldable pub list_external_imports : DepStore → List (Text × Text × Text)
list_external_imports s = map (λ r. (r.repo, r.from_path, r.raw)) s.external_imports

module _ (to_text : FilePath → Text) where
  abbrev pub forward_row : Text → Text → DepEdge → ForwardRow
  forward_row repo from_path e = record {
    repo = repo;
    from_path = from_path;
    to_path = to_text e.target;
    edge_kind = import_kind_to_str e.kind;
    line = some e.line;
    local_name = e.local_name;
    raw_path = e.raw_path;
  }

  unfoldable pub upsert_file_edges : Text → Text → List DepEdge → List Text → DepStore → DepStore
  unfolding delete_file put_rows
  upsert_file_edges repo from_path edges externals s =
      let cleared = delete_file repo from_path s in
      record {
        forward_edges = put_rows (map (forward_row repo from_path) edges) cleared.forward_edges;
        external_imports = cleared.external_imports ++ external_rows repo from_path externals;
      }

  -- `for (from_path, edges) in &g.forward`
  unfoldable pub put_graph : Text → Dict FilePath (List DepEdge) → List ForwardRow → List ForwardRow
  unfolding put_rows
  put_graph repo [] rows = rows
  put_graph repo ((p, edges) ∷ rest) rows =
      put_graph repo rest (put_rows (map (forward_row repo (to_text p)) edges) rows)

  -- `for (from_path, externals) in &g.external`
  unfoldable pub put_externals :
      Text → Dict FilePath (List Text) → List ExternalRow → List ExternalRow
  put_externals repo [] rows = rows
  put_externals repo ((p, raws) ∷ rest) rows =
      put_externals repo rest (rows ++ external_rows repo (to_text p) raws)

  unfoldable pub replace_repo_graph : Text → DepGraph → DepStore → DepStore
  unfolding put_graph put_externals where_rows
  replace_repo_graph repo g s = record {
    forward_edges =
        put_graph repo g.forward
          (where_rows (λ (r : ForwardRow). not (r.repo == repo)) s.forward_edges);
    external_imports =
        put_externals repo g.external
          (where_rows (λ (r : ExternalRow). not (r.repo == repo)) s.external_imports);
  }

module _ (to_path : Text → FilePath) where
  -- `line.unwrap_or(0) as u32`
  abbrev pub edge_of : ForwardRow → ImportKind → DepEdge
  edge_of r kind = record {
    target = to_path r.to_path;
    kind = kind;
    line = or_default 0 r.line % 2 ^ 32;
    local_name = r.local_name;
    raw_path = r.raw_path;
  }

  -- the loop over the rows of `forward_edges`; a kind that does not parse is an error
  unfoldable pub load_edges :
      List ForwardRow → Dict FilePath (List DepEdge) → Option (Dict FilePath (List DepEdge))
  load_edges [] forward = some forward
  load_edges (r ∷ rows) forward = elim (parse_import_kind r.edge_kind) [
    | none ↦ none
    | some kind ↦
        load_edges rows (update (to_path r.from_path) [] (λ es. es ++ edge_of r kind ∷ []) forward)
  ]

  unfoldable pub load_externals :
      List ExternalRow → Dict FilePath (List Text) → Dict FilePath (List Text)
  load_externals [] external = external
  load_externals (r ∷ rows) external =
      load_externals rows (update (to_path r.from_path) [] (λ raws. raws ++ r.raw ∷ []) external)

  module _ (schema : Text) (now : ℕ) where
    -- both loops, over the rows selected
    unfoldable pub read_graph : FilePath → List ForwardRow → List ExternalRow → Option DepGraph
    unfolding load_edges load_externals empty
    read_graph root forward_rows external_imports = elim (load_edges forward_rows []) [
      | none ↦ none
      | some forward ↦ some (record (empty schema now root) {
        forward = forward;
        external = load_externals external_imports [];
      })
    ]

    unfoldable pub load_repo_graph : Text → FilePath → DepStore → Option DepGraph
    unfolding read_graph where_rows
    load_repo_graph repo root s =
        read_graph root (where_rows (λ (r : ForwardRow). r.repo == repo) s.forward_edges)
          (where_rows (λ (r : ExternalRow). r.repo == repo) s.external_imports)
