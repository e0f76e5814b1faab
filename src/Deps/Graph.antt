-- ===== src/Deps/Graph.antt =====
-- src/deps/graph.rs: the in-memory import graph.
pub mod Reverse
use repolayer.Prelude.Dict
use repolayer.Prelude.{
  ℕ, ◌⊎◌, ◌+◌, Bool, true, false, ◌≡◌, Option, none, some, List, [], ◌∷◌, ◌++◌, map, ◌&&◌, not,
  ◌||◌,
}
use repolayer.Prelude.Tests.{if◌then◌else◌, ◌==◌}
use repolayer.Prelude.Lists.{◌∈◌}
use repolayer.Prelude.Dict.{Dict, keys, update, contains}
use repolayer.Prelude.Text.{Text, FilePath, bytes, path_eq, path_leb, strip_prefix, join_slash}
use repolayer.Prelude.Sort.{sort_by, dedup}

pub data ImportKind : Type 0 where
  use_stmt mod_stmt from bare named_from star_from static alias glob : ImportKind

abbrev pub label : ImportKind → Text
label use_stmt = bytes "use"
label mod_stmt = bytes "mod"
label from = bytes "from"
label bare = bytes "import"
label named_from = bytes "named"
label star_from = bytes "star"
label static = bytes "static"
label alias = bytes "alias"
label glob = bytes "glob"

pub record DepEdge : Type 0 where
  pub target : FilePath
  pub kind : ImportKind
  pub line : ℕ
  pub local_name : Option Text
  pub raw_path : Option Text

pub record GraphStats : Type 0 where
  pub file_count : ℕ
  pub edge_count : ℕ
  pub external_count : ℕ
  pub build_ms : ℕ

pub record DepGraph : Type 0 where
  pub schema : Text
  pub forward : Dict FilePath (List DepEdge)
  pub external : Dict FilePath (List Text)
  pub root : FilePath
  pub built_at : ℕ
  pub stats : GraphStats

-- `SystemTime::now()` is the argument `now`, and the schema constant of src/core is `schema`.
unfoldable pub empty : Text → ℕ → FilePath → DepGraph
empty schema now root = record {
  schema = schema;
  forward = [];
  external = [];
  root = root;
  built_at = now;
  stats = record { file_count = 0; edge_count = 0; external_count = 0; build_ms = 0 };
}

-- `rev.entry(edge.target).or_default().push(src)` for each edge of one file
add_importers :
    FilePath → List DepEdge → Dict FilePath (List FilePath) → Dict FilePath (List FilePath)
add_importers src [] rev = rev
add_importers src (e ∷ edges) rev =
    add_importers src edges (update e.target [] (λ v. v ++ src ∷ []) rev)

-- the two nested loops over `forward`
invert :
    Dict FilePath (List DepEdge) → Dict FilePath (List FilePath) → Dict FilePath (List FilePath)
unfolding add_importers
invert [] rev = rev
invert ((src, edges) ∷ rest) rev = invert rest (add_importers src edges rev)

-- `v.sort(); v.dedup();` for each value
tidy : Dict FilePath (List FilePath) → Dict FilePath (List FilePath)
tidy = map (λ p. (p.0, dedup (sort_by path_leb p.1)))

unfoldable pub reverse_adjacency : DepGraph → Dict FilePath (List FilePath)
unfolding invert tidy
reverse_adjacency g = tidy (invert g.forward [])

unfoldable pub files : DepGraph → List FilePath
files g = sort_by path_leb (keys g.forward)

-- the order of the pairs `(&a.0, &a.1)`
abbrev pub pair_leb : FilePath × FilePath × ImportKind → FilePath × FilePath × ImportKind → Bool
pair_leb a b = (path_leb a.0 b.0 && not (path_leb b.0 a.0)) || ((a.0 == b.0) && path_leb a.1 b.1)

abbrev pub all_edges : Dict FilePath (List DepEdge) → List (FilePath × FilePath × ImportKind)
all_edges [] = []
all_edges ((src, edges) ∷ rest) = map (λ e. (src, e.target, e.kind)) edges ++ all_edges rest

unfoldable pub sorted_edges : DepGraph → List (FilePath × FilePath × ImportKind)
sorted_edges g = sort_by pair_leb (all_edges g.forward)

-- a `BTreeMap`, as the list of its entries in the order of the keys
unfoldable pub grouped : DepGraph → Dict FilePath (List DepEdge)
grouped g =
    sort_by (λ a b. path_leb a.0 b.0)
      (map (λ p. (p.0, sort_by (λ a b. path_leb a.target b.target) p.1)) g.forward)

-- `edges.retain(|e| seen.insert(e.target.clone()))`
unfoldable pub retain_new : List FilePath → List DepEdge → List DepEdge
retain_new seen [] = []
retain_new seen (e ∷ edges) =
    let kept = e ∷ retain_new (e.target ∷ seen) edges in
    let rest = retain_new seen edges in if contains seen e.target then rest else kept

unfoldable pub dedup_edges : DepGraph → DepGraph
unfolding retain_new
dedup_edges g = record g { forward = map (λ p. (p.0, retain_new [] p.1)) g.forward }

-- `src` imports `dst` by an edge of `forward`.
abbrev pub Imports : Dict FilePath (List DepEdge) → FilePath → FilePath → Type 0
Imports [] src dst = ⊥
Imports ((s, edges) ∷ rest) src dst =
    (s ≡ src) × (dst ∈ map (λ e. e.target) edges) ⊎ Imports rest src dst

-- `display` is the text of a path.
unfoldable pub rel : (display : FilePath → Text) → DepGraph → FilePath → Text
unfolding strip_prefix join_slash
rel display g p = elim (strip_prefix p g.root) [ none ↦ display p | some r ↦ join_slash r ]
