-- ===== src/Graph/Store/Delete.antt =====
-- `delete_module`: rows of one file go, and no edge is left without its ends.
use repolayer.Prelude.{◌≡◌, ◌↔◌, not, ◌&&◌, arith}
use repolayer.Prelude.Tests.{◌==◌, nat_eq}
use repolayer.Prelude.Lists.{◌∈◌}
use repolayer.Prelude.Dict.{contains_iff}
use repolayer.Prelude.Text.{Text, text_eq, path_eq, text_beq_iff}
use repolayer.Graph.Model.{Node, Edge, node_kind_eq, edge_kind_eq}
use repolayer.Graph.Store.{Store, delete_module, has_node}
use repolayer.Graph.Store.Nodes.{ids}
use repolayer.Graph.Store.Edges.{IsValid, key}
use repolayer.Prelude.Rows.{mem-where_rows, Distinct-where_rows}

-- Both ends of the edge are rows of the node table.
abbrev pub Anchored : Store → Edge → Type 0
Anchored s e = (e.source ∈ ids s.nodes) × (e.target ∈ ids s.nodes)

-- After `delete_module` the node rows are the old ones of other files, and the edge rows are the old
-- ones of which both ends are still rows; the primary keys stay distinct.
pub delete_module_exact :
    (repo path : Text) (s : Store) (n : Node) (e : Edge)
    → ((n ∈ (delete_module repo path s).nodes)
        ↔ ((n ∈ s.nodes) × (¬ ((n.repo ≡ repo) × (n.path ≡ path)))))
      × ((e ∈ (delete_module repo path s).edges)
          ↔ ((e ∈ s.edges) × Anchored (delete_module repo path s) e))
      × (IsValid s → IsValid (delete_module repo path s))
unfolding delete_module
delete_module_exact repo path s n e =
    let kept = (delete_module repo path s).nodes in
    let other = λ (m : Node). not ((m.repo == repo) && (m.path == path)) in
    let whole = λ (f : Edge). has_node kept f.source && has_node kept f.target in
    (
      ground (
        arith,
        mem-where_rows other s.nodes n,
        text_beq_iff n.repo repo,
        text_beq_iff n.path path,
      ),
      ground (
        arith,
        mem-where_rows whole s.edges e,
        contains_iff (ids kept) e.source,
        contains_iff (ids kept) e.target,
      ),
      λ v. record {
        ids_distinct = Distinct-where_rows (λ m. m.id) other s.nodes v.ids_distinct;
        keys_distinct = Distinct-where_rows key whole s.edges v.keys_distinct;
      },
    )
