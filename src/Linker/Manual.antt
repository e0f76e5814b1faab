-- ===== src/Linker/Manual.antt =====
-- src/linker/manual.rs: the links that the configuration lists.

pub mod Exact
use repolayer.Graph.Model.{repo_node, imports, calls, invokes, EdgeKind, Node, new_node}
use repolayer.Prelude.{ℕ, ◌+◌, none, List, [], ◌∷◌}
use repolayer.Prelude.Tests.{if◌then◌else◌, ◌==◌, nat_eq}
use repolayer.Prelude.Text.{Text, bytes, text_eq, path_eq}
use repolayer.Graph.Store.{Store, upsert_node, upsert_edge}

pub record LinkConfig : Type 0 where
  pub source : Text
  pub target : Text
  pub kind : Text

-- `match link.kind.as_str()`
abbrev pub link_kind : Text → EdgeKind
link_kind kind =
    if kind == bytes "calls" then calls else if kind == bytes "invokes" then invokes else imports

module _ (digest : Text → Text) where
  abbrev pub repo_of : Text → Node
  repo_of name = new_node digest repo_node name [] none

  -- the body of the loop; the confidence is 1.0
  unfoldable pub apply_link : LinkConfig → Store → Store
  unfolding upsert_node upsert_edge
  apply_link link s =
      upsert_edge
        (record {
          source = (repo_of link.source).id;
          target = (repo_of link.target).id;
          kind = link_kind link.kind;
          confidence = 100;
        })
        (upsert_node (repo_of link.target) (upsert_node (repo_of link.source) s))

  unfoldable pub apply_manual_links : List LinkConfig → Store × ℕ → Store × ℕ
  unfolding apply_link
  apply_manual_links [] s = s
  apply_manual_links (link ∷ links) s = apply_manual_links links (apply_link link s.0, s.1 + 1)
