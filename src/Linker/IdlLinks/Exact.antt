-- ===== src/Linker/IdlLinks/Exact.antt =====
-- Which edges the pass over the files gives, and how sure it is of them.
use repolayer.Prelude.Rows.{Filtered, where_rows}
use repolayer.Prelude.Dict.{keys}
use repolayer.Prelude.Text.{FilePath, Text, path_eq, text_eq}
use repolayer.Prelude.Lists.{length, ◌∈◌}
use repolayer.Prelude.Tests.{Bool-cases, nat_eq}
use repolayer.Prelude.{
  List, Option, ap, arith, inl, inr, none, refl, some, subst, sym, ℕ, ⊎_elim, ◌<◌, ◌↔◌, ◌∙◌, ◌≡◌,
  ◌≤◌, ◌⊎◌,
}
use repolayer.Graph.Model.{
  new_node, Edge, Node, compute_id, implements, invokes, module_node, node_kind_eq,
}
use repolayer.Graph.Store.{Store}
use repolayer.Linker.Calls.{SourceFile}
use repolayer.Linker.ImportsToRepo.{relpath}
use repolayer.Linker.ImportsToRepo.RelPath.{IsRelPath, relpath_iff}
use repolayer.Linker.IdlLinks.{edge_kind, idl_edges, is_server_side, methods_by_name}
use repolayer.Linker.IdlLinks.Rules.{IsCalled, IsServerFile, is_server_side_iff}
use repolayer.Linker.IdlLinks.Scans.{IsHit, mem-idl_edges}
use repolayer.Linker.IdlLinks.Worth.{IsShare, IsWorth, confidence_of_iff}
use repolayer.Linker.IdlLinks.Methods.{
  IsMethod, method_test, methods-Filtered, length-ids_of, mem-ids_of,
}

module _ (digest : Text → Text) (to_lowercase : Text → Text) {Language : Type 0}
    (lang_of : FilePath → Option Language)
    (collect_call_callees : Text → Language → List Text) where
  -- The edge from the file `f`, which has a hit of `short`, to the method `n` of that short name.
  pub record IsMethodEdge (find_iter : Text → List ℕ) (s : Store) (f : SourceFile) (short : Text)
      (n : Node) (e : Edge) : Type 0 where
    pub content : Text
    pub found :
        IsHit digest to_lowercase lang_of collect_call_callees find_iter
          (keys (methods_by_name s))
          f
          content
          short
    pub rel : Text
    pub below : IsRelPath f.path f.root rel
    pub from_file : e.source ≡ compute_id digest module_node f.repo rel none
    pub is_method : IsMethod short n
    pub to_method : e.target ≡ n.id
    pub kind :
        (IsServerFile digest to_lowercase lang_of collect_call_callees f × (e.kind ≡ implements))
        ⊎ ((¬ IsServerFile digest to_lowercase lang_of collect_call_callees f) × (e.kind ≡ invokes))
    pub methods : List Node
    pub all_methods : Filtered (IsMethod short) s.nodes methods
    pub worth :
        IsWorth digest to_lowercase lang_of collect_call_callees f content short
          (length methods)
          e.confidence

  edge_kind_iff :
      (f : SourceFile) (e : Edge)
      → (e.kind ≡ edge_kind (is_server_side digest to_lowercase lang_of collect_call_callees f)) ↔ (
          (IsServerFile digest to_lowercase lang_of collect_call_callees f × (e.kind ≡ implements))
          ⊎ ((¬ IsServerFile digest to_lowercase lang_of collect_call_callees f)
              × (e.kind ≡ invokes)))
  edge_kind_iff f e =
      let server = is_server_side_iff digest to_lowercase lang_of collect_call_callees f in
      elim (Bool-cases (is_server_side digest to_lowercase lang_of collect_call_callees f)) [
        | inl t ↦
            rw t
              (λ h. inl (server.0 t, h), ⊎_elim (λ (_, h). h) (λ (n, _). absurd (n (server.0 t))))
        | inr c ↦ rw c (
          λ h. inr (λ i. let t = server.1 i in cc (t, c), h),
          ⊎_elim (λ (i, _). let t = server.1 i in cc (t, c)) (λ (_, h). h),
        )
      ]

pub idl_edges_exact :
    (digest : Text → Text) (to_lowercase : Text → Text) {Language : Type 0}
    (lang_of : FilePath → Option Language) (collect_call_callees : Text → Language → List Text)
    (build : List Text → Option (Text → List ℕ)) (files : List SourceFile) (s : Store)
    (find_iter : Text → List ℕ) (e : Edge)
    → build (keys (methods_by_name s)) ≡ some find_iter
    → (e
        ∈ idl_edges digest to_lowercase lang_of collect_call_callees build files
            (methods_by_name s))
      ↔ ((f : SourceFile) × (short : Text) × (n : Node) × (f ∈ files)
          × (n ∈ s.nodes)
          × IsMethodEdge digest to_lowercase lang_of collect_call_callees find_iter s f short n e)
unfolding relpath compute_id new_node
idl_edges_exact digest to_lowercase lang_of callees build files s find_iter e built =
    let all =
      mem-idl_edges digest to_lowercase lang_of callees build files (methods_by_name s) find_iter e
        built in
    (
      λ m.
          let (f, short, i, is_edge, j) = all.0 m in
          let (n, stored, is_method, to_method) = (mem-ids_of s short e.target).0 j in
          (
            f,
            short,
            n,
            i,
            stored,
            record {
              content = is_edge.content;
              found = is_edge.found;
              rel = relpath f.path f.root;
              below = (relpath_iff f.path f.root _).0 refl;
              from_file = is_edge.origin;
              is_method = is_method;
              to_method = to_method;
              kind = (edge_kind_iff digest to_lowercase lang_of callees f e).0 is_edge.kind;
              methods = where_rows (method_test short) s.nodes;
              all_methods = methods-Filtered s short;
              worth =
                  subst
                    (λ k.
                      IsWorth digest to_lowercase lang_of callees f is_edge.content short k
                        e.confidence)
                    (length-ids_of s short _ (methods-Filtered s short))
                    ((confidence_of_iff digest to_lowercase lang_of callees (methods_by_name s) f
                        is_edge.content short e.confidence).0
                      is_edge.sure);
            },
          ),
      λ (f, short, n, i, stored, of). all.1 (
        f,
        short,
        i,
        record {
          content = of.content;
          found = of.found;
          sure =
              (confidence_of_iff digest to_lowercase lang_of callees (methods_by_name s) f
                  of.content short e.confidence).1
                (subst
                  (λ k.
                    IsWorth digest to_lowercase lang_of callees f of.content short k e.confidence)
                  (sym (length-ids_of s short of.methods of.all_methods)) of.worth);
          origin =
              of.from_file
              ∙ ap (λ r. compute_id digest module_node f.repo r none)
                  ((relpath_iff f.path f.root of.rel).1 of.below);
          kind = (edge_kind_iff digest to_lowercase lang_of callees f e).1 of.kind;
        },
        (mem-ids_of s short e.target).1 (n, stored, of.is_method, of.to_method),
      ),
    )

IsShare-bounds :
    (many base : ℕ) (conf : ℕ)
    → IsShare many base conf
    → (base ≡ 70) ⊎ (base ≡ 40)
    → (20 ≤ conf) × (conf ≤ 70) × (conf < 40 → 2 ≤ many) × (40 < conf → base ≡ 70)
IsShare-bounds many base conf share bases = ground (arith, share, bases)

-- Every edge of the pass goes from the module of a scanned file to a stored method whose short name is
-- found in the file. Its confidence is between 0.2 and 0.7; below 0.4 at least two methods have that
-- short name, and above 0.4 the file calls it.
pub idl_edge_bounds :
    (digest : Text → Text) (to_lowercase : Text → Text) {Language : Type 0}
    (lang_of : FilePath → Option Language) (collect_call_callees : Text → Language → List Text)
    (build : List Text → Option (Text → List ℕ)) (files : List SourceFile) (s : Store)
    (find_iter : Text → List ℕ) (e : Edge)
    → build (keys (methods_by_name s)) ≡ some find_iter
    → e ∈ idl_edges digest to_lowercase lang_of collect_call_callees build files (methods_by_name s)
    → (20 ≤ e.confidence)
      × (e.confidence ≤ 70)
      × ((f : SourceFile) × (short : Text) × (n : Node) × (f ∈ files)
          × (n ∈ s.nodes)
          × ((edge : IsMethodEdge digest to_lowercase lang_of collect_call_callees find_iter s f
                short n e)
              × (e.confidence < 40 → 2 ≤ length edge.methods)
              × (40 < e.confidence
                  → IsCalled digest to_lowercase lang_of collect_call_callees f edge.content
                      short)))
idl_edge_bounds digest to_lowercase lang_of callees build files s find_iter e built m =
    let (f, short, n, i, stored, edge) =
      (idl_edges_exact digest to_lowercase lang_of callees build files s find_iter e built).0 m in
    let (base, why, share) = edge.worth in
    let (least, most, shared, called) =
      IsShare-bounds (length edge.methods) base e.confidence share
        (⊎_elim (λ (_, b). inl b) (λ (_, _, b). inr b) why) in
    (
      least,
      most,
      (
        f,
        short,
        n,
        i,
        stored,
        (
          edge,
          shared,
          λ lt. ⊎_elim (λ (c, _). c) (λ (_, _, b). absurd (omega (arith, b, called lt))) why,
        ),
      ),
    )
