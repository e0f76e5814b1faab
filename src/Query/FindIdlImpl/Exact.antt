-- ===== src/Query/FindIdlImpl/Exact.antt =====
-- What `find_idl_impl` reports, against the tables.

use repolayer.Prelude.{
  ◌≤◌, ◌≡◌, refl, ◌↔◌, inl, inr, ⊎_elim, Bool, true, false, none, some, List, [], ◌∷◌, arith,
}
use repolayer.Prelude.Tests.{nat_beq, if◌then◌else◌, Option-cases, nat_eq}
use repolayer.Prelude.Lists.{◌∈◌, List-cases, All, All-mem, All-of_mem}
use repolayer.Prelude.Dict.{or_default}
use repolayer.Prelude.Text.{Text, text_eq, path_eq}
use repolayer.Query.FindIdlImpl.{
  ImplLocation, find_idl_impl, FindIdlImplArgs, gather, locations, more_confident,
  FindIdlImplResult, IdlMethodInfo, method_info, location,
}
use repolayer.Graph.Model.{Confidence, EdgeKind, Node, Edge, implements, invokes}
use repolayer.Graph.Store.{Store, find_idl_methods_by_name, get_node, incoming_edges}
use repolayer.Prelude.Sort.{IsSorted, sort_by, mem-sort_by, sort_by-IsSorted, where_rows-sort_by}
use repolayer.Prelude.Rows.{where_rows}
use repolayer.Graph.Store.Edges.{mem-incoming_edges}

more_confident_total : (a b : ImplLocation) → more_confident a b ≡ false → more_confident b a ≡ true
more_confident_total a b h = ground arith

more_confident_trans :
    (a b c : ImplLocation)
    → more_confident a b ≡ true
    → more_confident b c ≡ true
    → more_confident a c ≡ true
more_confident_trans a b c p q = ground arith

-- No location is surer than one before it.
abbrev pub Falling : List ImplLocation → Type 0
Falling [] = Unit
Falling (l ∷ ls) = All (λ (m : ImplLocation). m.confidence ≤ l.confidence) ls × Falling ls

IsSorted-Falling : (ls : List ImplLocation) → IsSorted more_confident ls → Falling ls
IsSorted-Falling [] h = tt
IsSorted-Falling (l ∷ ls) h =
    (All-of_mem _ ls (λ m i. let t = All-mem _ ls h.0 m i in ground arith), IsSorted-Falling ls h.1)

abbrev pub rated : Confidence → ImplLocation → Bool
rated c l = nat_beq l.confidence c

module _ (s : Store) where
  -- `l` tells of the node `n` where it is and how sure the edge `e` is.
  abbrev pub Tells : Node → Edge → ImplLocation → Type 0
  Tells n e l =
      (l.repo ≡ n.repo) × (l.path ≡ n.path) × (l.symbol ≡ n.symbol) × (l.confidence ≡ e.confidence)

  -- One location after the other for the edges whose source is a stored node.
  pub data InOrder : List Edge → List ImplLocation → Type 0 where
    done : InOrder [] []
    gone :
        {e : Edge} {edges : List Edge} {ls : List ImplLocation}
        → get_node s e.source ≡ none
        → InOrder edges ls
        → InOrder (e ∷ edges) ls
    told :
        {e : Edge} {edges : List Edge} {n : Node} {l : ImplLocation} {ls : List ImplLocation}
        → get_node s e.source ≡ some n
        → Tells n e l
        → InOrder edges ls
        → InOrder (e ∷ edges) (l ∷ ls)

  locations-InOrder : (edges : List Edge) → InOrder edges (locations s edges)
  unfolding locations
  locations-InOrder [] = done
  locations-InOrder (e ∷ edges) = elim (Option-cases (get_node s e.source)) [
    | inl row ↦ rw (row, locations) (gone row (locations-InOrder edges))
    | inr (n, row) ↦
        rw (row, locations) (told row (refl, refl, refl, refl) (locations-InOrder edges))
  ]

  -- a location of a stored node, by a stored edge of the kind `kind` to `id`
  abbrev pub IsLocation : Text → EdgeKind → ImplLocation → Type 0
  IsLocation id kind l =
      (e : Edge) × (n : Node) × (e ∈ s.edges)
      × (e.kind ≡ kind)
      × (e.target ≡ id)
      × (get_node s e.source ≡ some n)
      × Tells n e l

  mem-locations :
      (edges : List Edge) (l : ImplLocation)
      → (l ∈ locations s edges) ↔ (
          (e : Edge) × (n : Node) × (e ∈ edges)
          × (get_node s e.source ≡ some n)
          × (l ≡ location n e))
  unfolding locations
  mem-locations [] l = (λ h. absurd h, λ (e, n, i, _, _). absurd i)
  mem-locations (e ∷ edges) l = elim (Option-cases (get_node s e.source)) [
    | inl row ↦
        rw (row, locations, ◌∈◌)
          (
            λ m.
                let (f, n, i, found, same) = (mem-locations edges l).0 m in
                (f, n, inr i, found, same),
            λ (f, n, i, found, same).
                ⊎_elim (λ first. cc) (λ j. (mem-locations edges l).1 (f, n, j, found, same)) i,
          )
    | inr (n, row) ↦
        rw (row, locations, ◌∈◌)
          (
            ⊎_elim (λ same. (e, n, inl refl, row, same))
                (λ m.
                  let (f, k, i, found, same) = (mem-locations edges l).0 m in
                  (f, k, inr i, found, same)),
            λ (f, k, i, found, same).
                ⊎_elim (λ first. inl cc)
                  (λ j. inr ((mem-locations edges l).1 (f, k, j, found, same))) i,
          )
  ]

  -- `gather`: what is in the list, in which order.
  pub record IsRanked (want : Bool) (id : Text) (kind : EdgeKind) (ls : List ImplLocation)
      : Type 0 where
    pub exact : (l : ImplLocation) → (l ∈ ls) ↔ ((want ≡ true) × IsLocation id kind l)
    pub sorted : Falling ls
    pub all : List ImplLocation
    pub in_order : want ≡ true → InOrder (incoming_edges s id kind) all
    pub stable : want ≡ true → (c : Confidence) → where_rows (rated c) ls ≡ where_rows (rated c) all

  gather-IsRanked :
      (want : Bool) (id : Text) (kind : EdgeKind) → IsRanked want id kind (gather s want id kind)
  unfolding gather
  gather-IsRanked want id kind = record {
    exact = λ l. gather_exact want l;
    sorted = IsSorted-Falling _ (
        sort_by-IsSorted more_confident more_confident_total more_confident_trans
          (if want then locations s (incoming_edges s id kind) else []));
    all = locations s (incoming_edges s id kind);
    in_order = λ w. locations-InOrder (incoming_edges s id kind);
    stable = λ w c. rw w (
        where_rows-sort_by more_confident (rated c) (locations s (incoming_edges s id kind))
          (λ x y p q. ground arith));
  }
    where
      gather_exact :
          (w : Bool) (l : ImplLocation)
          → (l ∈ sort_by more_confident (if w then locations s (incoming_edges s id kind) else []))
            ↔ ((w ≡ true) × IsLocation id kind l)
      gather_exact false l = (λ m. absurd ((mem-sort_by more_confident [] l).0 m), λ (h, _). cc)
      gather_exact true l = (
        λ m.
            let (e, n, i, row, same) =
              (mem-locations (incoming_edges s id kind) l).0
                ((mem-sort_by more_confident _ l).0 m) in
            let (stored, k, t) = (mem-incoming_edges s id kind e).0 i in
            (refl, (e, n, stored, k, t, row, (cc same, cc same, cc same, cc same))),
        λ (_, (e, n, stored, k, t, row, (r, p, y, c))). (mem-sort_by more_confident _ l).1 (
            (mem-locations (incoming_edges s id kind) l).1
              (e, n, (mem-incoming_edges s id kind e).1 (stored, k, t), row, cc (r, p, y, c))),
      )

  -- what an answer says of the candidates that it comes from
  abbrev pub Answers : List Node → FindIdlImplArgs → FindIdlImplResult → Type 0
  Answers [] args r = (r.method ≡ none) × (r.implements ≡ []) × (r.invokes ≡ [])
  Answers (n ∷ _) args r =
      ((info : IdlMethodInfo) × (r.method ≡ some info)
        × (info.repo ≡ n.repo)
        × (info.path ≡ n.path)
        × (info.symbol ≡ or_default [] n.symbol)
        × (info.line ≡ n.loc_start))
      × IsRanked args.include_implements n.id implements r.implements
      × IsRanked args.include_invokes n.id invokes r.invokes

-- Without a method of that name all is empty. Else the answer gives repository, path, symbol and line
-- of the first method found, and each of its lists, if wanted, holds exactly the stored sources of
-- the edges of its kind to that method with the confidence of the edge, the highest confidence first
-- and in the order of the table among equals; a list that is not wanted is empty.
pub find_idl_impl-Answers :
    (s : Store) (like : Text → Text → Bool) (args : FindIdlImplArgs)
    → Answers s
        (find_idl_methods_by_name like s args.method args.service)
        args
        (find_idl_impl s like args)
unfolding find_idl_impl
find_idl_impl-Answers s like args =
    elim (List-cases (find_idl_methods_by_name like s args.method args.service)) [
      | inl e ↦ rw (e, find_idl_impl) (refl, refl, refl)
      | inr (n, rest, e) ↦
          rw (e, find_idl_impl)
            (
              (method_info n, refl, refl, refl, refl, refl),
              gather-IsRanked s args.include_implements n.id implements,
              gather-IsRanked s args.include_invokes n.id invokes,
            )
    ]
