-- ===== src/Linker/IdlLinks/Hits.antt =====
-- What one hit of a name in a file is worth, and the edges that it gives.
use repolayer.Linker.IdlLinks.{confidence_of, hit_edges, rate, halved, idl_edge}
use repolayer.Prelude.{
  ℕ, ◌≤◌, ◌≡◌, refl, sym, ap, ◌∙◌, subst, ◌↔◌, inl, inr, Bool, true, false, Option, some, List, map,
  arith,
}
use repolayer.Prelude.Tests.{if◌then◌else◌, Option-cases, nat_eq}
use repolayer.Prelude.Lists.{get_elem?, ◌∈◌, mem-map-cases, mem-map}
use repolayer.Prelude.Dict.{Dict}
use repolayer.Prelude.Text.{Text, FilePath, text_eq, path_eq}
use repolayer.Linker.Calls.{SourceFile}
use repolayer.Graph.Model.{Confidence, Edge}
use repolayer.Linker.Names.{ids_of}

-- the confidences in use: in a call, by the path or the language alone, and their halves
pub rate-some :
    (in_call server unknown ambiguous : Bool) (conf : Confidence)
    → rate in_call server unknown ambiguous ≡ some conf
    → (conf ≡ halved ambiguous (if in_call then 70 else 40)) × (20 ≤ conf) × (conf ≤ 70)
unfolding rate
rate-some true server unknown true conf h =
    let e : 35 ≡ conf = cc h in (sym e, omega (arith, e), omega (arith, e))
rate-some true server unknown false conf h =
    let e : 70 ≡ conf = cc h in (sym e, omega (arith, e), omega (arith, e))
rate-some false true unknown true conf h =
    let e : 20 ≡ conf = cc h in (sym e, omega (arith, e), omega (arith, e))
rate-some false true unknown false conf h =
    let e : 40 ≡ conf = cc h in (sym e, omega (arith, e), omega (arith, e))
rate-some false false true true conf h =
    let e : 20 ≡ conf = cc h in (sym e, omega (arith, e), omega (arith, e))
rate-some false false true false conf h =
    let e : 40 ≡ conf = cc h in (sym e, omega (arith, e), omega (arith, e))
rate-some false false false ambiguous conf h = cc h

module _ (digest : Text → Text) (to_lowercase : Text → Text) {Language : Type 0}
    (lang_of : FilePath → Option Language)
    (collect_call_callees : Text → Language → List Text) where
  pub mem-hit_edges :
      (names : List Text) (by_name : Dict Text (List Text)) (f : SourceFile) (content : Text)
      (hit : ℕ) (e : Edge)
      → (e ∈ hit_edges digest to_lowercase lang_of collect_call_callees names by_name f content hit)
        ↔ ((short : Text) × (conf : Confidence) × (id : Text) × (get_elem? names hit ≡ some short)
            × (confidence_of digest to_lowercase lang_of collect_call_callees by_name f content
                  short
                ≡ some conf)
            × (id ∈ ids_of short by_name)
            × (e ≡ idl_edge digest to_lowercase lang_of collect_call_callees f conf id))
  unfolding hit_edges
  mem-hit_edges names by_name f content hit e = elim (Option-cases (get_elem? names hit)) [
    | inl absent ↦ rw (absent, hit_edges) (λ m. absurd m, λ (short, conf, id, h, _, _, _). cc h)
    | inr (short, there) ↦
        elim (Option-cases (
          confidence_of digest to_lowercase lang_of collect_call_callees by_name f content short)) [
            | inl unsure ↦
                rw (there, unsure, hit_edges)
                  (λ m. absurd m, λ (other, conf, id, h, sure, _, _). cc (h, sure, unsure))
            | inr (conf, sure) ↦
                rw (there, sure, hit_edges)
                  (
                    λ m.
                        let (id, i, same) =
                          mem-map-cases
                            (idl_edge digest to_lowercase lang_of collect_call_callees f conf)
                            (ids_of short by_name) e m in
                        (short, conf, id, refl, sure, i, same),
                    λ (other, c, id, h, sure_other, i, same).
                        let same_short : other ≡ short = cc h in
                        let same_conf : c ≡ conf = cc (same_short, sure, sure_other) in
                        subst
                          (λ x.
                            x
                            ∈ map (idl_edge digest to_lowercase lang_of collect_call_callees f conf)
                                (ids_of short by_name))
                          (sym (
                            same
                            ∙ ap
                                (λ x.
                                  idl_edge digest to_lowercase lang_of collect_call_callees f x id)
                                same_conf))
                          (mem-map
                            (idl_edge digest to_lowercase lang_of collect_call_callees f conf)
                            (ids_of short by_name) id
                            (subst (λ x. id ∈ ids_of x by_name) same_short i)),
                  )
          ]
  ]
