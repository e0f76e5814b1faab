-- ===== src/Linker/IdlLinks/Worth.antt =====
-- What a hit is worth: `rate` and `confidence_of`, against the rules in words.
use repolayer.Prelude.Dict.{Dict}
use repolayer.Prelude.Text.{FilePath, Text, path_eq, text_eq}
use repolayer.Prelude.Lists.{length}
use repolayer.Prelude.Tests.{Bool-cases, ltb, nat_eq}
use repolayer.Prelude.{
  Bool, List, Option, ap, arith, false, inl, inr, none, not, refl, some, subst, sym, true, ℕ,
  ⊎_elim, ◌+◌, ◌↔◌, ◌≡◌, ◌≤◌, ◌⊎◌,
}
use repolayer.Graph.Model.{Confidence}
use repolayer.Linker.Calls.{SourceFile}
use repolayer.Linker.Names.{ids_of}
use repolayer.Linker.IdlLinks.{confidence_of, halved, has_lang, is_called, is_server_side, rate}
use repolayer.Linker.IdlLinks.Rules.{
  IsCalled, IsServerFile, has_lang_iff, is_called_iff, is_server_side_iff,
}

-- `conf` is `base`, or its half where more than one method has the name.
abbrev pub IsShare : ℕ → Confidence → Confidence → Type 0
IsShare many base conf = ((many ≤ 1) × (conf ≡ base)) ⊎ ((2 ≤ many) × (conf + conf ≡ base))

halved_iff :
    (many half : ℕ) (conf : Confidence)
    → (halved (ltb 1 many) (half + half) ≡ conf) ↔ IsShare many (half + half) conf
halved_iff many half conf = elim (Bool-cases (ltb 1 many)) [
  | inl t ↦ rw t (
    λ h. inr (ground (arith, t), omega (arith, h)),
    ⊎_elim (λ (le, _). absurd (ground (arith, t, le))) (λ (_, e). omega (arith, e)),
  )
  | inr f ↦ rw f (
    λ h. inl (ground (arith, f), sym h),
    ⊎_elim (λ (_, e). sym e) (λ (le, _). absurd (ground (arith, f, le))),
  )
]

rate_iff :
    (called server unknown : Bool) (many : ℕ) (conf : Confidence)
    → (rate called server unknown (ltb 1 many) ≡ some conf) ↔ (
        (base : ℕ) × (((called ≡ true) × (base ≡ 70))
          ⊎ ((called ≡ false) × ((server ≡ true) ⊎ (unknown ≡ true)) × (base ≡ 40)))
        × IsShare many base conf)
unfolding rate
rate_iff true server unknown many conf = (
  λ h. (70, inl (refl, refl), (halved_iff many 35 conf).0 (cc h)),
  λ (base, why, share).
      ⊎_elim
        (λ (_, e). ap some ((halved_iff many 35 conf).1 (subst (λ b. IsShare many b conf) e share)))
        (λ (h, _, _). cc h) why,
)
rate_iff false true unknown many conf = (
  λ h. (40, inr (refl, inl refl, refl), (halved_iff many 20 conf).0 (cc h)),
  λ (base, why, share).
      ⊎_elim (λ (h, _). cc h)
        (λ (_, _, e).
          ap some ((halved_iff many 20 conf).1 (subst (λ b. IsShare many b conf) e share)))
        why,
)
rate_iff false false true many conf = (
  λ h. (40, inr (refl, inr refl, refl), (halved_iff many 20 conf).0 (cc h)),
  λ (base, why, share).
      ⊎_elim (λ (h, _). cc h)
        (λ (_, _, e).
          ap some ((halved_iff many 20 conf).1 (subst (λ b. IsShare many b conf) e share)))
        why,
)
rate_iff false false false many conf = (
  λ h. cc h,
  λ (base, why, share).
      ⊎_elim (λ (h, _). cc h) (λ (_, why, _). ⊎_elim (λ h. cc h) (λ h. cc h) why) why,
)

module _ (digest : Text → Text) (to_lowercase : Text → Text) {Language : Type 0}
    (lang_of : FilePath → Option Language)
    (collect_call_callees : Text → Language → List Text) where
  -- A hit of `short`, which `many` methods have: 0.7 for a call, 0.4 without one in a server file or in
  -- a file of unknown language.
  abbrev pub IsWorth : SourceFile → Text → Text → ℕ → Confidence → Type 0
  IsWorth f content short many conf =
      (base : ℕ) × ((IsCalled digest to_lowercase lang_of collect_call_callees f content short
          × (base ≡ 70))
        ⊎ ((¬ IsCalled digest to_lowercase lang_of collect_call_callees f content short)
            × (IsServerFile digest to_lowercase lang_of collect_call_callees f
                ⊎ (lang_of f.path ≡ none))
            × (base ≡ 40)))
      × IsShare many base conf

  pub confidence_of_iff :
      (by_name : Dict Text (List Text)) (f : SourceFile) (content short : Text) (conf : Confidence)
      → (confidence_of digest to_lowercase lang_of collect_call_callees by_name f content short
          ≡ some conf)
        ↔ IsWorth f content short (length (ids_of short by_name)) conf
  unfolding confidence_of
  confidence_of_iff by_name f content short conf =
      let rated =
        rate_iff (is_called digest to_lowercase lang_of collect_call_callees f content short)
          (is_server_side digest to_lowercase lang_of collect_call_callees f)
          (not (has_lang digest to_lowercase lang_of collect_call_callees f))
          (length (ids_of short by_name)) conf in
      let called = is_called_iff digest to_lowercase lang_of collect_call_callees f content short in
      let server = is_server_side_iff digest to_lowercase lang_of collect_call_callees f in
      let unknown = has_lang_iff digest to_lowercase lang_of collect_call_callees f in
      (
        λ h.
            let (base, why, share) = rated.0 h in
            (
              base,
              ⊎_elim (λ (t, e). inl (called.0 t, e))
                  (λ (other, why, e). inr (
                    λ c. let t = called.1 c in cc (t, other),
                    ⊎_elim (λ t. inl (server.0 t)) (λ t. inr (unknown.0 (ground (arith, t)))) why,
                    e,
                  ))
                  why,
              share,
            ),
        λ (base, why, share). rated.1 (
          base,
          ⊎_elim (λ (c, e). inl (called.1 c, e))
              (λ (other, why, e). inr (
                not_called
                    (is_called digest to_lowercase lang_of collect_call_callees f content short)
                    (λ t. other (called.0 t)),
                ⊎_elim (λ t. inl (server.1 t)) (λ t. let u = unknown.1 t in inr (ground (arith, u)))
                    why,
                e,
              ))
              why,
          share,
        ),
      )
    where
      not_called : (b : Bool) → ¬ (b ≡ true) → b ≡ false
      not_called true h = absurd (h refl)
      not_called false h = refl
