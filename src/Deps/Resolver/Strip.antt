-- ===== src/Deps/Resolver/Strip.antt =====
-- The loops over the text of an import end with nothing left to do: the fuel is enough.
use mathlib.Core.List.{append_assoc}
use repolayer.Prelude.{
  ℕ, zero, suc, ◌≤◌, ◌≡◌, refl, sym, ap, ◌∙◌, subst, ◌↔◌, ◌⊎◌, inl, inr, ⊎_elim, none, some, [],
  ◌∷◌, ◌++◌, arith,
}
use repolayer.Prelude.Tests.{Option-cases, nat_eq, beq-cases}
use repolayer.Prelude.Lists.{length, ◌∈◌, length-append, mem-append_right}
use repolayer.Prelude.Text.{Text, text_eq, path_eq}
use repolayer.Deps.Resolver.Keys.{
  rsplit_once, strip_repeat, strip_text, shorter_from, shorter_keys, strip_all,
}

-- `p` repeated `n` times in front of `s`
abbrev pub repeated : ℕ → Text → Text → Text
repeated zero p s = s
repeated (suc n) p s = p ++ repeated n p s

strip_text-some : (s p r : Text) → strip_text s p ≡ some r → s ≡ p ++ r
unfolding strip_text
strip_text-some s [] r h = cc
strip_text-some [] (b ∷ p) r h = cc
strip_text-some (c ∷ s) (b ∷ p) r h = ground (arith, strip_text-some s p r)

strip_repeat_done :
    (fuel b : ℕ) (p s : Text)
    → length s ≤ fuel
    → (strip_text (strip_repeat fuel (b ∷ p) s).1 (b ∷ p) ≡ none)
      × (s ≡ repeated (strip_repeat fuel (b ∷ p) s).0 (b ∷ p) (strip_repeat fuel (b ∷ p) s).1)
unfolding strip_repeat strip_text
strip_repeat_done zero b p [] h = (refl, refl)
strip_repeat_done zero b p (c ∷ s) h = absurd (omega arith)
strip_repeat_done (suc fuel) b p s h = elim (Option-cases (strip_text s (b ∷ p))) [
  | inl e ↦ rw (e, strip_repeat) (e, refl)
  | inr (r, e) ↦
      let split = strip_text-some s (b ∷ p) r e in
      let rest =
        strip_repeat_done fuel b p r (omega (arith, h, ap length split, length-append p r)) in
      rw (e, strip_repeat) (rest.0, split ∙ ap (λ t. (b ∷ p) ++ t) rest.1)
]

-- the last `c` of a text, if it has one
rsplit_once-cases :
    (c : ℕ) (s : Text)
    → ((rsplit_once c s ≡ none) × (¬ (c ∈ s)))
      ⊎ ((before : Text) × (after : Text) × (rsplit_once c s ≡ some (before, after))
          × (s ≡ before ++ c ∷ after)
          × (¬ (c ∈ after)))
unfolding rsplit_once
rsplit_once-cases c [] = inl (refl, λ m. m)
rsplit_once-cases c (d ∷ s) =
    ⊎_elim
      (λ (e, absent). elim (beq-cases d c) [
        | inl (t, same) ↦ inr (rw (e, t, rsplit_once) ([], s, refl, ap (λ x. x ∷ s) same, absent))
        | inr (f, other) ↦
            inl (rw (e, f, rsplit_once) (refl, ⊎_elim (λ same. other (sym same)) absent))
      ])
      (λ (before, after, e, split, absent).
        inr (rw (e, rsplit_once) (d ∷ before, after, refl, ap (λ t. d ∷ t) split, absent)))
      (rsplit_once-cases c s)

-- Two ways to cut a text at a `c`, the second at the last one.
cut_before :
    (c : ℕ) (k r b a : Text)
    → k ++ c ∷ r ≡ b ++ c ∷ a
    → ¬ (c ∈ a)
    → (k ≡ b) ⊎ ((r' : Text) × (b ≡ k ++ c ∷ r'))
cut_before c [] r [] a e last = inl refl
cut_before c [] r (d ∷ b) a e last = inr (b, ap (λ x. x ∷ b) (sym (head_eq e)))
  where
    head_eq : {x y : ℕ} {s t : Text} → x ∷ s ≡ y ∷ t → x ≡ y
    head_eq h = cc h
cut_before c (x ∷ k) r [] a e last =
    absurd (last (subst (λ t. c ∈ t) (tail_eq e) (mem-append_right c k (c ∷ r) (inl refl))))
  where
    tail_eq : {x y : ℕ} {s t : Text} → x ∷ s ≡ y ∷ t → s ≡ t
    tail_eq h = cc h
cut_before c (x ∷ k) r (d ∷ b) a e last =
    ⊎_elim (λ same. inl (cc (e, same))) (λ (r', same). inr (r', cc (e, same)))
      (cut_before c k r b a (cc e) last)

shorter_from_exact :
    (fuel : ℕ) (key k : Text)
    → length key ≤ fuel
    → (k ∈ shorter_from fuel key) ↔ ((r : Text) × (key ≡ k ++ 47 ∷ r))
unfolding shorter_from
shorter_from_exact zero [] [] h = (λ m. absurd m, λ (r, e). cc)
shorter_from_exact zero [] (b ∷ k) h = (λ m. absurd m, λ (r, e). cc)
shorter_from_exact zero (b ∷ key) k h = absurd (omega arith)
shorter_from_exact (suc fuel) key k h = elim (rsplit_once-cases 47 key) [
  | inl (e, absent) ↦
      rw (e, shorter_from)
        (
          λ m. absurd m,
          λ (r, cut). absurd (absent (rw cut (mem-append_right 47 k (47 ∷ r) (inl refl)))),
        )
  | inr (before, after, e, split, last) ↦
      let rest =
        shorter_from_exact fuel before k
          (omega (arith, h, ap length split, length-append before (47 ∷ after))) in
      rw (e, shorter_from)
        (
          ⊎_elim (λ same. (after, rw same split))
              (λ m.
                let (r, cut) = rest.0 m in
                (
                  r ++ 47 ∷ after,
                  split ∙ ap (λ t. t ++ 47 ∷ after) cut ∙ append_assoc k (47 ∷ r) (47 ∷ after),
                )),
          λ (r, cut).
              ⊎_elim inl (λ (r', longer). inr (rest.1 (r', longer)))
                (cut_before 47 k r before after (sym cut ∙ split) last),
        )
]

-- The loops over the text of an import end: stripping a non-empty prefix leaves a text without it,
-- and puts back together to the text; the shorter keys that are tried in turn are exactly the texts
-- in front of a slash of the key.
pub loops_end :
    (b : ℕ) (p s k : Text)
    → (strip_text (strip_all (b ∷ p) s).1 (b ∷ p) ≡ none)
      × (s ≡ repeated (strip_all (b ∷ p) s).0 (b ∷ p) (strip_all (b ∷ p) s).1)
      × ((k ∈ shorter_keys s) ↔ ((r : Text) × (s ≡ k ++ 47 ∷ r)))
unfolding shorter_keys
loops_end b p s k =
    let done = strip_repeat_done (length s) b p s (omega arith) in
    (done.0, done.1, shorter_from_exact (length s) s k (omega arith))
