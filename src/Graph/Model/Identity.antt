-- ===== src/Graph/Model/Identity.antt =====
-- What an id tells apart.
use repolayer.Prelude.{◌≡◌, ◌↔◌, inl, inr, Option, [], ◌∷◌, ◌++◌, arith}
use repolayer.Prelude.Tests.{nat_eq}
use repolayer.Prelude.Lists.{◌∈◌}
use repolayer.Prelude.Dict.{or_default}
use repolayer.Prelude.Text.{Text, text_eq, path_eq}
use repolayer.Graph.Model.{NodeKind, id_tag, id_input}

-- no NUL byte
abbrev pub NoNul : Text → Type 0
NoNul t = ¬ (0 ∈ t)

-- Two texts without NUL in front of a NUL are equal, and so is what follows.
split_at_nul :
    (a b r s : Text) → NoNul a → NoNul b → a ++ (0 ∷ r) ≡ b ++ (0 ∷ s) → (a ≡ b) × (r ≡ s)
split_at_nul [] [] r s ha hb e = ground arith
split_at_nul [] (y ∷ b) r s ha hb e = absurd (hb (inl (ground arith)))
split_at_nul (x ∷ a) [] r s ha hb e = absurd (ha (inl (ground arith)))
split_at_nul (x ∷ a) (y ∷ b) r s ha hb e =
    let (p, q) = split_at_nul a b r s (λ m. ha (inr m)) (λ m. hb (inr m)) (ground arith) in
    (ground arith, q)

id_tag-NoNul : (k : NodeKind) → NoNul (id_tag k)
unfolding id_tag
id_tag-NoNul NodeKind.repo_node m = ground arith
id_tag-NoNul _ m = ground arith

id_tag-injective : (a b : NodeKind) → id_tag a ≡ id_tag b → a ≡ b
unfolding id_tag
id_tag-injective a b e = ground arith

-- The hashed bytes of two nodes whose repository names and paths hold no NUL are equal exactly when
-- the kinds, repositories and paths are equal and the symbols are, an absent symbol counting as the
-- empty one.
pub id_input_injective :
    (k j : NodeKind) (r s p q : Text) (x y : Option Text)
    → NoNul r
    → NoNul s
    → NoNul p
    → NoNul q
    → (id_input k r p x ≡ id_input j s q y)
      ↔ ((k ≡ j) × (r ≡ s) × (p ≡ q) × (or_default [] x ≡ or_default [] y))
unfolding id_input
id_input_injective k j r s p q x y hr hs hp hq = (
  λ e.
      let (tags, rest) = split_at_nul _ _ _ _ (id_tag-NoNul k) (id_tag-NoNul j) e in
      let (repos, rest') = split_at_nul r s _ _ hr hs rest in
      let (paths, symbols) = split_at_nul p q _ _ hp hq rest' in
      (id_tag-injective k j tags, repos, paths, symbols),
  λ (kinds, repos, paths, symbols). cc,
)
