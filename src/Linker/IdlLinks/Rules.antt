-- ===== src/Linker/IdlLinks/Rules.antt =====
-- What the tests of the scan decide: the side of a file, a call, the short name of a method.
use repolayer.Prelude.Dict.{contains_iff}
use repolayer.Prelude.Text.{
  Occurs, contains_text, contains_text_iff, FilePath, Text, path_eq, text_beq_iff, text_eq,
}
use repolayer.Prelude.Lists.{All, length, ◌∈◌}
use repolayer.Prelude.Tests.{Bool-cases, Option-cases, beq-cases, beq_of_ne, beq_refl, nat_eq}
use repolayer.Prelude.{
  List, Option, [], ap, arith, false, inl, inr, none, refl, some, subst, sym, true, ℕ, ⊎_elim, ◌++◌,
  ◌↔◌, ◌∙◌, ◌∷◌, ◌≡◌, ◌≤◌, ◌⊎◌,
}
use repolayer.Deps.Resolver.Keys.{is_any, rsplit_once}
use repolayer.Graph.Model.{Node}
use repolayer.Linker.Calls.{SourceFile, is_noise_name}
use repolayer.Linker.Calls.Unique.{is_noise_name_iff}
use repolayer.Linker.ImportsToRepo.{relpath}
use repolayer.Linker.ImportsToRepo.RelPath.{IsRelPath, relpath_iff}
use repolayer.Linker.IdlLinks.{
  backend_exts, extension, has_any_infix, has_lang, is_called, is_server_side, path_suggests_server,
  server_dirs, short_name, short_name_of,
}

is_any_iff : (t : Text) (xs : List Text) → (is_any t xs ≡ true) ↔ (t ∈ xs)
unfolding is_any
is_any_iff t [] = (λ h. cc, λ m. absurd m)
is_any_iff t (x ∷ xs) = ground (arith, text_beq_iff t x, is_any_iff t xs)

has_any_infix_iff :
    (ps : List Text) (s : Text) → (has_any_infix ps s ≡ true) ↔ ((p : Text) × (p ∈ ps) × Occurs p s)
unfolding has_any_infix
has_any_infix_iff [] s = (λ h. cc, λ (p, i, _). absurd i)
has_any_infix_iff (q ∷ ps) s = (
  λ h. elim (Bool-cases (contains_text s q)) [
    | inl t ↦ (q, inl refl, (contains_text_iff s q).0 t)
    | inr f ↦ let (p, i, o) = (has_any_infix_iff ps s).0 (ground (arith, h, f)) in (p, inr i, o)
  ],
  λ (p, i, o).
      ⊎_elim
        (λ same.
          let t = (contains_text_iff s q).1 (subst (λ x. Occurs x s) same o) in ground (arith, t))
        (λ j. let t = (has_any_infix_iff ps s).1 (p, j, o) in ground (arith, t)) i,
)

-- `rsplit_once` splits at the last `c`.
rsplit_once-absent : (c : ℕ) (s : Text) → ¬ (c ∈ s) → rsplit_once c s ≡ none
unfolding rsplit_once
rsplit_once-absent c [] h = refl
rsplit_once-absent c (b ∷ s) h =
    rw (rsplit_once-absent c s (λ m. h (inr m)), beq_of_ne b c (λ e. h (inl (sym e)))) refl

rsplit_once-split :
    (c : ℕ) (before after : Text)
    → ¬ (c ∈ after)
    → rsplit_once c (before ++ c ∷ after) ≡ some (before, after)
unfolding rsplit_once
rsplit_once-split c [] after h = rw (rsplit_once-absent c after h, beq_refl c) refl
rsplit_once-split c (b ∷ before) after h = rw (rsplit_once-split c before after h) refl

rsplit_once-none : (c : ℕ) (s : Text) → rsplit_once c s ≡ none → ¬ (c ∈ s)
unfolding rsplit_once
rsplit_once-none c [] h m = m
rsplit_once-none c (b ∷ s) h m = elim (Option-cases (rsplit_once c s)) [
  | inl e ↦ elim (beq-cases b c) [
    | inl (t, same) ↦ cc (rw (e, t) at h)
    | inr (f, other) ↦ ⊎_elim (λ same. other (sym same)) (rsplit_once-none c s e) m
  ]
  | inr (_, e) ↦ cc (rw e at h)
]

rsplit_once-some :
    (c : ℕ) (s before after : Text)
    → rsplit_once c s ≡ some (before, after)
    → (¬ (c ∈ after)) × (s ≡ before ++ c ∷ after)
unfolding rsplit_once
rsplit_once-some c [] before after h = cc h
rsplit_once-some c (b ∷ s) before after h = elim (Option-cases (rsplit_once c s)) [
  | inl e ↦ elim (beq-cases b c) [
    | inl (t, same) ↦
        let h' : some ([], s) ≡ some (before, after) = rw (e, t) at h in
        let absent = rsplit_once-none c s e in
        (subst (λ x. ¬ (c ∈ x)) (cc h') absent, cc (h', same))
    | inr (f, other) ↦ cc (rw (e, f) at h)
  ]
  | inr ((front, back), e) ↦
      let h' : some (b ∷ front, back) ≡ some (before, after) = rw e at h in
      let (absent, split) = rsplit_once-some c s front back e in
      (subst (λ x. ¬ (c ∈ x)) (cc h') absent, cc (h', split))
]

-- `short` is what follows the last dot of `qualified`, or all of it.
abbrev pub IsLastSegment : Text → Text → Type 0
IsLastSegment qualified short =
    (¬ (46 ∈ short))
    × ((qualified ≡ short) ⊎ ((before : Text) × (qualified ≡ before ++ 46 ∷ short)))

short_name_iff :
    (qualified short : Text) → (short_name qualified ≡ short) ↔ IsLastSegment qualified short
short_name_iff qualified short = (
  λ h. elim (Option-cases (rsplit_once 46 qualified)) [
    | inl e ↦
        let same : qualified ≡ short = rw (e, short_name) at h in
        (subst (λ x. ¬ (46 ∈ x)) same (rsplit_once-none 46 qualified e), inl same)
    | inr ((before, after), e) ↦
        let same : after ≡ short = rw (e, short_name) at h in
        let (absent, split) = rsplit_once-some 46 qualified before after e in
        (subst (λ x. ¬ (46 ∈ x)) same absent, inr (before, split ∙ ap (λ x. before ++ 46 ∷ x) same))
  ],
  λ (absent, whole).
      ⊎_elim
        (λ same.
          subst (λ q. short_name q ≡ short) (sym same)
            (rw (short_name, rsplit_once-absent 46 short absent) refl))
        (λ (before, e). rw (short_name, e, rsplit_once-split 46 before short absent) refl) whole,
)

-- `short` is the short name of the method `n`: of at least four bytes, not all lowercase letters.
pub record IsShortOf (short : Text) (n : Node) : Type 0 where
  pub qualified : Text
  pub named : n.symbol ≡ some qualified
  pub last : IsLastSegment qualified short
  pub long : 4 ≤ length short
  pub mixed : ¬ All (λ b. (97 ≤ b) × (b ≤ 122)) short

pub short_name_of_iff :
    (n : Node) (short : Text) → (short_name_of n ≡ some short) ↔ IsShortOf short n
unfolding short_name_of
short_name_of_iff n short = elim (Option-cases n.symbol) [
  | inl e ↦ rw (short_name_of, e) (λ h. cc, λ i. cc (e, i.named))
  | inr (qualified, e) ↦ elim (Bool-cases (is_noise_name (short_name qualified))) [
    | inl noise ↦
        rw (short_name_of, e, noise)
          (
            λ h. cc,
            λ i.
                let q : i.qualified ≡ qualified = cc (e, i.named) in
                let same = (short_name_iff i.qualified short).1 i.last in
                let fine = (is_noise_name_iff short).1 (i.long, i.mixed) in
                cc (noise, fine, q, same),
          )
    | inr fine ↦
        rw (short_name_of, e, fine)
          (
            λ h.
                let same : short_name qualified ≡ short = cc h in
                let (long, mixed) =
                  (is_noise_name_iff short).0 (subst (λ x. is_noise_name x ≡ false) same fine) in
                record {
                  qualified = qualified;
                  named = refl;
                  last = (short_name_iff qualified short).0 same;
                  long = long;
                  mixed = mixed;
                },
            λ i.
                let q : i.qualified ≡ qualified = cc (e, i.named) in
                let same = (short_name_iff i.qualified short).1 i.last in cc (q, same),
          )
  ]
]

module _ (digest : Text → Text) (to_lowercase : Text → Text) {Language : Type 0}
    (lang_of : FilePath → Option Language)
    (collect_call_callees : Text → Language → List Text) where
  -- A backend file in a server directory.
  abbrev pub IsServerFile : SourceFile → Type 0
  IsServerFile f =
      (extension f.path ∈ backend_exts)
      × ((rel : Text) × IsRelPath f.path f.root rel
          × ((dir : Text) × (dir ∈ server_dirs) × Occurs dir (to_lowercase rel)))

  pub is_server_side_iff :
      (f : SourceFile)
      → (is_server_side digest to_lowercase lang_of collect_call_callees f ≡ true) ↔ IsServerFile f
  unfolding is_server_side path_suggests_server
  is_server_side_iff f =
      let dirs = has_any_infix_iff server_dirs (to_lowercase (relpath f.path f.root)) in
      let exts = is_any_iff (extension f.path) backend_exts in
      (
        λ h. (
          exts.0 (ground (arith, h)),
          (relpath f.path f.root, (relpath_iff f.path f.root _).0 refl, dirs.0 (ground (arith, h))),
        ),
        λ (i, (rel, below, (dir, j, o))).
            let same = (relpath_iff f.path f.root rel).1 below in
            let t = exts.1 i in
            let u = dirs.1 (dir, j, subst (λ r. Occurs dir (to_lowercase r)) same o) in
            ground (arith, t, u),
      )

  -- The parser finds a call of `short` in the content of the file.
  abbrev pub IsCalled : SourceFile → Text → Text → Type 0
  IsCalled f content short =
      (lang : Language) × (lang_of f.path ≡ some lang) × (short ∈ collect_call_callees content lang)

  pub is_called_iff :
      (f : SourceFile) (content short : Text)
      → (is_called digest to_lowercase lang_of collect_call_callees f content short ≡ true)
        ↔ IsCalled f content short
  unfolding is_called
  is_called_iff f content short = elim (Option-cases (lang_of f.path)) [
    | inl e ↦ rw (is_called, e) (λ h. cc, λ (lang, known, _). cc (e, known))
    | inr (lang, e) ↦
        rw (is_called, e)
          (
            λ h. (lang, refl, (contains_iff (collect_call_callees content lang) short).0 h),
            λ (other, known, i).
                let same : other ≡ lang = cc known in
                (contains_iff (collect_call_callees content lang) short).1
                  (subst (λ l. short ∈ collect_call_callees content l) same i),
          )
  ]

  pub has_lang_iff :
      (f : SourceFile)
      → (has_lang digest to_lowercase lang_of collect_call_callees f ≡ false)
        ↔ (lang_of f.path ≡ none)
  has_lang_iff f = elim (Option-cases (lang_of f.path)) [
    | inl e ↦ rw (has_lang, e) (λ h. refl, λ h. refl)
    | inr (lang, e) ↦ rw (has_lang, e) (λ h. cc, λ h. cc)
  ]
