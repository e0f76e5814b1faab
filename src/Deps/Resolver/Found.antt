-- ===== src/Deps/Resolver/Found.antt =====
-- `resolve` over the index that `build_suffix_index` makes.

use repolayer.Prelude.{
  ℕ, ◌≡◌, refl, ◌∙◌, ◌⊎◌, inl, inr, ⊎_elim, Bool, true, false, ◌&&◌, ◌||◌, Option, none, some, List,
  [], ◌∷◌, arith,
}
use repolayer.Prelude.Tests.{if◌then◌else◌, Bool-cases, Option-cases, nat_eq}
use repolayer.Prelude.Lists.{◌∈◌}
use repolayer.Prelude.Dict.{Dict, lookup, insert, keys, or_default}
use repolayer.Prelude.Text.{
  Text, FilePath, bytes, text_eq, path_eq, path_beq_iff, starts_with, strip_prefix,
}
use repolayer.Deps.Resolver.Build.{
  Lang, SuffixIndex, build_suffix_index, index_file, index_files, index_walked, from_path,
  candidates, has_packages,
}
use repolayer.Deps.Resolver.Resolve.{
  resolve, resolve_absolute, resolve_trimmed, ResolveCtx, resolve_package, find_key, is_rust,
  is_script, is_go,
}
use repolayer.Deps.Resolver.Indexed.{HasKey, build_suffix_index_exact}
use repolayer.Deps.Resolver.Closest.{IsClosest, pick_closest, pick_closest-IsClosest}
use repolayer.Deps.Resolver.Sound.{resolve-IsIndexed}
use repolayer.Deps.Resolver.Keys.{replace_byte}

keys-insert_mem :
    {V : Type 0} (k : FilePath) (v : V) (d : Dict FilePath V) (j : FilePath)
    → j ∈ keys (insert k v d)
    → (j ≡ k) ⊎ (j ∈ keys d)
unfolding insert
keys-insert_mem k v [] j m = m
keys-insert_mem k v ((i, w) ∷ d) j m = ground (arith, keys-insert_mem k v d j, path_beq_iff i k)

module _ (extract : FilePath → Lang → Option (Option Text × List Text)) where
  index_file-by_file :
      (idx : SuffixIndex) (path : FilePath) (lang : Lang) (f : FilePath)
      → f ∈ keys (index_file extract idx path lang).by_file
      → (f ≡ path) ⊎ (f ∈ keys idx.by_file)
  unfolding index_file
  index_file-by_file idx path lang f = elim (Option-cases (strip_prefix path idx.root)) [
    | inl e ↦ rw (e, index_file) (keys-insert_mem path _ idx.by_file f)
    | inr (rel, e) ↦ rw (e, index_file) (keys-insert_mem path _ idx.by_file f)
  ]

  index_walked-by_file :
      (idx : SuffixIndex) (path : FilePath) (o : Option Lang) (f : FilePath)
      → f ∈ keys (index_walked extract idx path o).by_file
      → (f ≡ path) ⊎ (f ∈ keys idx.by_file)
  unfolding index_walked
  index_walked-by_file idx path none f m = inr m
  index_walked-by_file idx path (some lang) f m = index_file-by_file idx path lang f m

  index_files-by_file :
      (idx : SuffixIndex) (walked : List FilePath) (f : FilePath)
      → f ∈ keys (index_files extract idx walked).by_file
      → (f ∈ walked) ⊎ (f ∈ keys idx.by_file)
  unfolding index_files
  index_files-by_file idx [] f m = inr m
  index_files-by_file idx (path ∷ walked) f m =
      ⊎_elim (λ i. inl (inr i))
        (λ i.
          ⊎_elim (λ same. inl (inl same)) inr (index_walked-by_file idx path (from_path path) f i))
        (index_files-by_file (index_walked extract idx path (from_path path)) walked f m)

  by_file_walked :
      (root : FilePath) (walked : List FilePath) (f : FilePath)
      → f ∈ keys (build_suffix_index extract root walked).by_file
      → f ∈ walked
  unfolding build_suffix_index
  by_file_walked root walked f m =
      ⊎_elim (λ i. i) (λ i. absurd i)
        (index_files-by_file (record { by_suffix = []; by_file = []; root = root }) walked f m)

  -- the candidates of a key that some walked file has
  key_found :
      (root : FilePath) (walked : List FilePath) (from_file : FilePath) (key : Text)
      (file : FilePath)
      → file ∈ walked
      → HasKey extract root key file
      → (q : FilePath) × (find_key (build_suffix_index extract root walked) from_file key ≡ some q)
        × (q ∈ walked)
        × HasKey extract root key q
        × IsClosest from_file q
            (or_default [] (candidates (build_suffix_index extract root walked) key))
  key_found root walked from_file key file i has =
      go (candidates (build_suffix_index extract root walked) key) refl
        ((build_suffix_index_exact extract root walked key file).1 (i, has))
    where
      go :
          (o : Option (List FilePath))
          → candidates (build_suffix_index extract root walked) key ≡ o
          → file ∈ or_default [] o
          → (q : FilePath) × (pick_closest o from_file ≡ some q)
            × (q ∈ walked)
            × HasKey extract root key q
            × IsClosest from_file q (or_default [] o)
      go none e m = absurd m
      go (some []) e m = absurd m
      go (some (c ∷ cands)) e m =
          let (q, picked, closest) = (pick_closest-IsClosest from_file c cands).2 in
          let at = (build_suffix_index_exact extract root walked key q).0 (rw e closest.0) in
          (q, picked, at.0, at.1, closest)

if_false : {A : Type 0} (b : Bool) (x y : A) → b ≡ false → (if b then x else y) ≡ y
if_false true x y e = cc
if_false false x y e = refl

module _ (trim : Text → Text) (to_path : Text → FilePath) (display : FilePath → Text)
    (is_file : FilePath → Bool) where
  absolute_found :
      (idx : SuffixIndex) (spec : Text) (ctx : ResolveCtx) (q : FilePath)
      → is_script ctx.lang ≡ false
      → is_go ctx.lang ≡ false
      → find_key idx ctx.from_file (replace_byte 46 47 spec) ≡ some q
      → resolve_absolute trim to_path display is_file spec ctx idx ≡ some q
  unfolding resolve_absolute resolve_package
  absolute_found idx spec ctx q no_script no_go found = elim (Bool-cases (has_packages ctx.lang)) [
    | inl t ↦ rw (no_script, no_go, t, found, resolve_absolute, resolve_package) refl
    | inr f ↦ rw (no_script, no_go, f, found, resolve_absolute) refl
  ]

  trimmed_found :
      (idx : SuffixIndex) (b : ℕ) (spec : Text) (ctx : ResolveCtx) (q : FilePath)
      → is_rust ctx.lang ≡ false
      → is_script ctx.lang ≡ false
      → is_go ctx.lang ≡ false
      → starts_with (b ∷ spec) (bytes "./") ≡ false
      → starts_with (b ∷ spec) (bytes "../") ≡ false
      → find_key idx ctx.from_file (replace_byte 46 47 (b ∷ spec)) ≡ some q
      → resolve_trimmed trim to_path display is_file (b ∷ spec) ctx idx ≡ some q
  unfolding resolve_trimmed
  trimmed_found idx b spec ctx q no_rust no_script no_go here up found =
      if_false (is_rust ctx.lang) _ _ no_rust
      ∙ if_false (starts_with (b ∷ spec) (bytes "./") || starts_with (b ∷ spec) (bytes "../")) _ _
          (rw (here, up) refl)
      ∙ if_false (is_script ctx.lang && starts_with (b ∷ spec) (bytes ".")) _ _ (rw no_script refl)
      ∙ absolute_found idx (b ∷ spec) ctx q no_script no_go found

-- An import of Python or of a language with packages that is not relative, whose dots made slashes
-- give a key of some walked file, resolves, to a walked file with that key that is closest to the
-- importer among the candidates.
pub resolve_finds :
    (extract : FilePath → Lang → Option (Option Text × List Text)) (trim : Text → Text)
    (to_path : Text → FilePath) (display : FilePath → Text) (is_file : FilePath → Bool)
    (root : FilePath) (walked : List FilePath) (spec : Text) (ctx : ResolveCtx) (b : ℕ)
    (rest : Text) (file : FilePath)
    → is_rust ctx.lang ≡ false
    → is_script ctx.lang ≡ false
    → is_go ctx.lang ≡ false
    → trim spec ≡ b ∷ rest
    → starts_with (b ∷ rest) (bytes "./") ≡ false
    → starts_with (b ∷ rest) (bytes "../") ≡ false
    → file ∈ walked
    → HasKey extract root (replace_byte 46 47 (b ∷ rest)) file
    → (q : FilePath) × (resolve trim to_path display is_file spec ctx
          (build_suffix_index extract root walked)
        ≡ some q)
      × (q ∈ walked)
      × HasKey extract root (replace_byte 46 47 (b ∷ rest)) q
      × IsClosest ctx.from_file q (
          or_default []
            (candidates (build_suffix_index extract root walked) (replace_byte 46 47 (b ∷ rest))))
unfolding resolve
resolve_finds extract trim to_path display is_file root walked spec ctx b rest file no_rust
      no_script no_go trimmed here up i has =
    let idx = build_suffix_index extract root walked in
    let (q, found, walked_q, has_q, closest_q) =
      key_found extract root walked ctx.from_file (replace_byte 46 47 (b ∷ rest)) file i has in
    (
      q,
      rw (trimmed, resolve)
          (trimmed_found trim to_path display is_file idx b rest ctx q no_rust no_script no_go here
            up found),
      walked_q,
      has_q,
      closest_q,
    )

-- Whatever the import and the language, a path that `resolve` returns over a built index is a file of
-- the file system or one of the walked files.
pub resolve_sound :
    (extract : FilePath → Lang → Option (Option Text × List Text)) (trim : Text → Text)
    (to_path : Text → FilePath) (display : FilePath → Text) (is_file : FilePath → Bool)
    (root : FilePath) (walked : List FilePath) (spec : Text) (ctx : ResolveCtx) (p : FilePath)
    → resolve trim to_path display is_file spec ctx (build_suffix_index extract root walked)
      ≡ some p
    → (is_file p ≡ true) ⊎ (p ∈ walked)
unfolding candidates lookup
resolve_sound extract trim to_path display is_file root walked spec ctx p e =
    let idx = build_suffix_index extract root walked in
    ⊎_elim inl
      (λ known. inr (
        ⊎_elim (λ (key, m). ((build_suffix_index_exact extract root walked key p).0 m).0)
          (by_file_walked extract root walked p) known))
      (resolve-IsIndexed trim to_path display is_file idx spec ctx p e)
