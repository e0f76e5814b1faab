-- ===== src/Deps/Resolver/Sound.antt =====
-- What `resolve` returns, on every path through it.
use repolayer.Prelude.{
  ℕ, ◌≡◌, refl, subst, ◌⊎◌, inl, inr, Bool, true, false, ◌&&◌, ◌||◌, Option, none, some, List, [],
  ◌∷◌, ◌++◌,
}
use repolayer.Prelude.Tests.{ltb, if◌then◌else◌, Bool-cases, ◌==◌, nat_eq}
use repolayer.Prelude.Lists.{◌∈◌}
use repolayer.Prelude.Dict.{lookup, keys}
use repolayer.Prelude.Text.{
  Text, FilePath, bytes, text_eq, path_eq, starts_with, strip_prefix, join_slash,
}
use repolayer.Deps.Resolver.Build.{SuffixIndex, candidates, has_packages}
use repolayer.Deps.Resolver.Resolve.{
  first_file, first_key, least_in_dir, or_else, resolve_relative, resolve_relative_path, ResolveCtx,
  find_key, lesser, is_in_dir, target_of, resolve, resolve_absolute, resolve_alias, resolve_go,
  resolve_package, resolve_rust, resolve_trimmed, target_with, find_dir_file, is_rust, is_script,
  resolve_with_fallback, is_go,
}
use repolayer.Deps.Resolver.Closest.{pick_closest, closest, closest_mem, path_ltb}
use repolayer.Deps.Resolver.Paths.{parent, ascend, join}
use repolayer.Deps.Resolver.Keys.{
  strip_all, replace_byte, strip_text, rsplit_once, shorter_keys, trim_dot_slash, trim_quotes,
  replace_colons,
}
use repolayer.Deps.Resolver.Keyed.{listed}

-- a path of the index: a candidate of a key, or a file of its own
abbrev pub IsIndexed : SuffixIndex → FilePath → Type 0
IsIndexed idx p = ((key : Text) × (p ∈ listed key idx.by_suffix)) ⊎ (p ∈ keys idx.by_file)

module _ (trim : Text → Text) (to_path : Text → FilePath) (display : FilePath → Text)
    (is_file : FilePath → Bool) (idx : SuffixIndex) where
  -- what is returned, if anything, is a file or is in the index
  record Ok (o : Option FilePath) : Type 0 where
    good : (p : FilePath) → o ≡ some p → (is_file p ≡ true) ⊎ IsIndexed idx p

  none-Ok : Ok none
  none-Ok = record { good = λ p e. cc }

  or_else-Ok : (a b : Option FilePath) → Ok a → Ok b → Ok (or_else a b)
  or_else-Ok none b h k = k
  or_else-Ok (some a) b h k = h

  if-Ok : (b : Bool) (x y : Option FilePath) → Ok x → Ok y → Ok (if b then x else y)
  if-Ok true x y h k = h
  if-Ok false x y h k = k

  elim-Ok :
      {A : Type 0} (o : Option A) (d : Option FilePath) (f : A → Option FilePath)
      → Ok d
      → ((a : A) → Ok (f a))
      → Ok (elim o [ none ↦ d | some a ↦ f a ])
  elim-Ok none d f h k = h
  elim-Ok (some a) d f h k = k a

  pick_closest-Ok :
      (from_file : FilePath) (key : Text) (o : Option (List FilePath))
      → lookup key idx.by_suffix ≡ o
      → Ok (pick_closest o from_file)
  unfolding pick_closest lookup
  pick_closest-Ok from_file key none e = none-Ok
  pick_closest-Ok from_file key (some []) e = none-Ok
  pick_closest-Ok from_file key (some (c ∷ cands)) e = record {
    good = λ p same. inr (
        inl (
          key,
          rw e (subst (λ q. q ∈ (c ∷ cands)) (picked p same) (closest_mem from_file c cands)),
        ));
  }
    where
      picked :
          (p : FilePath) → some (closest from_file c cands) ≡ some p → closest from_file c cands ≡ p
      picked p same = cc same

  find_key-Ok : (from_file : FilePath) (key : Text) → Ok (find_key idx from_file key)
  unfolding candidates
  find_key-Ok from_file key = pick_closest-Ok from_file key (lookup key idx.by_suffix) refl

  first_key-Ok : (from_file : FilePath) (keys : List Text) → Ok (first_key idx from_file keys)
  unfolding first_key
  first_key-Ok from_file [] = none-Ok
  first_key-Ok from_file (key ∷ keys) =
      or_else-Ok (find_key idx from_file key) (first_key idx from_file keys)
        (find_key-Ok from_file key) (first_key-Ok from_file keys)

  first_file-Ok : (ps : List FilePath) → Ok (first_file trim to_path display is_file ps)
  unfolding first_file
  first_file-Ok [] = none-Ok
  first_file-Ok (p ∷ ps) = elim (Bool-cases (is_file p)) [
    | inl t ↦ rw (t, first_file) (record { good = λ q same. inl (rw (← picked q same) t) })
    | inr f ↦ rw (f, first_file) (first_file-Ok ps)
  ]
    where
      picked : (q : FilePath) → some p ≡ some q → p ≡ q
      picked q same = cc same

  least_in_dir-Ok :
      (dir_abs : FilePath) (best : Option FilePath) (files : List FilePath)
      → Ok best
      → ((f : FilePath) → f ∈ files → f ∈ keys idx.by_file)
      → Ok (least_in_dir dir_abs best files)
  unfolding least_in_dir
  least_in_dir-Ok dir_abs best [] h k = h
  least_in_dir-Ok dir_abs best (f ∷ files) h k =
      least_in_dir-Ok dir_abs (if is_in_dir dir_abs f then lesser best f else best) files
        (if-Ok (is_in_dir dir_abs f) (lesser best f) best (lesser-Ok best h) h) (λ g i. k g (inr i))
    where
      one : Ok (some f)
      one = record {
        good = λ q same.
            inr (inr (subst (λ g. g ∈ keys idx.by_file) (picked q same) (k f (inl refl))));
      }
        where
          picked : (q : FilePath) → some f ≡ some q → f ≡ q
          picked q same = cc same

      lesser-Ok : (b : Option FilePath) → Ok b → Ok (lesser b f)
      lesser-Ok none h = one
      lesser-Ok (some prev) h = if-Ok (path_ltb f prev) (some f) (some prev) one h

  resolve_relative_path-Ok :
      (spec : Text) (ctx : ResolveCtx)
      → Ok (resolve_relative_path trim to_path display is_file spec ctx idx)
  unfolding resolve_relative_path
  resolve_relative_path-Ok spec ctx = elim-Ok (parent ctx.from_file) none _ none-Ok (λ dir.
      elim-Ok (ascend (strip_all (bytes "../") spec).0 dir) none _ none-Ok
        (λ cur. or_else-Ok _ _ (first_file-Ok _) (find_key-Ok ctx.from_file _)))

  resolve_relative-Ok :
      (key : Text) (ctx : ResolveCtx) (up : ℕ)
      → Ok (resolve_relative trim to_path display is_file key ctx idx up)
  unfolding resolve_relative
  resolve_relative-Ok key ctx up = elim-Ok (parent ctx.from_file) none _ none-Ok (λ dir.
      elim-Ok (ascend up dir) none _ none-Ok (λ cur.
        let target = target_of trim to_path display is_file cur key in
        or_else-Ok _ _
          (first_file-Ok (
            target_with trim to_path display is_file cur key (bytes ".rs")
            ∷ join target (bytes "mod.rs" ∷ [])
            ∷ target
            ∷ []))
          (elim-Ok (strip_prefix target idx.root) none _ none-Ok
            (λ r. find_key-Ok ctx.from_file (join_slash r)))))

  resolve_rust-Ok :
      (spec : Text) (ctx : ResolveCtx) → Ok (resolve_rust trim to_path display is_file spec ctx idx)
  unfolding resolve_rust resolve_with_fallback
  resolve_rust-Ok spec ctx =
      elim-Ok (strip_text spec (bytes "crate::")) _ _
        (elim-Ok (strip_text spec (bytes "self::")) _ _
          (if-Ok (ltb 0 (strip_all (bytes "super::") spec).0) _ _
            (resolve_relative-Ok (replace_colons (strip_all (bytes "super::") spec).1) ctx
              (strip_all (bytes "super::") spec).0)
            (fallback-Ok (replace_colons spec)))
          (λ rest. resolve_relative-Ok (replace_colons rest) ctx 0))
        (λ rest. fallback-Ok (replace_colons rest))
    where
      fallback-Ok : (key : Text) → Ok (resolve_with_fallback idx ctx.from_file key)
      fallback-Ok key = first_key-Ok ctx.from_file (key ∷ shorter_keys key)

  resolve_alias-Ok :
      (spec : Text) (aliases : List (Text × Text)) (ctx : ResolveCtx)
      → Ok (resolve_alias trim to_path display is_file spec aliases ctx idx)
  unfolding resolve_alias
  resolve_alias-Ok spec [] ctx = none-Ok
  resolve_alias-Ok spec ((prefix, replacement) ∷ aliases) ctx =
      or_else-Ok _ _
        (elim-Ok (strip_text spec prefix) none _ none-Ok
          (λ rest. find_key-Ok ctx.from_file (trim_dot_slash (replacement ++ rest))))
        (resolve_alias-Ok spec aliases ctx)

  resolve_go-Ok :
      (spec : Text) (ctx : ResolveCtx) → Ok (resolve_go trim to_path display is_file spec ctx idx)
  unfolding resolve_go find_dir_file
  resolve_go-Ok spec ctx = elim-Ok ctx.alias_prefix none _ none-Ok (λ prefix.
      if-Ok (trim_quotes spec == prefix) none _ none-Ok (
        elim-Ok (strip_text (trim_quotes spec) (prefix ++ bytes "/")) none _ none-Ok (λ rest.
          least_in_dir-Ok (join idx.root (to_path rest)) none (keys idx.by_file) none-Ok
            (λ f i. i))))

  resolve_package-Ok :
      (spec : Text) (ctx : ResolveCtx)
      → Ok (resolve_package trim to_path display is_file spec ctx idx)
  unfolding resolve_package
  resolve_package-Ok spec ctx =
      or_else-Ok _ _ (find_key-Ok ctx.from_file (replace_byte 46 47 spec)) (
        elim-Ok (rsplit_once 47 (replace_byte 46 47 spec)) none _ none-Ok
          (λ (above, last). find_key-Ok ctx.from_file above))

  resolve_absolute-Ok :
      (spec : Text) (ctx : ResolveCtx)
      → Ok (resolve_absolute trim to_path display is_file spec ctx idx)
  unfolding resolve_absolute
  resolve_absolute-Ok spec ctx =
      or_else-Ok _ _
        (if-Ok (is_script ctx.lang) _ none (resolve_alias-Ok spec ctx.path_aliases ctx) none-Ok)
        (if-Ok (is_go ctx.lang) _ _ (resolve_go-Ok spec ctx) (
          if-Ok (has_packages ctx.lang) _ _ (resolve_package-Ok spec ctx)
            (find_key-Ok ctx.from_file (replace_byte 46 47 spec))))

  resolve_trimmed-Ok :
      (spec : Text) (ctx : ResolveCtx)
      → Ok (resolve_trimmed trim to_path display is_file spec ctx idx)
  unfolding resolve_trimmed
  resolve_trimmed-Ok [] ctx = none-Ok
  resolve_trimmed-Ok (b ∷ spec) ctx =
      if-Ok (is_rust ctx.lang) _ _ (resolve_rust-Ok (b ∷ spec) ctx) (
        if-Ok (starts_with (b ∷ spec) (bytes "./") || starts_with (b ∷ spec) (bytes "../")) _ _
          (resolve_relative_path-Ok (b ∷ spec) ctx)
          (if-Ok (is_script ctx.lang && starts_with (b ∷ spec) (bytes ".")) _ _
            (resolve_relative_path-Ok (b ∷ spec) ctx) (resolve_absolute-Ok (b ∷ spec) ctx)))

  pub resolve-IsIndexed :
      (spec : Text) (ctx : ResolveCtx) (p : FilePath)
      → resolve trim to_path display is_file spec ctx idx ≡ some p
      → (is_file p ≡ true) ⊎ IsIndexed idx p
  unfolding resolve
  resolve-IsIndexed spec ctx p e = (resolve_trimmed-Ok (trim spec) ctx).good p e
