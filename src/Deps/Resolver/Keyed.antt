-- ===== src/Deps/Resolver/Keyed.antt =====
-- What each step of the suffix index adds to it.
use repolayer.Deps.Resolver.Build.{
  Lang, index_init, index_package, index_types, push_candidate, push_suffixes, tidy_candidates,
  is_python, last_segment,
}
use repolayer.Prelude.{
  ◌≡◌, ◌↔◌, ◌⊎◌, inl, inr, ⊎_elim, ◌&&◌, Option, none, some, List, [], ◌∷◌, ◌++◌, arith,
}
use repolayer.Prelude.Tests.{if◌then◌else◌, Bool-cases, ◌==◌, nat_eq, beq-cases}
use repolayer.Prelude.Lists.{
  ◌∈◌, mem-append_left, mem-append_right, List-cases, mem-append-cases, mem-append_one,
}
use repolayer.Prelude.Dict.{Dict, lookup, or_default, lookup-update}
use repolayer.Prelude.Text.{Text, FilePath, bytes, text_eq, path_eq, path_leb, join_slash}
use repolayer.Deps.Resolver.Keys.{replace_byte}
use repolayer.Deps.Resolver.Paths.{file_name, parent}
use repolayer.Prelude.Sort.{mem-dedup, sort_by, mem-sort_by}

-- the paths under a key
abbrev pub listed : Text → Dict Text (List FilePath) → List FilePath
listed key by_suffix = or_default [] (lookup key by_suffix)

-- every suffix of the components, joined
unfoldable pub suffix_keys : FilePath → List Text
unfolding join_slash
suffix_keys [] = []
suffix_keys (seg ∷ segs) = join_slash (seg ∷ segs) ∷ suffix_keys segs

-- the package directory of an `__init__.py`
unfoldable pub init_keys : Lang → FilePath → FilePath → List Text
unfolding join_slash file_name parent
init_keys lang path rel =
    if is_python lang && (or_default [] (file_name path) == bytes "__init__.py")
    then elim (or_default [] (parent rel)) [
      | [] ↦ []
      | c ∷ above ↦ join_slash (c ∷ above) ∷ last_segment (join_slash (c ∷ above)) ∷ []
    ]
    else []

unfoldable pub type_keys : Text → List Text → List Text
unfolding replace_byte
type_keys pkg [] = []
type_keys pkg (ty ∷ types) = replace_byte 46 47 (pkg ++ bytes "." ++ ty) ∷ ty ∷ type_keys pkg types

abbrev pub package_keys : Option Text → List Text → List Text
package_keys none types = []
package_keys (some pkg) types = type_keys pkg types

-- `path` is listed under the keys `ks` too, and nothing else changes.
pub record Adds (ks : List Text) (path : FilePath) (d d' : Dict Text (List FilePath)) : Type 0 where
  pub listed_iff :
      (key : Text) (p : FilePath)
      → (p ∈ listed key d') ↔ ((p ∈ listed key d) ⊎ ((key ∈ ks) × (p ≡ path)))

pub Adds-nil : (path : FilePath) (d : Dict Text (List FilePath)) → Adds [] path d d
Adds-nil path d = record { listed_iff = λ key p. (inl, ⊎_elim (λ m. m) (λ (k, _). absurd k)) }

pub Adds-trans :
    {ks js : List Text} {path : FilePath} {d d' d'' : Dict Text (List FilePath)}
    → Adds ks path d d'
    → Adds js path d' d''
    → Adds (ks ++ js) path d d''
Adds-trans {ks} {js} a b = record {
  listed_iff = λ key p. (
    λ m.
        ⊎_elim
          (λ n.
            ⊎_elim inl (λ (k, e). inr (mem-append_left key ks js k, e)) ((a.listed_iff key p).0 n))
          (λ (k, e). inr (mem-append_right key ks js k, e)) ((b.listed_iff key p).0 m),
    ⊎_elim (λ m. (b.listed_iff key p).1 (inl ((a.listed_iff key p).1 (inl m))))
        (λ (k, e).
          ⊎_elim (λ l. (b.listed_iff key p).1 (inl ((a.listed_iff key p).1 (inr (l, e)))))
            (λ r. (b.listed_iff key p).1 (inr (r, e))) (mem-append-cases key ks js k)),
  );
}

push_candidate-Adds :
    (k : Text) (path : FilePath) (d : Dict Text (List FilePath))
    → Adds (k ∷ []) path d (push_candidate k path d)
unfolding push_candidate
push_candidate-Adds k path d = record {
  listed_iff = λ key p.
      rw (lookup-update k key [] (λ v. v ++ path ∷ []) d) (elim (beq-cases k key) [
        | inl (t, same) ↦ rw t (ground (arith, mem-append_one p path (listed k d)))
        | inr (f, other) ↦ rw f (ground arith)
      ]);
}

pub push_suffixes-Adds :
    (path segs : FilePath) (d : Dict Text (List FilePath))
    → Adds (suffix_keys segs) path d (push_suffixes path segs d)
unfolding push_suffixes suffix_keys
push_suffixes-Adds path [] d = Adds-nil path d
push_suffixes-Adds path (seg ∷ segs) d =
    Adds-trans (push_candidate-Adds (join_slash (seg ∷ segs)) path d)
      (push_suffixes-Adds path segs (push_candidate (join_slash (seg ∷ segs)) path d))

pub index_init-Adds :
    (lang : Lang) (path rel : FilePath) (d : Dict Text (List FilePath))
    → Adds (init_keys lang path rel) path d (index_init lang path rel d)
unfolding index_init init_keys
index_init-Adds lang path rel d =
    elim (Bool-cases (is_python lang && (or_default [] (file_name path) == bytes "__init__.py"))) [
      | inl t ↦ elim (List-cases (or_default [] (parent rel))) [
        | inl e ↦ rw (t, index_init, init_keys, e) (Adds-nil path d)
        | inr (c, above, e) ↦
            rw (t, index_init, init_keys, e)
              (Adds-trans (push_candidate-Adds (join_slash (c ∷ above)) path d) (
                push_candidate-Adds (last_segment (join_slash (c ∷ above))) path
                  (push_candidate (join_slash (c ∷ above)) path d)))
      ]
      | inr f ↦ rw (f, index_init, init_keys) (Adds-nil path d)
    ]

index_types-Adds :
    (pkg : Text) (types : List Text) (path : FilePath) (d : Dict Text (List FilePath))
    → Adds (type_keys pkg types) path d (index_types pkg types path d)
unfolding index_types type_keys
index_types-Adds pkg [] path d = Adds-nil path d
index_types-Adds pkg (ty ∷ types) path d =
    Adds-trans (push_candidate-Adds (replace_byte 46 47 (pkg ++ bytes "." ++ ty)) path d)
      (Adds-trans (push_candidate-Adds ty path _) (index_types-Adds pkg types path _))

pub index_package-Adds :
    (pkg : Option Text) (types : List Text) (path : FilePath) (d : Dict Text (List FilePath))
    → Adds (package_keys pkg types) path d (index_package pkg types path d)
index_package-Adds none types path d = Adds-nil path d
index_package-Adds (some pkg) types path d = index_types-Adds pkg types path d

pub listed-tidy :
    (d : Dict Text (List FilePath)) (key : Text) (p : FilePath)
    → (p ∈ listed key (tidy_candidates d)) ↔ (p ∈ listed key d)
unfolding tidy_candidates lookup
listed-tidy [] key p = (λ m. m, λ m. m)
listed-tidy ((k, v) ∷ d) key p =
    ground (arith, listed-tidy d key p, mem-dedup (sort_by path_leb v) p, mem-sort_by path_leb v p)
