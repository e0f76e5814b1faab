-- ===== src/Linker/ImportsToRepo/RelPath.antt =====
-- `relpath`, and the same steps in the scans of the files: the path below the root, with slashes.
use repolayer.Prelude.Text.{
  FilePath, Text, join_slash, path_eq, strip_prefix, strip_prefix_iff, text_eq,
}
use repolayer.Prelude.Tests.{Option-cases, nat_eq}
use repolayer.Prelude.{inl, inr, ⊎_elim, ◌++◌, ◌↔◌, ◌≡◌, ◌⊎◌}
use repolayer.Linker.ImportsToRepo.{relpath}

-- `rel` has the components of `path` below `root`, or all where it does not lie below `root`.
abbrev pub IsRelPath : FilePath → FilePath → Text → Type 0
IsRelPath path root rel =
    ((below : FilePath) × (path ≡ root ++ below) × (rel ≡ join_slash below))
    ⊎ ((¬ ((below : FilePath) × (path ≡ root ++ below))) × (rel ≡ join_slash path))

pub relpath_iff :
    (path root : FilePath) (rel : Text) → (rel ≡ relpath path root) ↔ IsRelPath path root rel
unfolding relpath
relpath_iff path root rel = elim (Option-cases (strip_prefix path root)) [
  | inl outside ↦ rw outside (
    λ h. inr (λ (below, e). cc (outside, (strip_prefix_iff path root below).1 e), h),
    ⊎_elim (λ (below, e, _). cc (outside, (strip_prefix_iff path root below).1 e)) (λ (_, h). h),
  )
  | inr (below, inside) ↦
      let e = (strip_prefix_iff path root below).0 inside in
      rw inside (
        λ h. inl (below, e, h),
        ⊎_elim (λ (other, f, h). cc (inside, (strip_prefix_iff path root other).1 f, h))
            (λ (n, _). absurd (n (below, e))),
      )
]
