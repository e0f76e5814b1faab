-- ===== src/Deps/Traverse/Total.antt =====
-- The loop of `bfs` ends: every round pops one file, and queues only files that it marks as seen.
use repolayer.Prelude.{
  ℕ, zero, suc, ◌+◌, ◌≤◌, ◌<◌, false, ◌≡◌, refl, ap, inl, inr, some, List, [], ◌∷◌, map, arith,
}
use repolayer.Prelude.Tests.{if◌then◌else◌}
use repolayer.Prelude.Lists.{length, ◌∈◌, List-cases, length-append}
use repolayer.Prelude.Dict.{contains}
use repolayer.Prelude.Text.{FilePath, path_eq, path_beq_iff}
use repolayer.Deps.Graph.{DepEdge}
use repolayer.Deps.Traverse.{Search, offer, offer_all, expand, loop, begin, bfs, rounds, DepHit}
use repolayer.Deps.Traverse.Walk.{Leads}

-- the targets that are not seen yet
unseen : List FilePath → List FilePath → ℕ
unseen seen [] = 0
unseen seen (t ∷ ts) = if contains seen t then unseen seen ts else suc (unseen seen ts)

unseen-le-length : (seen ts : List FilePath) → unseen seen ts ≤ length ts
unfolding unseen
unseen-le-length seen [] = omega arith
unseen-le-length seen (t ∷ ts) = ground (arith, unseen-le-length seen ts)

unseen-cons-le : (w : FilePath) (seen ts : List FilePath) → unseen (w ∷ seen) ts ≤ unseen seen ts
unfolding unseen contains
unseen-cons-le w seen [] = omega arith
unseen-cons-le w seen (t ∷ ts) = ground (arith, unseen-cons-le w seen ts)

unseen-cons-lt :
    (w : FilePath) (seen ts : List FilePath)
    → contains seen w ≡ false
    → w ∈ ts
    → unseen (w ∷ seen) ts < unseen seen ts
unfolding unseen contains
unseen-cons-lt w seen [] h m = absurd m
unseen-cons-lt w seen (t ∷ ts) h (inl same) =
    ground (arith, path_beq_iff w t, unseen-cons-le w seen ts)
unseen-cons-lt w seen (t ∷ ts) h (inr m) = ground (arith, unseen-cons-lt w seen ts h m)

module _ (targets : List FilePath) where
  abbrev work : Search → ℕ
  work s = unseen s.seen targets + length s.q

  offer-work : (d : ℕ) (s : Search) (e : DepEdge) → e.target ∈ targets → work (offer d s e) ≤ work s
  unfolding offer
  offer-work d s e m =
      ground
        (arith, unseen-cons-lt e.target s.seen targets, length-append s.q ((e.target, d + 1) ∷ []))

  offer_all-work :
      (d : ℕ) (s : Search) (es : List DepEdge)
      → ((v : FilePath) → v ∈ map (λ e. e.target) es → v ∈ targets)
      → work (offer_all d s es) ≤ work s
  unfolding offer_all
  offer_all-work d s [] h = omega arith
  offer_all-work d s (e ∷ es) h = omega (
    arith,
    offer_all-work d (offer d s e) es (λ v m. h v (inr m)),
    offer-work d s e (h e.target (inl refl)),
  )

  module _ (edges_at : FilePath → List DepEdge) (max_depth : ℕ)
      (within : (u v : FilePath) → Leads edges_at u v → v ∈ targets) where
    expand-work :
        (s : Search) (cur : FilePath) (depth : ℕ)
        → work (expand edges_at max_depth s cur depth) ≤ work s
    unfolding expand
    expand-work s cur depth = ground (arith, offer_all-work depth s (edges_at cur) (within cur))

    loop_total :
        (fuel : ℕ) (s : Search)
        → work s ≤ fuel
        → (t : Search) × (loop edges_at max_depth fuel s ≡ some t)
    unfolding loop
    loop_total zero s h = (s, ground arith)
    loop_total (suc fuel) s h = elim (List-cases s.q) [
      | inl empty ↦ (s, simp (empty, loop))
      | inr (item, rest, e) ↦
          let next = expand edges_at max_depth (record s { q = rest }) item.0 item.1 in
          let (t, ends) =
            loop_total fuel next
              (omega (arith, expand-work (record s { q = rest }) item.0 item.1, ap length e)) in
          (t, rw (e, loop) ends)
    ]

    pub bfs_total :
        (start : FilePath)
        → (hits : List DepHit) × (bfs (rounds targets) start max_depth edges_at ≡ some hits)
    unfolding bfs
    bfs_total start =
        let (t, e) =
          loop_total (rounds targets) (begin start)
            (omega (arith, unseen-le-length (start ∷ []) targets)) in
        (t.out, rw (e, bfs))
