-- ===== src/Stl/LazyHeap/Down.antt =====
-- `down` restores the order below the root, and ends within its fuel.
use dns_relay.Base.{ℕ, zero, suc, ◌+◌, ◌<◌, ◌≡◌, inl, inr, false, arith, ltb, ◌==◌, ℤ, Bool-cases}
use dns_relay.Stl.LazyHeap.{LazyHeap, swap, pick, down_loop, down}
use dns_relay.Stl.LazyHeap.Rank.{
  Orders, rank_at, pick-Picks, rank_at-swap, Moves, Moves-refl, Moves-trans, swap-Moves,
}
use dns_relay.Stl.LazyHeap.Layout.{IsOrdered, DownInv, stop-IsOrdered, swap-DownInv}

module _ (comparator : ℕ → ℕ → ℤ) (stamp : ℕ → ℕ) (o : Orders comparator stamp) (clock : ℕ) where
  -- The heap `q'` is ordered, and has the elements of `q`.
  abbrev pub Sifted : LazyHeap → LazyHeap → Type 0
  Sifted q q' = ((bound : ℕ → ℕ) × IsOrdered (rank_at stamp q') q.size clock bound) × Moves q q'

  down_loop-Sifted :
      (fuel : ℕ) (q : LazyHeap) (u : ℕ) (bound : ℕ → ℕ)
      → q.size < u + fuel
      → DownInv (rank_at stamp q) q.size clock u bound
      → Sifted q (down_loop comparator fuel q u)
  unfolding down_loop
  down_loop-Sifted zero q u bound f v = absurd (omega (arith, v.inside))
  down_loop-Sifted (suc fuel) q u bound f v =
      let t = pick comparator q u in
      let (l, m, way) = pick-Picks comparator stamp o q u in
      elim (Bool-cases (t == u)) [
        | inl same ↦
            let e : t ≡ u = ground arith in
            rw (same, down_loop)
              ((_, stop-IsOrdered v (λ h. rw e at (l h)) (λ h. rw e at (m h))), Moves-refl q)
        | inr moved ↦ elim way [
          | inl e ↦ absurd (ground arith)
          | inr (child, inside, less) ↦
              let q' = swap comparator q t u in
              let v' =
                swap-DownInv v (rank_at stamp q') t (rank_at-swap stamp comparator q t u) child
                  inside less l m in
              let (ordered, moves) = down_loop-Sifted fuel q' t _ (omega (arith, v.positive)) v' in
              rw (moved, down_loop)
                (
                  ordered,
                  Moves-trans
                      (swap-Moves comparator q t u (omega (arith, v.positive)) inside v.positive
                        v.inside)
                      moves,
                )
        ]
      ]

  -- A root of any rank over an ordered rest.
  pub down-Sifted :
      (q : LazyHeap) (bound : ℕ → ℕ)
      → 0 < q.size
      → DownInv (rank_at stamp q) q.size clock 1 bound
      → Sifted q (down comparator q 1)
  unfolding down
  down-Sifted q bound h v =
      let inside : ltb q.size 1 ≡ false = ground arith in
      rw (inside, down) (down_loop-Sifted q.size q 1 bound (omega arith) v)
