-- ===== src/Stl/LazyHeap/Change.antt =====
-- The empty heap, and the last statement of `lazy_heap_add`: the latest stamp stays in the last place.
use dns_relay.Base.{ℕ, zero, suc, ◌+◌, ◌/◌, ◌≤◌, ◌<◌, ◌≡◌, refl, false, ◌&&◌, arith, ltb, ℤ}
use dns_relay.Stl.Key.{uint64_key}
use dns_relay.Stl.HashMap.Laws
use dns_relay.Stl.LazyHeap.{
  LazyHeap, append_element, is_negative, compare_at, up_loop, up, lazy_heap_create, lazy_heap_add,
}
use dns_relay.Stl.LazyHeap.Rank.{Orders, rank_at, compare_below}
use dns_relay.Stl.LazyHeap.Ops.{IsValid}

up_loop-still :
    (comparator : ℕ → ℕ → ℤ) (fuel : ℕ) (q : LazyHeap) (u : ℕ)
    → (ltb 0 (u / 2) && is_negative (compare_at comparator q u (u / 2))) ≡ false
    → up_loop comparator fuel q u ≡ q
unfolding up_loop
up_loop-still comparator zero q u h = refl
up_loop-still comparator (suc fuel) q u h = rw (h, up_loop)

up-still :
    (comparator : ℕ → ℕ → ℤ) (q : LazyHeap) (u : ℕ)
    → q.size ≡ u
    → 0 < u
    → (ltb 0 (u / 2) && is_negative (compare_at comparator q u (u / 2))) ≡ false
    → up comparator q u ≡ q
unfolding up
up-still comparator q u e p h = ground (arith, up_loop-still comparator u q u h)

pub added-size : (q : LazyHeap) (key payload : ℕ) → (append_element q key payload).size ≡ q.size + 1
unfolding append_element
added-size q key payload = refl

pub create-size : lazy_heap_create.size ≡ 0
unfolding lazy_heap_create
create-size = refl

module _ (comparator : ℕ → ℕ → ℤ) (stamp : ℕ → ℕ) (o : Orders comparator stamp) (clock : ℕ) where
  pub create-IsValid : IsValid stamp clock lazy_heap_create
  unfolding lazy_heap_create
  create-IsValid =
      let (v, empty) = Laws.create-IsValid {K = ℕ} {V = ℕ} in
      record {
        ordered = (
          λ _. 0,
          record {
            edges = λ c a b. absurd (omega arith);
            exact = λ i a b. absurd (omega arith);
            late = λ i a b. absurd (omega arith);
          },
        );
        allocated = λ p (i, a, b, e). absurd (omega arith);
        table = v;
        survivors = λ k p e. absurd (ground (arith, empty k));
        unshared = λ k k' p e e'. absurd (ground (arith, empty k));
      }

  -- A new element whose stamp is the latest stays in the last place.
  module _ (q : LazyHeap) (key payload : ℕ) (v : IsValid stamp clock q)
      (late : clock ≤ stamp payload) where
    abbrev added : LazyHeap
    added = append_element q key payload

    pub added-rank : (i : ℕ) → 0 < i → i ≤ q.size → rank_at stamp added i ≡ rank_at stamp q i
    unfolding append_element
    added-rank i a b =
        let fresh : q.elements i < q.next = v.allocated (q.elements i) (i, a, b, refl) in
        ground arith

    pub added-last : rank_at stamp added (q.size + 1) ≡ suc (stamp payload)
    unfolding append_element
    added-last = ground arith

    rank-le : (i : ℕ) → 0 < i → i ≤ q.size → rank_at stamp q i ≤ suc clock
    rank-le i a b = let (bound, s) = v.ordered in ground (arith, s.exact i a b, s.late i a b)

    pub add-still : lazy_heap_add comparator q key payload ≡ added
    unfolding lazy_heap_add
    add-still =
        up-still comparator added (q.size + 1) (added-size q key payload) (omega arith)
          (in_order added (q.size + 1) ((q.size + 1) / 2) added-last last_latest)
      where
        last_latest :
            0 < (q.size + 1) / 2 → rank_at stamp added ((q.size + 1) / 2) ≤ suc (stamp payload)
        last_latest h =
            let i = (q.size + 1) / 2 in
            omega (arith, added-rank i h (omega arith), rank-le i h (omega arith))

        in_order :
            (q' : LazyHeap) (u i : ℕ)
            → rank_at stamp q' u ≡ suc (stamp payload)
            → (0 < i → rank_at stamp q' i ≤ suc (stamp payload))
            → (ltb 0 i && is_negative (compare_at comparator q' u i)) ≡ false
        in_order q' u i e f = ground (
          arith,
          compare_below comparator stamp o (q'.memory (q'.elements u)) (q'.memory (q'.elements i)),
        )
