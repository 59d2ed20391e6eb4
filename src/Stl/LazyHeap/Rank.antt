-- ===== src/Stl/LazyHeap/Rank.antt =====
-- The comparison of the heap's elements, as an order of numbers.
use dns_relay.Base.{
  ℕ, suc, ◌+◌, ◌*◌, ◌≤◌, ◌<◌, ◌≡◌, ◌⊎◌, refl, ◌∙◌, arith, ltb, ◌==◌, if◌then◌else◌, ℤ,
}
use dns_relay.Stl.LazyHeap.{
  HeapElement, LazyHeap, is_positive, is_negative, heap_element_compare, swap, pick,
}

-- The comparator orders by a time stamp.
pub record Orders (comparator : ℕ → ℕ → ℤ) (stamp : ℕ → ℕ) : Type 0 where
  pub above : (a b : ℕ) → is_positive (comparator a b) ≡ ltb (stamp b) (stamp a)
  pub below : (a b : ℕ) → is_negative (comparator a b) ≡ ltb (stamp a) (stamp b)

-- A deleted element comes before all others.
abbrev pub rank : (ℕ → ℕ) → HeapElement → ℕ
rank stamp e = if e.is_deleted then 0 else suc (stamp e.payload)

abbrev pub rank_at : (ℕ → ℕ) → LazyHeap → ℕ → ℕ
rank_at stamp q i = rank stamp (q.memory (q.elements i))

module _ (comparator : ℕ → ℕ → ℤ) (stamp : ℕ → ℕ) (o : Orders comparator stamp) where
  pub compare_above :
      (a b : HeapElement)
      → is_positive (heap_element_compare comparator a b) ≡ ltb (rank stamp b) (rank stamp a)
  unfolding heap_element_compare
  compare_above a b = ground (arith, o.above a.payload b.payload)

  pub compare_below :
      (a b : HeapElement)
      → is_negative (heap_element_compare comparator a b) ≡ ltb (rank stamp a) (rank stamp b)
  unfolding heap_element_compare
  compare_below a b = ground (arith, o.below a.payload b.payload)

  -- A round of `down` picks a child of lesser rank than `u`, the least of both, or `u` if none is.
  abbrev pub Picks : LazyHeap → ℕ → ℕ → Type 0
  Picks q u t =
      (u * 2 ≤ q.size → rank_at stamp q t ≤ rank_at stamp q (u * 2))
      × (u * 2 + 1 ≤ q.size → rank_at stamp q t ≤ rank_at stamp q (u * 2 + 1))
      × ((t ≡ u)
          ⊎ (((t ≡ u * 2) ⊎ (t ≡ u * 2 + 1))
              × (t ≤ q.size)
              × (rank_at stamp q t < rank_at stamp q u)))

  pub pick-Picks : (q : LazyHeap) (u : ℕ) → Picks q u (pick comparator q u)
  unfolding pick
  pick-Picks q u =
      let m = q.memory in
      let e = q.elements in
      ground (
        arith,
        compare_above (m (e u)) (m (e (u * 2))),
        compare_above (m (e u)) (m (e (u * 2 + 1))),
        compare_above (m (e (u * 2))) (m (e (u * 2 + 1))),
      )

pub rank_at-swap :
    (stamp : ℕ → ℕ) (comparator : ℕ → ℕ → ℤ) (q : LazyHeap) (i j k : ℕ)
    → rank_at stamp (swap comparator q i j) k ≡ (
        if j == k
        then rank_at stamp q i
        else if i == k
        then rank_at stamp q j
        else rank_at stamp q k)
unfolding swap
rank_at-swap stamp comparator q i j k = ground arith

-- `q'` has the elements of `q`, perhaps at other places.
abbrev pub In : LazyHeap → ℕ → Type 0
In q p = (i : ℕ) × (0 < i) × (i ≤ q.size) × (q.elements i ≡ p)

pub record Moves (q q' : LazyHeap) : Type 0 where
  pub memory : q'.memory ≡ q.memory
  pub next : q'.next ≡ q.next
  pub survivor_table : q'.survivor_table ≡ q.survivor_table
  pub size : q'.size ≡ q.size
  pub kept : (p : ℕ) → In q p → In q' p
  pub known : (p : ℕ) → In q' p → In q p

pub Moves-refl : (q : LazyHeap) → Moves q q
Moves-refl q = record {
  memory = refl;
  next = refl;
  survivor_table = refl;
  size = refl;
  kept = λ p h. h;
  known = λ p h. h;
}

pub Moves-trans : {q q' q'' : LazyHeap} → Moves q q' → Moves q' q'' → Moves q q''
Moves-trans a b = record {
  memory = b.memory ∙ a.memory;
  next = b.next ∙ a.next;
  survivor_table = b.survivor_table ∙ a.survivor_table;
  size = b.size ∙ a.size;
  kept = λ p h. b.kept p (a.kept p h);
  known = λ p h. a.known p (b.known p h);
}

pub swap-Moves :
    (comparator : ℕ → ℕ → ℤ) (q : LazyHeap) (i j : ℕ)
    → 0 < i
    → i ≤ q.size
    → 0 < j
    → j ≤ q.size
    → Moves q (swap comparator q i j)
unfolding swap
swap-Moves comparator q i j a b c d = record {
  memory = refl;
  next = refl;
  survivor_table = refl;
  size = refl;
  kept = λ p (k, e, f, g).
      (if k == i then j else if k == j then i else k, ground arith, ground arith, ground arith);
  known = λ p (k, e, f, g).
      (if k == j then i else if k == i then j else k, ground arith, ground arith, ground arith);
}
