-- ===== src/Stl/LazyHeap/Peek.antt =====
-- `lazy_heap_peek` finds the live element with the least stamp.
use dns_relay.Base.{
  ℕ, zero, suc, ◌/◌, ◌≤◌, ◌<◌, ◌≡◌, ◌⊎◌, inl, inr, refl, true, Option, none, some, arith, ◌==◌, ℤ,
  Bool-cases, ℕ_discrete,
}
use dns_relay.Stl.LazyHeap.{LazyHeap, do_delete, lazy_heap_peek}
use dns_relay.Stl.LazyHeap.Rank.{Orders, In}
use dns_relay.Stl.LazyHeap.Layout.{IsOrdered}
use dns_relay.Stl.LazyHeap.Ops.{IsLive, IsValid, Keeps, Keeps-refl, do_delete-Cleaned}

bound-root-le :
    {r : ℕ → ℕ} {size clock : ℕ} {bound : ℕ → ℕ} (n i : ℕ)
    → IsOrdered r size clock bound
    → i ≤ n
    → 0 < i
    → i ≤ size
    → bound 1 ≤ bound i
bound-root-le zero i s a b c = absurd (omega arith)
bound-root-le {bound = bound} (suc n) i s a b c = elim (ℕ_discrete i 1) [
  | yes one ↦ rw one (omega arith)
  | no more ↦ omega (
    arith,
    s.edges i (omega arith) c,
    bound-root-le n (i / 2) s (omega arith) (omega arith) (omega arith),
  )
]

IsLive-Keeps : {q q' : LazyHeap} → Keeps q q' → (p : ℕ) → IsLive q' p → IsLive q p
IsLive-Keeps k p l = rw k.memory at l

payload_before :
    {q q' : LazyHeap}
    → Keeps q q'
    → (p : ℕ) → some (q'.memory p).payload ≡ some (q.memory p).payload
payload_before k p = rw k.memory refl

-- What `lazy_heap_peek` returns: NULL only if no element is live, and otherwise the data of a live
-- element that no live element precedes. It drops deleted elements and nothing else.
pub record Peeked (stamp : ℕ → ℕ) (clock : ℕ) (q : LazyHeap) (r : LazyHeap × Option ℕ)
    : Type 0 where
  pub valid : IsValid stamp clock r.0
  pub keeps : Keeps q r.0
  pub result :
      ((r.1 ≡ none) × ((p : ℕ) → In q p → (q.memory p).is_deleted ≡ true))
      ⊎ ((p : ℕ) × In q p
          × IsLive q p
          × (r.1 ≡ some (q.memory p).payload)
          × ((p' : ℕ)
              → In q p'
              → IsLive q p'
              → stamp (q.memory p).payload ≤ stamp (q.memory p').payload))

module _ (comparator : ℕ → ℕ → ℤ) (stamp : ℕ → ℕ) (o : Orders comparator stamp) (clock : ℕ) where
  none_live :
      (q q' : LazyHeap)
      → Keeps q q'
      → q'.size ≡ 0
      → (p : ℕ) → In q p
      → (q.memory p).is_deleted ≡ true
  none_live q q' k z p h = elim (Bool-cases (q.memory p).is_deleted) [
    | inl dead ↦ dead
    | inr live ↦ let (i, a, b, e) = k.kept p h live in absurd (omega arith)
  ]

  root_least :
      (q q' : LazyHeap)
      → Keeps q q'
      → IsValid stamp clock q'
      → IsLive q' (q'.elements 1)
      → (p' : ℕ) → In q p'
      → IsLive q p'
      → stamp (q.memory (q'.elements 1)).payload ≤ stamp (q.memory p').payload
  root_least q q' k v l p' h l' =
      let (i, a, b, e) = k.kept p' h l' in
      let (bound, s) = v.ordered in
      let here : IsLive q' p' = rw k.memory l' in
      let place : q'.elements i ≡ p' = e in
      let least = bound-root-le i i s (omega arith) a b in
      let top = s.exact 1 (omega arith) (omega arith) (ground arith) in
      let other = s.exact i a b (ground arith) in
      rw (← k.memory) (ground (arith, least, top, other))

  -- On a valid heap whose comparator orders by a stamp, lazy_heap_peek returns NULL only if no
  -- element of the heap is live, and otherwise the data of a live element whose stamp is least
  -- among the live ones; it keeps the invariant, every live element and the survivor table, and
  -- adds none.
  pub lazy_heap_peek-Peeked :
      (q : LazyHeap) → IsValid stamp clock q → Peeked stamp clock q (lazy_heap_peek comparator q)
  unfolding lazy_heap_peek
  lazy_heap_peek-Peeked q v = elim (Bool-cases (q.size == 0)) [
    | inl empty ↦
        rw (empty, lazy_heap_peek)
          (record {
            valid = v;
            keeps = Keeps-refl q;
            result = inl (refl, none_live q q (Keeps-refl q) (ground arith));
          })
    | inr filled ↦
        let q' = do_delete comparator q in
        let (k, v', end) = do_delete-Cleaned comparator stamp o clock q v in
        elim (Bool-cases (q'.size == 0)) [
          | inl gone ↦
              rw (filled, gone, lazy_heap_peek)
                (record {
                  valid = v';
                  keeps = k;
                  result = inl (refl, none_live q q' k (ground arith));
                })
          | inr left ↦
              let live : IsLive q' (q'.elements 1) = ground arith in
              let here : In q' (q'.elements 1) = (1, omega arith, ground arith, refl) in
              rw (filled, left, lazy_heap_peek)
                (record {
                  valid = v';
                  keeps = k;
                  result = inr (
                    q'.elements 1,
                    k.known _ here,
                    IsLive-Keeps k _ live,
                    payload_before k _,
                    root_least q q' k v' live,
                  );
                })
        ]
  ]
