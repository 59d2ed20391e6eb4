-- ===== src/Stl/LazyHeap/Ops.antt =====
-- The invariant of the lazy heap, and what the removal of a deleted root does to it.
use dns_relay.Base.{
  ℕ, zero, suc, ◌-◌, ◌≤◌, ◌<◌, ◌≡◌, ◌⊎◌, inl, inr, refl, ◌∙◌, true, false, ◌&&◌, some, arith, ltb,
  ◌==◌, if◌then◌else◌, update, ℤ, Bool-cases, ℕ_discrete,
}
use dns_relay.Stl.Key.{uint64_key}
use dns_relay.Stl.HashMap.{hash_map_get}
use dns_relay.Stl.HashMap.Laws
use dns_relay.Stl.LazyHeap.{LazyHeap, down, drop_root, do_delete_loop, do_delete}
use dns_relay.Stl.LazyHeap.Rank.{Orders, rank_at, In}
use dns_relay.Stl.LazyHeap.Layout.{IsOrdered, DownInv}
use dns_relay.Stl.LazyHeap.Down.{down-Sifted}

abbrev pub IsLive : LazyHeap → ℕ → Type 0
IsLive q p = (q.memory p).is_deleted ≡ false

-- Stamps up to `clock`. Each key of the table stands for an allocated, live element of the heap, so
-- that the pointer in the table is never stale; two keys never share an element.
pub record IsValid (stamp : ℕ → ℕ) (clock : ℕ) (q : LazyHeap) : Type 0 where
  pub ordered : (bound : ℕ → ℕ) × IsOrdered (rank_at stamp q) q.size clock bound
  pub allocated : (p : ℕ) → In q p → p < q.next
  pub table : Laws.IsValid q.survivor_table
  pub survivors : (k p : ℕ) → hash_map_get q.survivor_table k ≡ some p → In q p × IsLive q p
  pub unshared :
      (k k' p : ℕ)
      → hash_map_get q.survivor_table k ≡ some p
      → hash_map_get q.survivor_table k' ≡ some p
      → k ≡ k'

-- `q'` has the live elements of `q`, and none that `q` has not.
pub record Keeps (q q' : LazyHeap) : Type 0 where
  pub memory : q'.memory ≡ q.memory
  pub next : q'.next ≡ q.next
  pub survivor_table : q'.survivor_table ≡ q.survivor_table
  pub kept : (p : ℕ) → In q p → IsLive q p → In q' p
  pub known : (p : ℕ) → In q' p → In q p

pub Keeps-refl : (q : LazyHeap) → Keeps q q
Keeps-refl q = record {
  memory = refl;
  next = refl;
  survivor_table = refl;
  kept = λ p h l. h;
  known = λ p h. h;
}

pub Keeps-trans : {q q' q'' : LazyHeap} → Keeps q q' → Keeps q' q'' → Keeps q q''
Keeps-trans {q} {q'} a b = record {
  memory = b.memory ∙ a.memory;
  next = b.next ∙ a.next;
  survivor_table = b.survivor_table ∙ a.survivor_table;
  kept = λ p h l. b.kept p (a.kept p h l) (rw a.memory l);
  known = λ p h. a.known p (b.known p h);
}

module _ (comparator : ℕ → ℕ → ℤ) (stamp : ℕ → ℕ) (o : Orders comparator stamp) (clock : ℕ) where
  -- `q'` keeps the invariant if it keeps the live elements and an order.
  pub Keeps-IsValid :
      {q q' : LazyHeap}
      → IsValid stamp clock q
      → Keeps q q'
      → ((bound : ℕ → ℕ) × IsOrdered (rank_at stamp q') q'.size clock bound)
      → IsValid stamp clock q'
  Keeps-IsValid {q} {q'} v k s = record {
    ordered = s;
    allocated = λ p h. rw k.next (v.allocated p (k.known p h));
    table = rw k.survivor_table v.table;
    survivors = λ key p e.
        let (h, l) = v.survivors key p (rw k.survivor_table at e) in (k.kept p h l, rw k.memory l);
    unshared = λ key key' p e e'.
        v.unshared key key' p (rw k.survivor_table at e) (rw k.survivor_table at e');
  }

  abbrev cut : LazyHeap → LazyHeap
  cut q = record q { elements = update q.elements 1 (q.elements q.size); size = q.size - 1 }

  cut-DownInv :
      (q : LazyHeap) (bound : ℕ → ℕ)
      → 1 < q.size
      → IsOrdered (rank_at stamp q) q.size clock bound
      → DownInv (rank_at stamp (cut q)) (q.size - 1) clock 1 bound
  cut-DownInv q bound h s = record {
    positive = omega arith;
    inside = omega arith;
    edges = λ c a b n p. s.edges c a (omega arith);
    bridged = λ c a b n p. absurd (omega arith);
    exact = λ i a b n p. ground (arith, s.exact i);
    above = λ a. absurd (omega arith);
    late = λ i a b n. s.late i a (omega arith);
    now = ground (arith, s.exact q.size, s.late q.size);
  }

  cut-kept :
      (q : LazyHeap)
      → (q.memory (q.elements 1)).is_deleted ≡ true
      → (p : ℕ) → In q p
      → IsLive q p
      → In (cut q) p
  cut-kept q d p (i, a, b, e) l =
      (if i == q.size then 1 else i, ground arith, ground arith, ground arith)

  cut-known : (q : LazyHeap) → 0 < q.size → (p : ℕ) → In (cut q) p → In q p
  cut-known q h p (i, a, b, e) =
      (if i == 1 then q.size else i, ground arith, ground arith, ground arith)

  -- A deleted root goes, and nothing else.
  pub drop_root-IsValid :
      (q : LazyHeap)
      → 0 < q.size
      → (q.memory (q.elements 1)).is_deleted ≡ true
      → IsValid stamp clock q
      → Keeps q (drop_root comparator q)
        × ((bound : ℕ → ℕ) × IsOrdered
              (rank_at stamp (drop_root comparator q))
              (q.size - 1)
              clock
              bound)
        × ((drop_root comparator q).size ≡ q.size - 1)
  unfolding drop_root
  drop_root-IsValid q h d v = elim (ℕ_discrete q.size 1) [
    | yes one ↦
        let short : ltb (q.size - 1) 1 ≡ true = ground arith in
        rw (short, down)
          (
            record {
              memory = refl;
              next = refl;
              survivor_table = refl;
              kept = cut-kept q d;
              known = cut-known q h;
            },
            (
              λ _. 0,
              record {
                edges = λ c a b. absurd (omega arith);
                exact = λ i a b. absurd (omega arith);
                late = λ i a b. absurd (omega arith);
              },
            ),
            refl,
          )
    | no more ↦
        let (bound, s) = v.ordered in
        let (ordered, m) =
          down-Sifted comparator stamp o clock (cut q) bound (omega arith)
            (cut-DownInv q bound (omega arith) s) in
        (
          record {
            memory = m.memory;
            next = m.next;
            survivor_table = m.survivor_table;
            kept = λ p i l. m.kept p (cut-kept q d p i l);
            known = λ p i. cut-known q h p (m.known p i);
          },
          ordered,
          m.size,
        )
  ]

  -- `do_delete` stops at a live root or at the empty heap, and drops deleted elements only.
  abbrev pub Cleaned : LazyHeap → LazyHeap → Type 0
  Cleaned q q' = Keeps q q' × IsValid stamp clock q' × ((q'.size ≡ 0) ⊎ (IsLive q' (q'.elements 1)))

  do_delete_loop-Cleaned :
      (fuel : ℕ) (q : LazyHeap)
      → q.size ≤ fuel
      → IsValid stamp clock q
      → Cleaned q (do_delete_loop comparator fuel q)
  unfolding do_delete_loop
  do_delete_loop-Cleaned zero q f v = (Keeps-refl q, v, inl (omega arith))
  do_delete_loop-Cleaned (suc fuel) q f v =
      elim (Bool-cases (ltb 0 q.size && (q.memory (q.elements 1)).is_deleted)) [
        | inr stop ↦ rw (stop, do_delete_loop) (Keeps-refl q, v, ground arith)
        | inl go ↦
            let (k, ordered, size) = drop_root-IsValid q (ground arith) (ground arith) v in
            let v' = Keeps-IsValid v k (rw size ordered) in
            let (k', v'', end) =
              do_delete_loop-Cleaned fuel (drop_root comparator q) (ground arith) v' in
            rw (go, do_delete_loop) (Keeps-trans k k', v'', end)
      ]

  pub do_delete-Cleaned :
      (q : LazyHeap) → IsValid stamp clock q → Cleaned q (do_delete comparator q)
  unfolding do_delete
  do_delete-Cleaned q v = do_delete_loop-Cleaned q.size q (omega arith) v
