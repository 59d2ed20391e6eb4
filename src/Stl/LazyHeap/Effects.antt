-- ===== src/Stl/LazyHeap/Effects.antt =====
-- What `lazy_heap_add` and `lazy_heap_remove` do to a valid heap.
use dns_relay.Base.{
  ℕ, ◌+◌, ◌/◌, ◌≤◌, ◌<◌, ◌≡◌, ◌≢◌, ◌⊎◌, inl, inr, refl, true, false, none, some, arith, ◌==◌,
  if◌then◌else◌, update, ℤ, Bool-cases, Option-cases,
}
use dns_relay.Stl.Key.{uint64_key}
use dns_relay.Stl.HashMap.{hash_map_get, hash_map_put, hash_map_remove}
use dns_relay.Stl.HashMap.Laws
use dns_relay.Stl.LazyHeap.{LazyHeap, append_element, lazy_heap_add, lazy_heap_remove}
use dns_relay.Stl.LazyHeap.Rank.{Orders, rank_at, In}
use dns_relay.Stl.LazyHeap.Layout.{IsOrdered}
use dns_relay.Stl.LazyHeap.Ops.{IsLive, IsValid}
use dns_relay.Stl.LazyHeap.Change.{added-size, added-rank, added-last, add-still}

-- What `lazy_heap_add` does: a fresh live element for the key, and nothing else changes.
pub record Adds (stamp : ℕ → ℕ) (key payload : ℕ) (q q' : LazyHeap) : Type 0 where
  pub valid : IsValid stamp (stamp payload) q'
  pub added : In q' q.next
  pub element : q'.memory q.next ≡ record { payload = payload; is_deleted = false }
  pub kept : (p : ℕ) → In q p → In q' p × (q'.memory p ≡ q.memory p)
  pub known : (p : ℕ) → In q' p → (p ≡ q.next) ⊎ In q p
  pub reads :
      (k : ℕ)
      → hash_map_get q'.survivor_table k
        ≡ (if key == k then some q.next else hash_map_get q.survivor_table k)

-- What `lazy_heap_remove` does: the key's element is marked, and the key forgotten.
pub record Removes (stamp : ℕ → ℕ) (clock key : ℕ) (q q' : LazyHeap) : Type 0 where
  pub valid : IsValid stamp clock q'
  pub unmoved : (q'.elements ≡ q.elements) × (q'.size ≡ q.size)
  pub unallocated : (q'.capacity ≡ q.capacity) × (q'.next ≡ q.next)
  pub absent : hash_map_get q.survivor_table key ≡ none → q' ≡ q
  pub kept : (p : ℕ) → In q p → In q' p
  pub known : (p : ℕ) → In q' p → In q p
  pub payloads : (p : ℕ) → (q'.memory p).payload ≡ (q.memory p).payload
  pub marked :
      (p : ℕ) → hash_map_get q.survivor_table key ≡ some p → (q'.memory p).is_deleted ≡ true
  pub others :
      (p : ℕ)
      → hash_map_get q.survivor_table key ≢ some p
      → (q'.memory p).is_deleted ≡ (q.memory p).is_deleted
  pub reads :
      (k : ℕ)
      → hash_map_get q'.survivor_table k
        ≡ (if key == k then none else hash_map_get q.survivor_table k)

module _ (comparator : ℕ → ℕ → ℤ) (stamp : ℕ → ℕ) (o : Orders comparator stamp) (clock : ℕ) where
  append-IsOrdered :
      (q : LazyHeap) (key payload : ℕ) (v : IsValid stamp clock q) (late : clock ≤ stamp payload)
      → let q' = append_element q key payload in
        (bound : ℕ → ℕ) × IsOrdered (rank_at stamp q') q'.size (stamp payload) bound
  append-IsOrdered q key payload v late =
      let (bound, s) = v.ordered in
      let size = added-size q key payload in
      let rank = added-rank comparator stamp o clock q key payload v late in
      let last = added-last comparator stamp o clock q key payload v late in
      (
        update bound (q.size + 1) (stamp payload),
        record {
          edges = λ c a b. ground (arith, s.edges c, s.late (c / 2), size);
          exact = λ i a b p. ground (arith, s.exact i, rank i a, last, size);
          late = λ i a b. ground (arith, s.late i, size);
        },
      )

  module _ (q : LazyHeap) (key payload : ℕ) (v : IsValid stamp clock q) where
    put : Laws.Put q.survivor_table key q.next (hash_map_put q.survivor_table key q.next)
    put = Laws.hash_map_put-Put q.survivor_table key q.next v.table

    append-kept :
        (p : ℕ)
        → In q p
        → In (append_element q key payload) p
          × ((append_element q key payload).memory p ≡ q.memory p)
    unfolding append_element
    append-kept p h =
        let below = v.allocated p h in
        let (i, a, b, e) = h in ((i, a, omega arith, ground arith), ground arith)

    append-known : (p : ℕ) → In (append_element q key payload) p → (p ≡ q.next) ⊎ In q p
    unfolding append_element
    append-known p (i, a, b, e) = elim (Bool-cases (q.size + 1 == i)) [
      | inl last ↦ inl (ground arith)
      | inr inner ↦ inr (i, a, ground arith, ground arith)
    ]

    append-reads :
        (k : ℕ)
        → hash_map_get (append_element q key payload).survivor_table k
          ≡ (if key == k then some q.next else hash_map_get q.survivor_table k)
    unfolding append_element
    append-reads k = put.reads k

    append-added : In (append_element q key payload) q.next
    unfolding append_element
    append-added = (q.size + 1, omega arith, omega arith, ground arith)

    append-element :
        (append_element q key payload).memory q.next
        ≡ record { payload = payload; is_deleted = false }
    unfolding append_element
    append-element = ground arith

    append-table :
        Laws.IsValid (append_element q key payload).survivor_table
        × ((append_element q key payload).next ≡ q.next + 1)
    unfolding append_element
    append-table = (put.valid, refl)

    append-survivors :
        (k p : ℕ)
        → hash_map_get (append_element q key payload).survivor_table k ≡ some p
        → In (append_element q key payload) p × IsLive (append_element q key payload) p
    append-survivors k p e = elim (Bool-cases (key == k)) [
      | inl same ↦
          let fresh : q.next ≡ p = ground (arith, append-reads k) in
          rw (← fresh) (append-added, rw append-element refl)
      | inr other ↦
          let (h, l) = v.survivors k p (ground (arith, append-reads k)) in
          let (h', m) = append-kept p h in (h', rw m l)
    ]

    append-unshared :
        (k k' p : ℕ)
        → hash_map_get (append_element q key payload).survivor_table k ≡ some p
        → hash_map_get (append_element q key payload).survivor_table k' ≡ some p
        → k ≡ k'
    append-unshared k k' p e e' = ground (
      arith,
      append-reads k,
      append-reads k',
      v.unshared k k' p,
      λ (h : hash_map_get q.survivor_table k ≡ some p). v.allocated p (v.survivors k p h).0,
      λ (h : hash_map_get q.survivor_table k' ≡ some p). v.allocated p (v.survivors k' p h).0,
    )

    append-allocated :
        (p : ℕ) → In (append_element q key payload) p → p < (append_element q key payload).next
    append-allocated p h = elim (append-known p h) [
      | inl e ↦ omega (arith, append-table.1)
      | inr h' ↦ omega (arith, append-table.1, v.allocated p h')
    ]

    -- On a valid heap, lazy_heap_add of data whose stamp is at or after all stamps so far keeps
    -- the invariant, puts one fresh live element with the data into the heap and under the key in
    -- the survivor table, and changes no other element and no other key.
    pub add-Adds :
        clock ≤ stamp payload → Adds stamp key payload q (lazy_heap_add comparator q key payload)
    add-Adds late = rw (add-still comparator stamp o clock q key payload v late) (record {
      valid = record {
        ordered = append-IsOrdered q key payload v late;
        allocated = append-allocated;
        table = append-table.0;
        survivors = append-survivors;
        unshared = append-unshared;
      };
      added = append-added;
      element = append-element;
      kept = append-kept;
      known = append-known;
      reads = append-reads;
    })

module _ (stamp : ℕ → ℕ) (clock key : ℕ) (q : LazyHeap) (v : IsValid stamp clock q) where
  module _ (e : ℕ) (found : hash_map_get q.survivor_table key ≡ some e) where
    abbrev marked : LazyHeap
    marked = record q {
      memory = update q.memory e (record (q.memory e) { is_deleted = true });
      survivor_table = hash_map_remove q.survivor_table key;
    }

    marked-reads :
        (k : ℕ)
        → hash_map_get marked.survivor_table k
          ≡ (if key == k then none else hash_map_get q.survivor_table k)
    marked-reads k = (Laws.remove-IsValid q.survivor_table key v.table).1 k

    marked-survivors :
        (k p : ℕ) → hash_map_get marked.survivor_table k ≡ some p → In marked p × IsLive marked p
    marked-survivors k p f =
        let kept : hash_map_get q.survivor_table k ≡ some p = ground (arith, marked-reads k) in
        let (h, l) = v.survivors k p kept in
        (
          h,
          ground (
            arith,
            l,
            marked-reads k,
            λ (g : hash_map_get q.survivor_table k ≡ some e). v.unshared key k e found g,
          ),
        )

    marked-IsValid : IsValid stamp clock marked
    marked-IsValid =
        let (bound, s) = v.ordered in
        record {
          ordered = (
            bound,
            record { edges = s.edges; exact = λ i a b p. ground (arith, s.exact i); late = s.late },
          );
          allocated = v.allocated;
          table = (Laws.remove-IsValid q.survivor_table key v.table).0;
          survivors = marked-survivors;
          unshared =
              λ k k' p f g. ground (arith, marked-reads k, marked-reads k', v.unshared k k' p);
        }

  -- On a valid heap lazy_heap_remove keeps the invariant, marks exactly the element of the key as
  -- deleted and forgets the key; the array, its size and capacity and the next address stay as
  -- they were, and for a key that is not there the whole heap does.
  pub remove-Removes : Removes stamp clock key q (lazy_heap_remove q key)
  unfolding lazy_heap_remove
  remove-Removes = elim (Option-cases (hash_map_get q.survivor_table key)) [
    | inl absent ↦
        rw (absent, lazy_heap_remove)
          (record {
            valid = v;
            unmoved = (refl, refl);
            unallocated = (refl, refl);
            absent = λ e. refl;
            kept = λ p h. h;
            known = λ p h. h;
            payloads = λ p. refl;
            marked = λ p e. cc;
            others = λ p e. refl;
            reads = λ k. ground arith;
          })
    | inr (e, found) ↦
        rw (found, lazy_heap_remove)
          (record {
            valid = marked-IsValid e found;
            unmoved = (refl, refl);
            unallocated = (refl, refl);
            absent = λ nothing. absurd (ground (arith, found, nothing));
            kept = λ p h. h;
            known = λ p h. h;
            payloads = λ p. ground arith;
            marked = λ p f. ground arith;
            others = λ p f. ground arith;
            reads = marked-reads e found;
          })
  ]

-- Stamps may change where no live element of the heap has them.
pub restamp-IsValid :
    (stamp stamp' : ℕ → ℕ) (clock : ℕ) (q : LazyHeap)
    → IsValid stamp clock q
    → ((p : ℕ) → In q p → IsLive q p → stamp' (q.memory p).payload ≡ stamp (q.memory p).payload)
    → IsValid stamp' clock q
restamp-IsValid stamp stamp' clock q v same =
    let (bound, s) = v.ordered in
    record {
      ordered = (
        bound,
        record {
          edges = s.edges;
          exact = λ i a b p. ground (
            arith,
            s.exact i a b,
            λ (l : IsLive q (q.elements i)). same (q.elements i) (i, a, b, refl) l,
          );
          late = s.late;
        },
      );
      allocated = v.allocated;
      table = v.table;
      survivors = v.survivors;
      unshared = v.unshared;
    }
