-- ===== src/Stl/LazyHeap.antt =====
-- src/infra/stl.c, from `heap_element_compare` to `lazy_heap_remove`: the heap with lazy deletion.
-- Pointers are numbers: `memory` is the store of the `HeapElement`s, `elements` the array of
-- pointers to them, 1-based, and `next` the address that the next `malloc` returns. `T` is a
-- pointer too; the comparator, which reads what it points to, is an argument.
pub mod Rank
pub mod Layout
pub mod Down
pub mod Ops
pub mod Peek
pub mod Change
pub mod Effects
mod Tests
use dns_relay.Base.{
  ℕ, zero, suc, ◌+◌, ◌-◌, ◌*◌, ◌/◌, ◌<◌, Bool, true, false, ◌&&◌, Option, none, some, ltb, leb,
  ◌==◌, if◌then◌else◌, update, ℤ, pos, negsuc,
}
use dns_relay.Stl.Key.{uint64_key}
use dns_relay.Stl.HashMap.{HashMap, hash_map_create, hash_map_put, hash_map_get, hash_map_remove}

pub record HeapElement : Type 0 where
  pub payload : ℕ
  pub is_deleted : Bool

pub record LazyHeap : Type 0 where
  pub elements : ℕ → ℕ
  pub memory : ℕ → HeapElement
  pub next : ℕ
  pub survivor_table : HashMap ℕ ℕ
  pub size : ℕ
  pub capacity : ℕ

abbrev pub is_positive : ℤ → Bool
is_positive (pos n) = ltb 0 n
is_positive (negsuc n) = false

abbrev pub is_negative : ℤ → Bool
is_negative (pos n) = false
is_negative (negsuc n) = true

-- The loop of `priority_queue_grow`; the fuel bounds the number of doublings.
pub grow_loop : ℕ → ℕ → ℕ → ℕ
grow_loop zero min_capacity capacity = capacity
grow_loop (suc fuel) min_capacity capacity = elim (ltb capacity min_capacity) [
  | true ↦ grow_loop fuel min_capacity (capacity * 2)
  | false ↦ capacity
]

unfoldable pub priority_queue_grow : LazyHeap → ℕ → LazyHeap
unfolding grow_loop
priority_queue_grow q min_capacity = if leb min_capacity q.capacity then q else record q {
  capacity = grow_loop min_capacity min_capacity (if q.capacity == 0 then 1 else q.capacity);
}

unfoldable pub lazy_heap_create : LazyHeap
lazy_heap_create = record {
  elements = λ _. 0;
  memory = λ _. record { payload = 0; is_deleted = false };
  next = 1;
  survivor_table = hash_map_create;
  size = 0;
  capacity = 16;
}

-- `lazy_heap_add` up to its last statement: the array grown, the new element in the last place and
-- in the table.
unfoldable pub append_element : LazyHeap → ℕ → ℕ → LazyHeap
unfolding priority_queue_grow hash_map_put
append_element q key payload =
    let grown = priority_queue_grow q (q.size + 1) in
    record grown {
      elements = update q.elements (q.size + 1) q.next;
      memory = update q.memory q.next (record { payload = payload; is_deleted = false });
      next = q.next + 1;
      survivor_table = (hash_map_put q.survivor_table key q.next).0;
      size = q.size + 1;
    }

module _ (comparator : ℕ → ℕ → ℤ) where
  -- A deleted element counts as less than any other, and its data is not read.
  unfoldable pub heap_element_compare : HeapElement → HeapElement → ℤ
  heap_element_compare a b =
      if a.is_deleted && b.is_deleted
      then pos 0
      else if a.is_deleted
      then negsuc 0
      else if b.is_deleted
      then pos 1
      else comparator a.payload b.payload

  abbrev pub compare_at : LazyHeap → ℕ → ℕ → ℤ
  compare_at q i j = heap_element_compare (q.memory (q.elements i)) (q.memory (q.elements j))

  unfoldable pub swap : LazyHeap → ℕ → ℕ → LazyHeap
  swap q i j = record q { elements = update (update q.elements i (q.elements j)) j (q.elements i) }

  -- The child to swap with in a round of `down`, or `u` itself.
  unfoldable pub left_pick : LazyHeap → ℕ → ℕ
  left_pick q u = if leb (u * 2) q.size && is_positive (compare_at q u (u * 2)) then u * 2 else u

  unfoldable pub pick : LazyHeap → ℕ → ℕ
  unfolding left_pick
  pick q u =
      let t = left_pick q u in
      if leb (u * 2 + 1) q.size && is_positive (compare_at q t (u * 2 + 1)) then u * 2 + 1 else t

  -- `while (1)`: the fuel bounds the rounds, in each of which `u` at least doubles.
  unfoldable pub down_loop : ℕ → LazyHeap → ℕ → LazyHeap
  unfolding pick swap
  down_loop zero q u = q
  down_loop (suc fuel) q u = elim (pick q u == u) [
    | true ↦ q
    | false ↦ down_loop fuel (swap q (pick q u) u) (pick q u)
  ]

  unfoldable pub down : LazyHeap → ℕ → LazyHeap
  unfolding down_loop
  down q u = if u == 0 then q else if ltb q.size u then q else down_loop q.size q u

  unfoldable pub up_loop : ℕ → LazyHeap → ℕ → LazyHeap
  unfolding swap
  up_loop zero q u = q
  up_loop (suc fuel) q u = elim (ltb 0 (u / 2) && is_negative (compare_at q u (u / 2))) [
    | true ↦ up_loop fuel (swap q (u / 2) u) (u / 2)
    | false ↦ q
  ]

  unfoldable pub up : LazyHeap → ℕ → LazyHeap
  unfolding up_loop
  up q u = if u == 0 then q else if ltb q.size u then q else up_loop u q u

  unfoldable pub lazy_heap_add : LazyHeap → ℕ → ℕ → LazyHeap
  unfolding append_element up
  lazy_heap_add q key payload = up (append_element q key payload) (q.size + 1)

  -- The last element in the place of the root, which is freed.
  unfoldable pub drop_root : LazyHeap → LazyHeap
  unfolding down
  drop_root q =
      down (record q { elements = update q.elements 1 (q.elements q.size); size = q.size - 1 }) 1

  unfoldable pub do_delete_loop : ℕ → LazyHeap → LazyHeap
  unfolding drop_root
  do_delete_loop zero q = q
  do_delete_loop (suc fuel) q = elim (ltb 0 q.size && (q.memory (q.elements 1)).is_deleted) [
    | true ↦ do_delete_loop fuel (drop_root q)
    | false ↦ q
  ]

  unfoldable pub do_delete : LazyHeap → LazyHeap
  unfolding do_delete_loop
  do_delete q = do_delete_loop q.size q

  -- `none` is NULL.
  unfoldable pub lazy_heap_peek : LazyHeap → LazyHeap × Option ℕ
  unfolding do_delete
  lazy_heap_peek q =
      if q.size == 0
      then (q, none)
      else let q' = do_delete q in
        if q'.size == 0 then (q', none) else (q', some (q'.memory (q'.elements 1)).payload)

  unfoldable pub lazy_heap_pop : LazyHeap → LazyHeap × Option ℕ
  unfolding do_delete drop_root
  lazy_heap_pop q =
      if q.size == 0
      then (q, none)
      else let q' = do_delete q in
        if q'.size == 0
        then (q', none)
        else (drop_root q', some (q'.memory (q'.elements 1)).payload)

-- The element of the key is marked, and the key forgotten.
unfoldable pub lazy_heap_remove : LazyHeap → ℕ → LazyHeap
unfolding hash_map_get hash_map_remove
lazy_heap_remove q key = elim (hash_map_get q.survivor_table key) [
  | none ↦ q
  | some element ↦ record q {
    memory = update q.memory element (record (q.memory element) { is_deleted = true });
    survivor_table = hash_map_remove q.survivor_table key;
  }
]
