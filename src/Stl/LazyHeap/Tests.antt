-- ===== src/Stl/LazyHeap/Tests.antt =====
-- Runs of the lazy heap, and the theorems at concrete inputs: the data are their own stamps.
use dns_relay.Base.{ℕ, ◌≡◌, refl, some, arith}
use dns_relay.Stl.Key.{uint64_key, compare_uint, hash_func_uint64}
use dns_relay.Stl.HashMap.{hash_map_create, hash_map_bucket_index}
use dns_relay.Stl.LazyHeap.{
  LazyHeap, lazy_heap_create, lazy_heap_add, lazy_heap_remove, lazy_heap_peek, lazy_heap_pop,
  heap_element_compare,
}
use dns_relay.Stl.LazyHeap.Rank.{Orders}
use dns_relay.Stl.LazyHeap.Ops.{IsValid}
use dns_relay.Stl.LazyHeap.Change.{create-IsValid}
use dns_relay.Stl.LazyHeap.Effects.{Adds, Removes, add-Adds, remove-Removes}
use dns_relay.Stl.LazyHeap.Peek.{Peeked, lazy_heap_peek-Peeked}

abbrev own : ℕ → ℕ
own p = p

uint-Orders : Orders compare_uint own
unfolding compare_uint
uint-Orders = record { above = λ a b. ground arith; below = λ a b. ground arith }

abbrev one : LazyHeap
one = lazy_heap_add compare_uint lazy_heap_create 1 50

abbrev two : LazyHeap
two = lazy_heap_add compare_uint one 2 60

abbrev cancelled : LazyHeap
cancelled = lazy_heap_remove two 1

program : Unit {0}
unfolding lazy_heap_create lazy_heap_add lazy_heap_remove lazy_heap_peek lazy_heap_pop
    hash_map_create hash_map_bucket_index hash_func_uint64 compare_uint
program = tt

least_first : (lazy_heap_peek compare_uint two).1 ≡ some 50
unfolding program heap_element_compare
least_first = refl

-- The cancelled element is skipped.
skipped : (lazy_heap_peek compare_uint cancelled).1 ≡ some 60
unfolding program heap_element_compare
skipped = refl

created : IsValid own 0 lazy_heap_create
created = create-IsValid compare_uint own uint-Orders 0

add-Adds_example : Adds own 1 50 lazy_heap_create one
add-Adds_example =
    add-Adds compare_uint own uint-Orders 0 lazy_heap_create 1 50 created (omega arith)

one-IsValid : IsValid own 50 one
one-IsValid =
    (add-Adds compare_uint own uint-Orders 0 lazy_heap_create 1 50 created (omega arith)).valid

two-IsValid : IsValid own 60 two
two-IsValid = (add-Adds compare_uint own uint-Orders 50 one 2 60 one-IsValid (omega arith)).valid

remove-Removes_example : Removes own 60 1 two cancelled
remove-Removes_example = remove-Removes own 60 1 two two-IsValid

lazy_heap_peek-Peeked_example : Peeked own 60 cancelled (lazy_heap_peek compare_uint cancelled)
lazy_heap_peek-Peeked_example =
    lazy_heap_peek-Peeked compare_uint own uint-Orders 60 cancelled
      (remove-Removes own 60 1 two two-IsValid).valid
