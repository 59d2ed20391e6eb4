-- ===== src/Stl/Vector.antt =====
-- src/infra/stl.c, from `vector_grow` to `vector_size`: the growing array of pointers. Indices are
-- natural numbers; the C code treats a negative one like one that is out of range. `realloc` does
-- not fail and keeps the elements.
pub mod Refinement
mod Tests
use dns_relay.Base.{
  ℕ, zero, suc, ◌+◌, ◌-◌, ◌*◌, Bool, true, false, ◌&&◌, ltb, leb, ◌==◌, if◌then◌else◌, update,
}

pub record Vector : Type 0 where
  pub elements : ℕ → ℕ
  pub size : ℕ
  pub capacity : ℕ

-- The doublings of `vector_grow`; the fuel bounds their number.
unfoldable pub double_until : ℕ → ℕ → ℕ → ℕ
double_until zero min_capacity temp_capacity = temp_capacity
double_until (suc fuel) min_capacity temp_capacity = elim (ltb temp_capacity min_capacity) [
  | true ↦ double_until fuel min_capacity (temp_capacity * 2)
  | false ↦ temp_capacity
]

unfoldable pub vector_grow : Vector → ℕ → Vector
vector_grow vector min_capacity =
    if leb min_capacity vector.capacity then vector else record vector {
      capacity =
          double_until min_capacity min_capacity
            (if vector.capacity == 0 then 1 else vector.capacity);
    }

unfoldable pub vector_create : ℕ → Vector
vector_create init_capacity = record {
  elements = λ i. 0;
  size = 0;
  capacity = if init_capacity == 0 then 1 else init_capacity;
}

unfoldable pub vector_add : Vector → ℕ → Vector
vector_add vector element =
    let grown = vector_grow vector (vector.size + 1) in
    record grown { elements = update grown.elements grown.size element; size = grown.size + 1 }

-- The loop of `vector_insert` from the last of `count` elements down to `index`.
unfoldable pub shift_up : ℕ → ℕ → (ℕ → ℕ) → ℕ → ℕ
shift_up zero index elements = elements
shift_up (suc count) index elements =
    shift_up count index (update elements (index + count + 1) (elements (index + count)))

unfoldable pub vector_insert : Vector → ℕ → ℕ → Vector
vector_insert vector element index =
    if ltb vector.size index
    then vector
    else let grown = vector_grow vector (vector.size + 1) in
      record grown {
        elements = update (shift_up (grown.size - index) index grown.elements) index element;
        size = grown.size + 1;
      }

-- `memmove` of the elements behind the index by one place.
unfoldable pub vector_remove : Vector → ℕ → Vector
vector_remove vector index = if leb vector.size index then vector else record vector {
  elements = λ i.
      if leb index i && ltb i (vector.size - 1) then vector.elements (i + 1) else vector.elements i;
  size = vector.size - 1;
}

-- 0 is NULL.
unfoldable pub vector_get : Vector → ℕ → ℕ
vector_get vector index = if leb vector.size index then 0 else vector.elements index
