-- ===== src/Dns/Wire/Name.antt =====
-- `name_deserialize` and `name_serialize`: names in a packet, with compression pointers.
-- A byte is the head of a pointer if its two high bits are set, so if it is at least 192.
use Prim.Native.Nat.{bit_or, bit_xor}
use dns_relay.Base.{
  ℕ, zero, suc, ◌+◌, ◌-◌, Bool, true, false, ◌||◌, Option, none, some, List, [], ◌∷◌, ◌++◌, length,
  take, drop, get_elem?, leb, ltb, ◌==◌, if◌then◌else◌, ◌>>=◌,
}
use dns_relay.Dns.Wire.Memory.{Output, h2n_2, n2h_2, put, next_label, c_str, before_zero}

-- The loop of `name_deserialize` from the index i of the buffer on: the index of the final zero or
-- of the head of a pointer. The fuel bounds the rounds.
unfoldable pub walk : ℕ → List ℕ → ℕ → Option ℕ
unfolding next_label
walk zero buf i = none
walk (suc fuel) buf i = do
  head ← get_elem? buf i
  elim ((head == 0) || leb 192 head) [
    | true ↦ some i
    | false ↦ do j ← next_label i head; walk fuel buf j
  ]

-- A field without a pointer, copied as it is.
unfoldable pub name_plain : List ℕ → ℕ → Option (List ℕ × ℕ)
unfolding c_str
name_plain buf cur = do name ← c_str (drop cur buf); some (name, length name + 1)

-- The labels from `cur` to the pointer at `i`, and the name that the pointer leads to.
unfoldable pub join_suffix : List ℕ → ℕ → ℕ → List ℕ → Option (List ℕ × ℕ)
unfolding before_zero
join_suffix buf cur i suffix =
    if ltb i cur
    then none
    else some (before_zero (take (i - cur) (drop cur buf) ++ suffix), i - cur + 2)

-- Where the labels from `cur` on end, and the target of the pointer there, if it is one. `none`
-- where the loop over the labels leaves the memory or does not end.
unfoldable pub name_end : List ℕ → ℕ → Option (ℕ × Option ℕ)
unfolding walk n2h_2
name_end buf cur = do
  i ← walk (suc (length buf)) buf cur
  head ← get_elem? buf i
  elim (head == 0) [
    | true ↦ some (i, none)
    | false ↦ do offset ← n2h_2 (drop i buf); some (i, some (bit_xor offset.0 0xC000))
  ]

-- The name at the index `cur` of the buffer, and the length of its field. The fuel bounds the depth
-- of the recursion: `none` stands for a deeper recursion, and `some none` for a call that returns
-- no name, since it leaves the memory or its loop does not end. A walk or a chain of pointers that
-- ends visits no place twice, so that fuel above the length of the buffer is enough.
unfoldable pub name_at : ℕ → List ℕ → ℕ → Option (Option (List ℕ × ℕ))
unfolding name_end name_plain join_suffix
name_at zero buf cur = none
name_at (suc fuel) buf cur = elim (name_end buf cur) [
  | none ↦ some none
  | some (i, target) ↦ elim target [
    | none ↦ some (name_plain buf cur)
    | some offset ↦ do
      suffix ← name_at fuel buf offset
      some (suffix >>= λ s. join_suffix buf cur i s.0)
  ]
]

-- The name and the length of its field, `none` for a recursion that does not end as for a fault.
unfoldable pub name_deserialize : List ℕ → ℕ → Option (List ℕ × ℕ)
unfolding name_at
name_deserialize buf cur = do found ← name_at (suc (length buf)) buf cur; found

-- `!strcmp` of a place in memory with a name that has no zero byte.
unfoldable pub equals : List ℕ → List ℕ → Option Bool
equals [] name = none
equals (m ∷ mem) [] = some (m == 0)
equals (m ∷ mem) (c ∷ name) = elim (m == c) [ true ↦ equals mem name | false ↦ some false ]

-- The loop of `find_previous_name` with `left` places to go and `offset` behind: the offset of the
-- name, `some none` if it is not found.
unfoldable pub find_loop : ℕ → List ℕ → List ℕ → ℕ → Option (Option ℕ)
unfolding equals
find_loop zero mem name offset = do same ← equals mem name; some none
find_loop (suc left) mem name offset = do
  same ← equals mem name
  elim same [ true ↦ some (some offset) | false ↦ find_loop left (drop 1 mem) name (suc offset) ]

-- Between the end of the header and the cursor.
unfoldable pub find_previous_name : Output → List ℕ → Option (Option ℕ)
unfolding find_loop
find_previous_name o name = find_loop (length o.written - 12) (drop 12 (o.written ++ o.room)) name 0

-- The loop of `name_serialize` at the index i of the name: the index it ends at and the offset it
-- found. It is the whole name that is searched in each round.
unfoldable pub suffix_loop : ℕ → Output → List ℕ → ℕ → Option (ℕ × Option ℕ)
unfolding find_previous_name next_label
suffix_loop zero o name i = none
suffix_loop (suc fuel) o name i = do
  head ← get_elem? (name ++ 0 ∷ []) i
  elim (head == 0) [
    | true ↦ some (i, none)
    | false ↦ do
      found ← find_previous_name o name
      elim found [
        | some offset ↦ some (i, some offset)
        | none ↦ do j ← next_label i head; suffix_loop fuel o name j
      ]
  ]

unfoldable pub name_serialize : Output → List ℕ → Option Output
unfolding suffix_loop h2n_2 put
name_serialize o name = do
  found ← suffix_loop (suc (length name)) o name 0
  elim found.1 [
    | some offset ↦ put o (take found.0 name ++ h2n_2 (bit_or (offset + 12) 0xC000))
    | none ↦ put o (name ++ 0 ∷ [])
  ]
