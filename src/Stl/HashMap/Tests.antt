-- ===== src/Stl/HashMap/Tests.antt =====
-- Runs of the hash map, and the theorems at concrete inputs.
use dns_relay.Base.{ℕ, ◌≡◌, refl, some, none, ◌==◌, if◌then◌else◌}
use dns_relay.Stl.Key.{uint64_key, str_key, hash_func_uint64}
use dns_relay.Stl.HashMap.{
  HashMap, hash_map_create, hash_map_put, hash_map_get, hash_map_remove, hash_map_bucket_index,
}
use dns_relay.Stl.HashMap.Laws.{IsValid, Put, hash_map_put-Put, remove-IsValid, create-IsValid}

abbrev empty : HashMap ℕ ℕ
empty = hash_map_create

abbrev one : HashMap ℕ ℕ
one = (hash_map_put empty 7 70).0

-- A put, an overwrite and a removal.
overwritten : hash_map_get (hash_map_put one 7 71).0 7 ≡ some 71
unfolding hash_map_create hash_map_put hash_map_get hash_map_bucket_index hash_func_uint64
overwritten = refl

removed : hash_map_get (hash_map_remove one 7) 7 ≡ none
unfolding hash_map_create hash_map_put hash_map_get hash_map_remove hash_map_bucket_index
    hash_func_uint64
removed = refl

put_result : (hash_map_put one 7 71).1 ≡ 1
unfolding hash_map_create hash_map_put hash_map_bucket_index hash_func_uint64
put_result = refl

empty-IsValid : IsValid empty
empty-IsValid = (create-IsValid {K = ℕ} {V = ℕ}).0

hash_map_put-Put_example : Put empty 7 70 (hash_map_put empty 7 70)
hash_map_put-Put_example = hash_map_put-Put empty 7 70 empty-IsValid

remove-IsValid_example :
    IsValid (hash_map_remove one 7)
    × ((q : ℕ)
        → hash_map_get (hash_map_remove one 7) q ≡ (if 7 == q then none else hash_map_get one q))
remove-IsValid_example = remove-IsValid one 7 (hash_map_put-Put empty 7 70 empty-IsValid).valid
