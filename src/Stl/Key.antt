-- ===== src/Stl/Key.antt =====
-- include/infra/stl.h: the hash functions and comparators that the containers are created with.
use Prim.Native.Nat.{bit_xor}
use dns_relay.Base.{
  ℕ, ◌+◌, ◌*◌, ◌/◌, ◌%◌, ◌^◌, ◌≡◌, ◌↔◌, Bool, true, false, List, [], ◌∷◌, arith, ltb, ◌==◌, refl,
  ◌&&◌, ==_iff, if◌then◌else◌, ℤ, pos, negsuc, to_int32,
}

-- The two function pointers of a `HashMap`; `equal a b` stands for `comparator(a, b) == 0`.
pub record Key {ℓ} (K : Type ℓ) : Type ℓ where
  pub hash_function : K → ℤ
  pub equal : K → K → Bool
  pub equal_iff : (a b : K) → (equal a b ≡ true) ↔ (a ≡ b)

-- `hash_func_uint64`, on `uint64_t` with its wrap-around; the result is converted to `int`.
unfoldable pub hash_func_uint64 : ℕ → ℤ
hash_func_uint64 key =
    let x = bit_xor key (key / 2 ^ 30) * 0xbf58476d1ce4e5b9 % 2 ^ 64 in
    let y = bit_xor x (x / 2 ^ 27) * 0x94d049bb133111eb % 2 ^ 64 in
    to_int32 (bit_xor y (y / 2 ^ 31))

-- The loop of `hash_func_str`, on the 32 bits of `hash`.
unfoldable pub hash_str_loop : ℕ → List ℕ → ℕ
hash_str_loop hash [] = hash
hash_str_loop hash (c ∷ str) = hash_str_loop ((hash * 32 + hash + c) % 2 ^ 32) str

-- `hash_func_str`, on the bytes of a C string.
unfoldable pub hash_func_str : List ℕ → ℤ
unfolding hash_str_loop
hash_func_str str = to_int32 (hash_str_loop 5381 str)

-- `compare_uint`.
unfoldable pub compare_uint : ℕ → ℕ → ℤ
compare_uint a b = if ltb b a then pos 1 else if a == b then pos 0 else negsuc 0

-- The test `compare_cstr(a, b) == 0` on two strings that are not NULL.
abbrev pub str_equal : List ℕ → List ℕ → Bool
str_equal [] [] = true
str_equal [] (b ∷ ys) = false
str_equal (a ∷ xs) [] = false
str_equal (a ∷ xs) (b ∷ ys) = a == b && str_equal xs ys

pub str_equal_refl : (a : List ℕ) → str_equal a a ≡ true
str_equal_refl [] = refl
str_equal_refl (a ∷ xs) = ground (arith, str_equal_refl xs)

pub eq_of_str_equal : (a b : List ℕ) → str_equal a b ≡ true → a ≡ b
eq_of_str_equal [] [] h = refl
eq_of_str_equal [] (b ∷ ys) h = cc
eq_of_str_equal (a ∷ xs) [] h = cc
eq_of_str_equal (a ∷ xs) (b ∷ ys) h = ground (arith, eq_of_str_equal xs ys)

pub str_equal_iff : (a b : List ℕ) → (str_equal a b ≡ true) ↔ (a ≡ b)
str_equal_iff a b = (eq_of_str_equal a b, λ e. rw e (str_equal_refl b))

-- The maps with C strings as keys: the cache's table, the configuration.
instance abbrev pub str_key : Key (List ℕ)
str_key = record { hash_function = hash_func_str; equal = str_equal; equal_iff = str_equal_iff }

-- The maps with ids as keys: the sessions and the survivors of the heap.
instance abbrev pub uint64_key : Key ℕ
uint64_key = record { hash_function = hash_func_uint64; equal = ◌==◌; equal_iff = ==_iff }
