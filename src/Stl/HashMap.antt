-- ===== src/Stl/HashMap.antt =====
-- src/infra/stl.c, from `HashMapEntry` on: the chained hash map.
-- A bucket is the list of its nodes' entries, head first; the bucket vector is the list of them.
pub mod Chain
pub mod Buckets
pub mod Resize
pub mod Laws
mod Tests
use dns_relay.Base.{
  ℕ, suc, ◌+◌, ◌-◌, ◌*◌, ◌%◌, ◌^◌, Bool, Option, none, some, List, [], ◌∷◌, ◌++◌, ltb, ◌==◌,
  if◌then◌else◌, length, get_or, set, replicate, ℤ, pos, negsuc,
}
use dns_relay.Stl.Key.{Key}

pub record HashMap {ℓ} (K V : Type ℓ) : Type ℓ where
  pub buckets : List (List (K × V))
  pub size : ℕ

abbrev pub init_buckets : ℕ
init_buckets = 16

-- The index of a hash value. `-INT32_MIN` does not exist, so that value counts as 0.
unfoldable pub index_of_hash : ℤ → ℕ → ℕ
index_of_hash (pos h) n = h % n
index_of_hash (negsuc h) n = (if h == 2 ^ 31 - 1 then 0 else suc h) % n

module _ {ℓ} {K : Type ℓ} ⦃key : Key K⦄ where
  unfoldable pub hash_map_bucket_index : K → ℕ → ℕ
  unfolding index_of_hash
  hash_map_bucket_index k n = index_of_hash (key.hash_function k) n

module _ {ℓ} {K V : Type ℓ} ⦃key : Key K⦄ where
  -- The data of the node that `hash_map_find_node` returns, if it is not NULL.
  unfoldable pub find_node : List (K × V) → K → Option V
  find_node [] k = none
  find_node ((j, v) ∷ bucket) k = if key.equal j k then some v else find_node bucket k

  -- `entry->data = data` at that node.
  unfoldable pub overwrite : List (K × V) → K → V → List (K × V)
  overwrite [] k v = []
  overwrite ((j, w) ∷ bucket) k v =
      if key.equal j k then (j, v) ∷ bucket else (j, w) ∷ overwrite bucket k v

  -- That node unlinked.
  unfoldable pub unlink : List (K × V) → K → List (K × V)
  unlink [] k = []
  unlink ((j, w) ∷ bucket) k = if key.equal j k then bucket else (j, w) ∷ unlink bucket k

  -- The body of the loops of `hash_map_resize`: one entry goes to the end of its new bucket.
  unfoldable pub rehash : ℕ → List (List (K × V)) → K × V → List (List (K × V))
  rehash n new_buckets (k, v) =
      let i = hash_map_bucket_index k n in
      set new_buckets i (get_or new_buckets i [] ++ (k, v) ∷ [])

  unfoldable pub rehash_bucket : ℕ → List (K × V) → List (List (K × V)) → List (List (K × V))
  rehash_bucket n [] new_buckets = new_buckets
  rehash_bucket n (e ∷ bucket) new_buckets = rehash_bucket n bucket (rehash n new_buckets e)

  unfoldable pub rehash_all : ℕ → List (List (K × V)) → List (List (K × V)) → List (List (K × V))
  rehash_all n [] new_buckets = new_buckets
  rehash_all n (bucket ∷ buckets) new_buckets =
      rehash_all n buckets (rehash_bucket n bucket new_buckets)

  unfoldable pub hash_map_resize : HashMap K V → ℕ → HashMap K V
  unfolding rehash_all rehash_bucket rehash
  hash_map_resize m n = record m { buckets = rehash_all n m.buckets (replicate n []) }

  unfoldable pub hash_map_create : HashMap K V
  hash_map_create = record { buckets = replicate init_buckets []; size = 0 }

  -- The bucket that a key belongs to.
  abbrev pub bucket_at : HashMap K V → K → List (K × V)
  bucket_at m k = get_or m.buckets (hash_map_bucket_index k (length m.buckets)) []

  abbrev pub with_bucket : HashMap K V → K → List (K × V) → HashMap K V
  with_bucket m k bucket = record m {
    buckets = set m.buckets (hash_map_bucket_index k (length m.buckets)) bucket;
  }

  -- The load factor is 3/4; the products that the C code compares as `float` are exact up to 2^24.
  unfoldable pub grow_if_loaded : HashMap K V → ℕ → HashMap K V
  unfolding hash_map_resize
  grow_if_loaded m bucket_count =
      if ltb (bucket_count * 3) (m.size * 4) then hash_map_resize m (bucket_count * 2) else m

  -- The new map and the return value: 1 if the key was there.
  unfoldable pub hash_map_put : HashMap K V → K → V → HashMap K V × ℕ
  unfolding find_node overwrite grow_if_loaded
  hash_map_put m k v = elim (find_node (bucket_at m k) k) [
    | some _ ↦ (with_bucket m k (overwrite (bucket_at m k) k v), 1)
    | none ↦ (
      grow_if_loaded (record (with_bucket m k (bucket_at m k ++ (k, v) ∷ [])) { size = m.size + 1 })
          (length m.buckets),
      0,
    )
  ]

  -- `none` is the return value 1; `some v` is 0 with `*result` set to `v`.
  unfoldable pub hash_map_get : HashMap K V → K → Option V
  unfolding find_node
  hash_map_get m k = find_node (bucket_at m k) k

  unfoldable pub hash_map_remove : HashMap K V → K → HashMap K V
  unfolding find_node unlink
  hash_map_remove m k = elim (find_node (bucket_at m k) k) [
    | none ↦ m
    | some _ ↦ record (with_bucket m k (unlink (bucket_at m k) k)) { size = m.size - 1 }
  ]
