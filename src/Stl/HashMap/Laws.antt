-- ===== src/Stl/HashMap/Laws.antt =====
-- The hash map implements a finite map: the laws that its clients use, with the buckets shut.
use dns_relay.Base.{
  ℕ, ◌+◌, ◌-◌, ◌*◌, ◌≡◌, ◌⊎◌, inl, inr, refl, Option, none, some, [], arith, ltb, if◌then◌else◌,
  length, Bool-cases, Option-cases, get_or,
}
use dns_relay.Stl.Key.{Key}
use dns_relay.Stl.HashMap.{
  HashMap, hash_map_bucket_index, find_node, overwrite, unlink, grow_if_loaded, hash_map_create,
  hash_map_resize, hash_map_put, hash_map_get, hash_map_remove, init_buckets,
}
use dns_relay.Stl.HashMap.Chain.{
  find_node-overwrite, find_node-unlink, count-overwrite, count-unlink-le, length-overwrite,
  length-unlink,
}
use dns_relay.Stl.HashMap.Buckets.{
  length-get_or-le-total, Represents, set-Represents, append-Represents,
}
use dns_relay.Stl.HashMap.Resize.{empty-Represents, resize-Represents}

module _ {ℓ} {K V : Type ℓ} ⦃key : Key K⦄ where
  -- The buckets hold exactly the entries that `hash_map_get` finds, and `size` counts them.
  pub IsValid : HashMap K V → Type ℓ
  IsValid m = Represents (length m.buckets) m.size (hash_map_get m) m.buckets

  rebuild :
      {n size : ℕ} {f : K → Option V} (m : HashMap K V)
      → m.size ≡ size
      → Represents n size f m.buckets
      → IsValid m × ((q : K) → hash_map_get m q ≡ f q)
  unfolding IsValid hash_map_get
  rebuild {n} {size} {f} m s r =
      let w = r.width in
      let reads : (q : K) → hash_map_get m q ≡ f q = λ q. rw w (r.reads q) in
      (
        record {
          positive = omega (arith, r.positive);
          width = refl;
          nodes = omega (arith, r.nodes);
          once = r.once;
          home = λ q i h. r.home q i (rw w at h);
          reads = λ q. refl;
        },
        reads,
      )

  pub create-IsValid :
      IsValid (hash_map_create {K = K} {V = V})
      × ((q : K) → hash_map_get (hash_map_create {K = K} {V = V}) q ≡ none)
  unfolding hash_map_create
  create-IsValid =
      rebuild (hash_map_create {K = K} {V = V}) refl (empty-Represents init_buckets (omega arith))

  grow-Represents :
      (m : HashMap K V) {n size : ℕ} {f : K → Option V}
      → m.size ≡ size
      → Represents n size f m.buckets
      → IsValid (grow_if_loaded m n)
        × ((q : K) → hash_map_get (grow_if_loaded m n) q ≡ f q)
        × ((grow_if_loaded m n).size ≡ size)
  unfolding grow_if_loaded
  grow-Represents m {n} {size} {f} s r = elim (Bool-cases (ltb (n * 3) (m.size * 4))) [
    | inl loaded ↦
        let grown = hash_map_resize m (n * 2) in
        let (v, g) = rebuild grown s (resize-Represents m (omega (arith, r.positive)) r) in
        rw loaded (v, g, s)
    | inr roomy ↦ let (v, g) = rebuild m s r in rw roomy (v, g, s)
  ]

  -- What `hash_map_put` leaves.
  pub record Put (m : HashMap K V) (k : K) (v : V) (r : HashMap K V × ℕ) : Type ℓ where
    pub valid : IsValid r.0
    pub reads : (q : K) → hash_map_get r.0 q ≡ (if key.equal k q then some v else hash_map_get m q)
    pub result :
        ((hash_map_get m k ≡ none) × (r.1 ≡ 0) × (r.0.size ≡ m.size + 1))
        ⊎ ((w : V) × (hash_map_get m k ≡ some w) × (r.1 ≡ 1) × (r.0.size ≡ m.size))

  -- On a valid map hash_map_put leaves a valid map that reads the value at every key equal to the
  -- given one and as before elsewhere, also when it resizes; it returns 0 and counts one more
  -- entry if the key was absent, and returns 1 with the same count if it was there.
  pub hash_map_put-Put :
      (m : HashMap K V) (k : K) (v : V) → IsValid m → Put m k v (hash_map_put m k v)
  unfolding hash_map_put IsValid hash_map_get
  hash_map_put-Put m k v valid =
      let n = length m.buckets in
      let c = get_or m.buckets (hash_map_bucket_index k n) [] in
      elim (Option-cases (find_node c k)) [
        | inl absent ↦
            let appended = append-Represents valid k v absent in
            let (v', reads, sized) =
              grow-Represents (record { buckets = _; size = m.size + 1 }) refl appended in
            rw (absent, hash_map_put)
              (record { valid = v'; reads = reads; result = inl (absent, refl, sized) })
        | inr (w, found) ↦
            let written =
              set-Represents valid k (overwrite c k v) (some v) m.size
                (omega (arith, length-overwrite c k v))
                (λ q.
                  omega (arith, count-overwrite c k v q, valid.once q (hash_map_bucket_index k n)))
                (λ q h. omega (arith, count-overwrite c k v q))
                (λ q. find_node-overwrite c k v w q found) in
            let (v', reads) = rebuild (record m { buckets = _ }) refl written in
            rw (found, hash_map_put)
              (record { valid = v'; reads = reads; result = inr (w, found, refl, refl) })
      ]

  -- On a valid map hash_map_remove leaves a valid map that has no value at every key equal to the
  -- given one and reads as before elsewhere.
  pub remove-IsValid :
      (m : HashMap K V) (k : K)
      → IsValid m
      → IsValid (hash_map_remove m k)
        × ((q : K)
            → hash_map_get (hash_map_remove m k) q
              ≡ (if key.equal k q then none else hash_map_get m q))
  unfolding hash_map_remove IsValid hash_map_get
  remove-IsValid m k valid =
      let n = length m.buckets in
      let c = get_or m.buckets (hash_map_bucket_index k n) [] in
      elim (Option-cases (find_node c k)) [
        | inl absent ↦
            rw (absent, hash_map_remove) (valid, λ q. ground (arith, absent, key.equal_iff k q))
        | inr (w, found) ↦
            let shorter = length-unlink c k w found in
            let filled = length-get_or-le-total m.buckets (hash_map_bucket_index k n) in
            let written =
              set-Represents valid k (unlink c k) none (m.size - 1) (omega (arith, valid.nodes))
                (λ q.
                  omega (arith, count-unlink-le c k q, valid.once q (hash_map_bucket_index k n)))
                (λ q h. count-unlink-le c k q)
                (λ q. find_node-unlink c k q (valid.once k (hash_map_bucket_index k n))) in
            rw (found, hash_map_remove)
              (rebuild (record m { buckets = _; size = m.size - 1 }) refl written)
      ]
