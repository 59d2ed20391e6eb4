-- ===== src/Stl/HashMap/Resize.antt =====
-- `hash_map_resize` moves every entry and changes no lookup.
use dns_relay.Base.{
  ℕ, zero, suc, ◌+◌, ◌≤◌, ◌<◌, ◌≡◌, ◌≢◌, ◌⊎◌, inl, inr, refl, ℕ_discrete, Option, none, some, List,
  [], ◌∷◌, arith, length, get_or, replicate, length-replicate, get_or-replicate,
}
use dns_relay.Stl.Key.{Key}
use dns_relay.Stl.HashMap.{
  HashMap, hash_map_bucket_index, find_node, rehash, rehash_bucket, rehash_all, hash_map_resize,
}
use dns_relay.Stl.HashMap.Chain.{count, find_node_absent}
use dns_relay.Stl.HashMap.Buckets.{total, Represents, append-Represents}

-- The first answer that there is.
abbrev or_else {ℓ} : {A : Type ℓ} → Option A → Option A → Option A
or_else (some a) b = some a
or_else none b = b

or_else_swap {ℓ} :
    {A : Type ℓ} (a b g : Option A)
    → (a ≡ none) ⊎ (b ≡ none)
    → or_else b (or_else a g) ≡ or_else (or_else a b) g
or_else_swap a b g (inl e) = rw e
or_else_swap none b g (inr e) = rw e
or_else_swap (some a) b g (inr e) = rw e

total-replicate {ℓ} : (A : Type ℓ) (n : ℕ) → total {A = A} (replicate n []) ≡ 0
unfolding total
total-replicate A zero = refl
total-replicate A (suc n) = omega (arith, total-replicate A n)

module _ {ℓ} {K V : Type ℓ} ⦃key : Key K⦄ where
  Represents-ext :
      {n size : ℕ} {f g : K → Option V} {bs : List (List (K × V))}
      → ((q : K) → f q ≡ g q)
      → Represents n size f bs
      → Represents n size g bs
  Represents-ext same r = record {
    positive = r.positive;
    width = r.width;
    nodes = r.nodes;
    once = r.once;
    home = r.home;
    reads = λ q. ground (arith, r.reads q, same q);
  }

  pub empty-Represents :
      (n : ℕ) → 0 < n → Represents {K = K} {V = V} n 0 (λ _. none) (replicate n [])
  unfolding count find_node
  empty-Represents n p = record {
    positive = p;
    width = length-replicate n [];
    nodes = total-replicate (K × V) n;
    once = λ q i. ground (arith, get_or-replicate {A = List (K × V)} n i []);
    home = λ q i h. ground (arith, get_or-replicate {A = List (K × V)} n i []);
    reads =
        λ q. ground (arith, get_or-replicate {A = List (K × V)} n (hash_map_bucket_index q n) []);
  }

  rehash_bucket-Represents :
      (c : List (K × V)) {n size : ℕ} {g : K → Option V} {bs : List (List (K × V))}
      → ((q : K) → count c q ≤ 1)
      → ((q : K) → 0 < count c q → g q ≡ none)
      → Represents n size g bs
      → Represents n (size + length c) (λ q. or_else (find_node c q) (g q)) (rehash_bucket n c bs)
  unfolding rehash_bucket rehash count find_node
  rehash_bucket-Represents [] once apart r = record {
    positive = r.positive;
    width = r.width;
    nodes = omega (arith, r.nodes);
    once = r.once;
    home = r.home;
    reads = r.reads;
  }
  rehash_bucket-Represents ((k, v) ∷ c) {n} {size} {g} {bs} once apart r =
      let fresh : g k ≡ none = ground (arith, apart k, key.equal_iff k k) in
      let step = append-Represents r k v fresh in
      let rest =
        rehash_bucket-Represents c (λ q. ground (arith, once q))
          (λ q h. ground (arith, once q, apart q)) step in
      let same : size + 1 + length c ≡ size + suc (length c) = omega arith in
      Represents-ext (λ q. ground (arith, once q, find_node_absent c q)) (rw same at rest)

  find_all : List (List (K × V)) → K → Option V
  find_all [] q = none
  find_all (c ∷ bs) q = or_else (find_node c q) (find_all bs q)

  count_all : List (List (K × V)) → K → ℕ
  count_all [] q = 0
  count_all (c ∷ bs) q = count c q + count_all bs q

  find_all_empty : (bs : List (List (K × V))) (q : K) → count_all bs q ≡ 0 → find_all bs q ≡ none
  unfolding count_all find_all
  find_all_empty [] q e = refl
  find_all_empty (c ∷ bs) q e = ground (arith, find_node_absent c q, find_all_empty bs q)

  count_all_zero :
      (bs : List (List (K × V))) (q : K)
      → ((i : ℕ) → count (get_or bs i []) q ≡ 0)
      → (count_all bs q ≡ 0) × (find_all bs q ≡ none)
  unfolding count_all find_all
  count_all_zero [] q h = (refl, refl)
  count_all_zero (c ∷ bs) q h =
      let ih = count_all_zero bs q (λ i. h (suc i)) in ground (arith, ih, h 0, find_node_absent c q)

  -- Only the bucket `j` has the key.
  count_all_one :
      (bs : List (List (K × V))) (q : K) (j : ℕ)
      → ((i : ℕ) → j ≢ i → count (get_or bs i []) q ≡ 0)
      → (count_all bs q ≡ count (get_or bs j []) q) × (find_all bs q ≡ find_node (get_or bs j []) q)
  unfolding count_all find_all count find_node
  count_all_one [] q j h = (refl, refl)
  count_all_one (c ∷ bs) q zero h =
      let ih = count_all_zero bs q (λ i. h (suc i) (omega arith)) in ground (arith, ih)
  count_all_one (c ∷ bs) q (suc j) h =
      let ih = count_all_one bs q j (λ i d. h (suc i) (omega arith)) in
      ground (arith, ih, h 0 (omega arith), find_node_absent c q)

  rehash_all-Represents :
      (olds : List (List (K × V))) {n size : ℕ} {g : K → Option V} {bs : List (List (K × V))}
      → ((q : K) → count_all olds q ≤ 1)
      → ((q : K) → 0 < count_all olds q → g q ≡ none)
      → Represents n size g bs
      → Represents n
          (size + total olds)
          (λ q. or_else (find_all olds q) (g q))
          (rehash_all n olds bs)
  unfolding rehash_all count_all find_all total
  rehash_all-Represents [] once apart r = record {
    positive = r.positive;
    width = r.width;
    nodes = omega (arith, r.nodes);
    once = r.once;
    home = r.home;
    reads = r.reads;
  }
  rehash_all-Represents (c ∷ olds) {n} {size} {g} {bs} once apart r =
      let step =
        rehash_bucket-Represents c {g = g} (λ q. omega (arith, once q))
          (λ q h. apart q (omega arith)) r in
      let rest =
        rehash_all-Represents olds (λ q. omega (arith, once q))
          (λ q h. ground (arith, once q, apart q (omega arith), find_node_absent c q)) step in
      let same : size + length c + total olds ≡ size + (length c + total olds) = omega arith in
      Represents-ext (λ q. or_else_swap (find_node c q) (find_all olds q) (g q) (apart_nodes q))
        (rw same at rest)
    where
      apart_nodes : (q : K) → (find_node c q ≡ none) ⊎ (find_all olds q ≡ none)
      apart_nodes q = elim (ℕ_discrete (count c q) 0) [
        | yes e ↦ inl (find_node_absent c q e)
        | no e ↦ inr (find_all_empty olds q (omega (arith, once q)))
      ]

  -- The resized map has every entry, once, in its new bucket.
  pub resize-Represents :
      (m : HashMap K V) {n n' size : ℕ} {f : K → Option V}
      → 0 < n'
      → Represents n size f m.buckets
      → Represents n' size f (hash_map_resize m n').buckets
  unfolding hash_map_resize
  resize-Represents m {n} {n'} {size} {f} p r =
      let one = λ (q : K). count_all_one m.buckets q (hash_map_bucket_index q n) (r.home q) in
      let all =
        rehash_all-Represents m.buckets {g = λ _. none}
          (λ q. omega (arith, one q, r.once q (hash_map_bucket_index q n))) (λ q _. refl)
          (empty-Represents n' p) in
      let sized : 0 + total m.buckets ≡ size = omega (arith, r.nodes) in
      Represents-ext (λ q. ground (arith, one q, r.reads q)) (rw sized at all)
