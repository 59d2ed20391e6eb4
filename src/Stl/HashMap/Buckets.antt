-- ===== src/Stl/HashMap/Buckets.antt =====
-- The bucket vector: what it holds, and what a change of one bucket does to it.
use dns_relay.Base.{
  ℕ, zero, suc, ◌+◌, ◌≤◌, ◌<◌, ◌≡◌, ◌≢◌, false, Option, none, some, List, [], ◌∷◌, ◌++◌, arith,
  if◌then◌else◌, length, length-append, get_or, set, length-set, get_or-set, ℤ, pos, negsuc,
}
use dns_relay.Stl.Key.{Key}
use dns_relay.Stl.HashMap.{index_of_hash, hash_map_bucket_index, find_node}
use dns_relay.Stl.HashMap.Chain.{count, count-append, count_absent, find_node-append}

index_of_hash-lt : (h : ℤ) (n : ℕ) → 0 < n → index_of_hash h n < n
unfolding index_of_hash
index_of_hash-lt (pos h) n p = omega arith
index_of_hash-lt (negsuc h) n p = omega arith

-- `hash % bucket_count` is a valid index for every hash value, INT32_MIN included.
pub bucket_index-lt {ℓ} :
    {K : Type ℓ} ⦃key : Key K⦄ (k : K) (n : ℕ) → 0 < n → hash_map_bucket_index k n < n
unfolding hash_map_bucket_index
bucket_index-lt ⦃key⦄ k n p = index_of_hash-lt (key.hash_function k) n p

-- The number of nodes in all the buckets.
unfoldable pub total {ℓ} : {A : Type ℓ} → List (List A) → ℕ
total [] = 0
total (c ∷ cs) = length c + total cs

pub total-set {ℓ} :
    {A : Type ℓ} (bs : List (List A)) (i : ℕ) (c : List A)
    → i < length bs
    → total (set bs i c) + length (get_or bs i []) ≡ total bs + length c
unfolding total
total-set [] i c h = absurd (omega arith)
total-set (b ∷ bs) zero c h = omega arith
total-set (b ∷ bs) (suc i) c h = omega (arith, total-set bs i c (omega arith))

pub length-get_or-le-total {ℓ} :
    {A : Type ℓ} (bs : List (List A)) (i : ℕ) → length (get_or bs i []) ≤ total bs
unfolding total
length-get_or-le-total [] i = omega arith
length-get_or-le-total (b ∷ bs) zero = omega arith
length-get_or-le-total (b ∷ bs) (suc i) = omega (arith, length-get_or-le-total bs i)

module _ {ℓ} {K V : Type ℓ} ⦃key : Key K⦄ where
  -- The vector has `n` buckets and `size` nodes; each key stands at most once, in its own bucket,
  -- and the search in that bucket reads as the finite map `f`.
  pub record Represents (n size : ℕ) (f : K → Option V) (bs : List (List (K × V))) : Type ℓ where
    pub positive : 0 < n
    pub width : length bs ≡ n
    pub nodes : total bs ≡ size
    pub once : (q : K) (i : ℕ) → count (get_or bs i []) q ≤ 1
    pub home : (q : K) (i : ℕ) → hash_map_bucket_index q n ≢ i → count (get_or bs i []) q ≡ 0
    pub reads : (q : K) → find_node (get_or bs (hash_map_bucket_index q n) []) q ≡ f q

  module _ {n size : ℕ} {f : K → Option V} {bs : List (List (K × V))} (r : Represents n size f bs)
      (k : K) where
    abbrev chain : List (K × V)
    chain = get_or bs (hash_map_bucket_index k n) []

    -- The bucket of `k` replaced by `c`, which reads as before but at `k`.
    pub set-Represents :
        (c : List (K × V)) (v : Option V) (size' : ℕ)
        → size' + length chain ≡ size + length c
        → ((q : K) → count c q ≤ 1)
        → ((q : K) → key.equal k q ≡ false → count c q ≤ count chain q)
        → ((q : K) → find_node c q ≡ (if key.equal k q then v else find_node chain q))
        → Represents n size'
            (λ q. if key.equal k q then v else f q)
            (set bs (hash_map_bucket_index k n) c)
    set-Represents c v size' sizes one few reads' =
        let i = hash_map_bucket_index k n in
        let inside : i < length bs = omega (arith, r.width, bucket_index-lt k n r.positive) in
        record {
          positive = r.positive;
          width = omega (arith, r.width, length-set bs i c);
          nodes = omega (arith, r.nodes, total-set bs i c inside);
          once = λ q j. ground (arith, get_or-set bs i j c [] inside, one q, r.once q j);
          home = λ q j h.
              ground (arith, get_or-set bs i j c [] inside, few q, r.home q j, key.equal_iff k q);
          reads = λ q. ground (
            arith,
            get_or-set bs i (hash_map_bucket_index q n) c [] inside,
            reads' q,
            r.reads q,
            key.equal_iff k q,
          );
        }

    -- A new node at the end of its bucket.
    pub append-Represents :
        (v : V)
        → f k ≡ none
        → Represents n
            (size + 1)
            (λ q. if key.equal k q then some v else f q)
            (set bs (hash_map_bucket_index k n) (chain ++ (k, v) ∷ []))
    unfolding count
    append-Represents v fresh =
        let absent : find_node chain k ≡ none = ground (arith, r.reads k) in
        set-Represents (chain ++ (k, v) ∷ []) (some v) (size + 1)
          (omega (arith, length-append chain ((k, v) ∷ [])))
          (λ q. ground (
            arith,
            count-append chain ((k, v) ∷ []) q,
            r.once q (hash_map_bucket_index k n),
            count_absent chain k absent,
            key.equal_iff k q,
          ))
          (λ q h. ground (arith, count-append chain ((k, v) ∷ []) q))
          (λ q. find_node-append chain k v q absent)
