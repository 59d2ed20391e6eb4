-- ===== src/Stl/HashMap/Chain.antt =====
-- One bucket: what the node search reads after each change of the chain.
use dns_relay.Base.{
  ℕ, suc, ◌+◌, ◌≤◌, ◌≡◌, refl, none, some, List, [], ◌∷◌, ◌++◌, arith, if◌then◌else◌, length,
}
use dns_relay.Stl.Key.{Key}
use dns_relay.Stl.HashMap.{find_node, overwrite, unlink}

module _ {ℓ} {K V : Type ℓ} ⦃key : Key K⦄ where
  -- The number of nodes with a key.
  unfoldable pub count : List (K × V) → K → ℕ
  count [] k = 0
  count ((j, v) ∷ c) k = if key.equal j k then suc (count c k) else count c k

  pub find_node-append :
      (c : List (K × V)) (k : K) (v : V) (q : K)
      → find_node c k ≡ none
      → find_node (c ++ (k, v) ∷ []) q ≡ (if key.equal k q then some v else find_node c q)
  unfolding find_node
  find_node-append [] k v q h = refl
  find_node-append ((j, w) ∷ c) k v q h =
      ground
        (arith, key.equal_iff j k, key.equal_iff k q, key.equal_iff j q, find_node-append c k v q)

  pub find_node-overwrite :
      (c : List (K × V)) (k : K) (v w : V) (q : K)
      → find_node c k ≡ some w
      → find_node (overwrite c k v) q ≡ (if key.equal k q then some v else find_node c q)
  unfolding find_node overwrite
  find_node-overwrite [] k v w q h = cc
  find_node-overwrite ((j, x) ∷ c) k v w q h = ground (
    arith,
    key.equal_iff j k,
    key.equal_iff k q,
    key.equal_iff j q,
    find_node-overwrite c k v w q,
  )

  pub find_node_absent : (c : List (K × V)) (k : K) → count c k ≡ 0 → find_node c k ≡ none
  unfolding find_node count
  find_node_absent [] k h = refl
  find_node_absent ((j, x) ∷ c) k h = ground (arith, find_node_absent c k)

  pub count_absent : (c : List (K × V)) (k : K) → find_node c k ≡ none → count c k ≡ 0
  unfolding find_node count
  count_absent [] k h = refl
  count_absent ((j, x) ∷ c) k h = ground (arith, count_absent c k)

  pub find_node-unlink :
      (c : List (K × V)) (k q : K)
      → count c k ≤ 1
      → find_node (unlink c k) q ≡ (if key.equal k q then none else find_node c q)
  unfolding find_node unlink count
  find_node-unlink [] k q h = ground arith
  find_node-unlink ((j, x) ∷ c) k q h = ground (
    arith,
    key.equal_iff j k,
    key.equal_iff k q,
    key.equal_iff j q,
    find_node_absent c k,
    find_node-unlink c k q,
  )

  pub count-append : (a b : List (K × V)) (q : K) → count (a ++ b) q ≡ count a q + count b q
  unfolding count
  count-append [] b q = omega arith
  count-append ((j, w) ∷ c) b q = ground (arith, count-append c b q)

  pub count-overwrite :
      (c : List (K × V)) (k : K) (v : V) (q : K) → count (overwrite c k v) q ≡ count c q
  unfolding count overwrite
  count-overwrite [] k v q = refl
  count-overwrite ((j, w) ∷ c) k v q = ground (arith, count-overwrite c k v q)

  pub count-unlink-le : (c : List (K × V)) (k q : K) → count (unlink c k) q ≤ count c q
  unfolding count unlink
  count-unlink-le [] k q = omega arith
  count-unlink-le ((j, w) ∷ c) k q = ground (arith, count-unlink-le c k q)

  pub length-overwrite : (c : List (K × V)) (k : K) (v : V) → length (overwrite c k v) ≡ length c
  unfolding overwrite
  length-overwrite [] k v = refl
  length-overwrite ((j, w) ∷ c) k v = ground (arith, length-overwrite c k v)

  pub length-unlink :
      (c : List (K × V)) (k : K) (v : V)
      → find_node c k ≡ some v
      → length (unlink c k) + 1 ≡ length c
  unfolding find_node unlink
  length-unlink [] k v h = cc
  length-unlink ((j, w) ∷ c) k v h = ground (arith, length-unlink c k v)
