-- ===== src/Stl/LazyHeap/Layout.antt =====
-- The order of the lazy heap, as facts about an array of ranks. A deleted element has rank 0, a
-- live one the successor of its stamp. Deleted elements in the middle break the usual heap order;
-- what survives is that there are bounds which never fall towards the leaves and which are exact at
-- each live element.
use dns_relay.Base.{
  ℕ, suc, ◌+◌, ◌-◌, ◌*◌, ◌/◌, ◌≤◌, ◌<◌, ◌≡◌, ◌≢◌, ◌⊎◌, arith, ◌==◌, if◌then◌else◌, update,
}

pub record IsOrdered (r : ℕ → ℕ) (size clock : ℕ) (bound : ℕ → ℕ) : Type 0 where
  pub edges : (c : ℕ) → 1 < c → c ≤ size → bound (c / 2) ≤ bound c
  pub exact : (i : ℕ) → 0 < i → i ≤ size → 0 < r i → r i ≡ suc (bound i)
  pub late : (i : ℕ) → 0 < i → i ≤ size → bound i ≤ clock

-- Only the element at `u` may stand too high.
pub record DownInv (r : ℕ → ℕ) (size clock u : ℕ) (bound : ℕ → ℕ) : Type 0 where
  pub positive : 0 < u
  pub inside : u ≤ size
  pub edges : (c : ℕ) → 1 < c → c ≤ size → c ≢ u → c / 2 ≢ u → bound (c / 2) ≤ bound c
  pub bridged : (c : ℕ) → 1 < c → c ≤ size → c / 2 ≡ u → 1 < u → bound (u / 2) ≤ bound c
  pub exact : (i : ℕ) → 0 < i → i ≤ size → i ≢ u → 0 < r i → r i ≡ suc (bound i)
  pub above : 1 < u → 0 < r u → bound (u / 2) < r u
  pub late : (i : ℕ) → 0 < i → i ≤ size → i ≢ u → bound i ≤ clock
  pub now : r u ≤ suc clock

-- The bound at `u` for an element of rank `x`.
abbrev pub bound_for : (ℕ → ℕ) → ℕ → ℕ → ℕ
bound_for bound u x = if x == 0 then (if u == 1 then 0 else bound (u / 2)) else x - 1

module _ {r : ℕ → ℕ} {size clock u : ℕ} {bound : ℕ → ℕ} (v : DownInv r size clock u bound) where
  pub stop-IsOrdered :
      (u * 2 ≤ size → r u ≤ r (u * 2))
      → (u * 2 + 1 ≤ size → r u ≤ r (u * 2 + 1))
      → IsOrdered r size clock (update bound u (bound_for bound u (r u)))
  stop-IsOrdered l m = record {
    edges = λ c a b. ground (arith, v.edges c, v.bridged c, v.exact c, v.above, l, m);
    exact = λ i a b p. ground (arith, v.exact i);
    late = λ i a b. ground (arith, v.late i, v.late (u / 2));
  }

  pub swap-DownInv :
      (r' : ℕ → ℕ) (t : ℕ)
      → ((k : ℕ) → r' k ≡ (if u == k then r t else if t == k then r u else r k))
      → (t ≡ u * 2) ⊎ (t ≡ u * 2 + 1)
      → t ≤ size
      → r t < r u
      → (u * 2 ≤ size → r t ≤ r (u * 2))
      → (u * 2 + 1 ≤ size → r t ≤ r (u * 2 + 1))
      → DownInv r' size clock t (update bound u (bound_for bound u (r t)))
  swap-DownInv r' t s child inside less l m = record {
    positive = omega arith;
    inside = inside;
    edges = λ c a b n p.
        ground (arith, v.edges c, v.bridged c, v.bridged t, v.exact c, v.exact t, l, m);
    bridged = λ c a b n p. ground (arith, v.edges c, v.edges t, v.bridged t, v.exact t);
    exact = λ i a b n p. ground (arith, v.exact i, v.exact t, s i);
    above = λ a b. ground (arith, s t, v.exact t, v.above);
    late = λ i a b n. ground (arith, v.late i, v.late (u / 2), v.late t, v.exact t);
    now = ground (arith, s t, v.now);
  }
