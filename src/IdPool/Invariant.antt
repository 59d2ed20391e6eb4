-- ===== src/IdPool/Invariant.antt =====
-- The free stack and the marks of the id pool agree, whatever is called.
use dns_relay.Base.{
  ℕ, zero, suc, ◌≤◌, ◌<◌, ◌≡◌, ◌≢◌, refl, inl, inr, true, false, arith, ltb, ◌==◌, update,
  if◌then◌else◌, Bool-cases,
}
use dns_relay.IdPool.{pool_size, Pool, id_pool_init, id_alloc, id_free}

-- `slot` names the place of each free id in the stack: a witness that the free ids are distinct and
-- are exactly the unmarked ones.
pub record IsValid (p : Pool) (slot : ℕ → ℕ) : Type 0 where
  pub within : p.count ≤ pool_size
  pub free :
      (i : ℕ)
      → i < p.count
      → (p.ids i < pool_size) × (p.st (p.ids i) ≡ false) × (slot (p.ids i) ≡ i)
  pub listed :
      (id : ℕ) → id < pool_size → p.st id ≡ false → (slot id < p.count) × (p.ids (slot id) ≡ id)

pub id_pool_init-IsValid : IsValid id_pool_init (λ i. i)
unfolding id_pool_init
id_pool_init-IsValid = record {
  within = omega arith;
  free = λ i h. (h, refl, refl);
  listed = λ id h e. (h, refl);
}

pub id_alloc-IsValid : (p : Pool) (slot : ℕ → ℕ) → IsValid p slot → IsValid (id_alloc p).0 slot
unfolding id_alloc
id_alloc-IsValid p slot v = grind (arith, v.free, v.listed)

-- The freed id goes on top of the stack.
pub id_free-IsValid :
    (p : Pool) (slot : ℕ → ℕ) (id : ℕ)
    → id < pool_size
    → IsValid p slot
    → (slot' : ℕ → ℕ) × IsValid (id_free p id) slot'
unfolding id_free
id_free-IsValid p slot id h v = elim (Bool-cases (p.st id)) [
  | inl used ↦ elim (Bool-cases (ltb p.count pool_size)) [
    | inl room ↦ (update slot id p.count, grind (arith, v.free, v.listed))
    | inr full ↦ (slot, rw (used, full) v)
  ]
  | inr unused ↦ (slot, rw unused v)
]

-- No injection of n + 1 numbers into n; `g` is the inverse.
pigeonhole :
    (n : ℕ) (f g : ℕ → ℕ)
    → ((i : ℕ) → i < suc n → f i < n)
    → ((i : ℕ) → i < suc n → g (f i) ≡ i)
    → ⊥
pigeonhole zero f g below inverse = absurd (omega (arith, below 0 (omega arith)))
pigeonhole (suc m) f g below inverse =
    pigeonhole m (λ i. if f i == m then f (suc m) else f i)
      (λ y. if y == f (suc m) then g m else g y)
      (λ i h. ground (arith, below i, below (suc m), inverse i, inverse (suc m)))
      (λ i h. ground (arith, below i, below (suc m), inverse i, inverse (suc m)))

pigeonhole_avoid :
    (n : ℕ) (f g : ℕ → ℕ) (a : ℕ)
    → a < n
    → ((i : ℕ) → i < n → (f i < n) × (f i ≢ a) × (g (f i) ≡ i))
    → ⊥
pigeonhole_avoid zero f g a h all = absurd (omega arith)
pigeonhole_avoid (suc m) f g a h all =
    pigeonhole m (λ i. if f i == m then a else f i) (λ y. if y == a then g m else g y)
      (λ i b. ground (arith, all i b)) (λ i b. ground (arith, all i b))

-- While an id is in use the stack has room for it, so the guard of `id_free` never drops an id.
pub count-lt_of_used :
    (p : Pool) (slot : ℕ → ℕ) (id : ℕ)
    → IsValid p slot
    → id < pool_size
    → p.st id ≡ true
    → p.count < pool_size
count-lt_of_used p slot id v h used = elim (Bool-cases (ltb p.count pool_size)) [
  | inl room ↦ ground arith
  | inr full ↦ absurd (pigeonhole_avoid pool_size p.ids slot id h (λ i b. ground (arith, v.free i)))
]
