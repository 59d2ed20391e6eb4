-- ===== src/IdPool/History.antt =====
-- What the pool promises to its callers, over every history of calls from `id_pool_init`.
use dns_relay.Base.{
  ℕ, ◌-◌, ◌<◌, ◌≡◌, ◌⊎◌, inl, inr, refl, true, false, Option, none, some, List, [], ◌∷◌, arith,
  update, ◌==◌, Bool-cases,
}
use dns_relay.IdPool.{pool_size, Pool, id_pool_init, id_alloc, id_free}
use dns_relay.IdPool.Invariant.{
  IsValid, id_pool_init-IsValid, id_alloc-IsValid, id_free-IsValid, count-lt_of_used,
}

-- A call, the id of `id_free` being a `uint16_t`.
pub data Call : Type 0 where
  alloc : Call
  free : (id : ℕ) → id < pool_size → Call

unfoldable pub step : Pool → Call → Pool
step p alloc = (id_alloc p).0
step p (free id h) = id_free p id

unfoldable pub run : Pool → List Call → Pool
unfolding step
run p [] = p
run p (c ∷ cs) = run (step p c) cs

step-IsValid :
    (p : Pool) (slot : ℕ → ℕ) (c : Call)
    → IsValid p slot
    → (slot' : ℕ → ℕ) × IsValid (step p c) slot'
unfolding step
step-IsValid p slot alloc v = (slot, id_alloc-IsValid p slot v)
step-IsValid p slot (free id h) v = id_free-IsValid p slot id h v

run-IsValid :
    (p : Pool) (slot : ℕ → ℕ) (cs : List Call)
    → IsValid p slot
    → (slot' : ℕ → ℕ) × IsValid (run p cs) slot'
unfolding run
run-IsValid p slot [] v = (slot, v)
run-IsValid p slot (c ∷ cs) v =
    let (slot', v') = step-IsValid p slot c v in run-IsValid (step p c) slot' cs v'

pub run_init-IsValid : (cs : List Call) → (slot : ℕ → ℕ) × IsValid (run id_pool_init cs) slot
run_init-IsValid cs = run-IsValid id_pool_init _ cs id_pool_init-IsValid

-- What `id_alloc` does to the set of the ids in use: it fails exactly when each is in use, and
-- otherwise takes one that is not.
abbrev pub Allocates : Pool → Pool × Option ℕ → Type 0
Allocates p r =
    ((r.1 ≡ none) × (r.0 ≡ p) × ((id : ℕ) → id < pool_size → p.st id ≡ true))
    ⊎ ((id : ℕ) × (r.1 ≡ some id)
        × (id < pool_size)
        × (p.st id ≡ false)
        × (r.0.st ≡ update p.st id true))

pub id_alloc-Allocates : (p : Pool) (slot : ℕ → ℕ) → IsValid p slot → Allocates p (id_alloc p)
unfolding id_alloc
id_alloc-Allocates p slot v = elim (Bool-cases (p.count == 0)) [
  | inl empty ↦ inl (
    rw empty,
    rw empty,
    λ id h. elim (Bool-cases (p.st id)) [
      | inl used ↦ used
      | inr unused ↦ absurd (ground (arith, v.listed id))
    ],
  )
  | inr some_left ↦ inr (
    p.ids (p.count - 1),
    rw some_left,
    ground (arith, v.free (p.count - 1)),
    ground (arith, v.free (p.count - 1)),
    rw some_left refl,
  )
]

-- After any history of calls, id_alloc fails, changing nothing, only when every one of the 65536
-- ids is in use; otherwise it returns a 16-bit id that is not in use and marks that id alone.
pub run-id_alloc : (cs : List Call) → let p = run id_pool_init cs in Allocates p (id_alloc p)
run-id_alloc cs = let (slot, v) = run_init-IsValid cs in id_alloc-Allocates _ slot v

-- After any history of calls, id_free of an id in use releases that id alone and the next id_alloc
-- returns it; id_free of an id that is not in use changes nothing.
pub run-id_free :
    (cs : List Call) (id : ℕ)
    → id < pool_size
    → let p = run id_pool_init cs in
      ((p.st id ≡ true)
        × ((id_free p id).st ≡ update p.st id false)
        × ((id_alloc (id_free p id)).1 ≡ some id))
      ⊎ ((p.st id ≡ false) × (id_free p id ≡ p))
unfolding id_free id_alloc
run-id_free cs id h =
    let (slot, v) = run_init-IsValid cs in
    let p = run id_pool_init cs in
    elim (Bool-cases (p.st id)) [
      | inl used ↦
          let room : p.count < pool_size = count-lt_of_used p slot id v h used in
          inl (used, ground arith, ground arith)
      | inr unused ↦ inr (unused, rw unused)
    ]
