-- ===== src/IdPool.antt =====
-- src/dns/id_factory.c: the pool of the 16-bit ids of the relayed queries.
pub mod Invariant
pub mod History
mod Tests
use dns_relay.Base.{
  ℕ, ◌+◌, ◌-◌, ◌<◌, ◌≡◌, Bool, true, false, ◌&&◌, Option, none, some, ltb, ◌==◌, if◌then◌else◌,
  update,
}

abbrev pub pool_size : ℕ
pool_size = 65536

-- The three static variables. `ids` is the array as a stack, `count` is `top + 1` (so that the C
-- test `top < 0` is `count == 0`), and `st` marks the ids that are in use.
pub record Pool : Type 0 where
  pub ids : ℕ → ℕ
  pub count : ℕ
  pub st : ℕ → Bool

-- `id_pool_init`. The variables' former values do not matter.
unfoldable pub id_pool_init : Pool
id_pool_init = record { ids = λ i. i; count = pool_size; st = λ _. false }

-- `id_alloc` with a pointer to write to: the new state, and the id or the failure code 1.
unfoldable pub id_alloc : Pool → Pool × Option ℕ
id_alloc p = if p.count == 0 then (p, none) else (
  record p { count = p.count - 1; st = update p.st (p.ids (p.count - 1)) true },
  some (p.ids (p.count - 1)),
)

-- `id_free`: an id that is not in use is ignored.
unfoldable pub id_free : Pool → ℕ → Pool
id_free p id =
    if p.st id && ltb p.count pool_size
    then record p { ids = update p.ids p.count id; count = p.count + 1; st = update p.st id false }
    else p
