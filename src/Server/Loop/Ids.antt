-- ===== src/Server/Loop/Ids.antt =====
-- The server's invariant: the ids in use are those of the open sessions.
use dns_relay.Base.{ℕ, ◌<◌, ◌≡◌, true, false, none, some}
use dns_relay.IdPool.{pool_size, Pool}
use dns_relay.IdPool.Invariant as PoolLaws
use dns_relay.Dns.Cache.Invariant as CacheLaws
use dns_relay.Stl.Key.{uint64_key}
use dns_relay.Server.Session.Invariant as SessionLaws
use dns_relay.Server.Session.Invariant.{opened}
use dns_relay.Server.Loop.{Server}

abbrev pub IsPool : Pool → Type 0
IsPool p = (slot : ℕ → ℕ) × PoolLaws.IsValid p slot

pub record IsServing (clock : ℕ) (s : Server) : Type 0 where
  pub pool : IsPool s.pool
  pub factory : SessionLaws.IsValid clock s.factory
  pub cache : CacheLaws.IsValid s.cache
  pub free : (id : ℕ) → opened s.factory id ≡ none → id < pool_size → s.pool.st id ≡ false
  pub used : (id p : ℕ) → opened s.factory id ≡ some p → (id < pool_size) × (s.pool.st id ≡ true)
