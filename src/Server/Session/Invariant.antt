-- ===== src/Server/Session/Invariant.antt =====
-- The invariant that ties the id table, the queue and the store of sessions.
use dns_relay.Base.{ℕ, ◌<◌, ◌≡◌, Option, some, arith}
use dns_relay.Stl.Key.{uint64_key}
use dns_relay.Stl.HashMap.{hash_map_get}
use dns_relay.Stl.HashMap.Laws
use dns_relay.Stl.LazyHeap.Rank.{Orders, In}
use dns_relay.Stl.LazyHeap.Ops
use dns_relay.Stl.LazyHeap.Ops.{IsLive}
use dns_relay.Server.Session.{Session, Factory, relay_id, stamp, session_comparator}

pub comparator-Orders : (f : Factory) → Orders (session_comparator f) (stamp f)
unfolding session_comparator
comparator-Orders f = record { above = λ a b. ground arith; below = λ a b. ground arith }

-- The session of an id, by the table.
abbrev pub opened : Factory → ℕ → Option ℕ
opened f id = hash_map_get f.agent_id_sessions id

-- The queue's element of an id.
abbrev pub waiting : Factory → ℕ → Option ℕ
waiting f id = hash_map_get f.sessions_queue.survivor_table id

-- All of the invariant but that each open session waits.
pub record IsLinked (clock : ℕ) (f : Factory) : Type 0 where
  pub heap : Ops.IsValid (stamp f) clock f.sessions_queue
  pub table : Laws.IsValid f.agent_id_sessions
  pub linked :
      (id p : ℕ)
      → opened f id ≡ some p
      → (s : Session) × (f.sessions p ≡ some s) × (relay_id s ≡ id) × (p < f.next_session)
  pub backed :
      (id e : ℕ) → waiting f id ≡ some e → opened f id ≡ some (f.sessions_queue.memory e).payload
  pub owned :
      (e : ℕ)
      → In f.sessions_queue e
      → IsLive f.sessions_queue e
      → (id : ℕ) × (waiting f id ≡ some e)

-- Every id in the table names an allocated session whose packet has that id, and which waits in the
-- queue; nothing else waits. Time stamps are at most `clock`.
pub record IsValid (clock : ℕ) (f : Factory) : Type 0 where
  pub links : IsLinked clock f
  pub open links use *
  pub queued : (id p : ℕ) → opened f id ≡ some p → (e : ℕ) × (waiting f id ≡ some e)
