-- ===== src/Server/Session.antt =====
-- src/server/session_factory.c: the sessions of the relayed queries.
-- Sessions live in a store of their own: `sessions` is `none` at an address that is not allocated or
-- was freed. A function that reads a freed session returns `none`. The heap holds the addresses of
-- sessions and compares them by their time stamps, read through the store.
pub mod Invariant
pub mod Wait
pub mod Laws
pub mod Open
pub mod Close
pub mod Promise
mod Tests
use dns_relay.Base.{
  ℕ, ◌+◌, ◌-◌, ◌<◌, Option, none, some, List, [], ltb, ◌==◌, if◌then◌else◌, update, ℤ, pos, negsuc,
  sub_ℕ,
}
use dns_relay.Stl.Key.{uint64_key}
use dns_relay.Stl.HashMap.{HashMap, hash_map_create, hash_map_put, hash_map_get, hash_map_remove}
use dns_relay.Stl.LazyHeap.{
  LazyHeap, lazy_heap_create, lazy_heap_add, lazy_heap_remove, lazy_heap_peek,
}
use dns_relay.Dns.Packet.{DnsPacket}

pub data IpVersion : Type 0 where
  ipv4 ipv6 : IpVersion

pub record NetEnd : Type 0 where
  pub addr : List ℕ
  pub version : IpVersion
  pub port : ℕ

-- The packet that `relay_packet` points to is owned by the session, and is a field of it.
pub record RelayInfo : Type 0 where
  pub timestamp : ℕ
  pub retry_times : ℕ
  pub relay_packet : DnsPacket

pub record Session : Type 0 where
  pub client_id : ℕ
  pub client_ip : NetEnd
  pub relay_info : RelayInfo

abbrev pub relay_id : Session → ℕ
relay_id s = s.relay_info.relay_packet.header.id

pub record Factory : Type 0 where
  pub agent_id_sessions : HashMap ℕ ℕ
  pub sessions_queue : LazyHeap
  pub sessions : ℕ → Option Session
  pub next_session : ℕ

abbrev pub timestamp_of : Option Session → ℕ
timestamp_of none = 0
timestamp_of (some s) = s.relay_info.timestamp

-- The stamp that the comparator reads through a pointer.
abbrev pub stamp : Factory → ℕ → ℕ
stamp f p = timestamp_of (f.sessions p)

-- The queue holds no NULL, so that the first two tests of the C function do not apply.
unfoldable pub session_comparator : Factory → ℕ → ℕ → ℤ
session_comparator f a b =
    if ltb (stamp f b) (stamp f a)
    then pos 1
    else if ltb (stamp f a) (stamp f b)
    then negsuc 0
    else pos 0

unfoldable pub session_factory_init : Factory
session_factory_init = record {
  agent_id_sessions = hash_map_create;
  sessions_queue = lazy_heap_create;
  sessions = λ _. none;
  next_session = 1;
}

-- The address of the session of a response, `none` for NULL.
unfoldable pub session_get : Factory → DnsPacket → Option ℕ
unfolding hash_map_get
session_get f relay_response = hash_map_get f.agent_id_sessions relay_response.header.id

abbrev pub restamped : Session → ℕ → Session
restamped s now = record s { relay_info = record (s.relay_info) { timestamp = now } }

-- `session_wait` at the time `now`: out of the queue, stamped, and back in.
unfoldable pub session_wait : Factory → ℕ → ℕ → Option Factory
session_wait f session now = elim (f.sessions session) [
  | none ↦ none
  | some s ↦
      let removed = lazy_heap_remove f.sessions_queue (relay_id s) in
      let f' = record f {
        sessions_queue = removed;
        sessions = update f.sessions session (some (restamped s now));
      } in
      some (record f' {
        sessions_queue = lazy_heap_add (session_comparator f') removed (relay_id s) session;
      })
]

-- `session_open`: a session at a fresh address for a relayed packet. The time stamp, which `malloc`
-- leaves undefined, is written by `session_wait` before it is read.
unfoldable pub session_open : Factory → ℕ → NetEnd → DnsPacket → ℕ → Option Factory
unfolding session_wait
session_open f client_id client_ip relay_pack now =
    let s : Session = record {
      client_id = client_id;
      client_ip = client_ip;
      relay_info = record { timestamp = 0; retry_times = 0; relay_packet = relay_pack };
    } in
    session_wait
      (record f {
        agent_id_sessions =
            (hash_map_put f.agent_id_sessions relay_pack.header.id f.next_session).0;
        sessions = update f.sessions f.next_session (some s);
        next_session = f.next_session + 1;
      })
      f.next_session now

-- `session_close`: the keys are those of the session's packet, read before it is freed.
unfoldable pub session_close : Factory → ℕ → Option Factory
session_close f session = elim (f.sessions session) [
  | none ↦ none
  | some s ↦ some (record f {
    sessions_queue = lazy_heap_remove f.sessions_queue (relay_id s);
    agent_id_sessions = hash_map_remove f.agent_id_sessions (relay_id s);
    sessions = update f.sessions session none;
  })
]

-- `session_peek`: it may drop deleted elements of the queue.
unfoldable pub session_peek : Factory → Factory × Option ℕ
session_peek f =
    let r = lazy_heap_peek (session_comparator f) f.sessions_queue in
    (record f { sessions_queue = r.0 }, r.1)

-- `*timeval` of `get_session_timeout_remain` at the time `now`.
unfoldable pub time_remains : Session → ℕ → ℕ → ℤ
time_remains s timeout now = sub_ℕ (timeout + s.relay_info.timestamp) now
