-- ===== src/Server/Receive.antt =====
-- src/server/server.c: receiving, sending over the wire format, and the rounds of `server_loop`.
-- What the system calls return is data: the datagrams of a round, in their order.
mod Tests
pub mod Delivery
pub mod Rounds
use dns_relay.Base.{
  ℕ, zero, suc, ◌==◌, Bool, true, false, Option, none, some, List, [], ◌∷◌, if◌then◌else◌, ◌>>=◌, ℤ,
  pos, negsuc,
}
use dns_relay.Dns.Packet.{DnsPacket}
use dns_relay.Dns.Wire.{pack_serialize, pack_deserialize}
use dns_relay.Dns.Wire.Memory.{Output}
use dns_relay.Server.Session.{NetEnd, session_peek, time_remains}
use dns_relay.Server.Loop.{Server, Setup, handle_dns_packet, batch_timeout}

-- What `socket_recv_nowait` leaves: its result, the receive buffer and the source; and the time at
-- which the packet is handled.
pub record Received : Type 0 where
  pub len : ℤ
  pub recv_buf : List ℕ
  pub source : NetEnd
  pub time : ℕ

-- The results 0, 1 and -1 of `pack_recv`.
pub data Incoming : Type 0 where
  a_packet : DnsPacket → Incoming
  no_data broken : Incoming

abbrev incoming : Option DnsPacket → Incoming
incoming none = broken
incoming (some p) = a_packet p

unfoldable pub pack_recv : Received → Option Incoming
unfolding pack_deserialize
pack_recv r = elim r.len [
  | negsuc n ↦ some broken
  | pos n ↦ elim (n == 0) [
    | true ↦ some no_data
    | false ↦ do p ← pack_deserialize r.recv_buf n; some (incoming p)
  ]
]

-- The inner loop: a packet that cannot be read ends it, as does an error.
unfoldable pub receive_loop : Setup → Server → List Received → Option Server
unfolding pack_recv
receive_loop setup s [] = some s
receive_loop setup s (r ∷ rs) = do
  got ← pack_recv r
  elim got [
    | no_data ↦ some s
    | broken ↦ some s
    | a_packet p ↦ do s1 ← handle_dns_packet setup s p r.source r.time; receive_loop setup s1 rs
  ]

-- The time to sleep, and the sessions after the look at the earliest one.
unfoldable pub next_timeout : Setup → Server → ℕ → Option (Server × ℤ)
next_timeout setup s now =
    let peeked = session_peek s.factory in
    let s1 = record s { factory = peeked.0 } in
    elim peeked.1 [
      | none ↦ some (s1, negsuc 0)
      | some p ↦ do
        session ← s1.factory.sessions p
        some (s1, time_remains session setup.request_timeout now)
    ]

-- A round: when it starts, whether `socket_sleep_on` succeeds, what is received, and the times
-- that the batch of timeouts reads.
pub record Round : Type 0 where
  pub start : ℕ
  pub awake : Bool
  pub received : List Received
  pub batch_clock : ℕ → ℕ

-- The rounds of `server_loop`; a failed sleep ends them. The fuel is that of `batch_timeout`.
unfoldable pub server_loop : ℕ → Setup → Server → List Round → Option Server
unfolding next_timeout receive_loop
server_loop fuel setup s [] = some s
server_loop fuel setup s (round ∷ rounds) = do
  slept ← next_timeout setup s round.start
  elim round.awake [
    | false ↦ some slept.0
    | true ↦ do
      s1 ← receive_loop setup slept.0 round.received
      s2 ← batch_timeout fuel setup s1 round.batch_clock
      server_loop fuel setup s2 rounds
  ]

-- `packet_send` without its call of `socket_send`: the bytes in the send buffer, `none` for -1 and
-- also for a run of `pack_serialize` that leaves the memory.
unfoldable pub sent_bytes : Option (Option Output) → Option (List ℕ)
sent_bytes (some (some o)) = some o.written
sent_bytes r = none

-- A server that sends over the wire format.
unfoldable pub wired : Setup → List ℕ → Setup
unfolding sent_bytes pack_serialize
wired setup send_buf = record setup {
  serialize = λ pack. sent_bytes (pack_serialize pack send_buf 4096);
}
