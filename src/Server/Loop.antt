-- ===== src/Server/Loop.antt =====
-- src/server/server.c: what the server does with a packet and with a session that timed out, over
-- the pool of ids, the sessions and the cache. `sent` is the trace of the packets that were passed
-- to `packet_send`, the last one first. A handler returns `none` where the C code would read a freed
-- session, follow a NULL pointer or read behind a name. Logging and the freeing of packets are left out.
pub mod Ids
pub mod Handle
pub mod Relay
pub mod Serve
pub mod Retry
pub mod Timeout
pub mod Due
pub mod Rounds
pub mod Batch
pub mod Samples
mod Tests
use dns_relay.Base.{
  ℕ, zero, suc, ◌+◌, ◌-◌, ◌*◌, ◌/◌, ◌%◌, ◌<◌, Bool, true, false, ◌&&◌, Option, none, some, List, [],
  ◌∷◌, length, ltb, leb, ◌==◌, if◌then◌else◌, update, ℤ, pos, negsuc,
}
use dns_relay.IdPool.{Pool, id_alloc, id_free}
use dns_relay.Dns.Packet.{DnsPacket, is_query}
use dns_relay.Dns.Cache.{DnsCache}
use dns_relay.Dns.Response.{
  pack_make_inner_error, pack_make_query_relay, pack_make_response_relay, pack_try_response_local,
}
use dns_relay.Stl.LazyHeap.{is_positive}
use dns_relay.Server.Session.{
  NetEnd, Session, Factory, session_get, session_wait, session_open, session_close, session_peek,
  time_remains,
}

pub record Server : Type 0 where
  pub pool : Pool
  pub factory : Factory
  pub cache : DnsCache
  pub next_upstream : List NetEnd
  pub sent : List (DnsPacket × NetEnd)

-- `serialize` is the interface to the wire format, which yields bytes or, for the result -1, `none`; `transmit` is
-- `socket_send` at its n-th call. The static variables that `server_start` reads from the
-- configuration are `use_cache`, `upstreams`, `max_retry_time` and `request_timeout`.
pub record Setup : Type 0 where
  pub serialize : DnsPacket → Option (List ℕ)
  pub transmit : ℕ → List ℕ → NetEnd → Bool
  pub use_cache : Bool
  pub upstreams : List NetEnd
  pub max_retry_time : ℕ
  pub request_timeout : ℕ

-- The rest of the list from the server that is next on; at its end the list starts again.
unfoldable pub pick_upstream : List NetEnd → List NetEnd → Option (NetEnd × List NetEnd)
pick_upstream [] [] = none
pick_upstream (first ∷ rest) [] = some (first, rest)
pick_upstream upstreams (next ∷ rest) = some (next, rest)

abbrev pub sendable : Setup → ℕ → NetEnd → Option (List ℕ) → Bool
sendable setup n dest none = false
sendable setup n dest (some raw) = leb (length raw) 512 && setup.transmit n raw dest

-- `packet_send`, true for the return value 0.
unfoldable pub packet_send : Setup → Server → DnsPacket → NetEnd → Server × Bool
packet_send setup s pack dest = (
  record s { sent = (pack, dest) ∷ s.sent },
  sendable setup (length s.sent) dest (setup.serialize pack),
)

abbrev pub bind_server : Option Server → (Server → Option Server) → Option Server
bind_server none f = none
bind_server (some s) f = f s

abbrev pub with_factory : Server → Option Factory → Option Server
with_factory s none = none
with_factory s (some f) = some (record s { factory = f })

-- `session->relay_info.retry_times`, a `char`, against the limit.
unfoldable pub is_exhausted : Setup → Session → Bool
is_exhausted setup session =
    leb setup.max_retry_time session.relay_info.retry_times
    && ltb session.relay_info.retry_times 128

abbrev pub renamed : Session → Session
renamed session = record session {
  relay_info = record (session.relay_info) {
    relay_packet = record (session.relay_info.relay_packet) {
      header = record (session.relay_info.relay_packet.header) { id = session.client_id };
    };
  };
}

-- The end of a session that was retried often enough: the client's id is written into the packet
-- that the session owns, before the session is closed.
unfoldable pub give_up : Setup → Server → ℕ → Session → Option Server
give_up setup s p session =
    let f = record (s.factory) {
      sessions = update s.factory.sessions p (some (renamed session));
    } in
    let s' =
      packet_send setup (record s { factory = f })
        (pack_make_inner_error (renamed session).relay_info.relay_packet) session.client_ip in
    bind_server (with_factory s'.0 (session_close f p)) λ closed.
      some (record closed { pool = id_free closed.pool session.relay_info.relay_packet.header.id })

-- The packet goes to the next upstream server, and the session waits again. `retry_times` is kept
-- on 8 bits.
unfoldable pub resend : Setup → Server → ℕ → ℕ → Session → Option Server
resend setup s now p session = elim (pick_upstream setup.upstreams s.next_upstream) [
  | none ↦ none
  | some (upstream, rest) ↦
      let s' = (packet_send setup s session.relay_info.relay_packet upstream).0 in
      let counted = record session {
        relay_info = record (session.relay_info) {
          retry_times = (session.relay_info.retry_times + 1) % 256;
        };
      } in
      let f = record (s.factory) { sessions = update s.factory.sessions p (some counted) } in
      with_factory (record s' { next_upstream = rest }) (session_wait f p now)
]

unfoldable pub do_handle_timeout : Setup → Server → ℕ → ℕ → Option Server
do_handle_timeout setup s now p = elim (s.factory.sessions p) [
  | none ↦ none
  | some session ↦
      if is_exhausted setup session then give_up setup s p session else resend setup s now p session
]

-- The loop of `batch_timeout`; the fuel bounds the rounds, and `none` also stands for more rounds
-- than that. `clock n` is the n-th time that `sys_time_ms` returns: a round reads the clock for the
-- time that remains, and again when the session is set to wait.
unfoldable pub batch_timeout : ℕ → Setup → Server → (ℕ → ℕ) → Option Server
batch_timeout zero setup s clock = none
batch_timeout (suc fuel) setup s clock =
    let peeked = session_peek s.factory in
    let s' = record s { factory = peeked.0 } in
    elim peeked.1 [
      | none ↦ some s'
      | some p ↦ elim (s'.factory.sessions p) [
        | none ↦ none
        | some session ↦ elim (is_positive (time_remains session setup.request_timeout (clock 0))) [
          | true ↦ some s'
          | false ↦
              bind_server (do_handle_timeout setup s' (clock 1) p)
                (λ next. batch_timeout fuel setup next (λ n. clock (n + 2)))
        ]
      ]
    ]

-- A query that the cache cannot answer: it is relayed under a fresh id.
unfoldable pub relay_query : Setup → Server → DnsPacket → NetEnd → ℕ → Option Server
relay_query setup s packet_in source_end now =
    let allocated = id_alloc s.pool in
    let s1 = record s { pool = allocated.0 } in
    elim allocated.1 [
      | none ↦ some (packet_send setup s1 (pack_make_inner_error packet_in) source_end).0
      | some relay_id ↦
          let packet_out = pack_make_query_relay packet_in relay_id in
          elim (pick_upstream setup.upstreams s1.next_upstream) [
            | none ↦ none
            | some (upstream, rest) ↦
                let sending =
                  packet_send setup (record s1 { next_upstream = rest }) packet_out upstream in
                elim sending.1 [
                  | false ↦ some (record (sending.0) { pool = id_free sending.0.pool relay_id })
                  | true ↦
                      with_factory sending.0 (
                        session_open sending.0.factory packet_in.header.id source_end packet_out
                          now)
                ]
          ]
    ]

-- A response: the client of its session gets it under its own id.
unfoldable pub relay_response : Setup → Server → DnsPacket → ℕ → Option Server
relay_response setup s packet_in now = elim (session_get s.factory packet_in) [
  | none ↦ some s
  | some p ↦ elim (s.factory.sessions p) [
    | none ↦ none
    | some session ↦
        elim (pack_make_response_relay now setup.use_cache s.cache packet_in session.client_id) [
          | none ↦ none
          | some (cache, packet_out) ↦
              let s' =
                (packet_send setup (record s { cache = cache }) packet_out session.client_ip).0 in
              bind_server (with_factory s' (session_close s'.factory p))
                λ closed. some (record closed { pool = id_free closed.pool packet_in.header.id })
        ]
  ]
]

unfoldable pub answer_client : Setup → Server → DnsPacket → NetEnd → ℕ → Option Server
answer_client setup s packet_in source_end now =
    elim (pack_try_response_local now s.cache packet_in) [
      | none ↦ none
      | some (cache, direction) ↦
          let s' = record s { cache = cache } in
          elim direction [
            | none ↦ relay_query setup s' packet_in source_end now
            | some packet_out ↦ some (packet_send setup s' packet_out source_end).0
          ]
    ]

unfoldable pub handle_dns_packet : Setup → Server → DnsPacket → NetEnd → ℕ → Option Server
handle_dns_packet setup s packet_in source_end now =
    if is_query packet_in.header.flags == 0
    then relay_response setup s packet_in now
    else answer_client setup s packet_in source_end now
