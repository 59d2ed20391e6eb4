-- ===== src/Server/Receive/Delivery.antt =====
-- What the server sends is what the other side reads.
use dns_relay.Base.{ℕ, ◌≤◌, ◌≡◌, refl, true, some, List, ◌∷◌, ◌++◌, length, leb, arith}
use dns_relay.Dns.Packet.{DnsPacket}
use dns_relay.Dns.Wire.{pack_deserialize}
use dns_relay.Dns.Wire.RecordsTrip.{all_settled}
use dns_relay.Dns.Wire.MessageTrip.{
  IsPacket, before_records, packet_size, pack_deserialize-pack_serialize,
}
use dns_relay.Server.Session.{NetEnd}
use dns_relay.Server.Loop.{Server, Setup, packet_send}
use dns_relay.Server.Receive.{wired, sent_bytes}

-- The bytes that go to the socket, and what they mean.
pub record Delivers (setup : Setup) (send_buf : List ℕ) (s : Server) (p : DnsPacket) (dest : NetEnd)
    : Type 0 where
  pub raw : List ℕ
  pub sent :
      packet_send (wired setup send_buf) s p dest
      ≡ (record s { sent = (p, dest) ∷ s.sent }, setup.transmit (length s.sent) raw dest)
  pub understood : (r : List ℕ) → pack_deserialize (raw ++ r) (length raw) ≡ some (some p)

-- For a packet of at most 512 bytes before compression that the wire can carry, and a send buffer
-- of 4096 bytes in which the name search of every record finds nothing or a place that ends before
-- the cursor, packet_send over the wire format passes to the socket bytes that pack_deserialize
-- turns back into the packet, whatever follows them in memory.
pub packet_send-Delivers :
    (setup : Setup) (send_buf : List ℕ) (s : Server) (p : DnsPacket) (dest : NetEnd)
    → IsPacket p
    → packet_size p ≤ 512
    → length send_buf ≡ 4096
    → all_settled (before_records p send_buf) p.rrs ≡ true
    → Delivers setup send_buf s p dest
unfolding packet_send wired sent_bytes
packet_send-Delivers setup send_buf s p dest k small room settled =
    let t =
      pack_deserialize-pack_serialize p send_buf 4096 k small (omega arith) (omega arith) settled in
    let fits : leb (length t.out.written) 512 ≡ true = ground (arith, t.bounded) in
    record { raw = t.out.written; sent = rw (t.sent, fits) refl; understood = t.received }
