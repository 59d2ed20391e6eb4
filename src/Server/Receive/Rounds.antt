-- ===== src/Server/Receive/Rounds.antt =====
-- The inner loop of `server_loop` keeps the server's invariant.
use dns_relay.Base.{ℕ, ◌≤◌, ◌≡◌, ◌≢◌, true, length, true, Option, length, some, List, [], ◌∷◌}
use dns_relay.Dns.Packet.{SectionQuestion, DnsPacket}
use dns_relay.Server.Loop.{Server, Setup}
use dns_relay.Server.Loop.Ids.{IsServing}
use dns_relay.Server.Loop.Serve.{IsResponse}
use dns_relay.Dns.Response.Decide.{IsCounted}
use dns_relay.Dns.Response.Ancestors.{IsProper}
use dns_relay.Server.Receive.{Received, a_packet, no_data, broken, pack_recv}

-- A datagram that the wire codec rejects, or reads as a packet whose first name has no label that
-- runs over its end; a response has a question if the cache is in use.
pub data IsReadable (setup : Setup) (r : Received) : Type 0 where
  reads_packet :
      (p : DnsPacket)
      → pack_recv r ≡ some (a_packet p)
      → (IsResponse p → setup.use_cache ≡ true → p.questions ≢ [])
      → ((q : SectionQuestion) (qs : List SectionQuestion)
          → p.questions ≡ q ∷ qs
          → IsProper q.qname)
      → IsReadable setup r
  reads_nothing : pack_recv r ≡ some no_data → IsReadable setup r
  rejects : pack_recv r ≡ some broken → IsReadable setup r

-- The times do not go back.
abbrev pub InOrder : ℕ → List Received → Type 0
InOrder clock [] = Unit
InOrder clock (r ∷ rs) = (clock ≤ r.time) × InOrder r.time rs

pub record Survives (r : Option Server) : Type 0 where
  pub after : Server
  pub clock : ℕ
  pub returns : r ≡ some after
  pub valid : IsServing clock after
  pub counted : IsCounted after.cache
