-- ===== src/Server/Loop/Serve.antt =====
-- The handler as a whole: it never reads a freed session, and it keeps the server's invariant.
use dns_relay.Base.{ℕ, ◌≤◌, ◌≡◌, ◌≢◌, ◌⊎◌, true, false, Option, some, [], length, ◌==◌}
use dns_relay.Stl.Key.{uint64_key}
use dns_relay.Dns.Packet.{DnsPacket, is_query}
use dns_relay.Dns.Response.Decide.{IsCounted, IsAsking}
use dns_relay.Server.Loop.{Server, Setup}
use dns_relay.Server.Loop.Ids.{IsServing}

-- A handler that returns, with the invariant at its old stamps or at the present time.
pub record Serves (clock now : ℕ) (r : Option Server) : Type 0 where
  pub after : Server
  pub returns : r ≡ some after
  pub valid : IsServing clock after ⊎ IsServing now after
  pub counted : IsCounted after.cache

abbrev pub IsResponse : DnsPacket → Type 0
IsResponse packet_in = (is_query packet_in.header.flags == 0) ≡ true

-- What the handler needs of a packet: a response has a question and the records that it counts as
-- answers, if the cache is in use, and a query with a question count of 1 has a question whose
-- labels end within its name.
pub record IsServable (setup : Setup) (packet_in : DnsPacket) : Type 0 where
  pub asked : IsResponse packet_in → setup.use_cache ≡ true → packet_in.questions ≢ []
  pub enough :
      IsResponse packet_in
      → setup.use_cache ≡ true
      → packet_in.header.answer_rrs ≤ length packet_in.rrs
  pub asking : (is_query packet_in.header.flags == 0) ≡ false → IsAsking packet_in
