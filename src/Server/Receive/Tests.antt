-- ===== src/Server/Receive/Tests.antt =====
-- A response that goes to the client over the wire, and a round with one query.
use dns_relay.Base.{ℕ, refl, [], ◌∷◌, arith, replicate, length-replicate, pos, List}
use dns_relay.Dns.Wire.Memory.{h2n_2}
use dns_relay.Dns.Wire.MessageTrip.{IsPacket}
use dns_relay.Server.Loop.Samples.{setup, started, client, query}
use dns_relay.Server.Receive.{Received}
use dns_relay.Server.Receive.Delivery.{Delivers, packet_send-Delivers}

abbrev send_buf : List ℕ
send_buf = replicate 4096 0

query-IsPacket : IsPacket query
query-IsPacket = record {
  header_words = record {
    id_word = omega arith;
    flags_word = omega arith;
    qcount_word = omega arith;
    answer_word = omega arith;
    authority_word = omega arith;
    additional_word = omega arith;
  };
  questions_counted = refl;
  rrs_counted = refl;
  are_questions = (
    record {
      qname_string = ((λ e. omega (arith, e)), ((λ e. omega (arith, e)), tt));
      qtype_word = omega arith;
      qclass_word = omega arith;
    },
    tt,
  );
  are_records = tt;
}

packet_send-Delivers_example : Delivers setup send_buf started query client
unfolding h2n_2
packet_send-Delivers_example =
    packet_send-Delivers setup send_buf started query client query-IsPacket (omega arith)
      (length-replicate {A = ℕ} 4096 0) refl

-- The query as it comes from the client.
abbrev arrived : Received
arrived = record {
  len = pos 19;
  recv_buf = 0 ∷ 7 ∷ 1 ∷ 0 ∷ 0 ∷ 1 ∷ 0 ∷ 0 ∷ 0 ∷ 0 ∷ 0 ∷ 0 ∷ 1 ∷ 97 ∷ 0 ∷ 0 ∷ 1 ∷ 0 ∷ 1 ∷ [];
  source = client;
  time = 100;
}
