-- ===== src/Server/Session/Tests.antt =====
-- The session theorems at concrete inputs.
use dns_relay.Base.{◌≡◌, refl, some, [], ◌∷◌, arith}
use dns_relay.Dns.Packet.{DnsPacket}
use dns_relay.Server.Session.{
  ipv4, NetEnd, Session, Factory, session_factory_init, session_open, session_wait, session_close,
  session_peek,
}
use dns_relay.Server.Session.Invariant.{opened}
use dns_relay.Server.Session.Laws.{Rewaits, session_wait-Rewaits}
use dns_relay.Server.Session.Open.{Opens, session_open-Opens}
use dns_relay.Server.Session.Close.{Closes, session_close-Closes}
use dns_relay.Server.Session.Promise.{Peeks, session_peek-Peeks, session_factory_init-IsValid}

abbrev packet : DnsPacket
packet = record {
  header = record {
    id = 65535;
    flags = 0x0100;
    qcount = 1;
    answer_rrs = 0;
    authority_rrs = 0;
    additional_rrs = 0;
  };
  questions = [];
  rrs = [];
}

abbrev client : NetEnd
client = record { addr = 10 ∷ 0 ∷ 0 ∷ 1 ∷ []; version = ipv4; port = 5353 }

session_open-Opens_example :
    Opens 0 100 session_factory_init
      (session_factory_init-IsValid.0)
      (omega arith)
      42
      client
      packet
      (session_open session_factory_init 42 client packet 100)
session_open-Opens_example =
    session_open-Opens 0 100 session_factory_init (session_factory_init-IsValid.0) (omega arith) 42
      client packet (session_factory_init-IsValid.1 65535)

session_peek-Peeks_example : Peeks 0 session_factory_init (session_peek session_factory_init)
session_peek-Peeks_example =
    session_peek-Peeks 0 session_factory_init (session_factory_init-IsValid.0)

-- The factory with one open session.
opened_one :
    Opens 0 100 session_factory_init session_factory_init-IsValid.0
      (omega arith)
      42
      client
      packet
      (session_open session_factory_init 42 client packet 100)
opened_one =
    session_open-Opens 0 100 session_factory_init (session_factory_init-IsValid.0) (omega arith) 42
      client packet (session_factory_init-IsValid.1 65535)

abbrev one : Factory
one = opened_one.after

abbrev waiting_session : Session
waiting_session = record {
  client_id = 42;
  client_ip = client;
  relay_info = record { timestamp = 100; retry_times = 0; relay_packet = packet };
}

first_address : session_factory_init.next_session ≡ 1
unfolding session_factory_init
first_address = refl

one-opened : opened one 65535 ≡ some 1
one-opened = ground (arith, opened_one.table 65535, first_address)

one-stored : one.sessions 1 ≡ some waiting_session
one-stored = ground (arith, opened_one.table 65535, opened_one.reads 65535, first_address)

session_close-Closes_example : Closes 100 one waiting_session (session_close one 1)
session_close-Closes_example =
    session_close-Closes 100 one opened_one.valid 1 waiting_session one-opened one-stored

session_wait-Rewaits_example :
    Rewaits 100 250 one opened_one.valid (omega arith) 1 waiting_session (session_wait one 1 250)
session_wait-Rewaits_example =
    session_wait-Rewaits 100 250 one opened_one.valid (omega arith) 1 waiting_session one-opened
      one-stored
