-- ===== src/Server/Loop/Samples.antt =====
-- A server that has just started, its configuration, and a query, for the tests.
use dns_relay.Base.{
  false, ℕ, ◌≡◌, ◌≢◌, none, ap, subst, List, refl, true, false, some, [], ◌∷◌, arith,
}
use dns_relay.IdPool.{id_pool_init}
use dns_relay.IdPool.Invariant.{id_pool_init-IsValid}
use dns_relay.Dns.Packet.{SectionQuestion, DnsPacket}
use dns_relay.Dns.Cache.{dns_cache_init}
use dns_relay.Dns.Cache.Questions.{dns_cache_init-IsValid}
use dns_relay.Stl.Key.{uint64_key}
use dns_relay.Server.Session.{ipv4, NetEnd, session_factory_init}
use dns_relay.Server.Session.Promise.{session_factory_init-IsValid}
use dns_relay.Dns.Response.{get_parent_qname}
use dns_relay.Dns.Response.Ancestors.{IsProper, only_ancestor}
use dns_relay.Dns.Response.Decide.{IsCounted, IsAsking, dns_cache_init-IsCounted}
use dns_relay.Server.Loop.Serve.{IsServable}
use dns_relay.Server.Loop.{Server, Setup}
use dns_relay.Server.Loop.Ids.{IsServing}

abbrev pub client : NetEnd
client = record { addr = 10 ∷ 0 ∷ 0 ∷ 1 ∷ []; version = ipv4; port = 5353 }

abbrev pub resolver : NetEnd
resolver = record { addr = 8 ∷ 8 ∷ 8 ∷ 8 ∷ []; version = ipv4; port = 53 }

abbrev pub query : DnsPacket
query = record {
  header = record {
    id = 7;
    flags = 0x0100;
    qcount = 1;
    answer_rrs = 0;
    authority_rrs = 0;
    additional_rrs = 0;
  };
  questions = record { qname = 1 ∷ 97 ∷ []; qtype = 1; qclass = 1 } ∷ [];
  rrs = [];
}

abbrev pub setup : Setup
setup = record {
  serialize = λ pack. some [];
  transmit = λ n raw dest. true;
  use_cache = true;
  upstreams = resolver ∷ [];
  max_retry_time = 0;
  request_timeout = 2000;
}

abbrev pub started : Server
started = record {
  pool = id_pool_init;
  factory = session_factory_init;
  cache = dns_cache_init;
  next_upstream = [];
  sent = [];
}

pub none_used : (id : ℕ) → started.pool.st id ≡ false
unfolding id_pool_init
none_used id = refl

pub started-IsServing : IsServing 0 started
started-IsServing = record {
  pool = (_, id_pool_init-IsValid);
  factory = session_factory_init-IsValid.0;
  cache = dns_cache_init-IsValid.0;
  free = λ id o l. none_used id;
  used = λ id p o. absurd (ground (arith, session_factory_init-IsValid.1 id));
}

pub started-IsCounted : IsCounted started.cache
started-IsCounted = dns_cache_init-IsCounted

-- The name of the query has one label and no parent.
one_label : get_parent_qname (1 ∷ 97 ∷ []) ≡ some none
unfolding get_parent_qname
one_label = refl

query_name-IsProper : IsProper (1 ∷ 97 ∷ [])
query_name-IsProper =
    only_ancestor (λ a. get_parent_qname a ≢ none) (1 ∷ 97 ∷ []) (λ p e'. cc (e', one_label))
      (λ over. cc (over, one_label))

abbrev first_name : List SectionQuestion → List ℕ
first_name [] = []
first_name (q ∷ qs) = q.qname

pub query_names-IsProper :
    (q : SectionQuestion) (qs : List SectionQuestion) → query.questions ≡ q ∷ qs → IsProper q.qname
query_names-IsProper q qs e = subst IsProper (ap first_name e) query_name-IsProper

pub query-IsServable : IsServable setup query
unfolding IsAsking
query-IsServable = record {
  asked = λ r e nothing. cc (nothing);
  enough = λ r e. omega arith;
  asking =
      λ r e. (record { qname = 1 ∷ 97 ∷ []; qtype = 1; qclass = 1 }, [], refl, query_name-IsProper);
}
