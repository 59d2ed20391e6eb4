-- ===== src/Server/Loop/Tests.antt =====
-- The server theorems at a server that has just started, and at one with an open session.
use dns_relay.Base.{
  ap, sym, ◌∙◌, Bool, Option, none, Bool-cases, inl, inr, false, ◌==◌, if◌then◌else◌, ℕ, ◌≡◌, refl,
  true, false, some, [], ◌∷◌, arith, update,
}
use dns_relay.IdPool.{id_pool_init, id_alloc}
use dns_relay.IdPool.Invariant.{id_pool_init-IsValid, id_alloc-IsValid}
use dns_relay.Dns.Packet.{DnsPacket}
use dns_relay.Stl.Key.{uint64_key}
use dns_relay.Server.Session.Laws.{view}
use dns_relay.Server.Session.{Session, Factory, session_factory_init}
use dns_relay.Server.Session.Invariant.{opened}
use dns_relay.Server.Session.Promise.{session_factory_init-IsValid}
use dns_relay.Server.Loop.Samples.{
  client, resolver, query, setup, started, started-IsServing, none_used,
}
use dns_relay.Server.Loop.Due.{is_due, due_count_bound}
use dns_relay.Server.Loop.Batch.{Batches, batch_timeout-Batches}
use dns_relay.Server.Loop.{
  batch_timeout, Server, Setup, pick_upstream, is_exhausted, relay_query, relay_response,
  do_handle_timeout,
}
use dns_relay.Server.Loop.Ids.{IsServing}
use dns_relay.Server.Loop.Handle.{Finishes, relay_response-Finishes}
use dns_relay.Server.Loop.Relay.{Relays, relayed, opened-IsServing, relay_query-Relays}
use dns_relay.Server.Loop.Retry.{Retries, do_handle_timeout-Retries}
use dns_relay.Server.Loop.Timeout.{Dangles, do_handle_timeout-Dangles}

abbrev response : DnsPacket
response = record {
  header = record {
    id = 65535;
    flags = 0x8180;
    qcount = 1;
    answer_rrs = 0;
    authority_rrs = 0;
    additional_rrs = 0;
  };
  questions = record { qname = 1 ∷ 97 ∷ []; qtype = 1; qclass = 1 } ∷ [];
  rrs = [];
}

first_upstream : pick_upstream (resolver ∷ []) [] ≡ some (resolver, [])
unfolding pick_upstream
first_upstream = refl

relay_query-Relays_example :
    Relays 0 100 setup started query client (relay_query setup started query client 100)
relay_query-Relays_example =
    relay_query-Relays 0 100 setup started query client started-IsServing (omega arith) resolver []
      first_upstream

first_marks : (id_alloc id_pool_init).0.st ≡ update id_pool_init.st 65535 true
unfolding id_alloc id_pool_init
first_marks = refl

first_address : session_factory_init.next_session ≡ 1
unfolding session_factory_init
first_address = refl

relaying :
    (f : Factory) × IsServing 100 (record started { pool = (id_alloc id_pool_init).0; factory = f })
    × (opened f 65535 ≡ some 1)
    × (f.sessions 1 ≡ some (relayed 100 query client 65535))
    × ((i : ℕ)
        → view f i ≡ (
            if 65535 == i
            then some (relayed 100 query client 65535)
            else view session_factory_init i))
relaying =
    let (f, returns, serving, table, reads) =
      opened-IsServing 0 100 started query client 65535 (id_alloc id_pool_init).0 started-IsServing
        (omega arith) (omega arith) (none_used 65535) first_marks
        (_, id_alloc-IsValid id_pool_init _ id_pool_init-IsValid) in
    let first : session_factory_init.next_session ≡ 1 = first_address in
    let mine : opened f 65535 ≡ some 1 = ground (arith, table 65535, first) in
    (f, serving, mine, ground (arith, mine, reads 65535), reads)

abbrev busy : Server
busy = record started { pool = (id_alloc id_pool_init).0; factory = relaying.0 }

relay_response-Finishes_example :
    Finishes 100 250 setup busy response
      (relayed 100 query client 65535)
      (relay_response setup busy response 250)
relay_response-Finishes_example =
    relay_response-Finishes 100 250 setup busy response 1 (relayed 100 query client 65535)
      (relaying.1) (relaying.2) (relaying.3) (λ e nothing. cc (nothing))

retries_used_up : is_exhausted setup (relayed 100 query client 65535) ≡ true
unfolding is_exhausted
retries_used_up = refl

do_handle_timeout-Dangles_example :
    Dangles busy 1 (relayed 100 query client 65535) (do_handle_timeout setup busy 2200 1)
do_handle_timeout-Dangles_example =
    do_handle_timeout-Dangles 100 2200 setup busy 1 (relayed 100 query client 65535) (relaying.1)
      (relaying.2) (relaying.3) retries_used_up (λ e. omega (arith, e))

-- With one retry allowed.
abbrev patient : Setup
patient = record setup { max_retry_time = 1 }

retry_left : is_exhausted patient (relayed 100 query client 65535) ≡ false
unfolding is_exhausted
retry_left = refl

do_handle_timeout-Retries_example :
    Retries 100 2200 patient busy 1
      (relayed 100 query client 65535)
      (relaying.1)
      (omega arith)
      (relaying.2)
      (relaying.3)
      resolver
      []
      (do_handle_timeout patient busy 2200 1)
do_handle_timeout-Retries_example =
    do_handle_timeout-Retries 100 2200 patient busy 1 (relayed 100 query client 65535) (relaying.1)
      (omega arith) (relaying.2) (relaying.3) resolver [] retry_left first_upstream

exhausted_of : Option Session → Bool
exhausted_of none = false
exhausted_of (some t) = is_exhausted patient t

some_left :
    {t : Session} → some (relayed 100 query client 65535) ≡ some t → is_exhausted patient t ≡ false
unfolding exhausted_of
some_left e = ap exhausted_of (sym e) ∙ retry_left

-- No session of this server is out of retries.
patient_retries :
    (i : ℕ) (t : Session)
    → view busy.factory i ≡ some t
    → is_due patient 2200 t ≡ true
    → is_exhausted patient t ≡ false
patient_retries i t at due = elim (Bool-cases (65535 == i)) [
  | inl e ↦
      let it : some (relayed 100 query client 65535) ≡ some t =
        sym (relaying.4 i ∙ rw e refl) ∙ at in
      some_left it
  | inr e ↦
      let it : view session_factory_init i ≡ some t = sym (relaying.4 i ∙ rw e refl) ∙ at in
      absurd (ground (arith, session_factory_init-IsValid.1 i, it))
]

batch_timeout-Batches_example :
    Batches patient 2200 resolver [] refl
      (omega arith)
      100
      busy
      (batch_timeout 65537 patient busy (λ n. 2200))
batch_timeout-Batches_example =
    batch_timeout-Batches patient 2200 resolver [] refl (omega arith) 65537 100 busy (relaying.1)
      (omega arith) patient_retries (omega (arith, due_count_bound patient 2200 busy))
