-- ===== src/Server/Loop/Handle.antt =====
-- What the server does with a response and with a query that has to be relayed.
use dns_relay.Base.{
  ℕ, ◌<◌, ◌≡◌, ◌≢◌, ◌⊎◌, inl, inr, refl, Bool, true, false, Option, none, some, List, [], ◌∷◌,
  arith, ◌==◌, if◌then◌else◌, update, ap,
}
use dns_relay.Stl.Key.{uint64_key}
use dns_relay.IdPool.{pool_size, Pool, id_free}
use dns_relay.IdPool.Invariant.{id_free-IsValid, count-lt_of_used}
use dns_relay.Dns.Packet.{SectionQuestion, DnsPacket}
use dns_relay.Dns.Cache.{CacheValue, DnsCache, dns_cache_put, cache_key_create}
use dns_relay.Dns.Cache.Invariant as CacheLaws
use dns_relay.Dns.Cache.Insert.{put_key-Puts}
use dns_relay.Dns.Response.{put_response, pack_make_response_relay}
use dns_relay.Server.Session.{Session, Factory, relay_id, session_get, session_close}
use dns_relay.Server.Session.Invariant.{opened}
use dns_relay.Server.Session.Laws.{view}
use dns_relay.Server.Session.Close.{session_close-Closes}
use dns_relay.Server.Loop.{Server, Setup, packet_send, relay_response}
use dns_relay.Server.Loop.Ids.{IsPool, IsServing}

-- Freeing an id in use releases that id alone.
pub id_free-releases :
    (p : Pool) (id : ℕ)
    → IsPool p
    → id < pool_size
    → p.st id ≡ true
    → IsPool (id_free p id) × ((id_free p id).st ≡ update p.st id false)
unfolding id_free
id_free-releases p id (slot, v) h used =
    let room : p.count < pool_size = count-lt_of_used p slot id v h used in
    (id_free-IsValid p slot id h v, ground arith)

abbrev pub with_id : DnsPacket → ℕ → DnsPacket
with_id packet id = record packet { header = record (packet.header) { id = id } }

-- What the cache learns from a response.
abbrev pub answer_in : DnsPacket → CacheValue
answer_in recv = record {
  answer_rrs = recv.header.answer_rrs;
  authority_rrs = recv.header.authority_rrs;
  additional_rrs = recv.header.additional_rrs;
  rrs = recv.rrs;
}

List-cases {ℓ} :
    {A : Type ℓ} (xs : List A) → (xs ≡ []) ⊎ ((x : A) × (rest : List A) × (xs ≡ x ∷ rest))
List-cases [] = inl refl
List-cases (x ∷ rest) = inr (x, rest, refl)

response_put :
    (now : ℕ) (cache : DnsCache) (recv : DnsPacket) (client_id : ℕ) (q : SectionQuestion)
    (qs : List SectionQuestion)
    → recv.questions ≡ q ∷ qs
    → pack_make_response_relay now true cache recv client_id
      ≡ some (
        dns_cache_put now cache q.qname q.qtype q.qclass (answer_in recv),
        with_id recv client_id,
      )
unfolding pack_make_response_relay put_response
response_put now cache recv client_id q qs one =
    ap (put_response now cache recv (with_id recv client_id)) one

-- The cache after a response: its answer is put in, if the cache is used.
response_cached :
    (now : ℕ) (use_cache : Bool) (cache : DnsCache) (recv : DnsPacket) (client_id : ℕ)
    → CacheLaws.IsValid cache
    → (use_cache ≡ true → recv.questions ≢ [])
    → (cache' : DnsCache) × CacheLaws.IsValid cache'
      × (pack_make_response_relay now use_cache cache recv client_id
          ≡ some (cache', with_id recv client_id))
      × ((cache' ≡ cache)
          ⊎ ((use_cache ≡ true)
              × ((q : SectionQuestion) × (cache'
                    ≡ dns_cache_put now cache q.qname q.qtype q.qclass (answer_in recv)))))
unfolding pack_make_response_relay dns_cache_put
response_cached now false cache recv client_id v asked = (cache, v, refl, inl refl)
response_cached now true cache recv client_id v asked = elim (List-cases recv.questions) [
  | inl nothing ↦ absurd (asked refl nothing)
  | inr (q, qs, one) ↦
      let value = answer_in recv in
      (
        dns_cache_put now cache q.qname q.qtype q.qclass value,
        (put_key-Puts now cache (cache_key_create q.qname q.qtype q.qclass) value v).valid,
        response_put now cache recv client_id q qs one,
        inr (refl, (q, refl)),
      )
]

-- The client of the session gets the response under its own id, the session is closed, and its id
-- is free again; every other session stays.
pub record Finishes (clock now : ℕ) (setup : Setup) (s : Server) (packet_in : DnsPacket)
    (session : Session) (r : Option Server) : Type 0 where
  pub after : Server
  pub returns : r ≡ some after
  pub valid : IsServing clock after
  pub sent : after.sent ≡ (with_id packet_in session.client_id, session.client_ip) ∷ s.sent
  pub learned :
      (after.cache ≡ s.cache)
      ⊎ ((setup.use_cache ≡ true)
          × ((q : SectionQuestion) × (after.cache
                ≡ dns_cache_put now s.cache q.qname q.qtype q.qclass (answer_in packet_in))))
  pub ids : after.pool.st ≡ update s.pool.st packet_in.header.id false
  pub reads :
      (i : ℕ) → view after.factory i ≡ (if packet_in.header.id == i then none else view s.factory i)

relay_response_lem :
    (now : ℕ) (setup : Setup) (s : Server) (packet_in : DnsPacket) (p : ℕ) (session : Session)
    (cache' : DnsCache) (f : Factory)
    → session_get s.factory packet_in ≡ some p
    → s.factory.sessions p ≡ some session
    → pack_make_response_relay now setup.use_cache s.cache packet_in session.client_id
      ≡ some (cache', with_id packet_in session.client_id)
    → session_close s.factory p ≡ some f
    → relay_response setup s packet_in now
      ≡ some (record s {
        cache = cache';
        factory = f;
        pool = id_free s.pool packet_in.header.id;
        sent = (with_id packet_in session.client_id, session.client_ip) ∷ s.sent;
      })
unfolding relay_response packet_send
relay_response_lem now setup s packet_in p session cache' f got here made closed =
    rw (got, relay_response, here, made, closed) refl

-- In a server whose ids in use are exactly those of its open sessions and whose pool, sessions and
-- cache are valid, a response whose id has an open session, and that has a question if the cache
-- is in use, makes the handler send that response, with the client's own id, to the client of the
-- session, close the session, and free its id; every other session and id stays, and the invariant
-- holds.
pub relay_response-Finishes :
    (clock now : ℕ) (setup : Setup) (s : Server) (packet_in : DnsPacket) (p : ℕ) (session : Session)
    → IsServing clock s
    → opened s.factory packet_in.header.id ≡ some p
    → s.factory.sessions p ≡ some session
    → (setup.use_cache ≡ true → packet_in.questions ≢ [])
    → Finishes clock now setup s packet_in session (relay_response setup s packet_in now)
unfolding session_get
relay_response-Finishes clock now setup s packet_in p session v mine here asked =
    let (s', at, named, lt) = v.factory.linked packet_in.header.id p mine in
    let own : relay_id session ≡ packet_in.header.id = ground (arith, at, here, named) in
    let mine' : opened s.factory (relay_id session) ≡ some p = rw own mine in
    let c = session_close-Closes clock s.factory v.factory p session mine' here in
    let (cache', cv, made, learned) =
      response_cached now setup.use_cache s.cache packet_in session.client_id v.cache asked in
    let (in_range, used) = v.used packet_in.header.id p mine in
    let (pool, marks) = id_free-releases s.pool packet_in.header.id v.pool in_range used in
    record {
      after = record s {
        cache = cache';
        factory = c.after;
        pool = id_free s.pool packet_in.header.id;
        sent = (with_id packet_in session.client_id, session.client_ip) ∷ s.sent;
      };
      returns =
          relay_response_lem now setup s packet_in p session cache' c.after mine here made
            c.returns;
      valid = record {
        pool = pool;
        factory = c.valid;
        cache = cv;
        free = λ i o l. ground (arith, c.table i, marks, own, v.free i);
        used = λ i p' o. ground (arith, c.table i, marks, own, v.used i p');
      };
      sent = refl;
      learned = learned;
      ids = marks;
      reads = λ i. ground (arith, c.reads i, own);
    }
