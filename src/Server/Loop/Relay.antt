-- ===== src/Server/Loop/Relay.antt =====
-- What the server does with a query that has to be relayed.
use dns_relay.Base.{
  ℕ, ◌≤◌, ◌<◌, ◌≡◌, ◌⊎◌, inl, inr, refl, true, false, Option, none, some, List, ◌∷◌, arith, ◌==◌,
  if◌then◌else◌, update, Bool-cases, Option-cases, ◌∙◌, length,
}
use dns_relay.Stl.Key.{uint64_key}
use dns_relay.IdPool.{pool_size, Pool, id_alloc, id_free}
use dns_relay.IdPool.Invariant.{id_alloc-IsValid}
use dns_relay.IdPool.History.{id_alloc-Allocates}
use dns_relay.Dns.Packet.{DnsPacket}
use dns_relay.Dns.Response.{pack_make_inner_error, pack_make_query_relay}
use dns_relay.Server.Session.{NetEnd, Session, Factory, session_open}
use dns_relay.Server.Session.Invariant.{opened}
use dns_relay.Server.Session.Laws.{view}
use dns_relay.Server.Session.Open.{session_open-Opens}
use dns_relay.Server.Loop.{Server, Setup, pick_upstream, packet_send, sendable, relay_query}
use dns_relay.Server.Loop.Ids.{IsPool, IsServing}
use dns_relay.Server.Loop.Handle.{with_id, id_free-releases}

-- The session that a relayed query opens.
abbrev pub relayed : ℕ → DnsPacket → NetEnd → ℕ → Session
relayed now packet_in source_end id = record {
  client_id = packet_in.header.id;
  client_ip = source_end;
  relay_info = record { timestamp = now; retry_times = 0; relay_packet = with_id packet_in id };
}

-- A session opened under a free id, with that id marked, keeps the server's invariant.
pub opened-IsServing :
    (clock now : ℕ) (s : Server) (packet_in : DnsPacket) (source_end : NetEnd) (id : ℕ) (p : Pool)
    → IsServing clock s
    → clock ≤ now
    → id < pool_size
    → s.pool.st id ≡ false
    → p.st ≡ update s.pool.st id true
    → IsPool p
    → (f : Factory) × (session_open s.factory packet_in.header.id source_end
          (with_id packet_in id)
          now
        ≡ some f)
      × IsServing now (record s { pool = p; factory = f })
      × ((i : ℕ)
          → opened f i ≡ (if id == i then some s.factory.next_session else opened s.factory i))
      × ((i : ℕ)
          → view f i
            ≡ (if id == i then some (relayed now packet_in source_end id) else view s.factory i))
opened-IsServing clock now s packet_in source_end id p v later in_range unused marks valid =
    let shut : opened s.factory id ≡ none = elim (Option-cases (opened s.factory id)) [
      | inl shut ↦ shut
      | inr (q, o) ↦ absurd (ground (arith, v.used id q o, unused))
    ] in
    let o =
      session_open-Opens clock now s.factory v.factory later packet_in.header.id source_end
        (with_id packet_in id) shut in
    (
      o.after,
      o.returns,
      record {
        pool = valid;
        factory = o.valid;
        cache = v.cache;
        free = λ i e l. ground (arith, o.table i, marks, v.free i);
        used = λ i q e. ground (arith, o.table i, marks, v.used i q);
      },
      o.table,
      o.reads,
    )

module _ (clock now : ℕ) (setup : Setup) (s : Server) (packet_in : DnsPacket)
    (source_end : NetEnd) where
  -- Without a free id the client gets SERVFAIL; if the query cannot be sent, nothing is opened and
  -- the id is free again; otherwise a session is open under an id that was free.
  pub record Relays (r : Option Server) : Type 0 where
    pub after : Server
    pub returns : r ≡ some after
    pub valid : IsServing clock after ⊎ IsServing now after
    pub cached : after.cache ≡ s.cache
    pub outcome :
        (((id : ℕ) → id < pool_size → s.pool.st id ≡ true)
          × (after ≡ record s { sent = (pack_make_inner_error packet_in, source_end) ∷ s.sent }))
        ⊎ ((id : ℕ) × (upstream : NetEnd) × (id < pool_size)
            × (s.pool.st id ≡ false)
            × (pick_upstream setup.upstreams s.next_upstream ≡ some (upstream, after.next_upstream))
            × (after.sent ≡ (with_id packet_in id, upstream) ∷ s.sent)
            × (((sendable setup (length s.sent) upstream (setup.serialize (with_id packet_in id))
                    ≡ false)
                  × (after.factory ≡ s.factory)
                  × ((i : ℕ) → after.pool.st i ≡ s.pool.st i))
                ⊎ ((sendable setup (length s.sent) upstream (setup.serialize (with_id packet_in id))
                      ≡ true)
                    × (after.pool.st ≡ update s.pool.st id true)
                    × ((i : ℕ)
                        → view after.factory i ≡ (
                            if id == i
                            then some (relayed now packet_in source_end id)
                            else view s.factory i)))))

  relay_exhausted :
      (id_alloc s.pool).1 ≡ none
      → relay_query setup s packet_in source_end now
        ≡ some (record s {
          pool = (id_alloc s.pool).0;
          sent = (pack_make_inner_error packet_in, source_end) ∷ s.sent;
        })
  unfolding relay_query packet_send
  relay_exhausted a = rw (a, relay_query) refl

  module _ (id : ℕ) (upstream : NetEnd) (rest : List NetEnd)
      (allocated : (id_alloc s.pool).1 ≡ some id)
      (picked : pick_upstream setup.upstreams s.next_upstream ≡ some (upstream, rest)) where
    relay_unsent :
        sendable setup (length s.sent) upstream (setup.serialize (with_id packet_in id)) ≡ false
        → relay_query setup s packet_in source_end now
          ≡ some (record s {
            pool = id_free (id_alloc s.pool).0 id;
            next_upstream = rest;
            sent = (with_id packet_in id, upstream) ∷ s.sent;
          })
    unfolding relay_query packet_send pack_make_query_relay
    relay_unsent unsent = rw (allocated, relay_query, picked, unsent) refl

    relay_opened :
        (f : Factory)
        → sendable setup (length s.sent) upstream (setup.serialize (with_id packet_in id)) ≡ true
        → session_open s.factory packet_in.header.id source_end (with_id packet_in id) now ≡ some f
        → relay_query setup s packet_in source_end now
          ≡ some (record s {
            pool = (id_alloc s.pool).0;
            factory = f;
            next_upstream = rest;
            sent = (with_id packet_in id, upstream) ∷ s.sent;
          })
    unfolding relay_query packet_send pack_make_query_relay
    relay_opened f sends open_session =
        rw (allocated, relay_query, picked, sends, open_session) refl

  module _ (v : IsServing clock s) (later : clock ≤ now) where
    module _ (id : ℕ) (upstream : NetEnd) (rest : List NetEnd)
        (allocated : (id_alloc s.pool).1 ≡ some id)
        (picked : pick_upstream setup.upstreams s.next_upstream ≡ some (upstream, rest))
        (in_range : id < pool_size) (unused : s.pool.st id ≡ false)
        (marks : (id_alloc s.pool).0.st ≡ update s.pool.st id true)
        (valid : IsPool (id_alloc s.pool).0) where
      unsent-Relays :
          sendable setup (length s.sent) upstream (setup.serialize (with_id packet_in id)) ≡ false
          → Relays (relay_query setup s packet_in source_end now)
      unsent-Relays unsent =
          let p = (id_alloc s.pool).0 in
          let (pool, freed) = id_free-releases p id valid in_range (ground (arith, marks)) in
          let same : (i : ℕ) → (id_free p id).st i ≡ s.pool.st i =
            λ i. ground (arith, freed, marks, unused) in
          record {
            after = _;
            returns = relay_unsent id upstream rest allocated picked unsent;
            valid = inl (record {
              pool = pool;
              factory = v.factory;
              cache = v.cache;
              free = λ i o l. same i ∙ v.free i o l;
              used = λ i q o. let (l, u) = v.used i q o in (l, same i ∙ u);
            });
            cached = refl;
            outcome = inr (id, upstream, in_range, unused, picked, refl, inl (unsent, refl, same));
          }

      opened-Relays :
          sendable setup (length s.sent) upstream (setup.serialize (with_id packet_in id)) ≡ true
          → Relays (relay_query setup s packet_in source_end now)
      opened-Relays sends =
          let (f, returns, serving, table, reads) =
            opened-IsServing clock now s packet_in source_end id (id_alloc s.pool).0 v later
              in_range unused marks valid in
          record {
            after = _;
            returns = relay_opened id upstream rest allocated picked f sends returns;
            valid = inr (record {
              pool = valid;
              factory = serving.factory;
              cache = v.cache;
              free = serving.free;
              used = serving.used;
            });
            cached = refl;
            outcome = inr (id, upstream, in_range, unused, picked, refl, inr (sends, marks, reads));
          }

    -- In a server whose ids in use are exactly those of its open sessions and whose pool, sessions
    -- and cache are valid, at a time not before its stamps and with an upstream server to pick, a
    -- query to be relayed either finds every id in use, and SERVFAIL is sent to the client and
    -- nothing else changes; or it is sent under an id that was free to the picked upstream server.
    -- If the packet cannot be serialized, has more than 512 bytes, or its sending fails, no
    -- session is opened and the marks of the ids are as before; otherwise that id alone is marked
    -- and a session for the client and its id is open under it. The invariant holds in each case.
    pub relay_query-Relays :
        (upstream : NetEnd) (rest : List NetEnd)
        → pick_upstream setup.upstreams s.next_upstream ≡ some (upstream, rest)
        → Relays (relay_query setup s packet_in source_end now)
    relay_query-Relays upstream rest picked =
        let (slot, pv) = v.pool in
        elim (id_alloc-Allocates s.pool slot pv) [
          | inl (nothing, same, all) ↦ record {
            after = _;
            returns = relay_exhausted nothing;
            valid = inl (record {
              pool = rw same v.pool;
              factory = v.factory;
              cache = v.cache;
              free = rw same v.free;
              used = rw same v.used;
            });
            cached = refl;
            outcome = inl (
              all,
              λ i. record s {
                pool = same i;
                sent = (pack_make_inner_error packet_in, source_end) ∷ s.sent;
              },
            );
          }
          | inr (id, got, in_range, unused, marks) ↦
              let p = (id_alloc s.pool).0 in
              let valid : IsPool p = (slot, id_alloc-IsValid s.pool slot pv) in
              elim (Bool-cases (
                sendable setup (length s.sent) upstream (setup.serialize (with_id packet_in id)))) [
                  | inl sends ↦
                      opened-Relays id upstream rest got picked in_range unused marks valid sends
                  | inr unsent ↦
                      unsent-Relays id upstream rest got picked in_range unused marks valid unsent
                ]
        ]
