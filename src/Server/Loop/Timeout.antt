-- ===== src/Server/Loop/Timeout.antt =====
-- What the server does with a session that timed out.
use dns_relay.Base.{
  ℕ, ◌≡◌, ◌≢◌, refl, true, false, Option, none, some, ◌∷◌, arith, ◌==◌, if◌then◌else◌, update, ◌∙◌,
  ap,
}
use dns_relay.Stl.Key.{uint64_key}
use dns_relay.Stl.HashMap.{hash_map_remove}
use dns_relay.Stl.HashMap.Laws
use dns_relay.Stl.LazyHeap.{lazy_heap_remove}
use dns_relay.IdPool.{id_free}
use dns_relay.Dns.Response.{pack_make_inner_error}
use dns_relay.Server.Session.{Session, Factory, relay_id, session_close}
use dns_relay.Server.Session.Invariant.{opened}
use dns_relay.Server.Loop.{
  Server, Setup, packet_send, with_factory, bind_server, is_exhausted, renamed, give_up,
  do_handle_timeout,
}
use dns_relay.Server.Loop.Ids.{IsServing}
use dns_relay.Server.Loop.Handle.{with_id, id_free-releases}

-- After the last retry the client gets SERVFAIL under its own id and the relay id is free again; but
-- what leaves the table is the client's id, and the relay id still leads to the freed session.
pub record Dangles (s : Server) (p : ℕ) (session : Session) (r : Option Server) : Type 0 where
  pub after : Server
  pub returns : r ≡ some after
  pub sent :
      after.sent
      ≡ (
        pack_make_inner_error (with_id session.relay_info.relay_packet session.client_id),
        session.client_ip,
      )
        ∷ s.sent
  pub ids : after.pool.st ≡ update s.pool.st (relay_id session) false
  pub freed : after.factory.sessions p ≡ none
  pub table :
      (i : ℕ)
      → opened after.factory i ≡ (if session.client_id == i then none else opened s.factory i)
  pub dangling : opened after.factory (relay_id session) ≡ some p

session_close_lem :
    (f : Factory) (p : ℕ) (session : Session)
    → f.sessions p ≡ some session
    → session_close f p
      ≡ some (record f {
        sessions_queue = lazy_heap_remove f.sessions_queue (relay_id session);
        agent_id_sessions = hash_map_remove f.agent_id_sessions (relay_id session);
        sessions = update f.sessions p none;
      })
unfolding session_close
session_close_lem f p session here = rw (here, session_close) refl

module _ (clock now : ℕ) (setup : Setup) (s : Server) (p : ℕ) (session : Session)
    (v : IsServing clock s) (mine : opened s.factory (relay_id session) ≡ some p)
    (here : s.factory.sessions p ≡ some session) where
  -- The factory after `session_close` of the session with the client's id in its packet.
  closed : Factory
  closed = record (s.factory) {
    sessions_queue = lazy_heap_remove s.factory.sessions_queue session.client_id;
    agent_id_sessions = hash_map_remove s.factory.agent_id_sessions session.client_id;
    sessions = update (update s.factory.sessions p (some (renamed session))) p none;
  }

  handles_last :
      is_exhausted setup session ≡ true
      → do_handle_timeout setup s now p ≡ give_up setup s p session
  unfolding do_handle_timeout
  handles_last last = rw (here, do_handle_timeout, last) refl

  gives_up :
      is_exhausted setup session ≡ true
      → do_handle_timeout setup s now p
        ≡ some (record s {
          factory = closed;
          pool = id_free s.pool (relay_id session);
          sent =
              (
                pack_make_inner_error (with_id session.relay_info.relay_packet session.client_id),
                session.client_ip,
              )
              ∷ s.sent;
        })
  unfolding give_up packet_send closed
  gives_up last =
      let f : Factory = record (s.factory) {
        sessions = update s.factory.sessions p (some (renamed session));
      } in
      let there : f.sessions p ≡ some (renamed session) = ground arith in
      handles_last last
      ∙ ap
          (λ c.
            bind_server
              (with_factory
                (packet_send setup (record s { factory = f })
                  (pack_make_inner_error (renamed session).relay_info.relay_packet)
                  session.client_ip).0
                c)
              λ after. some (record after { pool = id_free after.pool (relay_id session) }))
          (session_close_lem f p (renamed session) there)

  -- In a server whose ids in use are exactly those of its open sessions and whose pool, sessions
  -- and cache are valid, the timeout of an open session that was retried often enough, and whose
  -- client id differs from its relay id, sends SERVFAIL to the client under the client's id, frees
  -- the relay id and the session; but it is the client's id that leaves the table, and the table
  -- still leads from the relay id to the freed session.
  pub do_handle_timeout-Dangles :
      is_exhausted setup session ≡ true
      → session.client_id ≢ relay_id session
      → Dangles s p session (do_handle_timeout setup s now p)
  unfolding closed
  do_handle_timeout-Dangles last other =
      let reads =
        (Laws.remove-IsValid s.factory.agent_id_sessions session.client_id v.factory.table).1 in
      let (in_range, used) = v.used (relay_id session) p mine in
      let (pool, marks) = id_free-releases s.pool (relay_id session) v.pool in_range used in
      record {
        after = _;
        returns = gives_up last;
        sent = refl;
        ids = marks;
        freed = ground arith;
        table = reads;
        dangling = ground (arith, reads (relay_id session), mine);
      }
