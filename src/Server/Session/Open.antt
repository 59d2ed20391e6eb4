-- ===== src/Server/Session/Open.antt =====
-- `session_open` adds a session to the map.
use dns_relay.Base.{
  ℕ, ◌+◌, ◌≤◌, ◌<◌, ◌≡◌, inl, inr, ◌∙◌, Option, none, some, arith, ◌==◌, if◌then◌else◌, update,
  Bool-cases, Option-cases,
}
use dns_relay.Stl.Key.{uint64_key}
use dns_relay.Stl.HashMap.{hash_map_put}
use dns_relay.Stl.HashMap.Laws
use dns_relay.Stl.LazyHeap.Ops
use dns_relay.Stl.LazyHeap.Effects.{restamp-IsValid}
use dns_relay.Dns.Packet.{DnsPacket}
use dns_relay.Server.Session.{NetEnd, Session, Factory, relay_id, stamp, session_open}
use dns_relay.Server.Session.Invariant.{opened, IsLinked, IsValid}
use dns_relay.Server.Session.Wait.{session_wait-Waited}
use dns_relay.Server.Session.Laws.{view}

module _ (clock now : ℕ) (f : Factory) (v : IsValid clock f) (later : clock ≤ now) where
  -- `session_open` under an id that is not in the table adds a session for the client, whose packet
  -- is the relayed one, with no retries so far; every other session stays.
  pub record Opens (client_id : ℕ) (client_ip : NetEnd) (relay_pack : DnsPacket)
      (r : Option Factory) : Type 0 where
    pub after : Factory
    pub returns : r ≡ some after
    pub valid : IsValid now after
    pub table :
        (i : ℕ)
        → opened after i ≡ (if relay_pack.header.id == i then some f.next_session else opened f i)
    pub reads :
        (i : ℕ)
        → view after i ≡ (
            if relay_pack.header.id == i
            then some (record {
              client_id = client_id;
              client_ip = client_ip;
              relay_info = record { timestamp = now; retry_times = 0; relay_packet = relay_pack };
            })
            else view f i)

  module _ (client_id : ℕ) (client_ip : NetEnd) (relay_pack : DnsPacket)
      (unused : opened f relay_pack.header.id ≡ none) where
    fresh : Session
    fresh = record {
      client_id = client_id;
      client_ip = client_ip;
      relay_info = record { timestamp = 0; retry_times = 0; relay_packet = relay_pack };
    }

    stored : Factory
    unfolding fresh
    stored = record f {
      agent_id_sessions = (hash_map_put f.agent_id_sessions relay_pack.header.id f.next_session).0;
      sessions = update f.sessions f.next_session (some fresh);
      next_session = f.next_session + 1;
    }

    put-reads :
        (i : ℕ)
        → opened stored i ≡ (if relay_pack.header.id == i then some f.next_session else opened f i)
    unfolding stored
    put-reads i =
        (Laws.hash_map_put-Put f.agent_id_sessions relay_pack.header.id f.next_session
            v.table).reads
          i

    stored-linked :
        (i p : ℕ)
        → opened stored i ≡ some p
        → (s : Session) × (stored.sessions p ≡ some s)
          × (relay_id s ≡ i)
          × (p < stored.next_session)
    unfolding stored
    stored-linked i p o = elim (Bool-cases (relay_pack.header.id == i)) [
      | inl same ↦
          let e : f.next_session ≡ p = ground (arith, put-reads i) in
          (fresh, ground arith, ground arith, omega arith)
      | inr other ↦
          let (s, at, named, lt) = v.linked i p (ground (arith, put-reads i)) in
          (s, ground arith, named, omega arith)
    ]

    stored-heap : Ops.IsValid (stamp stored) clock f.sessions_queue
    unfolding stored
    stored-heap = restamp-IsValid (stamp f) (stamp stored) clock f.sessions_queue v.heap λ e h l.
        let (i, w) = v.owned e h l in
        let (s, at, named, lt) = v.linked i _ (v.backed i e w) in ground arith

    stored-IsLinked : IsLinked clock stored
    unfolding stored
    stored-IsLinked = record {
      heap = stored-heap;
      table =
          (Laws.hash_map_put-Put f.agent_id_sessions relay_pack.header.id f.next_session
            v.table).valid;
      linked = stored-linked;
      backed = λ i e w. ground (arith, put-reads i, v.backed i e w, unused);
      owned = v.owned;
    }

    -- In a valid factory, at a time not before its stamps and under a relay id that is not in use,
    -- session_open succeeds and adds exactly that id, with a session for the client that is
    -- stamped with the time and has no retries; every other session stays and the invariant holds.
    pub session_open-Opens :
        Opens client_id client_ip relay_pack (session_open f client_id client_ip relay_pack now)
    unfolding session_open stored
    session_open-Opens =
        let w =
          session_wait-Waited clock now stored f.next_session fresh stored-IsLinked
            (λ i p' n o. v.queued i p' (ground (arith, put-reads i))) later (ground arith)
            (ground (arith, put-reads relay_pack.header.id)) in
        record {
          after = w.after;
          returns = w.returns;
          valid = w.valid;
          table = λ i. w.table i ∙ put-reads i;
          reads = λ i. elim (Option-cases (opened f i)) [
            | inl closed ↦ ground (arith, w.table i, put-reads i, w.store f.next_session)
            | inr (p, o) ↦
                let (s, at, named, lt) = v.linked i p o in
                ground (arith, w.table i, put-reads i, o, at, w.store p, w.store f.next_session)
          ];
        }
