-- ===== src/Server/Loop/Retry.antt =====
-- What the server does with a session that timed out and has retries left.
use dns_relay.Base.{
  ℕ, ◌+◌, ◌%◌, ◌≤◌, ◌≡◌, inl, inr, refl, false, Option, some, List, ◌∷◌, arith, ◌==◌, if◌then◌else◌,
  update, Bool-cases, Option-cases,
}
use dns_relay.Stl.Key.{uint64_key}
use dns_relay.Stl.LazyHeap.Effects.{restamp-IsValid}
use dns_relay.Server.Session.{NetEnd, Session, Factory, relay_id, stamp, session_wait}
use dns_relay.Server.Session.Invariant.{opened, IsValid}
use dns_relay.Server.Session.Laws.{view, session_wait-Rewaits}
use dns_relay.Server.Loop.{
  Server, Setup, pick_upstream, packet_send, is_exhausted, resend, do_handle_timeout,
}
use dns_relay.Server.Loop.Ids.{IsServing}

-- The session after the retry, before it waits again.
abbrev pub counted : Session → Session
counted session = record session {
  relay_info = record (session.relay_info) {
    retry_times = (session.relay_info.retry_times + 1) % 256;
  };
}

abbrev pub retried : ℕ → Session → Session
retried now session = record session {
  relay_info = record (session.relay_info) {
    timestamp = now;
    retry_times = (session.relay_info.retry_times + 1) % 256;
  };
}

module _ (clock now : ℕ) (setup : Setup) (s : Server) (p : ℕ) (session : Session)
    (v : IsServing clock s) (later : clock ≤ now)
    (mine : opened s.factory (relay_id session) ≡ some p)
    (here : s.factory.sessions p ≡ some session) where
  recounted : Factory
  recounted = record (s.factory) { sessions = update s.factory.sessions p (some (counted session)) }

  same_stamp : (q : ℕ) → stamp recounted q ≡ stamp s.factory q
  unfolding recounted
  same_stamp q = elim (Bool-cases (p == q)) [
    | inl this ↦ ground (arith, here)
    | inr other ↦ ground arith
  ]

  recounted-IsValid : IsValid clock recounted
  unfolding recounted
  recounted-IsValid = record {
    links = record {
      heap =
          restamp-IsValid (stamp s.factory) (stamp recounted) clock s.factory.sessions_queue
            v.factory.heap (λ e h l. same_stamp (s.factory.sessions_queue.memory e).payload);
      table = v.factory.table;
      linked = λ i q o.
          let (s', at, named, lt) = v.factory.linked i q o in
          elim (Bool-cases (p == q)) [
            | inl this ↦
                (counted session, ground (arith, here), ground (arith, here, at, named), lt)
            | inr other ↦ (s', ground arith, named, lt)
          ];
      backed = v.factory.backed;
      owned = v.factory.owned;
    };
    queued = v.factory.queued;
  }

  -- The packet goes to the picked server; the session counts one more retry and waits from now on.
  pub record Retries (upstream : NetEnd) (rest : List NetEnd) (r : Option Server) : Type 0 where
    pub after : Server
    pub returns : r ≡ some after
    pub valid : IsServing now after
    pub sent : after.sent ≡ (session.relay_info.relay_packet, upstream) ∷ s.sent
    pub next : after.next_upstream ≡ rest
    pub ids : after.pool ≡ s.pool
    pub reads :
        (i : ℕ)
        → view after.factory i
          ≡ (if relay_id session == i then some (retried now session) else view s.factory i)

  resends_on :
      (upstream : NetEnd) (rest : List NetEnd) (f : Factory)
      → pick_upstream setup.upstreams s.next_upstream ≡ some (upstream, rest)
      → session_wait recounted p now ≡ some f
      → resend setup s now p session
        ≡ some (record s {
          factory = f;
          next_upstream = rest;
          sent = (session.relay_info.relay_packet, upstream) ∷ s.sent;
        })
  unfolding resend packet_send recounted
  resends_on upstream rest f picked waits = rw (picked, resend, waits) refl

  resends :
      (upstream : NetEnd) (rest : List NetEnd) (f : Factory)
      → is_exhausted setup session ≡ false
      → pick_upstream setup.upstreams s.next_upstream ≡ some (upstream, rest)
      → session_wait recounted p now ≡ some f
      → do_handle_timeout setup s now p
        ≡ some (record s {
          factory = f;
          next_upstream = rest;
          sent = (session.relay_info.relay_packet, upstream) ∷ s.sent;
        })
  unfolding do_handle_timeout
  resends upstream rest f left picked waits =
      rw (here, do_handle_timeout, left) (resends_on upstream rest f picked waits)

  -- In a server whose ids in use are exactly those of its open sessions and whose pool, sessions
  -- and cache are valid, at a time not before its stamps and with an upstream server to pick, the
  -- timeout of an open session with retries left sends its packet to that server, moves on to the
  -- next, counts one more retry (on 8 bits), and stamps the session with the time; no other
  -- session and no id changes, and the invariant holds.
  pub do_handle_timeout-Retries :
      (upstream : NetEnd) (rest : List NetEnd)
      → is_exhausted setup session ≡ false
      → pick_upstream setup.upstreams s.next_upstream ≡ some (upstream, rest)
      → Retries upstream rest (do_handle_timeout setup s now p)
  unfolding recounted
  do_handle_timeout-Retries upstream rest left picked =
      let w =
        session_wait-Rewaits clock now recounted recounted-IsValid later p (counted session) mine
          (ground arith) in
      record {
        after = _;
        returns = resends upstream rest w.after left picked w.returns;
        valid = record {
          pool = v.pool;
          factory = w.valid;
          cache = v.cache;
          free = λ i o l. ground (arith, w.table i, v.free i);
          used = λ i q o. ground (arith, w.table i, v.used i q);
        };
        sent = refl;
        next = refl;
        ids = refl;
        reads = λ i. elim (Option-cases (opened s.factory i)) [
          | inl shut ↦ ground (arith, w.reads i, shut)
          | inr (q, o) ↦
              let (s', at, named, lt) = v.factory.linked i q o in
              ground (arith, w.reads i, o, at, named, here, mine)
        ];
      }
