-- ===== src/Server/Session/Close.antt =====
-- `session_close` removes a session from the map, and nothing else.
use dns_relay.Base.{
  ℕ, ◌≡◌, ◌≢◌, inl, inr, Option, none, some, arith, ◌==◌, if◌then◌else◌, update, Option-cases,
}
use dns_relay.Stl.Key.{uint64_key}
use dns_relay.Stl.HashMap.{hash_map_remove}
use dns_relay.Stl.HashMap.Laws
use dns_relay.Stl.LazyHeap.{lazy_heap_remove}
use dns_relay.Stl.LazyHeap.Rank.{In}
use dns_relay.Stl.LazyHeap.Ops.{IsLive}
use dns_relay.Stl.LazyHeap.Effects.{Removes, remove-Removes, restamp-IsValid}
use dns_relay.Server.Session.{Session, Factory, relay_id, stamp, session_close}
use dns_relay.Server.Session.Invariant.{opened, waiting, IsValid}
use dns_relay.Server.Session.Laws.{view}

-- What `session_close` leaves: the session's id is free again, and no other session is touched.
pub record Closes (clock : ℕ) (f : Factory) (s : Session) (r : Option Factory) : Type 0 where
  pub after : Factory
  pub returns : r ≡ some after
  pub valid : IsValid clock after
  pub table : (i : ℕ) → opened after i ≡ (if relay_id s == i then none else opened f i)
  pub freed : (p : ℕ) → opened f (relay_id s) ≡ some p → after.sessions p ≡ none
  pub unqueued :
      (p e : ℕ)
      → opened f (relay_id s) ≡ some p
      → In after.sessions_queue e
      → IsLive after.sessions_queue e
      → (after.sessions_queue.memory e).payload ≢ p
  pub reads : (i : ℕ) → view after i ≡ (if relay_id s == i then none else view f i)

module _ (clock : ℕ) (f : Factory) (v : IsValid clock f) (p : ℕ) (s : Session)
    (mine : opened f (relay_id s) ≡ some p) (here : f.sessions p ≡ some s) where
  closed : Factory
  closed = record f {
    sessions_queue = lazy_heap_remove f.sessions_queue (relay_id s);
    agent_id_sessions = hash_map_remove f.agent_id_sessions (relay_id s);
    sessions = update f.sessions p none;
  }

  cleared : Removes (stamp f) clock (relay_id s) f.sessions_queue closed.sessions_queue
  unfolding closed
  cleared = remove-Removes (stamp f) clock (relay_id s) f.sessions_queue v.heap

  opened-closed : (i : ℕ) → opened closed i ≡ (if relay_id s == i then none else opened f i)
  unfolding closed
  opened-closed i = (Laws.remove-IsValid f.agent_id_sessions (relay_id s) v.table).1 i

  others :
      (e : ℕ)
      → In closed.sessions_queue e
      → IsLive closed.sessions_queue e
      → (i : ℕ) × (waiting f i ≡ some e)
        × (i ≢ relay_id s)
        × ((closed.sessions_queue.memory e).payload ≢ p)
  others e h l =
      let not_mine : waiting f (relay_id s) ≢ some e = λ w. cc (cleared.marked e w) in
      let live : IsLive f.sessions_queue e = cc (cleared.others e not_mine) in
      let (i, w) = v.owned e (cleared.known e h) live in
      let (s', at, named, _) = v.linked i (f.sessions_queue.memory e).payload (v.backed i e w) in
      (
        i,
        w,
        λ same. not_mine (rw same at w),
        λ same. not_mine (ground (arith, w, here, at, named, cleared.payloads e)),
      )

  closed-IsValid : IsValid clock closed
  unfolding closed
  closed-IsValid = record {
    links = record {
      heap =
          restamp-IsValid (stamp f) (stamp closed) clock closed.sessions_queue cleared.valid
            (λ e h l. let (i, w, _, other) = others e h l in ground (arith, other));
      table = (Laws.remove-IsValid f.agent_id_sessions (relay_id s) v.table).0;
      linked = λ i p' o.
          let (s', at, named, lt) = v.linked i p' (ground (arith, opened-closed i)) in
          (s', ground (arith, opened-closed i, here, at, named), named, lt);
      backed = λ i e w.
          ground (arith, opened-closed i, cleared.reads i, v.backed i e, cleared.payloads e);
      owned =
          λ e h l. let (i, w, n, _) = others e h l in (i, ground (arith, cleared.reads i, n, w));
    };
    queued = λ i p' o.
        let (e, w) = v.queued i p' (ground (arith, opened-closed i)) in
        (e, ground (arith, opened-closed i, cleared.reads i));
  }

  -- In a valid factory, session_close of an open session succeeds, frees it, removes exactly its
  -- relay id from the map, leaves every other session as it was, and keeps the invariant; no live
  -- element of the queue refers to the freed session, while one that is marked as deleted may.
  pub session_close-Closes : Closes clock f s (session_close f p)
  unfolding session_close closed
  session_close-Closes = record {
    after = closed;
    returns = rw (here, session_close);
    valid = closed-IsValid;
    table = opened-closed;
    freed = λ p' o. ground (arith, mine, o);
    unqueued = λ p' e o h l same.
        let (_, _, _, apart) = others e h l in apart (ground (arith, mine, o, same));
    reads = λ i. elim (Option-cases (opened f i)) [
      | inl shut ↦ ground (arith, opened-closed i, shut)
      | inr (p', o) ↦
          let (s', at, named, _) = v.linked i p' o in
          ground (arith, opened-closed i, o, at, named, here)
    ];
  }
