-- ===== src/Server/Session/Promise.antt =====
-- `session_peek` finds the open session that times out first, and the empty factory is valid.
use dns_relay.Base.{ℕ, ◌≤◌, ◌≡◌, ◌⊎◌, inl, inr, refl, true, Option, none, some, arith, Option-cases}
use dns_relay.Stl.Key.{uint64_key}
use dns_relay.Stl.HashMap.Laws
use dns_relay.Stl.LazyHeap.{lazy_heap_peek}
use dns_relay.Stl.LazyHeap.Rank.{In}
use dns_relay.Stl.LazyHeap.Ops.{IsLive}
use dns_relay.Stl.LazyHeap.Change.{create-IsValid, create-size}
use dns_relay.Stl.LazyHeap.Peek.{Peeked, lazy_heap_peek-Peeked}
use dns_relay.Server.Session.{
  Session, Factory, relay_id, stamp, session_comparator, session_factory_init, session_peek,
}
use dns_relay.Server.Session.Invariant.{comparator-Orders, opened, waiting, IsValid}
use dns_relay.Server.Session.Laws.{view}

-- What `session_peek` returns: NULL only if no session is open, and otherwise an open session whose
-- time stamp no open session precedes. The map of the sessions stays as it was.
pub record Peeks (clock : ℕ) (f : Factory) (r : Factory × Option ℕ) : Type 0 where
  pub valid : IsValid clock r.0
  pub table : (i : ℕ) → opened r.0 i ≡ opened f i
  pub store : (p : ℕ) → r.0.sessions p ≡ f.sessions p
  pub result :
      ((r.1 ≡ none) × ((i : ℕ) → opened f i ≡ none))
      ⊎ ((p : ℕ) × (s : Session) × (r.1 ≡ some p)
          × (f.sessions p ≡ some s)
          × (opened f (relay_id s) ≡ some p)
          × ((i : ℕ) (s' : Session)
              → view f i ≡ some s'
              → s.relay_info.timestamp ≤ s'.relay_info.timestamp))

module _ (clock : ℕ) (f : Factory) (v : IsValid clock f) where
  peeked :
      Peeked
        (stamp f)
        clock
        f.sessions_queue
        (lazy_heap_peek (session_comparator f) f.sessions_queue)
  peeked =
      lazy_heap_peek-Peeked (session_comparator f) (stamp f) (comparator-Orders f) clock
        f.sessions_queue v.heap

  -- An open session has a live element of the queue.
  element_of :
      (i p : ℕ)
      → opened f i ≡ some p
      → (e : ℕ) × In f.sessions_queue e
        × IsLive f.sessions_queue e
        × ((f.sessions_queue.memory e).payload ≡ p)
  element_of i p o =
      let (e, w) = v.queued i p o in
      let (h, l) = v.heap.survivors i e w in (e, h, l, ground (arith, o, v.backed i e w))

  nothing_open :
      ((e : ℕ) → In f.sessions_queue e → (f.sessions_queue.memory e).is_deleted ≡ true)
      → (i : ℕ) → opened f i ≡ none
  nothing_open dead i = elim (Option-cases (opened f i)) [
    | inl shut ↦ shut
    | inr (p, o) ↦ let (e, h, l, _) = element_of i p o in cc (dead e h)
  ]

  earliest :
      (e : ℕ)
      → ((e' : ℕ)
          → In f.sessions_queue e'
          → IsLive f.sessions_queue e'
          → stamp f (f.sessions_queue.memory e).payload
            ≤ stamp f (f.sessions_queue.memory e').payload)
      → (i : ℕ) (s' : Session) → view f i ≡ some s'
      → stamp f (f.sessions_queue.memory e).payload ≤ s'.relay_info.timestamp
  earliest e least i s' h = elim (Option-cases (opened f i)) [
    | inl shut ↦ absurd (ground (arith, shut))
    | inr (p, o) ↦
        let (e', h', l', named) = element_of i p o in
        let found : f.sessions p ≡ some s' = ground (arith, o) in
        ground (arith, least e' h' l', named, found)
  ]

  peek-IsValid : IsValid clock (session_peek f).0
  unfolding session_peek
  peek-IsValid =
      let k = peeked.keeps in
      let same : (i : ℕ) → waiting (session_peek f).0 i ≡ waiting f i =
        λ i. rw k.survivor_table refl in
      record {
        links = record {
          heap = peeked.valid;
          table = v.table;
          linked = v.linked;
          backed = λ i e w. rw k.memory (v.backed i e (cc (same i)));
          owned =
              λ e h l. let (i, w) = v.owned e (k.known e h) (rw k.memory at l) in (i, cc (same i));
        };
        queued = λ i p o. let (e, w) = v.queued i p o in (e, cc (same i));
      }

  -- In a valid factory session_peek returns NULL only if no session is open, and otherwise an open
  -- session whose time stamp no open session precedes; the invariant holds after it and no session
  -- changes.
  pub session_peek-Peeks : Peeks clock f (session_peek f)
  unfolding session_peek
  session_peek-Peeks = record {
    valid = peek-IsValid;
    table = λ i. refl;
    store = λ p. refl;
    result = elim peeked.result [
      | inl (nothing, dead) ↦ inl (nothing, nothing_open dead)
      | inr (e, h, l, r, least) ↦
          let (i, w) = v.owned e h l in
          let o = v.backed i e w in
          let (s, at, named, _) = v.linked i (f.sessions_queue.memory e).payload o in
          let stamped : stamp f (f.sessions_queue.memory e).payload ≡ s.relay_info.timestamp =
            ground (arith, at) in
          inr (
            (f.sessions_queue.memory e).payload,
            s,
            r,
            at,
            rw named o,
            λ j s' x. rw (← stamped) (earliest e least j s' x),
          )
    ];
  }

pub session_factory_init-IsValid :
    IsValid 0 session_factory_init × ((i : ℕ) → opened session_factory_init i ≡ none)
unfolding session_factory_init
session_factory_init-IsValid =
    let (t, shut) = Laws.create-IsValid {K = ℕ} {V = ℕ} in
    let heap =
      create-IsValid (session_comparator session_factory_init) (stamp session_factory_init)
        (comparator-Orders session_factory_init) 0 in
    (
      record {
        links = record {
          heap = heap;
          table = t;
          linked = λ i p o. absurd (ground (arith, shut i));
          backed = λ i e w. absurd (ground (arith, heap.survivors i e w, create-size));
          owned = λ e (i, a, b, c) l. absurd (omega (arith, create-size));
        };
        queued = λ i p o. absurd (ground (arith, shut i));
      },
      shut,
    )
