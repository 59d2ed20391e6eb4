-- ===== src/Server/Session/Wait.antt =====
-- `session_wait` puts an open session in the queue under its new time stamp.
use dns_relay.Base.{
  ℕ, ◌≤◌, ◌<◌, ◌≡◌, ◌≢◌, inl, inr, refl, sym, subst, Option, some, arith, ◌==◌, if◌then◌else◌,
  update, Bool-cases, ℕ_discrete,
}
use dns_relay.Stl.Key.{uint64_key}
use dns_relay.Stl.LazyHeap.{LazyHeap, lazy_heap_remove, lazy_heap_add}
use dns_relay.Stl.LazyHeap.Rank.{In}
use dns_relay.Stl.LazyHeap.Ops
use dns_relay.Stl.LazyHeap.Ops.{IsLive}
use dns_relay.Stl.LazyHeap.Effects.{Adds, Removes, add-Adds, remove-Removes, restamp-IsValid}
use dns_relay.Server.Session.{
  Session, Factory, relay_id, stamp, restamped, session_comparator, session_wait,
}
use dns_relay.Server.Session.Invariant.{comparator-Orders, opened, waiting, IsLinked, IsValid}

module _ (clock now : ℕ) (f : Factory) (v : IsLinked clock f) (later : clock ≤ now) (p : ℕ)
    (s : Session) (here : f.sessions p ≡ some s) (mine : opened f (relay_id s) ≡ some p) where
  id : ℕ
  id = relay_id s

  q1 : LazyHeap
  q1 = lazy_heap_remove f.sessions_queue (relay_id s)

  f1 : Factory
  unfolding q1
  f1 = record f { sessions_queue = q1; sessions = update f.sessions p (some (restamped s now)) }

  gone : Removes (stamp f) clock (relay_id s) f.sessions_queue q1
  unfolding q1
  gone = remove-Removes (stamp f) clock (relay_id s) f.sessions_queue v.heap

  IsLive-Removes :
      (e : ℕ) → IsLive q1 e → (IsLive f.sessions_queue e) × (waiting f (relay_id s) ≢ some e)
  IsLive-Removes e l =
      let not_mine : waiting f (relay_id s) ≢ some e = λ w. cc (gone.marked e w) in
      (cc (gone.others e not_mine), not_mine)

  -- What is live after the removal belongs to another id, and so to another session.
  left_over :
      (e : ℕ)
      → In q1 e
      → IsLive q1 e
      → (i : ℕ) × (waiting f i ≡ some e) × (i ≢ relay_id s) × ((q1.memory e).payload ≢ p)
  left_over e h l =
      let (live, not_mine) = IsLive-Removes e l in
      let (i, w) = v.owned e (gone.known e h) live in
      let (s', at, named, _) = v.linked i (f.sessions_queue.memory e).payload (v.backed i e w) in
      (
        i,
        w,
        λ same. not_mine (rw same at w),
        λ same. not_mine (ground (arith, w, here, at, named, gone.payloads e)),
      )

  restamped_heap : Ops.IsValid (stamp f1) clock q1
  unfolding f1
  restamped_heap =
      restamp-IsValid (stamp f) (stamp f1) clock q1 gone.valid
        (λ e h l. let (i, w, _, other) = left_over e h l in ground (arith, other))

  f2 : Factory
  unfolding f1
  f2 = record f1 { sessions_queue = lazy_heap_add (session_comparator f1) q1 (relay_id s) p }

  back : Adds (stamp f1) (relay_id s) p q1 f2.sessions_queue
  unfolding f2
  back =
      add-Adds (session_comparator f1) (stamp f1) (comparator-Orders f1) clock q1 (relay_id s) p
        restamped_heap (ground arith)

  now_heap : Ops.IsValid (stamp f2) now f2.sessions_queue
  unfolding f2
  now_heap =
      let e : stamp f1 p ≡ now = ground arith in
      subst (λ c. Ops.IsValid (stamp f1) c f2.sessions_queue) e back.valid

  waiting-after : (i : ℕ) → waiting f2 i ≡ (if relay_id s == i then some q1.next else waiting f i)
  waiting-after i = ground (arith, back.reads i, gone.reads i)

  linked-after :
      (i p' : ℕ)
      → opened f2 i ≡ some p'
      → (s' : Session) × (f2.sessions p' ≡ some s') × (relay_id s' ≡ i) × (p' < f2.next_session)
  unfolding f2
  linked-after i p' o =
      let (s', at, named, lt) = v.linked i p' o in
      elim (Bool-cases (p == p')) [
        | inl same ↦ (restamped s now, ground arith, ground (arith, here, at, named), lt)
        | inr other ↦ (s', ground arith, named, lt)
      ]

  opened-after : (i : ℕ) → opened f2 i ≡ opened f i
  unfolding f2
  opened-after i = refl

  same_payload :
      (i e : ℕ)
      → waiting f i ≡ some e
      → (f2.sessions_queue.memory e).payload ≡ (f.sessions_queue.memory e).payload
  same_payload i e w =
      let (h, _) = v.heap.survivors i e w in
      let (_, m) = back.kept e (gone.kept e h) in rw m (gone.payloads e)

  backed-after :
      (i e : ℕ) → waiting f2 i ≡ some e → opened f2 i ≡ some (f2.sessions_queue.memory e).payload
  backed-after i e w = elim (Bool-cases (relay_id s == i)) [
    | inl same ↦
        let fresh : q1.next ≡ e = ground (arith, waiting-after i) in
        let i-id : relay_id s ≡ i = ground arith in
        rw (opened-after i, ← i-id, ← fresh, back.element) mine
    | inr other ↦
        let old : waiting f i ≡ some e = ground (arith, waiting-after i) in
        rw (opened-after i, same_payload i e old) (v.backed i e old)
  ]

  owned-after :
      (e : ℕ)
      → In f2.sessions_queue e
      → IsLive f2.sessions_queue e
      → (i : ℕ) × (waiting f2 i ≡ some e)
  owned-after e h l = elim (back.known e h) [
    | inl fresh ↦ (relay_id s, ground (arith, waiting-after (relay_id s)))
    | inr old ↦
        let (_, m) = back.kept e old in
        let (i, w, other, _) = left_over e old (rw m at l) in (i, ground (arith, waiting-after i))
  ]

  wait-IsValid :
      ((i p' : ℕ) → i ≢ relay_id s → opened f i ≡ some p' → (e : ℕ) × (waiting f i ≡ some e))
      → IsValid now f2
  unfolding f2
  wait-IsValid queued = record {
    links = record {
      heap = now_heap;
      table = v.table;
      linked = linked-after;
      backed = backed-after;
      owned = owned-after;
    };
    queued = λ i p' o. elim (ℕ_discrete (relay_id s) i) [
      | yes same ↦ (q1.next, ground (arith, waiting-after i))
      | no other ↦
          let (e, w) = queued i p' (λ x. other (sym x)) (cc (opened-after i)) in
          (e, ground (arith, waiting-after i))
    ];
  }

  wait-eq : session_wait f p now ≡ some f2
  unfolding session_wait f2
  wait-eq = rw (here, session_wait)

-- What `session_wait` leaves.
pub record Waited (now : ℕ) (f : Factory) (p : ℕ) (s : Session) (r : Option Factory) : Type 0 where
  pub after : Factory
  pub returns : r ≡ some after
  pub valid : IsValid now after
  pub table : (i : ℕ) → opened after i ≡ opened f i
  pub store : (x : ℕ) → after.sessions x ≡ update f.sessions p (some (restamped s now)) x
  pub fresh : after.next_session ≡ f.next_session

-- A session in the table waits from then on, also if it did not wait before.
pub session_wait-Waited :
    (clock now : ℕ) (f : Factory) (p : ℕ) (s : Session)
    → IsLinked clock f
    → ((i p' : ℕ) → i ≢ relay_id s → opened f i ≡ some p' → (e : ℕ) × (waiting f i ≡ some e))
    → clock ≤ now
    → f.sessions p ≡ some s
    → opened f (relay_id s) ≡ some p
    → Waited now f p s (session_wait f p now)
unfolding f2
session_wait-Waited clock now f p s v queued later here mine = record {
  after = f2 clock now f v later p s here mine;
  returns = wait-eq clock now f v later p s here mine;
  valid = wait-IsValid clock now f v later p s here mine queued;
  table = opened-after clock now f v later p s here mine;
  store = λ x. refl;
  fresh = refl;
}
