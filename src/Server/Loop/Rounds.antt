-- ===== src/Server/Loop/Rounds.antt =====
-- The rounds of `batch_timeout`, one by one.
use dns_relay.Base.{
  ℕ, suc, ◌≤◌, ◌≡◌, ◌⊎◌, inl, inr, refl, ap, ◌∙◌, true, false, Option, none, some, List, [], ◌∷◌,
  arith, Option-cases,
}
use dns_relay.Stl.LazyHeap.{is_positive}
use dns_relay.Stl.Key.{uint64_key}
use dns_relay.Server.Session.{NetEnd, Session, Factory, session_peek, time_remains}
use dns_relay.Server.Session.Invariant.{opened}
use dns_relay.Server.Session.Laws.{view}
use dns_relay.Server.Session.Promise.{Peeks}
use dns_relay.Server.Loop.{Server, Setup, pick_upstream, do_handle_timeout, batch_timeout}
use dns_relay.Server.Loop.Due.{is_due, due_view, resent, earlier_due}
use dns_relay.Server.Loop.Ids.{IsServing}

picks_from :
    (first : NetEnd) (others next : List NetEnd)
    → (u : NetEnd) × (rest : List NetEnd) × (pick_upstream (first ∷ others) next ≡ some (u, rest))
unfolding pick_upstream
picks_from first others [] = (first, others, refl)
picks_from first others (u ∷ rest) = (u, rest, refl)

pub upstream_for :
    {upstreams : List NetEnd} (first : NetEnd) (others : List NetEnd)
    → upstreams ≡ first ∷ others
    → (next : List NetEnd)
    → (u : NetEnd) × (rest : List NetEnd) × (pick_upstream upstreams next ≡ some (u, rest))
upstream_for first others listed next =
    let (u, rest, e) = picks_from first others next in
    (u, rest, ap (λ upstreams. pick_upstream upstreams next) listed ∙ e)

pub nothing_due :
    (setup : Setup) (now : ℕ) (s : Option Session)
    → due_view setup now s ≡ false
    → resent setup now s ≡ s
nothing_due setup now none h = refl
nothing_due setup now (some session) h = rw h refl

-- `session_peek` changes no session.
pub peek-view :
    {clock : ℕ} {f : Factory} {r : Factory × Option ℕ}
    → Peeks clock f r
    → (i : ℕ) → view r.0 i ≡ view f i
peek-view {f = f} {r = r} k i = elim (Option-cases (opened f i)) [
  | inl shut ↦ ground (arith, k.table i, shut)
  | inr (p, o) ↦ ground (arith, k.table i, o, k.store p)
]

-- One round of the loop.
pub ends_empty :
    (fuel : ℕ) (setup : Setup) (s : Server) (now : ℕ)
    → (session_peek s.factory).1 ≡ none
    → batch_timeout (suc fuel) setup s (λ n. now)
      ≡ some (record s { factory = (session_peek s.factory).0 })
unfolding batch_timeout
ends_empty fuel setup s now e = rw (e, batch_timeout) refl

pub ends_waiting :
    (fuel : ℕ) (setup : Setup) (s : Server) (now p : ℕ) (session : Session)
    → (session_peek s.factory).1 ≡ some p
    → (session_peek s.factory).0.sessions p ≡ some session
    → is_due setup now session ≡ false
    → batch_timeout (suc fuel) setup s (λ n. now)
      ≡ some (record s { factory = (session_peek s.factory).0 })
unfolding batch_timeout
ends_waiting fuel setup s now p session e at waits =
    let on : is_positive (time_remains session setup.request_timeout now) ≡ true =
      ground (arith, waits) in
    rw (e, batch_timeout, at, on) refl

pub goes_on :
    (fuel : ℕ) (setup : Setup) (s after : Server) (now p : ℕ) (session : Session)
    → (session_peek s.factory).1 ≡ some p
    → (session_peek s.factory).0.sessions p ≡ some session
    → is_due setup now session ≡ true
    → do_handle_timeout setup (record s { factory = (session_peek s.factory).0 }) now p ≡ some after
    → batch_timeout (suc fuel) setup s (λ n. now) ≡ batch_timeout fuel setup after (λ n. now)
unfolding batch_timeout
goes_on fuel setup s after now p session e at due h =
    let up : is_positive (time_remains session setup.request_timeout now) ≡ false =
      ground (arith, due) in
    rw (e, batch_timeout, at, up, h) refl

pub peeked-IsServing :
    {clock : ℕ} {s : Server}
    → IsServing clock s
    → Peeks clock s.factory (session_peek s.factory)
    → IsServing clock (record s { factory = (session_peek s.factory).0 })
peeked-IsServing v k = record {
  pool = v.pool;
  factory = k.valid;
  cache = v.cache;
  free = λ i o l. ground (arith, k.table i, v.free i);
  used = λ i p o. ground (arith, k.table i, v.used i p);
}

pub either_now : {A : Type 0} → A ⊎ A → A
either_now (inl a) = a
either_now (inr a) = a

pub later_waits :
    (setup : Setup) (now : ℕ) (a : Session) (b : Option Session)
    → is_due setup now a ≡ false
    → ((t : Session) → b ≡ some t → a.relay_info.timestamp ≤ t.relay_info.timestamp)
    → due_view setup now b ≡ false
later_waits setup now a none h least = refl
later_waits setup now a (some t) h least = earlier_due setup now a t (least t refl) h
