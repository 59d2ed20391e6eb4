-- ===== src/Server/Loop/Batch.antt =====
-- `batch_timeout` as a whole: it ends, after one resending for each session that timed out.
use dns_relay.Base.{
  ℕ, zero, suc, ◌<◌, ◌≤◌, ◌≡◌, ◌⊎◌, inl, inr, refl, ap, sym, ◌∙◌, true, false, Option, none, some,
  List, ◌∷◌, arith, ◌==◌, if◌then◌else◌, Bool-cases,
}
use dns_relay.Stl.Key.{uint64_key}
use dns_relay.Server.Session.{NetEnd, Session, relay_id, session_peek}
use dns_relay.Server.Session.Invariant.{opened}
use dns_relay.Server.Session.Laws.{view}
use dns_relay.Server.Session.Promise.{Peeks, session_peek-Peeks}
use dns_relay.Server.Loop.{Server, Setup, is_exhausted, do_handle_timeout, batch_timeout}
use dns_relay.Server.Loop.Due.{count_less, is_due, due_view, due_count, resent, retried_waits}
use dns_relay.Server.Loop.Ids.{IsServing}
use dns_relay.Server.Loop.Retry.{retried, do_handle_timeout-Retries}
use dns_relay.Server.Loop.Rounds.{
  upstream_for, nothing_due, peek-view, ends_empty, ends_waiting, goes_on, peeked-IsServing,
  either_now, later_waits,
}

module _ (setup : Setup) (now : ℕ) (first : NetEnd) (others : List NetEnd)
    (listed : setup.upstreams ≡ first ∷ others) (positive : 0 < setup.request_timeout) where
  pub record Batches (clock : ℕ) (s : Server) (r : Option Server) : Type 0 where
    pub after : Server
    pub returns : r ≡ some after
    pub valid : IsServing clock after ⊎ IsServing now after
    pub reads : (i : ℕ) → view after.factory i ≡ resent setup now (view s.factory i)

  -- After the peek nothing is due.
  stops :
      (fuel clock : ℕ) (s : Server)
      → IsServing clock s
      → Peeks clock s.factory (session_peek s.factory)
      → batch_timeout (suc fuel) setup s (λ n. now)
        ≡ some (record s { factory = (session_peek s.factory).0 })
      → ((i : ℕ) → due_view setup now (view s.factory i) ≡ false)
      → Batches clock s (batch_timeout (suc fuel) setup s (λ n. now))
  stops fuel clock s v k e none_due = record {
    after = record s { factory = (session_peek s.factory).0 };
    returns = e;
    valid = inl (peeked-IsServing v k);
    reads = λ i. peek-view k i ∙ sym (nothing_due setup now (view s.factory i) (none_due i));
  }

  module _ (clock : ℕ) (s : Server) (v : IsServing clock s) (later : clock ≤ now) (p : ℕ)
      (session : Session) (mine : opened s.factory (relay_id session) ≡ some p)
      (here : s.factory.sessions p ≡ some session) (due : is_due setup now session ≡ true)
      (k : Peeks clock s.factory (session_peek s.factory)) where
    abbrev peeked : Server
    peeked = record s { factory = (session_peek s.factory).0 }

    record Resends : Type 0 where
      pub after : Server
      pub returns : do_handle_timeout setup peeked now p ≡ some after
      pub valid : IsServing now after
      pub reads :
          (i : ℕ)
          → view after.factory i
            ≡ (if relay_id session == i then some (retried now session) else view s.factory i)

    resends : is_exhausted setup session ≡ false → Resends
    resends left =
        let (u, rest, picked) = upstream_for first others listed s.next_upstream in
        let r =
          do_handle_timeout-Retries clock now setup peeked p session (peeked-IsServing v k) later
            (k.table (relay_id session) ∙ mine) (k.store p ∙ here) u rest left picked in
        record {
          after = r.after;
          returns = r.returns;
          valid = r.valid;
          reads = λ i. ground (arith, r.reads i, peek-view k i);
        }

    seen : view s.factory (relay_id session) ≡ some session
    seen = ground (arith, mine, here)

    read_here :
        (r : Resends) (i : ℕ)
        → (relay_id session == i) ≡ true
        → view r.after.factory i ≡ some (retried now session)
    read_here r i e = r.reads i ∙ rw e refl

    read_there :
        (r : Resends) (i : ℕ)
        → (relay_id session == i) ≡ false
        → view r.after.factory i ≡ view s.factory i
    read_there r i e = r.reads i ∙ rw e refl

    -- One session less is due.
    fewer : (r : Resends) → due_count setup now s ≡ suc (due_count setup now r.after)
    unfolding due_count
    fewer r =
        count_less 65536 (relay_id session) (λ i. due_view setup now (view s.factory i))
          (λ i. due_view setup now (view r.after.factory i)) (v.used (relay_id session) p mine).0
          (ap (due_view setup now) seen ∙ due)
          (ap (due_view setup now) (read_here r (relay_id session) (ground arith))
            ∙ retried_waits setup now session positive)
          (λ i other. ap (due_view setup now) (sym (read_there r i other)))

    resent_due : resent setup now (some session) ≡ some (retried now session)
    resent_due = rw due refl

    -- The session after the batch is that after its first resending.
    resent_again :
        (r : Resends) (i : ℕ)
        → resent setup now (view r.after.factory i) ≡ resent setup now (view s.factory i)
    resent_again r i = elim (Bool-cases (relay_id session == i)) [
      | inl same ↦
          let this : relay_id session ≡ i = ground arith in
          ap (resent setup now) (read_here r i same)
          ∙ rw (retried_waits setup now session positive) refl
          ∙ sym (ap (resent setup now) (sym (ap (view s.factory) this) ∙ seen) ∙ resent_due)
      | inr other ↦ ap (resent setup now) (read_there r i other)
    ]

    still_retries :
        (r : Resends)
        → ((i : ℕ) (t : Session)
            → view s.factory i ≡ some t
            → is_due setup now t ≡ true
            → is_exhausted setup t ≡ false)
        → (i : ℕ) (t : Session) → view r.after.factory i ≡ some t
        → is_due setup now t ≡ true
        → is_exhausted setup t ≡ false
    still_retries r retries i t at up = elim (Bool-cases (relay_id session == i)) [
      | inl same ↦
          let it : some (retried now session) ≡ some t = sym (read_here r i same) ∙ at in
          let waits : due_view setup now (some t) ≡ false =
            sym (ap (due_view setup now) it) ∙ retried_waits setup now session positive in
          absurd (ground (arith, waits, up))
      | inr other ↦ retries i t (sym (read_there r i other) ∙ at) up
    ]

  -- In a server whose ids in use are exactly those of its open sessions and whose pool, sessions
  -- and cache are valid, while the clock shows one and the same time not before its stamps, with
  -- an upstream server, a positive time limit, and retries left for every session whose time is
  -- up, batch_timeout ends after at most one round more than there are such sessions: each of them
  -- counts one retry more and waits from now on, no other session changes, and the invariant
  -- holds.
  pub batch_timeout-Batches :
      (fuel clock : ℕ) (s : Server)
      → IsServing clock s
      → clock ≤ now
      → ((i : ℕ) (t : Session)
          → view s.factory i ≡ some t
          → is_due setup now t ≡ true
          → is_exhausted setup t ≡ false)
      → due_count setup now s < fuel
      → Batches clock s (batch_timeout fuel setup s (λ n. now))
  batch_timeout-Batches zero clock s v later retries enough = absurd (omega arith)
  batch_timeout-Batches (suc fuel) clock s v later retries enough =
      let k = session_peek-Peeks clock s.factory v.factory in
      elim k.result [
        | inl (nothing, shut) ↦ stops fuel clock s v k (ends_empty fuel setup s now nothing) (λ i.
            let closed : view s.factory i ≡ none = ground (arith, shut i) in
            ap (due_view setup now) closed)
        | inr (p, session, e, here, mine, least) ↦ elim (Bool-cases (is_due setup now session)) [
          | inr waits ↦
              stops fuel clock s v k
                (ends_waiting fuel setup s now p session e (k.store p ∙ here) waits)
                (λ i. later_waits setup now session (view s.factory i) waits (least i))
          | inl due ↦
              let left =
                retries (relay_id session) session (seen clock s v later p session mine here due k)
                  due in
              let r = resends clock s v later p session mine here due k left in
              let rec =
                batch_timeout-Batches fuel now r.after r.valid (omega arith)
                  (still_retries clock s v later p session mine here due k r retries)
                  (omega (arith, fewer clock s v later p session mine here due k r, enough)) in
              record {
                after = rec.after;
                returns =
                    goes_on fuel setup s r.after now p session e (k.store p ∙ here) due r.returns
                    ∙ rec.returns;
                valid = inr (either_now rec.valid);
                reads =
                    λ i. rec.reads i ∙ resent_again clock s v later p session mine here due k r i;
              }
        ]
      ]
