-- ===== src/Server/Session/Laws.antt =====
-- The sessions as a finite map from relay ids: what each operation does to it.
use dns_relay.Base.{
  ℕ, ◌≤◌, ◌≡◌, inl, inr, Option, none, some, arith, ◌==◌, if◌then◌else◌, Option-cases,
}
use dns_relay.Stl.Key.{uint64_key}
use dns_relay.Server.Session.{Session, Factory, relay_id, restamped, session_wait}
use dns_relay.Server.Session.Invariant.{opened, IsValid}
use dns_relay.Server.Session.Wait.{session_wait-Waited}

-- The session that is open under an id.
abbrev pub bind_session : Factory → Option ℕ → Option Session
bind_session f none = none
bind_session f (some p) = f.sessions p

abbrev pub view : Factory → ℕ → Option Session
view f id = bind_session f (opened f id)

module _ (clock now : ℕ) (f : Factory) (v : IsValid clock f) (later : clock ≤ now) where
  -- `session_wait` of an open session sets its time stamp, and changes no other session.
  pub record Rewaits (p : ℕ) (s : Session) (r : Option Factory) : Type 0 where
    pub after : Factory
    pub returns : r ≡ some after
    pub valid : IsValid now after
    pub table : (i : ℕ) → opened after i ≡ opened f i
    pub reads :
        (i : ℕ) → view after i ≡ (if relay_id s == i then some (restamped s now) else view f i)

  -- In a valid factory, at a time not before its stamps, session_wait of an open session succeeds,
  -- sets its time stamp, changes no other session and no id, and keeps the invariant.
  pub session_wait-Rewaits :
      (p : ℕ) (s : Session)
      → opened f (relay_id s) ≡ some p
      → f.sessions p ≡ some s
      → Rewaits p s (session_wait f p now)
  session_wait-Rewaits p s mine here =
      let w =
        session_wait-Waited clock now f p s v.links (λ i p' n o. v.queued i p' o) later here mine in
      record {
        after = w.after;
        returns = w.returns;
        valid = w.valid;
        table = w.table;
        reads = λ i. elim (Option-cases (opened f i)) [
          | inl closed ↦ ground (arith, w.table i, mine, closed)
          | inr (p', o) ↦
              let (s', at, named, _) = v.linked i p' o in
              ground (arith, w.table i, o, at, named, w.store p', here, mine)
        ];
      }
