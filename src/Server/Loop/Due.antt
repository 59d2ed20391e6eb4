-- ===== src/Server/Loop/Due.antt =====
-- The sessions whose time is up, and how many there are.
use dns_relay.Base.{
  ℕ, zero, suc, ◌<◌, ◌≤◌, ◌≡◌, inl, inr, refl, ap, sym, ◌∙◌, Bool, true, false, not, Option, none,
  some, arith, ◌==◌, if◌then◌else◌, Bool-cases,
}
use dns_relay.Stl.LazyHeap.{is_positive}
use dns_relay.Stl.Key.{uint64_key}
use dns_relay.Server.Session.{Session, time_remains}
use dns_relay.Server.Session.Laws.{view}
use dns_relay.Server.Loop.{Server, Setup}
use dns_relay.Server.Loop.Retry.{retried}

-- How many of the numbers below n pass a test.
abbrev pub count : ℕ → (ℕ → Bool) → ℕ
count zero test = 0
count (suc n) test = if test n then suc (count n test) else count n test

count_bound : (n : ℕ) (f : ℕ → Bool) → count n f ≤ n
count_bound zero f = omega arith
count_bound (suc n) f = ground (arith, count_bound n f)

count_same : (n : ℕ) (f g : ℕ → Bool) → ((i : ℕ) → i < n → f i ≡ g i) → count n f ≡ count n g
count_same zero f g h = refl
count_same (suc n) f g h = rw (h n (omega arith), count_same n f g (λ i l. h i (omega arith))) refl

if_suc : (b : Bool) (n : ℕ) → (if b then suc (suc n) else suc n) ≡ suc (if b then suc n else n)
if_suc true n = refl
if_suc false n = refl

-- One number less.
pub count_less :
    (n j : ℕ) (f g : ℕ → Bool)
    → j < n
    → f j ≡ true
    → g j ≡ false
    → ((i : ℕ) → (j == i) ≡ false → f i ≡ g i)
    → count n f ≡ suc (count n g)
count_less zero j f g l hf hg h = absurd (omega arith)
count_less (suc n) j f g l hf hg h = elim (Bool-cases (j == n)) [
  | inl e ↦
      let this : j ≡ n = ground arith in
      let rest : count n f ≡ count n g = count_same n f g (λ i b. h i (ground (arith, e))) in
      let ft : f n ≡ true = ap f (sym this) ∙ hf in
      let gf : g n ≡ false = ap g (sym this) ∙ hg in rw (ft, gf, rest) refl
  | inr e ↦
      let rest = count_less n j f g (ground (arith, e, l)) hf hg h in
      rw (h n e, rest) (if_suc (g n) (count n g))
]

-- The time of the session is up.
abbrev pub is_due : Setup → ℕ → Session → Bool
is_due setup now session = not (is_positive (time_remains session setup.request_timeout now))

abbrev pub due_view : Setup → ℕ → Option Session → Bool
due_view setup now none = false
due_view setup now (some session) = is_due setup now session

unfoldable pub due_count : Setup → ℕ → Server → ℕ
due_count setup now s = count 65536 (λ i. due_view setup now (view s.factory i))

-- A session after the batch: resent and waiting from now on if its time was up.
abbrev pub resent : Setup → ℕ → Option Session → Option Session
resent setup now none = none
resent setup now (some session) =
    if is_due setup now session then some (retried now session) else some session

pub due_count_bound : (setup : Setup) (now : ℕ) (s : Server) → due_count setup now s ≤ 65536
unfolding due_count
due_count_bound setup now s = count_bound 65536 (λ i. due_view setup now (view s.factory i))

pub retried_waits :
    (setup : Setup) (now : ℕ) (session : Session)
    → 0 < setup.request_timeout
    → is_due setup now (retried now session) ≡ false
unfolding time_remains
retried_waits setup now session h = ground arith

pub earlier_due :
    (setup : Setup) (now : ℕ) (a b : Session)
    → a.relay_info.timestamp ≤ b.relay_info.timestamp
    → is_due setup now a ≡ false
    → is_due setup now b ≡ false
unfolding time_remains
earlier_due setup now a b le h = ground (arith, h)
