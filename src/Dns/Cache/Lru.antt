-- ===== src/Dns/Cache/Lru.antt =====
-- The doubly linked list of the cache, enumerated.
use dns_relay.Base.{
  ℕ, ◌+◌, ◌-◌, ◌≤◌, ◌<◌, ◌≡◌, ◌≢◌, inl, inr, refl, true, false, arith, ltb, ◌==◌, if◌then◌else◌,
  Bool-cases, ◌||◌, subst, ap,
}
use dns_relay.Dns.Cache.Links.{
  IsSame, IsSame-then, lru_remove-colder, lru_remove-hotter, lru_insert-colder, lru_insert-hotter,
  lru_remove-IsSame, lru_insert-IsSame,
}
use dns_relay.Dns.Cache.{CacheEntry, head, tail, lru_remove, lru_insert, lru_touch}

-- `node` lists the addresses from the head (0) over the `n` entries, the hottest first, to the tail
-- (`n + 1`), and `place` finds an address in it.
pub record IsLinked (node place : ℕ → ℕ) (n : ℕ) (memory : ℕ → CacheEntry) : Type 0 where
  pub first : node 0 ≡ head
  pub last : node (n + 1) ≡ tail
  pub colder : (i : ℕ) → i ≤ n → (memory (node i)).colder ≡ node (i + 1)
  pub hotter : (i : ℕ) → i ≤ n → (memory (node (i + 1))).hotter ≡ node i
  pub placed : (i : ℕ) → i ≤ n + 1 → place (node i) ≡ i
  pub real : (i : ℕ) → i ≤ n + 1 → node i ≢ 0

abbrev pub skip_node : (ℕ → ℕ) → ℕ → ℕ → ℕ
skip_node node k i = if ltb i k then node i else node (i + 1)

abbrev pub skip_place : (ℕ → ℕ) → ℕ → ℕ → ℕ
skip_place place k a = if ltb (place a) k then place a else place a - 1

abbrev pub push_node : (ℕ → ℕ) → ℕ → ℕ → ℕ
push_node node e i = if i == 0 then head else if i == 1 then e else node (i - 1)

abbrev pub push_place : (ℕ → ℕ) → ℕ → ℕ → ℕ
push_place place e a = if a == e then 1 else if a == head then 0 else place a + 1

pub lru_remove-IsLinked :
    (node place : ℕ → ℕ) (n k : ℕ) (memory : ℕ → CacheEntry)
    → 0 < k
    → k ≤ n
    → IsLinked node place n memory
    → IsLinked (skip_node node k) (skip_place place k) (n - 1) (lru_remove memory (node k))
lru_remove-IsLinked node place n k memory p h v =
    let before : (memory (node k)).hotter ≡ node (k - 1) = ground (arith, v.hotter (k - 1)) in
    let after : (memory (node k)).colder ≡ node (k + 1) = v.colder k h in
    let ne : node (k - 1) ≢ node k = λ s. ground (arith, v.placed k, v.placed (k - 1)) in
    let h0 = v.real (k - 1) (omega arith) in
    let c0 = v.real (k + 1) (omega arith) in
    let cs =
      lru_remove-colder memory (node k) (node (k - 1)) (node (k + 1)) before after h0 c0 ne in
    let hs =
      lru_remove-hotter memory (node k) (node (k - 1)) (node (k + 1)) before after h0 c0 ne in
    record {
      first = ground (arith, v.first);
      last = ground (arith, v.last);
      colder = λ i b. ground (
        arith,
        cs (skip_node node k i),
        v.placed k,
        v.placed (k - 1),
        v.placed i,
        v.placed (i + 1),
        v.colder i,
        v.colder (i + 1),
      );
      hotter = λ i b. ground (
        arith,
        hs (skip_node node k (i + 1)),
        v.placed k,
        v.placed (k + 1),
        v.placed (i + 1),
        v.placed (i + 1 + 1),
        v.hotter i,
        v.hotter (i + 1),
      );
      placed = λ i b. ground (arith, v.placed i, v.placed (i + 1));
      real = λ i b. ground (arith, v.real i, v.real (i + 1));
    }

pub lru_insert-IsLinked :
    (node place : ℕ → ℕ) (n e : ℕ) (memory : ℕ → CacheEntry)
    → e ≢ 0
    → ((i : ℕ) → i ≤ n + 1 → node i ≢ e)
    → IsLinked node place n memory
    → IsLinked (push_node node e) (push_place place e) (n + 1) (lru_insert memory e)
lru_insert-IsLinked node place n e memory e0 away v =
    let e1 : e ≢ head = λ s. ground (arith, v.first, away 0) in
    let front : (memory head).colder ≡ node 1 = ground (arith, v.first, v.colder 0) in
    let cs = lru_insert-colder memory e (node 1) front e1 in
    let hs = lru_insert-hotter memory e (node 1) front e1 in
    record {
      first = refl;
      last = ground (arith, v.last);
      colder = λ i b. ground (
        arith,
        cs (push_node node e i),
        v.first,
        v.placed 0,
        v.placed (i - 1),
        away (i - 1),
        v.colder (i - 1),
      );
      hotter = λ i b. ground (
        arith,
        hs (push_node node e (i + 1)),
        v.first,
        v.placed 1,
        v.placed i,
        away i,
        away 1,
        v.hotter (i - 1),
      );
      placed = λ i b. ground (arith, v.first, away 0, away (i - 1), v.placed 0, v.placed (i - 1));
      real = λ i b. ground (arith, e0, v.real (i - 1));
    }

lru_touch_apart :
    (m : ℕ → CacheEntry) (e : ℕ)
    → ((m e).hotter == 0 || (m e).colder == 0) ≡ true
    → lru_touch m e ≡ lru_insert m e
unfolding lru_touch
lru_touch_apart m e h = ap (λ t. if t then lru_insert m e else lru_insert (lru_remove m e) e) h

lru_touch_between :
    (m : ℕ → CacheEntry) (e : ℕ)
    → ((m e).hotter == 0 || (m e).colder == 0) ≡ false
    → lru_touch m e ≡ lru_insert (lru_remove m e) e
unfolding lru_touch
lru_touch_between m e h = ap (λ t. if t then lru_insert m e else lru_insert (lru_remove m e) e) h

pub lru_touch-IsSame : (m : ℕ → CacheEntry) (e a : ℕ) → IsSame (lru_touch m e a) (m a)
lru_touch-IsSame m e a = elim (Bool-cases ((m e).hotter == 0 || (m e).colder == 0)) [
  | inl apart ↦ rw (lru_touch_apart m e apart) (lru_insert-IsSame m e a)
  | inr between ↦
      rw (lru_touch_between m e between)
        (IsSame-then (lru_insert-IsSame (lru_remove m e) e a) (lru_remove-IsSame m e a))
]

-- `lru_touch` of an entry in the list moves it to the front.
pub lru_touch-IsLinked :
    (node place : ℕ → ℕ) (n k : ℕ) (memory : ℕ → CacheEntry)
    → 0 < k
    → k ≤ n
    → IsLinked node place n memory
    → IsLinked
        (push_node (skip_node node k) (node k))
        (push_place (skip_place place k) (node k))
        n
        (lru_touch memory (node k))
lru_touch-IsLinked node place n k memory p h v =
    let before : (memory (node k)).hotter ≡ node (k - 1) = ground (arith, v.hotter (k - 1)) in
    let after : (memory (node k)).colder ≡ node (k + 1) = v.colder k h in
    let h0 = v.real (k - 1) (omega arith) in
    let c0 = v.real (k + 1) (omega arith) in
    let between : ((memory (node k)).hotter == 0 || (memory (node k)).colder == 0) ≡ false =
      ground arith in
    let size : n - 1 + 1 ≡ n = omega arith in
    rw (lru_touch_between memory (node k) between) (
      subst
        (λ s.
          IsLinked (push_node (skip_node node k) (node k))
            (push_place (skip_place place k) (node k)) s
            (lru_insert (lru_remove memory (node k)) (node k)))
        size
        (lru_insert-IsLinked (skip_node node k) (skip_place place k) (n - 1) (node k)
          (lru_remove memory (node k)) (v.real k (omega arith))
          (λ i b. ground (arith, v.placed k, v.placed i, v.placed (i + 1)))
          (lru_remove-IsLinked node place n k memory p h v)))

-- `lru_touch` of an entry whose links are cleared puts it to the front.
pub lru_touch_new-IsLinked :
    (node place : ℕ → ℕ) (n e : ℕ) (memory : ℕ → CacheEntry)
    → e ≢ 0
    → ((i : ℕ) → i ≤ n + 1 → node i ≢ e)
    → (memory e).hotter ≡ 0
    → IsLinked node place n memory
    → IsLinked (push_node node e) (push_place place e) (n + 1) (lru_touch memory e)
lru_touch_new-IsLinked node place n e memory e0 away cleared v =
    let apart : ((memory e).hotter == 0 || (memory e).colder == 0) ≡ true = ground arith in
    rw (lru_touch_apart memory e apart) (lru_insert-IsLinked node place n e memory e0 away v)
