-- ===== src/Dns/Cache/Questions.antt =====
-- The cache as the rest of the program sees it, under questions: `dns_cache_init`, `dns_cache_put`
-- and `dns_cache_get`.
use dns_relay.Base.{
  ℕ, ◌+◌, ◌-◌, ◌^◌, ◌<◌, ◌≡◌, ◌≢◌, ◌⊎◌, inl, inr, refl, false, Option, none, some, List, arith,
  Bool-cases,
}
use dns_relay.Stl.Key.{str_key, str_equal, str_equal_iff, str_equal_refl}
use dns_relay.Stl.HashMap.Laws
use dns_relay.Dns.Cache.{
  CacheValue, DnsCache, cache_key_create, dns_cache_init, dns_cache_put, dns_cache_get,
}
use dns_relay.Dns.Cache.Key.{cache_key_create-injective}
use dns_relay.Dns.Cache.Invariant.{IsValid}
use dns_relay.Dns.Cache.Lookup.{Dated, stored, unexpired, value_of, get_key-Gets, stored_absent}
use dns_relay.Dns.Cache.Insert.{coldest, put_key-Puts}

-- A question, as the arguments of the two functions.
pub record Question : Type 0 where
  pub qname : List ℕ
  pub qtype : ℕ
  pub qclass : ℕ

pub record IsWord (q : Question) : Type 0 where
  pub type_word : q.qtype < 2 ^ 16
  pub class_word : q.qclass < 2 ^ 16

abbrev pub key_of : Question → List ℕ
key_of q = cache_key_create q.qname q.qtype q.qclass

-- What the cache knows about a question.
abbrev pub known : DnsCache → Question → Option Dated
known c q = stored c (key_of q)

-- The question that the coldest entry answers is `q`.
abbrev pub IsColdest : DnsCache → Question → Type 0
IsColdest c q = (c.memory (coldest c)).key ≡ key_of q

pub dns_cache_init-IsValid :
    IsValid dns_cache_init × ((q : Question) → known dns_cache_init q ≡ none)
unfolding IsValid dns_cache_init
dns_cache_init-IsValid =
    let (t, shut) = Laws.create-IsValid {K = List ℕ} {V = ℕ} in
    (
      (
        λ i. i + 1,
        λ a. a - 1,
        record {
          links = record {
            first = refl;
            last = refl;
            colder = λ i b. ground arith;
            hotter = λ i b. ground arith;
            placed = λ i b. omega arith;
            real = λ i b e. omega arith;
          };
          table = t;
          keyed = λ i a b. absurd (omega arith);
          listed = λ key e o. absurd (ground (arith, shut key));
          live = λ i b. ground arith;
          below = λ i b. omega arith;
          room = omega arith;
          some_room = omega arith;
        },
      ),
      λ q. stored_absent dns_cache_init (key_of q) (shut (key_of q)),
    )

-- A cache that has just been set up stores nothing.
pub stored_init : (k : List ℕ) → stored dns_cache_init k ≡ none
unfolding dns_cache_init
stored_init k = stored_absent dns_cache_init k ((Laws.create-IsValid {K = List ℕ} {V = ℕ}).1 k)

keys_apart :
    (q q' : Question) → IsWord q → IsWord q' → q ≢ q' → str_equal (key_of q) (key_of q') ≡ false
keys_apart q q' w w' ne = elim (Bool-cases (str_equal (key_of q) (key_of q'))) [
  | inl same ↦
      let (n, t, c) =
        cache_key_create-injective q.qname q'.qname q.qtype q'.qtype q.qclass q'.qclass w.type_word
          w'.type_word w.class_word w'.class_word ((str_equal_iff (key_of q) (key_of q')).0 same) in
      absurd (ne (λ i. record { qname = n i; qtype = t i; qclass = c i }))
  | inr apart ↦ apart
]

-- `dns_cache_put` makes the cache know the answer, entered now; about any other question it knows
-- what it knew, unless the cache was full, the question new, and that other one the coldest.
pub record Learns (now : ℕ) (c : DnsCache) (q : Question) (value : CacheValue) (r : DnsCache)
    : Type 0 where
  pub valid : IsValid r
  pub learned : known r q ≡ some (value, now)
  pub others :
      (q' : Question)
      → IsWord q'
      → q ≢ q'
      → (known r q' ≡ known c q') ⊎ ((c.size ≡ c.capacity) × (known c q ≡ none) × IsColdest c q')

-- On a valid cache, for a question whose type and class are 16-bit words, dns_cache_put makes the
-- cache know the given value, entered at the given time, under that question; what it knows about
-- any other such question stays, unless the cache is full, nothing was stored for the first
-- question, and the other one is that of the coldest entry. The invariant holds after it.
pub dns_cache_put-Learns :
    (now : ℕ) (c : DnsCache) (q : Question) (value : CacheValue)
    → IsWord q
    → IsValid c
    → Learns now c q value (dns_cache_put now c q.qname q.qtype q.qclass value)
unfolding dns_cache_put
dns_cache_put-Learns now c q value w v =
    let p = put_key-Puts now c (key_of q) value v in
    let self = str_equal_refl (key_of q) in
    elim p.reads [
      | inl (reads, why) ↦ record {
        valid = p.valid;
        learned = ground (arith, reads (key_of q), self);
        others = λ q' w' ne. inl (ground (arith, reads (key_of q'), keys_apart q q' w w' ne));
      }
      | inr (reads, new, full) ↦ record {
        valid = p.valid;
        learned = ground (arith, reads (key_of q), self);
        others = λ q' w' ne.
            let apart = keys_apart q q' w w' ne in
            elim (Bool-cases (str_equal (c.memory (coldest c)).key (key_of q'))) [
              | inl same ↦
                  inr (full, new, (str_equal_iff (c.memory (coldest c)).key (key_of q')).0 same)
              | inr other ↦ inl (ground (arith, reads (key_of q'), apart, other))
            ];
      }
    ]

-- `dns_cache_get` answers from what the cache knows and is not expired, forgets an expired answer,
-- and nothing else.
pub record Recalls (now : ℕ) (c : DnsCache) (q : Question) (r : DnsCache × Option CacheValue)
    : Type 0 where
  pub valid : IsValid r.0
  pub result : r.1 ≡ value_of (unexpired now (known c q))
  pub same : known r.0 q ≡ unexpired now (known c q)
  pub others : (q' : Question) → IsWord q' → q ≢ q' → known r.0 q' ≡ known c q'

-- On a valid cache, for a question whose type and class are 16-bit words, dns_cache_get returns
-- the stored value if there is one and no record of it has expired, and a miss otherwise; an
-- expired entry is dropped, and what the cache knows about other such questions stays. The
-- invariant holds after it.
pub dns_cache_get-Recalls :
    (now : ℕ) (c : DnsCache) (q : Question)
    → IsWord q
    → IsValid c
    → Recalls now c q (dns_cache_get now c q.qname q.qtype q.qclass)
unfolding dns_cache_get
dns_cache_get-Recalls now c q w v =
    let g = get_key-Gets now c (key_of q) v in
    record {
      valid = g.valid;
      result = g.result;
      same = ground (arith, g.reads (key_of q), str_equal_refl (key_of q));
      others = λ q' w' ne. ground (arith, g.reads (key_of q'), keys_apart q q' w w' ne);
    }
