-- ===== src/Dns/Response/Decide.antt =====
-- `pack_try_response_local` decides about every packet whose question can be read.
use dns_relay.Base.{
  ℕ, ◌≤◌, ◌≡◌, inl, inr, refl, Bool, true, false, Option, none, some, List, ◌∷◌, length, arith, ltb,
  ◌==◌, ◌||◌, if◌then◌else◌, Bool-cases, sym, subst,
}
use dns_relay.Stl.Key.{str_equal}
use dns_relay.Dns.Packet.{SectionQuestion, DnsPacket, opcode_get}
use dns_relay.Dns.Cache.{CacheValue, DnsCache, cache_key_create, dns_cache_put, dns_cache_init}
use dns_relay.Dns.Cache.Invariant.{IsValid}
use dns_relay.Dns.Cache.Lookup.{Dated, stored, unexpired, value_of}
use dns_relay.Dns.Cache.Insert.{coldest, put_key-Puts}
use dns_relay.Dns.Cache.Questions.{stored_init}
use dns_relay.Dns.Response.Local.{
  blocked_name, over_read, known_name, miscounted, unknown_name, answer_query-Answers,
}
use dns_relay.Dns.Response.{answer_query, pack_try_response_local}
use dns_relay.Dns.Response.Ancestors.{answered, IsKept, IsProper, IsKept-self}

-- The values of the cache have the records that they count as answers.
unfoldable pub IsCounted : DnsCache → Type 0
IsCounted c = (k : List ℕ) (d : Dated) → stored c k ≡ some d → d.0.answer_rrs ≤ length d.0.rrs

-- What a query of one question needs: a question, whose labels end within its name.
unfoldable pub IsAsking : DnsPacket → Type 0
IsAsking query =
    query.header.qcount ≡ 1
    → (q : SectionQuestion) × (qs : List SectionQuestion) × (query.questions ≡ q ∷ qs)
      × IsProper q.qname

-- A decision that is reached, and what it leaves of the cache.
pub record Decides (now : ℕ) (c : DnsCache) (r : Option (DnsCache × Option DnsPacket))
    : Type 0 where
  pub after : DnsCache
  pub answer : Option DnsPacket
  pub returns : r ≡ some (after, answer)
  pub kept : IsKept now c after

answered_counted :
    (now : ℕ) (s : Option Dated) (value : CacheValue)
    → value_of (unexpired now s) ≡ some value
    → (d : Dated) × (s ≡ some d) × (d.0 ≡ value)
answered_counted now none value e = absurd (ground (arith, e))
answered_counted now (some d) value e = (d, refl, ground (arith, e))

answered-IsCounted :
    (now : ℕ) (c : DnsCache) (q : SectionQuestion) (value : CacheValue)
    → IsCounted c
    → answered now c q.qname q ≡ some value
    → value.answer_rrs ≤ length value.rrs
unfolding answered IsCounted
answered-IsCounted now c q value counted e =
    let (d, at, same) = answered_counted now _ value e in
    subst (λ value. value.answer_rrs ≤ length value.rrs) same (counted _ d at)

answer_query-Decides :
    (now : ℕ) (c : DnsCache) (query : DnsPacket) (q : SectionQuestion) (qs : List SectionQuestion)
    → IsValid c
    → IsCounted c
    → query.questions ≡ q ∷ qs
    → IsProper q.qname
    → Decides now c (answer_query now c query)
answer_query-Decides now c query q qs v counted one proper =
    elim (answer_query-Answers now c query q qs v one) [
      | blocked_name c' e k found ↦ record { after = c'; answer = _; returns = e; kept = k }
      | over_read e clear (a, x, over) ↦ absurd (proper a x over)
      | known_name c' value e k clear p hit le ↦ record {
        after = c';
        answer = _;
        returns = e;
        kept = k;
      }
      | miscounted value e clear p hit lt ↦
          absurd (omega (arith, lt, answered-IsCounted now c q value counted hit))
      | unknown_name c' e k clear p miss ↦ record { after = c'; answer = _; returns = e; kept = k }
    ]

-- Whatever the packet, if a question count of 1 comes with a question whose labels end within its
-- name, the decision is reached, and the cache stays valid.
pub pack_try_response_local-Decides :
    (now : ℕ) (c : DnsCache) (query : DnsPacket)
    → IsValid c
    → IsCounted c
    → IsAsking query
    → Decides now c (pack_try_response_local now c query)
unfolding pack_try_response_local IsAsking
pack_try_response_local-Decides now c query v counted asking =
    let own = IsKept-self now c v in
    elim (Bool-cases (opcode_get query.header.flags == 0)) [
      | inl query_code ↦ elim (Bool-cases (ltb 1 query.header.qcount)) [
        | inl several ↦
            rw (query_code, several) (record { after = c; answer = _; returns = refl; kept = own })
        | inr few ↦ elim (Bool-cases (query.header.qcount == 0)) [
          | inl nothing ↦
              rw (query_code, few, nothing)
                (record { after = c; answer = _; returns = refl; kept = own })
          | inr some_question ↦
              let (q, qs, one, proper) = asking (ground arith) in
              rw (query_code, few, some_question)
                (answer_query-Decides now c query q qs v counted one proper)
        ]
      ]
      | inr other ↦
          elim (Bool-cases
            (opcode_get query.header.flags == 1 || opcode_get query.header.flags == 2)) [
              | inl unsupported ↦
                  rw (other, unsupported)
                    (record { after = c; answer = _; returns = refl; kept = own })
              | inr unknown ↦
                  rw (other, unknown) (record { after = c; answer = _; returns = refl; kept = own })
            ]
    ]

pub IsCounted-kept : (now : ℕ) (c r : DnsCache) → IsCounted c → IsKept now c r → IsCounted r
unfolding IsCounted
IsCounted-kept now c r counted k key d at = counted key d (k.fewer key d at)

-- A stored value, if there is one, has the records that it counts.
abbrev IsEnough : Option Dated → Type 0
IsEnough s = (d : Dated) → s ≡ some d → d.0.answer_rrs ≤ length d.0.rrs

if-IsEnough :
    (b : Bool) (s t : Option Dated) → IsEnough s → IsEnough t → IsEnough (if b then s else t)
if-IsEnough true s t h k = h
if-IsEnough false s t h k = k

-- Putting a value with the records that it counts.
pub IsCounted-put :
    (now : ℕ) (c : DnsCache) (q : SectionQuestion) (value : CacheValue)
    → IsValid c
    → IsCounted c
    → value.answer_rrs ≤ length value.rrs
    → IsCounted (dns_cache_put now c q.qname q.qtype q.qclass value)
unfolding IsCounted dns_cache_put
IsCounted-put now c q value v counted enough key =
    let own = cache_key_create q.qname q.qtype q.qclass in
    let new : IsEnough (some (value, now)) = λ d e. ground (arith, e, enough) in
    elim (put_key-Puts now c own value v).reads [
      | inl (reads, why) ↦
          subst IsEnough (sym (reads key)) (if-IsEnough (str_equal own key) _ _ new (counted key))
      | inr (reads, absent, full) ↦ subst IsEnough (sym (reads key)) (
          if-IsEnough (str_equal own key) _ _ new (
            if-IsEnough (str_equal (c.memory (coldest c)).key key) none _
              (λ d e. absurd (ground (arith, e))) (counted key)))
    ]

pub dns_cache_init-IsCounted : IsCounted dns_cache_init
unfolding IsCounted
dns_cache_init-IsCounted k d at = absurd (ground (arith, stored_init k, at))
