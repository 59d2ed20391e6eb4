-- ===== src/Dns/Response/Local.antt =====
-- What `pack_try_response_local` decides about a standard query with one question.
use dns_relay.Base.{
  ℕ, zero, suc, ◌≤◌, ◌<◌, ◌≡◌, inl, inr, refl, false, Option, none, some, List, [], ◌∷◌, length,
  arith, ltb, ◌==◌, if◌then◌else◌, Option-cases, Bool-cases, ◌∙◌, ap, sym, ◌>>=◌,
}
use dns_relay.Dns.Packet.{SectionQuestion, ResourceRecord, DnsPacket, rd_get}
use dns_relay.Dns.Cache.{CacheValue, DnsCache, dns_cache_get}
use dns_relay.Dns.Cache.Invariant.{IsValid}
use dns_relay.Dns.Response.{
  noerror, nxdomain, make_response_empty, make_response_fail, is_blocking, any_blocking, blocked_by,
  post_validate_loop, query_pre_validate, query_post_validate, pack_make_std_response_local,
  answer_from, answer_first, answer_query,
}
use dns_relay.Dns.Response.Ancestors.{
  self, answered, IsKept, IsProper, Overruns, get-IsKept, IsKept-then, answered_kept,
}
use dns_relay.Dns.Response.Blocking.{
  IsBlocked, IsClear, Validates, blocks, passes, over_reads, query_pre_validate-Validates,
}

-- A blocked name is answered NXDOMAIN; else a known one from the cache, with all of its records; else
-- the query is relayed if it asks for recursion, and answered without records if it does not. The
-- two faults are a label that runs over the end of the name and a value with fewer records than it
-- counts as answers.
pub data Answers (now : ℕ) (c : DnsCache) (query : DnsPacket) (q : SectionQuestion)
    (r : Option (DnsCache × Option DnsPacket)) : Type 0 where
  blocked_name :
      (c' : DnsCache)
      → r ≡ some (c', some (make_response_fail query nxdomain))
      → IsKept now c c'
      → IsBlocked now c q.qname q
      → Answers now c query q r
  over_read : r ≡ none → IsClear now c q.qname q → Overruns q.qname → Answers now c query q r
  known_name :
      (c' : DnsCache) (value : CacheValue)
      → r ≡ some (c', some (pack_make_std_response_local query value))
      → IsKept now c c'
      → IsClear now c q.qname q
      → IsProper q.qname
      → answered now c q.qname q ≡ some value
      → value.answer_rrs ≤ length value.rrs
      → Answers now c query q r
  miscounted :
      (value : CacheValue)
      → r ≡ none
      → IsClear now c q.qname q
      → IsProper q.qname
      → answered now c q.qname q ≡ some value
      → length value.rrs < value.answer_rrs
      → Answers now c query q r
  unknown_name :
      (c' : DnsCache)
      → r
        ≡ some
            (c', if rd_get query.header.flags == 0 then some (make_response_empty query) else none)
      → IsKept now c c'
      → IsClear now c q.qname q
      → IsProper q.qname
      → answered now c q.qname q ≡ none
      → Answers now c query q r

-- Where no record is blocking the loop ends at the count, or at the end of a list that is shorter.
post_validate_loop-clear :
    (left : ℕ) (rrs : List ResourceRecord) (code : ℕ)
    → any_blocking rrs ≡ false
    → post_validate_loop left rrs code ≡ (if ltb (length rrs) left then none else some code)
unfolding post_validate_loop any_blocking
post_validate_loop-clear zero rrs code h = ground arith
post_validate_loop-clear (suc left) [] code h = ground arith
post_validate_loop-clear (suc left) (rr ∷ rrs) code h = elim (Bool-cases (is_blocking rr)) [
  | inl blocking ↦ absurd (ground (arith, blocking, h))
  | inr clear ↦
      let rest : any_blocking rrs ≡ false = sym (rw clear refl) ∙ h in
      rw (clear, post_validate_loop) (ground (arith, post_validate_loop-clear left rrs code rest))
]

-- After the first check the second one finds nothing.
answer_from_clear :
    (query : DnsPacket) (value : CacheValue)
    → any_blocking value.rrs ≡ false
    → answer_from query (some value) ≡ (
        if ltb (length value.rrs) value.answer_rrs
        then none
        else some (some (pack_make_std_response_local query value)))
unfolding answer_from query_post_validate pack_make_std_response_local
answer_from_clear query value h =
    let t = post_validate_loop-clear value.answer_rrs value.rrs noerror h in
    elim (Bool-cases (ltb (length value.rrs) value.answer_rrs)) [
      | inl short ↦ rw (t, short, ◌>>=◌) refl
      | inr long ↦ rw (t, long, ◌>>=◌) refl
    ]

answer_from-none :
    (query : DnsPacket)
    → answer_from query none
      ≡ some (if rd_get query.header.flags == 0 then some (make_response_empty query) else none)
unfolding answer_from
answer_from-none query = refl

answer_query-stops :
    (now : ℕ) (c : DnsCache) (query : DnsPacket)
    → query_pre_validate now c query.questions ≡ none
    → answer_query now c query ≡ none
unfolding answer_query
answer_query-stops now c query e = rw e refl

answer_query-blocked :
    (now : ℕ) (c c' : DnsCache) (query : DnsPacket)
    → query_pre_validate now c query.questions ≡ some (c', nxdomain)
    → answer_query now c query ≡ some (c', some (make_response_fail query nxdomain))
unfolding answer_query
answer_query-blocked now c c' query e = rw e refl

answer_query-passed :
    (now : ℕ) (c c' : DnsCache) (query : DnsPacket) (q : SectionQuestion)
    (qs : List SectionQuestion)
    → query.questions ≡ q ∷ qs
    → query_pre_validate now c query.questions ≡ some (c', noerror)
    → answer_query now c query ≡ (
        answer_from query (dns_cache_get now c' q.qname q.qtype q.qclass).1 >>= λ answer.
        some ((dns_cache_get now c' q.qname q.qtype q.qclass).0, answer))
unfolding answer_query answer_first
answer_query-passed now c c' query q qs one e = rw e (ap (answer_first now c' query) one)

module _ (now : ℕ) (c : DnsCache) (query : DnsPacket) (q : SectionQuestion)
    (qs : List SectionQuestion) (v : IsValid c) (one : query.questions ≡ q ∷ qs) where
  validated : Validates now c q.qname q (query_pre_validate now c query.questions)
  validated = rw one (query_pre_validate-Validates now c q qs v)

  -- The lookup after the checks that passed.
  module _ (c' : DnsCache) (code : query_pre_validate now c query.questions ≡ some (c', noerror))
      (kept : IsKept now c c') (clear : IsClear now c q.qname q) (proper : IsProper q.qname) where
    abbrev found : DnsCache × Option CacheValue
    found = dns_cache_get now c' q.qname q.qtype q.qclass

    looked_up : (found.1 ≡ answered now c q.qname q) × IsKept now c found.0
    looked_up =
        let (result, kept') = get-IsKept now c' q.qname q kept.valid in
        (result ∙ answered_kept now c c' q.qname q kept, IsKept-then now c c' _ kept kept')

    read_from :
        (s : Option CacheValue)
        → answered now c q.qname q ≡ s
        → answer_query now c query ≡ (answer_from query s >>= λ answer. some (found.0, answer))
    read_from s e =
        answer_query-passed now c c' query q qs one code
        ∙ ap (λ s. answer_from query s >>= λ answer. some (found.0, answer)) (looked_up.0 ∙ e)

    known-Answers :
        (value : CacheValue)
        → answered now c q.qname q ≡ some value
        → Answers now c query q (answer_query now c query)
    known-Answers value hit =
        let free : any_blocking value.rrs ≡ false = sym (ap blocked_by hit) ∙ clear q.qname self in
        let made = answer_from_clear query value free in
        let read = read_from (some value) hit in
        elim (Bool-cases (ltb (length value.rrs) value.answer_rrs)) [
          | inl short ↦
              miscounted value (read ∙ rw (made, short, ◌>>=◌) refl) clear proper hit (ground arith)
          | inr enough ↦
              known_name found.0 value (read ∙ rw (made, enough, ◌>>=◌) refl) looked_up.1 clear
                proper hit (ground arith)
        ]

    passed-Answers : Answers now c query q (answer_query now c query)
    passed-Answers = elim (Option-cases (answered now c q.qname q)) [
      | inl miss ↦
          unknown_name found.0 (read_from none miss ∙ rw (answer_from-none query) refl) looked_up.1
            clear proper miss
      | inr (value, hit) ↦ known-Answers value hit
    ]

  pub answer_query-Answers : Answers now c query q (answer_query now c query)
  answer_query-Answers = elim validated [
    | blocks c' code kept found ↦
        blocked_name c' (answer_query-blocked now c c' query code) kept found
    | over_reads code clear over ↦ over_read (answer_query-stops now c query code) clear over
    | passes c' code kept clear proper ↦ passed-Answers c' code kept clear proper
  ]
