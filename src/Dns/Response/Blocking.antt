-- ===== src/Dns/Response/Blocking.antt =====
-- What the validations find: `memallz` and the search over the parents of a name.
use dns_relay.Base.{
  ℕ, zero, suc, ◌+◌, ◌<◌, ◌≡◌, inl, inr, refl, true, false, Option, none, some, List, ◌∷◌, length,
  get_or, arith, ◌==◌, Bool-cases, Option-cases, ◌↔◌, ◌∙◌, ap, ◌≢◌,
}
use dns_relay.Dns.Packet.{SectionQuestion}
use dns_relay.Dns.Cache.{DnsCache, dns_cache_get}
use dns_relay.Dns.Cache.Invariant.{IsValid}
use dns_relay.Dns.Response.{
  noerror, nxdomain, memallz, get_parent_qname, blocked_by, pre_validate_loop, query_pre_validate,
}
use dns_relay.Dns.Response.Ancestors.{
  IsAncestor, self, up, shorter, IsProper, Overruns, answered, IsKept, get-IsKept, IsKept-then,
  answered_kept, all_ancestors, only_ancestor,
}

-- memallz returns true exactly if all bytes of the region but the first are zero; the first byte
-- does not matter.
pub memallz_iff :
    (mem : List ℕ) (len : ℕ)
    → (memallz mem len ≡ true) ↔ ((i : ℕ) → 0 < i → i < len → get_or mem i 0 ≡ 0)
unfolding memallz
memallz_iff mem zero = (λ e i p h. absurd (omega arith), λ all. refl)
memallz_iff mem (suc len) = elim (Bool-cases (get_or mem len 0 == 0)) [
  | inl last ↦
      let (right, left) = memallz_iff mem len in
      rw last (
        λ e i p h. elim (Bool-cases (i == len)) [
          | inl same ↦ ground arith
          | inr before ↦ right e i p (ground arith)
        ],
        λ all. left (λ i p h. all i p (omega arith)),
      )
  | inr nonzero ↦ rw nonzero (
    λ e i p h. absurd (ground arith),
    λ all. elim (Bool-cases (len == 0)) [
      | inl first ↦ first
      | inr later ↦ absurd (ground (arith, all len))
    ],
  )
]

-- The cache answers the name or one of its parents with a blocking record; it answers none so.
abbrev pub IsBlocked : ℕ → DnsCache → List ℕ → SectionQuestion → Type 0
IsBlocked now c name q = (a : List ℕ) × IsAncestor a name × (blocked_by (answered now c a q) ≡ true)

abbrev pub IsClear : ℕ → DnsCache → List ℕ → SectionQuestion → Type 0
IsClear now c name q = (a : List ℕ) → IsAncestor a name → blocked_by (answered now c a q) ≡ false

-- The code for a name, and the read behind a name that is not blocked.
pub data Validates (now : ℕ) (c : DnsCache) (name : List ℕ) (q : SectionQuestion)
    (r : Option (DnsCache × ℕ)) : Type 0 where
  blocks :
      (c' : DnsCache)
      → r ≡ some (c', nxdomain)
      → IsKept now c c'
      → IsBlocked now c name q
      → Validates now c name q r
  passes :
      (c' : DnsCache)
      → r ≡ some (c', noerror)
      → IsKept now c c'
      → IsClear now c name q
      → IsProper name
      → Validates now c name q r
  over_reads : r ≡ none → IsClear now c name q → Overruns name → Validates now c name q r

loop_blocked :
    (fuel now : ℕ) (c : DnsCache) (q : SectionQuestion) (name : List ℕ)
    → blocked_by (dns_cache_get now c name q.qtype q.qclass).1 ≡ true
    → pre_validate_loop (suc fuel) now c q (some name)
      ≡ some ((dns_cache_get now c name q.qtype q.qclass).0, nxdomain)
unfolding pre_validate_loop
loop_blocked fuel now c q name b = rw (b, pre_validate_loop) refl

-- The loop from the parent of a name on.
abbrev loop_from :
    ℕ → ℕ → DnsCache → SectionQuestion → Option (Option (List ℕ)) → Option (DnsCache × ℕ)
loop_from fuel now c q none = none
loop_from fuel now c q (some parent) = pre_validate_loop fuel now c q parent

loop_passed :
    (fuel now : ℕ) (c : DnsCache) (q : SectionQuestion) (name : List ℕ)
    → blocked_by (dns_cache_get now c name q.qtype q.qclass).1 ≡ false
    → pre_validate_loop (suc fuel) now c q (some name)
      ≡ loop_from fuel now (dns_cache_get now c name q.qtype q.qclass).0 q (get_parent_qname name)
unfolding pre_validate_loop
loop_passed fuel now c q name b = elim (Option-cases (get_parent_qname name)) [
  | inl over ↦ rw (b, pre_validate_loop, over) refl
  | inr (parent, e) ↦ rw (b, pre_validate_loop, e) refl
]

loop_end :
    (fuel now : ℕ) (c : DnsCache) (q : SectionQuestion)
    → pre_validate_loop (suc fuel) now c q none ≡ some (c, noerror)
unfolding pre_validate_loop
loop_end fuel now c q = refl

-- The answer at a name joined with the result at its parent.
joined-Validates :
    (now : ℕ) (c : DnsCache) (q : SectionQuestion) (name parent : List ℕ) (r : DnsCache)
    (result : Option (DnsCache × ℕ))
    → IsKept now c r
    → blocked_by (answered now c name q) ≡ false
    → get_parent_qname name ≡ some (some parent)
    → Validates now r parent q result
    → Validates now c name q result
joined-Validates now c q name parent r result k clear e w =
    let back : IsClear now r parent q
        → (a : List ℕ) → IsAncestor a parent
        → blocked_by (answered now c a q) ≡ false =
      λ all a x. rw (← answered_kept now c r a q k) (all a x) in
    let whole = all_ancestors (λ a. blocked_by (answered now c a q) ≡ false) name parent e clear in
    elim w [
      | blocks c' got kept (a, x, b) ↦
          blocks c' got (IsKept-then now c r c' k kept)
            (a, up name parent e x, rw (← answered_kept now c r a q k) b)
      | passes c' got kept all proper ↦
          passes c' got (IsKept-then now c r c' k kept) (whole (back all)) (
            all_ancestors (λ a. get_parent_qname a ≢ none) name parent e (λ over. cc (e, over))
              proper)
      | over_reads got all (a, x, over) ↦
          over_reads got (whole (back all)) (a, up name parent e x, over)
    ]

-- The answer at a name, and the rest of the loop.
passed-Validates :
    (fuel now : ℕ) (c : DnsCache) (q : SectionQuestion) (name : List ℕ) (r : DnsCache)
    → IsKept now c r
    → blocked_by (answered now c name q) ≡ false
    → ((parent : List ℕ)
        → get_parent_qname name ≡ some (some parent)
        → Validates now r parent q (pre_validate_loop (suc fuel) now r q (some parent)))
    → Validates now c name q (loop_from (suc fuel) now r q (get_parent_qname name))
passed-Validates fuel now c q name r k clear rest = elim (Option-cases (get_parent_qname name)) [
  | inl over ↦
      over_reads (rw over refl)
        (only_ancestor (λ a. blocked_by (answered now c a q) ≡ false) name (λ p e. cc (over, e))
          clear)
        (name, self, over)
  | inr (next, found) ↦ elim (Option-cases next) [
    | inl root ↦
        let e : get_parent_qname name ≡ some none = found ∙ ap some root in
        let alone : (parent : List ℕ) → get_parent_qname name ≢ some (some parent) =
          λ p e'. cc (e, e') in
        passes r (rw e (loop_end fuel now r q)) k
          (only_ancestor (λ a. blocked_by (answered now c a q) ≡ false) name alone clear)
          (only_ancestor (λ a. get_parent_qname a ≢ none) name alone (λ over. cc (e, over)))
    | inr (parent, is_next) ↦
        let e : get_parent_qname name ≡ some (some parent) = found ∙ ap some is_next in
        rw e (joined-Validates now c q name parent r _ k clear e (rest parent e))
  ]
]

pub pre_validate_loop-Validates :
    (fuel now : ℕ) (c : DnsCache) (q : SectionQuestion) (name : List ℕ)
    → length name < fuel
    → IsValid c
    → Validates now c name q (pre_validate_loop (suc fuel) now c q (some name))
pre_validate_loop-Validates zero now c q name h v = absurd (omega arith)
pre_validate_loop-Validates (suc fuel) now c q name h v =
    let (result, kept) = get-IsKept now c name q v in
    let r = dns_cache_get now c name q.qtype q.qclass in
    elim (Bool-cases (blocked_by r.1)) [
      | inl blocked ↦
          blocks r.0 (loop_blocked (suc fuel) now c q name blocked) kept
            (name, self, rw (← result) blocked)
      | inr clear ↦ rw (loop_passed (suc fuel) now c q name clear) (
          passed-Validates fuel now c q name r.0 kept (rw (← result) clear) (λ parent e.
            pre_validate_loop-Validates fuel now r.0 q parent (omega (arith, shorter name parent e))
              kept.valid))
    ]

pub query_pre_validate-Validates :
    (now : ℕ) (c : DnsCache) (q : SectionQuestion) (questions : List SectionQuestion)
    → IsValid c
    → Validates now c q.qname q (query_pre_validate now c (q ∷ questions))
unfolding query_pre_validate
query_pre_validate-Validates now c q questions v =
    pre_validate_loop-Validates (length q.qname + 1) now c q q.qname (omega arith) v
