-- ===== src/Dns/Response/Ancestors.antt =====
-- The parents of a name, and what a lookup in the cache answers and keeps.
use dns_relay.Base.{
  ℕ, ◌<◌, ◌≡◌, ◌⊎◌, inl, inr, refl, Option, none, some, List, [], ◌∷◌, length, length-drop, arith,
  Bool-cases, ◌∙◌, ap, subst, sym, ◌≢◌,
}
use dns_relay.Stl.Key.{str_equal, str_equal_iff}
use dns_relay.Dns.Packet.{SectionQuestion}
use dns_relay.Dns.Cache.{CacheValue, DnsCache, cache_key_create, dns_cache_get}
use dns_relay.Dns.Cache.Invariant.{IsValid}
use dns_relay.Dns.Cache.Lookup.{Dated, stored, expired, unexpired, value_of, get_key-Gets}
use dns_relay.Dns.Cache.Questions.{known}
use dns_relay.Dns.Response.{get_parent_qname}

-- The name itself, or a name that is left of it when labels are dropped from its front.
pub data IsAncestor (a : List ℕ) : List ℕ → Type 0 where
  self : IsAncestor a a
  up :
      (name parent : List ℕ)
      → get_parent_qname name ≡ some (some parent)
      → IsAncestor a parent
      → IsAncestor a name

pub IsAncestor-cases :
    (a name : List ℕ)
    → IsAncestor a name
    → (a ≡ name)
      ⊎ ((parent : List ℕ) × (get_parent_qname name ≡ some (some parent)) × IsAncestor a parent)
IsAncestor-cases a name self = inl refl
IsAncestor-cases a name (up n parent e x) = inr (parent, e, x)

pub shorter :
    (name parent : List ℕ)
    → get_parent_qname name ≡ some (some parent)
    → length parent < length name
unfolding get_parent_qname
shorter [] parent e = cc
shorter (label ∷ rest) parent e = ground (arith, length-drop label rest)

-- A name whose labels do not run over its end, as far as its parents go; and one with a label that
-- does.
abbrev pub IsProper : List ℕ → Type 0
IsProper name = (a : List ℕ) → IsAncestor a name → get_parent_qname a ≢ none

abbrev pub Overruns : List ℕ → Type 0
Overruns name = (a : List ℕ) × IsAncestor a name × (get_parent_qname a ≡ none)

-- What the cache answers at the time `now`.
unfoldable pub answered : ℕ → DnsCache → List ℕ → SectionQuestion → Option CacheValue
answered now c name q =
    value_of (unexpired now (known c (record { qname = name; qtype = q.qtype; qclass = q.qclass })))

pub record IsKept (now : ℕ) (c r : DnsCache) : Type 0 where
  pub valid : IsValid r
  pub same : (k : List ℕ) → unexpired now (stored r k) ≡ unexpired now (stored c k)
  pub fewer : (k : List ℕ) (d : Dated) → stored r k ≡ some d → stored c k ≡ some d

unexpired_part : (now : ℕ) (s : Option Dated) (d : Dated) → unexpired now s ≡ some d → s ≡ some d
unexpired_part now none d e = e
unexpired_part now (some d') d e = elim (Bool-cases (expired now d')) [
  | inl old ↦ absurd (ground (arith, old, e))
  | inr fresh ↦ sym (rw fresh refl) ∙ e
]

unexpired_twice : (now : ℕ) (d : Option Dated) → unexpired now (unexpired now d) ≡ unexpired now d
unexpired_twice now none = refl
unexpired_twice now (some d) = elim (Bool-cases (expired now d)) [
  | inl old ↦ ground (arith, old)
  | inr fresh ↦ ground (arith, fresh)
]

-- A lookup returns what the cache answers, and changes no answer at that time.
pub get-IsKept :
    (now : ℕ) (c : DnsCache) (name : List ℕ) (q : SectionQuestion)
    → IsValid c
    → (let r = dns_cache_get now c name q.qtype q.qclass in
        (r.1 ≡ answered now c name q) × IsKept now c r.0)
unfolding dns_cache_get answered
get-IsKept now c name q v =
    let key = cache_key_create name q.qtype q.qclass in
    let g = get_key-Gets now c key v in
    (
      g.result,
      record {
        valid = g.valid;
        same = λ k. elim (Bool-cases (str_equal key k)) [
          | inl this ↦
              let e = (str_equal_iff key k).0 this in
              let s : stored c key ≡ stored c k = ap (stored c) e in
              ground (arith, g.reads k, unexpired_twice now (stored c key))
          | inr other ↦ ground (arith, g.reads k)
        ];
        fewer = λ k d at. elim (Bool-cases (str_equal key k)) [
          | inl this ↦
              let e = (str_equal_iff key k).0 this in
              unexpired_part now (stored c k) d (
                ap (λ key. unexpired now (stored c key)) (sym e)
                ∙ sym (g.reads k ∙ rw this refl)
                ∙ at)
          | inr other ↦ sym (g.reads k ∙ rw other refl) ∙ at
        ];
      },
    )

pub IsKept-self : (now : ℕ) (c : DnsCache) → IsValid c → IsKept now c c
IsKept-self now c v = record { valid = v; same = λ k. refl; fewer = λ k d e. e }

pub IsKept-then : (now : ℕ) (a b c : DnsCache) → IsKept now a b → IsKept now b c → IsKept now a c
IsKept-then now a b c p q = record {
  valid = q.valid;
  same = λ k. q.same k ∙ p.same k;
  fewer = λ k d e. p.fewer k d (q.fewer k d e);
}

pub answered_kept :
    (now : ℕ) (c r : DnsCache) (a : List ℕ) (q : SectionQuestion)
    → IsKept now c r
    → answered now r a q ≡ answered now c a q
unfolding answered
answered_kept now c r a q k = ap value_of (k.same (cache_key_create a q.qtype q.qclass))

-- What holds for a name and for all ancestors of its parent holds for all ancestors of the name.
pub all_ancestors :
    (P : List ℕ → Type 0) (name parent : List ℕ)
    → get_parent_qname name ≡ some (some parent)
    → P name
    → ((a : List ℕ) → IsAncestor a parent → P a)
    → (a : List ℕ) → IsAncestor a name
    → P a
all_ancestors P name parent e here rest a x = elim (IsAncestor-cases a name x) [
  | inl same ↦ subst P (sym same) here
  | inr (p, e', y) ↦
      let same : p ≡ parent = ground (arith, e, e') in rest a (subst (IsAncestor a) same y)
]

-- A name without a parent is its only ancestor.
pub only_ancestor :
    (P : List ℕ → Type 0) (name : List ℕ)
    → ((parent : List ℕ) → get_parent_qname name ≢ some (some parent))
    → P name
    → (a : List ℕ) → IsAncestor a name
    → P a
only_ancestor P name root here a x = elim (IsAncestor-cases a name x) [
  | inl same ↦ subst P (sym same) here
  | inr (p, e, y) ↦ absurd (root p e)
]
