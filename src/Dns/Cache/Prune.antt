-- ===== src/Dns/Cache/Prune.antt =====
-- `dns_cache_prune` drops the expired entries and no other.
use dns_relay.Base.{
  ℕ, zero, suc, ◌+◌, ◌-◌, ◌≤◌, ◌<◌, ◌≡◌, inl, inr, refl, true, false, List, arith, ◌==◌, Bool-cases,
  Option-cases, subst, sym, ◌∙◌,
}
use dns_relay.Stl.Key.{str_key}
use dns_relay.Dns.Cache.{
  DnsCache, head, tail, is_entry_expired, cache_remove_entry, prune_loop, dns_cache_prune,
}
use dns_relay.Dns.Cache.Links
use dns_relay.Dns.Cache.Lru
use dns_relay.Dns.Cache.Invariant.{indexed, IsListed, IsValid, removed-IsListed}
use dns_relay.Dns.Cache.Lookup.{
  stored, unexpired, stored_found, stored_absent, stored_equal, stored-remove,
}

pub record Prunes (now : ℕ) (c r : DnsCache) : Type 0 where
  pub valid : IsValid r
  pub reads : (q : List ℕ) → stored r q ≡ unexpired now (stored c q)

-- All entries before the place `i` are fresh.
abbrev IsFreshTo : ℕ → (ℕ → ℕ) → ℕ → DnsCache → Type 0
IsFreshTo now node i c = (j : ℕ) → 0 < j → j < i → is_entry_expired now (c.memory (node j)) ≡ false

all_fresh :
    (now : ℕ) (node place : ℕ → ℕ) (c : DnsCache)
    → IsListed node place c
    → IsFreshTo now node (c.size + 1) c
    → (q : List ℕ) → stored c q ≡ unexpired now (stored c q)
unfolding is_entry_expired
all_fresh now node place c v fresh q = elim (Option-cases (indexed c q)) [
  | inl absent ↦ ground (arith, stored_absent c q absent)
  | inr (e, found) ↦
      let (p, h, here, named) = v.listed q e found in
      ground (arith, stored_found c q e found, fresh (place e) p, here)
]

dropped :
    (now : ℕ) (node place : ℕ → ℕ) (c : DnsCache) (i : ℕ)
    → IsListed node place c
    → 0 < i
    → i ≤ c.size
    → is_entry_expired now (c.memory (node i)) ≡ true
    → (q : List ℕ)
    → unexpired now (stored (cache_remove_entry c (node i)) q) ≡ unexpired now (stored c q)
unfolding is_entry_expired
dropped now node place c i v p h old q =
    let key = (c.memory (node i)).key in
    ground (
      arith,
      stored-remove node place c (node i) key q v refl,
      stored_found c key (node i) (v.keyed i p h),
      stored_equal c key q,
    )

prune_loop_end :
    (fuel now : ℕ) (c : DnsCache) (e : ℕ) → (e == tail) ≡ true → prune_loop (suc fuel) now c e ≡ c
unfolding prune_loop
prune_loop_end fuel now c e end = rw (end, prune_loop) refl

prune_loop_old :
    (fuel now : ℕ) (c : DnsCache) (e : ℕ)
    → (e == tail) ≡ false
    → is_entry_expired now (c.memory e) ≡ true
    → prune_loop (suc fuel) now c e
      ≡ prune_loop fuel now (cache_remove_entry c e) (c.memory e).colder
unfolding prune_loop
prune_loop_old fuel now c e more old = rw (more, prune_loop, old) refl

prune_loop_new :
    (fuel now : ℕ) (c : DnsCache) (e : ℕ)
    → (e == tail) ≡ false
    → is_entry_expired now (c.memory e) ≡ false
    → prune_loop (suc fuel) now c e ≡ prune_loop fuel now c (c.memory e).colder
unfolding prune_loop
prune_loop_new fuel now c e more new = rw (more, prune_loop, new) refl

size-remove : (c : DnsCache) (e : ℕ) → (cache_remove_entry c e).size ≡ c.size - 1
unfolding cache_remove_entry
size-remove c e = refl

-- A removal leaves the ages of the entries.
fresh-remove :
    (now : ℕ) (c : DnsCache) (e a : ℕ)
    → is_entry_expired now ((cache_remove_entry c e).memory a) ≡ is_entry_expired now (c.memory a)
unfolding cache_remove_entry is_entry_expired
fresh-remove now c e a = let s = Links.lru_remove-IsSame c.memory e a in cc (s.value, s.created_at)

prune_loop-Prunes :
    (fuel now : ℕ) (node place : ℕ → ℕ) (c : DnsCache) (i : ℕ)
    → IsListed node place c
    → 0 < i
    → i ≤ c.size + 1
    → c.size + 1 - i < fuel
    → IsFreshTo now node i c
    → Prunes now c (prune_loop fuel now c (node i))
unfolding IsValid
prune_loop-Prunes zero now node place c i v p h f fresh = absurd (omega arith)
prune_loop-Prunes (suc fuel) now node place c i v p h f fresh = elim (Bool-cases (node i == tail)) [
  | inl end ↦
      let e : i ≡ c.size + 1 = ground (arith, v.last, v.placed i, v.placed (c.size + 1)) in
      rw (prune_loop_end fuel now c (node i) end) (record {
        valid = (node, place, v);
        reads = all_fresh now node place c v (subst (λ j. IsFreshTo now node j c) e fresh);
      })
  | inr more ↦
      let le : i ≤ c.size = ground (arith, v.last) in
      let next : (c.memory (node i)).colder ≡ node (i + 1) = v.colder i le in
      elim (Bool-cases (is_entry_expired now (c.memory (node i)))) [
        | inl old ↦
            let c' = cache_remove_entry c (node i) in
            let skip = Lru.skip_node node i in
            let at_i : skip i ≡ node (i + 1) = ground arith in
            let rest : Prunes now c' (prune_loop fuel now c' (skip i)) =
              prune_loop-Prunes fuel now skip (Lru.skip_place place i) c' i
                (removed-IsListed node place c i v p le) p (ground (arith, size-remove c (node i)))
                (ground (arith, size-remove c (node i)))
                (λ j a b. ground (arith, fresh-remove now c (node i) (node j), fresh j a b)) in
            rw (prune_loop_old fuel now c (node i) more old) (
              subst (λ e. Prunes now c (prune_loop fuel now c' e)) (at_i ∙ sym next)
                (record {
                  valid = rest.valid;
                  reads = λ q. rest.reads q ∙ dropped now node place c i v p le old q;
                }))
        | inr new ↦ rw (prune_loop_new fuel now c (node i) more new) (
            subst (λ e. Prunes now c (prune_loop fuel now c e)) (sym next)
              (prune_loop-Prunes fuel now node place c (i + 1) v (omega arith) (omega arith)
                (omega arith)
                (λ j a b. elim (Bool-cases (j == i)) [
                  | inl same ↦ ground arith
                  | inr other ↦ ground (arith, fresh j a)
                ])))
      ]
]

-- On a valid cache the walk of dns_cache_prune visits the whole list and leaves a valid cache that
-- holds, under each key, what was stored there if no record of it has expired, and nothing
-- otherwise.
pub dns_cache_prune-Prunes :
    (now : ℕ) (c : DnsCache) → IsValid c → Prunes now c (dns_cache_prune now c)
unfolding IsValid dns_cache_prune
dns_cache_prune-Prunes now c (node, place, v) =
    let first : (c.memory head).colder ≡ node 1 = ground (arith, v.first, v.colder 0) in
    rw first (
      prune_loop-Prunes (c.size + 1) now node place c 1 v (omega arith) (omega arith) (omega arith)
        (λ j a b. absurd (omega arith)))
