-- ===== src/Dns/Cache/Lookup.antt =====
-- The cache as a finite map from keys to values with their time of entry, and what a lookup does.
use dns_relay.Base.{
  ℕ, ◌≡◌, inl, inr, refl, Bool, true, false, Option, none, some, List, arith, if◌then◌else◌,
  Bool-cases, Option-cases, subst, ap,
}
use dns_relay.Stl.Key.{str_key, str_equal, str_equal_iff}
use dns_relay.Stl.HashMap.Laws
use dns_relay.Dns.Cache.{
  CacheValue, CacheEntry, DnsCache, head, lru_touch, any_rr_expired, is_entry_expired,
  cache_remove_entry, get_key,
}
use dns_relay.Dns.Cache.Links
use dns_relay.Dns.Cache.Lru
use dns_relay.Dns.Cache.Invariant.{indexed, IsListed, IsValid, touched-IsListed, removed-IsListed}

-- A value with the time at which it was entered.
abbrev pub Dated : Type 0
Dated = CacheValue × ℕ

abbrev pub dated : CacheEntry → Dated
dated entry = (entry.value, entry.created_at)

abbrev pub bind_entry : DnsCache → Option ℕ → Option Dated
bind_entry c none = none
bind_entry c (some e) = some (dated (c.memory e))

-- What the cache holds under a key, expired or not.
unfoldable pub stored : DnsCache → List ℕ → Option Dated
stored c key = bind_entry c (indexed c key)

abbrev pub expired : ℕ → Dated → Bool
expired now d = any_rr_expired now d.1 d.0.rrs

-- What of it is left at the time `now`.
abbrev pub unexpired : ℕ → Option Dated → Option Dated
unexpired now none = none
unexpired now (some d) = if expired now d then none else some d

abbrev pub value_of : Option Dated → Option CacheValue
value_of none = none
value_of (some d) = some d.0

-- A lookup returns what is stored and not expired, drops it if it is expired, and changes nothing
-- else in the map; a hit becomes the hottest entry.
pub record Gets (now : ℕ) (c : DnsCache) (key : List ℕ) (r : DnsCache × Option CacheValue)
    : Type 0 where
  pub valid : IsValid r.0
  pub result : r.1 ≡ value_of (unexpired now (stored c key))
  pub reads :
      (q : List ℕ)
      → stored r.0 q ≡ (if str_equal key q then unexpired now (stored c key) else stored c q)
  pub hottest : (v : CacheValue) → r.1 ≡ some v → indexed r.0 key ≡ some (r.0.memory head).colder

pub stored-touch :
    (c : DnsCache) (e : ℕ) (q : List ℕ)
    → stored (record c { memory = lru_touch c.memory e }) q ≡ stored c q
unfolding stored
stored-touch c e q = elim (Option-cases (indexed c q)) [
  | inl absent ↦ ground (arith, absent)
  | inr (a, found) ↦
      let s = Lru.lru_touch-IsSame c.memory e a in ground (arith, found, s.value, s.created_at)
]

pub stored-remove :
    (node place : ℕ → ℕ) (c : DnsCache) (e : ℕ) (key q : List ℕ)
    → IsListed node place c
    → (c.memory e).key ≡ key
    → stored (cache_remove_entry c e) q ≡ (if str_equal key q then none else stored c q)
unfolding stored cache_remove_entry
stored-remove node place c e key q v named =
    let reads = (Laws.remove-IsValid c.table (c.memory e).key v.table).1 in
    elim (Option-cases (indexed c q)) [
      | inl absent ↦ ground (arith, absent, reads q, named)
      | inr (a, found) ↦
          let s = Links.lru_remove-IsSame c.memory e a in
          ground (arith, found, s.value, s.created_at, reads q, named)
    ]

pub stored_found :
    (c : DnsCache) (key : List ℕ) (e : ℕ)
    → indexed c key ≡ some e
    → stored c key ≡ some (dated (c.memory e))
unfolding stored
stored_found c key e found = ground (arith, found)

pub stored_absent : (c : DnsCache) (key : List ℕ) → indexed c key ≡ none → stored c key ≡ none
unfolding stored
stored_absent c key absent = ground (arith, absent)

pub stored_equal :
    (c : DnsCache) (key q : List ℕ) → str_equal key q ≡ true → stored c key ≡ stored c q
stored_equal c key q same = ap (stored c) ((str_equal_iff key q).0 same)

get_key_absent :
    (now : ℕ) (c : DnsCache) (key : List ℕ) → indexed c key ≡ none → get_key now c key ≡ (c, none)
unfolding get_key
get_key_absent now c key absent = rw (absent, get_key) refl

get_key_old :
    (now : ℕ) (c : DnsCache) (key : List ℕ) (e : ℕ)
    → indexed c key ≡ some e
    → is_entry_expired now (c.memory e) ≡ true
    → get_key now c key ≡ (cache_remove_entry c e, none)
unfolding get_key
get_key_old now c key e found old = rw (found, get_key, old) refl

get_key_fresh :
    (now : ℕ) (c : DnsCache) (key : List ℕ) (e : ℕ)
    → indexed c key ≡ some e
    → is_entry_expired now (c.memory e) ≡ false
    → get_key now c key ≡ (record c { memory = lru_touch c.memory e }, some (c.memory e).value)
unfolding get_key
get_key_fresh now c key e found fresh = rw (found, get_key, fresh) refl

pub get_key-Gets :
    (now : ℕ) (c : DnsCache) (key : List ℕ) → IsValid c → Gets now c key (get_key now c key)
unfolding IsValid is_entry_expired
get_key-Gets now c key (node, place, v) = elim (Option-cases (indexed c key)) [
  | inl absent ↦
      let nothing = stored_absent c key absent in
      rw (get_key_absent now c key absent) (record {
        valid = (node, place, v);
        result = ground (arith, nothing);
        reads = λ q. ground (arith, nothing, stored_equal c key q);
        hottest = λ w r. absurd (ground arith);
      })
  | inr (e, found) ↦
      let (p, h, here, named) = v.listed key e found in
      let there = stored_found c key e found in
      elim (Bool-cases (is_entry_expired now (c.memory e))) [
        | inl old ↦ rw (get_key_old now c key e found old) (record {
          valid =
              subst (λ a. IsValid (cache_remove_entry c a)) here
                (_, _, removed-IsListed node place c (place e) v p h);
          result = ground (arith, there, old);
          reads = λ q. ground (arith, there, old, stored-remove node place c e key q v named);
          hottest = λ w r. absurd (ground arith);
        })
        | inr fresh ↦
            let moved =
              subst
                (λ a.
                  IsListed (Lru.push_node (Lru.skip_node node (place e)) a)
                    (Lru.push_place (Lru.skip_place place (place e)) a)
                    (record c { memory = lru_touch c.memory a }))
                here (touched-IsListed node place c (place e) v p h) in
            rw (get_key_fresh now c key e found fresh) (record {
              valid = (_, _, moved);
              result = ground (arith, there, fresh);
              reads = λ q. ground (arith, there, fresh, stored-touch c e q, stored_equal c key q);
              hottest = λ w r. ground (arith, found, moved.colder 0);
            })
      ]
]
