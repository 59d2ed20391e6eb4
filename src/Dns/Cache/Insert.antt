-- ===== src/Dns/Cache/Insert.antt =====
-- What `dns_cache_put` does to the finite map, with and without an eviction.
use dns_relay.Base.{
  ℕ, ◌<◌, ◌≡◌, ◌≢◌, ◌⊎◌, inl, inr, refl, true, false, none, some, List, arith, ltb, leb, ◌==◌,
  if◌then◌else◌, Bool-cases, Option-cases, subst, ◌∙◌,
}
use dns_relay.Stl.Key.{str_key, str_equal, str_equal_refl}
use dns_relay.Stl.HashMap.Laws
use dns_relay.Dns.Cache.{
  CacheValue, DnsCache, head, tail, lru_touch, cache_remove_entry, cache_entry_create,
  evict_if_full, add_entry, renew_entry, put_key,
}
use dns_relay.Dns.Cache.Lru
use dns_relay.Dns.Cache.Invariant.{indexed, IsListed, IsValid, touched-IsListed, removed-IsListed}
use dns_relay.Dns.Cache.Lookup.{stored, stored_found, stored_absent, stored-touch, stored-remove}
use dns_relay.Dns.Cache.Add.{
  added-IsListed, stored-add_entry, revalued, revalued-IsListed, stored-revalued,
}

-- The coldest entry.
abbrev pub coldest : DnsCache → ℕ
coldest c = (c.memory tail).hotter

-- What `dns_cache_put` does: the key holds the value, entered now, and is the hottest; every other
-- key is as before, except that the coldest entry of a full cache gives way to a new key.
pub record Puts (now : ℕ) (c : DnsCache) (key : List ℕ) (value : CacheValue) (r : DnsCache)
    : Type 0 where
  pub valid : IsValid r
  pub reads :
      (((q : List ℕ) → stored r q ≡ (if str_equal key q then some (value, now) else stored c q))
        × ((stored c key ≢ none) ⊎ (c.size < c.capacity)))
      ⊎ (((q : List ℕ)
            → stored r q ≡ (
                if str_equal key q
                then some (value, now)
                else if str_equal (c.memory (coldest c)).key q
                then none
                else stored c q))
          × (stored c key ≡ none)
          × (c.size ≡ c.capacity))
  pub hottest : indexed r key ≡ some (r.memory head).colder

put_key_absent :
    (now : ℕ) (c : DnsCache) (key : List ℕ) (value : CacheValue)
    → indexed c key ≡ none
    → put_key now c key value ≡ add_entry now (evict_if_full c) key value
unfolding put_key
put_key_absent now c key value absent = rw (absent, put_key) refl

put_key_found :
    (now : ℕ) (c : DnsCache) (key : List ℕ) (e : ℕ) (value : CacheValue)
    → indexed c key ≡ some e
    → put_key now c key value ≡ renew_entry now c e value
unfolding put_key
put_key_found now c key e value found = rw (found, put_key) refl

evict_room : (c : DnsCache) → c.size < c.capacity → evict_if_full c ≡ c
unfolding evict_if_full
evict_room c less = let g : leb c.capacity c.size ≡ false = ground arith in rw g refl

evict_full :
    (node place : ℕ → ℕ) (c : DnsCache)
    → IsListed node place c
    → c.size ≡ c.capacity
    → evict_if_full c ≡ cache_remove_entry c (node c.size)
unfolding evict_if_full
evict_full node place c v full =
    let g : leb c.capacity c.size ≡ true = ground arith in
    let e : (c.memory tail).hotter ≡ node c.size = ground (arith, v.hotter c.size, v.last) in
    let n : (node c.size == head) ≡ false =
      ground (arith, v.first, v.placed 0, v.placed c.size, v.some_room) in
    rw (g, e, n) refl

add_entry-hottest :
    (now : ℕ) (node place : ℕ → ℕ) (c : DnsCache) (key : List ℕ) (value : CacheValue)
    → IsListed node place c
    → indexed c key ≡ none
    → c.size < c.capacity
    → indexed (add_entry now c key value) key
      ≡ some ((add_entry now c key value).memory head).colder
unfolding add_entry cache_entry_create
add_entry-hottest now node place c key value v absent less =
    let l = added-IsListed now node place c key value v absent less in
    let put = Laws.hash_map_put-Put c.table key c.next v.table in
    ground (arith, l.colder 0, put.reads key, str_equal_refl key)

still_absent :
    (node place : ℕ → ℕ) (c : DnsCache) (e : ℕ) (key : List ℕ)
    → IsListed node place c
    → indexed c key ≡ none
    → indexed (cache_remove_entry c e) key ≡ none
unfolding cache_remove_entry
still_absent node place c e key v absent =
    ground (arith, (Laws.remove-IsValid c.table (c.memory e).key v.table).1 key)

renew_entry-Puts :
    (now : ℕ) (node place : ℕ → ℕ) (c : DnsCache) (key : List ℕ) (e : ℕ) (value : CacheValue)
    → IsListed node place c
    → indexed c key ≡ some e
    → Puts now c key value (renew_entry now c e value)
unfolding IsValid renew_entry revalued
renew_entry-Puts now node place c key e value v found =
    let (p, h, here, named) = v.listed key e found in
    let kept = revalued-IsListed now node place c e value v in
    let moved =
      subst
        (λ a.
          IsListed (Lru.push_node (Lru.skip_node node (place e)) a)
            (Lru.push_place (Lru.skip_place place (place e)) a)
            (record (revalued now c e value) {
              memory = lru_touch (revalued now c e value).memory a;
            }))
        here (touched-IsListed node place (revalued now c e value) (place e) kept p h) in
    record {
      valid = (_, _, moved);
      reads = inl (
        λ q.
            stored-touch (revalued now c e value) e q
            ∙ stored-revalued now node place c key e value v found q,
        inl (λ n. ground (arith, stored_found c key e found)),
      );
      hottest = ground (arith, found, moved.colder 0);
    }

-- The eviction removes the last entry of the list, and makes room.
add_evicting-Puts :
    (now : ℕ) (node place : ℕ → ℕ) (c : DnsCache) (key : List ℕ) (value : CacheValue)
    → IsListed node place c
    → indexed c key ≡ none
    → c.size ≡ c.capacity
    → Puts now c key value (add_entry now (cache_remove_entry c (node c.size)) key value)
unfolding IsValid cache_remove_entry
add_evicting-Puts now node place c key value v absent full =
    let last = node c.size in
    let c' = cache_remove_entry c last in
    let e : coldest c ≡ last = ground (arith, v.hotter c.size, v.last) in
    let v' = removed-IsListed node place c c.size v (omega (arith, v.some_room)) (omega arith) in
    let absent' = still_absent node place c last key v absent in
    let less : c'.size < c'.capacity = omega (arith, v.some_room) in
    record {
      valid = (_, _, added-IsListed now _ _ c' key value v' absent' less);
      reads = inr (
        λ q. ground (
          arith,
          stored-add_entry now _ _ c' key value v' absent' q,
          stored-remove node place c last (c.memory last).key q v refl,
          e,
        ),
        stored_absent c key absent,
        full,
      );
      hottest = add_entry-hottest now _ _ c' key value v' absent' less;
    }

-- On a valid cache, putting a value under a key stores it with the time and makes its entry the
-- hottest; every other key reads as before, except that when the key is new and the cache is full
-- exactly the key of the coldest entry is dropped. The invariant holds after it, with the size at
-- most the capacity.
pub put_key-Puts :
    (now : ℕ) (c : DnsCache) (key : List ℕ) (value : CacheValue)
    → IsValid c
    → Puts now c key value (put_key now c key value)
unfolding IsValid
put_key-Puts now c key value (node, place, v) = elim (Option-cases (indexed c key)) [
  | inr (e, found) ↦
      rw (put_key_found now c key e value found)
        (renew_entry-Puts now node place c key e value v found)
  | inl absent ↦
      rw (put_key_absent now c key value absent) (elim (Bool-cases (ltb c.size c.capacity)) [
        | inl less ↦
            let room : c.size < c.capacity = ground arith in
            rw (evict_room c room) (record {
              valid = (_, _, added-IsListed now node place c key value v absent room);
              reads = inl (stored-add_entry now node place c key value v absent, inr room);
              hottest = add_entry-hottest now node place c key value v absent room;
            })
        | inr is_full ↦
            let full : c.size ≡ c.capacity = ground (arith, v.room) in
            rw (evict_full node place c v full)
              (add_evicting-Puts now node place c key value v absent full)
      ])
]
