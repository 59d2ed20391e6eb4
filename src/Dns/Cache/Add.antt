-- ===== src/Dns/Cache/Add.antt =====
-- A new entry, and an entry with a new value.
use dns_relay.Base.{
  ℕ, ◌+◌, ◌-◌, ◌≤◌, ◌<◌, ◌≡◌, ◌≢◌, inl, inr, none, some, List, arith, if◌then◌else◌, update,
  Option-cases,
}
use dns_relay.Stl.Key.{str_key, str_equal, str_equal_iff, str_equal_refl}
use dns_relay.Stl.HashMap.Laws
use dns_relay.Dns.Cache.{CacheValue, DnsCache, cache_entry_create, add_entry}
use dns_relay.Dns.Cache.Lru
use dns_relay.Dns.Cache.Invariant.{indexed, IsListed}
use dns_relay.Dns.Cache.Lookup.{stored}

-- A new entry at the front.
pub added-IsListed :
    (now : ℕ) (node place : ℕ → ℕ) (c : DnsCache) (key : List ℕ) (value : CacheValue)
    → IsListed node place c
    → indexed c key ≡ none
    → c.size < c.capacity
    → IsListed (Lru.push_node node c.next) (Lru.push_place place c.next) (add_entry now c key value)
unfolding add_entry cache_entry_create
added-IsListed now node place c key value v absent less =
    let created = cache_entry_create now c key value in
    let put = Laws.hash_map_put-Put c.table key c.next v.table in
    let same = Lru.lru_touch-IsSame created.memory c.next in
    let away : (i : ℕ) → i ≤ c.size + 1 → node i ≢ c.next = λ i b s. omega (arith, v.below i b) in
    let stay : Lru.IsLinked node place c.size created.memory = record {
      first = v.first;
      last = v.last;
      colder = λ i b. ground (arith, v.colder i, away i);
      hotter = λ i b. ground (arith, v.hotter i, away (i + 1));
      placed = v.placed;
      real = v.real;
    } in
    record {
      links =
          Lru.lru_touch_new-IsLinked node place c.size c.next created.memory
            (λ z. ground (arith, v.below 0)) away (ground arith) stay;
      table = put.valid;
      keyed = λ i i0 il.
          let k = (c.memory (node (i - 1))).key in
          ground (
            arith,
            (same (Lru.push_node node c.next i)).key,
            put.reads key,
            put.reads k,
            str_equal_iff key k,
            str_equal_refl key,
            v.keyed (i - 1),
            away (i - 1),
            absent,
          );
      listed = λ q e o. ground (
        arith,
        put.reads q,
        str_equal_iff key q,
        v.listed q e,
        (same e).key,
        v.below (place e),
        v.first,
        v.placed 0,
      );
      live = λ i b. ground (arith, v.first, v.live 0, v.live (i - 1));
      below = λ i b. ground (arith, v.first, v.below 0, v.below (i - 1));
      room = ground arith;
      some_room = v.some_room;
    }

pub stored-add_entry :
    (now : ℕ) (node place : ℕ → ℕ) (c : DnsCache) (key : List ℕ) (value : CacheValue)
    → IsListed node place c
    → indexed c key ≡ none
    → (q : List ℕ)
    → stored (add_entry now c key value) q
      ≡ (if str_equal key q then some (value, now) else stored c q)
unfolding add_entry cache_entry_create stored
stored-add_entry now node place c key value v absent q =
    let created = cache_entry_create now c key value in
    let put = Laws.hash_map_put-Put c.table key c.next v.table in
    let s = Lru.lru_touch-IsSame created.memory c.next c.next in
    elim (Option-cases (indexed c q)) [
      | inl none_there ↦ ground (arith, put.reads q, none_there, s.value, s.created_at)
      | inr (e, found) ↦
          let (p, h, here, named) = v.listed q e found in
          let s' = Lru.lru_touch-IsSame created.memory c.next e in
          let old = v.below (place e) (omega arith) in
          ground (
            arith,
            put.reads q,
            found,
            s.value,
            s.created_at,
            s'.value,
            s'.created_at,
            str_equal_iff key q,
            absent,
            here,
          )
    ]

-- An entry of the list with a new value, still in its place.
unfoldable pub revalued : ℕ → DnsCache → ℕ → CacheValue → DnsCache
revalued now c e value = record c {
  memory = update c.memory e (record (c.memory e) { value = value; created_at = now });
}

pub revalued-IsListed :
    (now : ℕ) (node place : ℕ → ℕ) (c : DnsCache) (e : ℕ) (value : CacheValue)
    → IsListed node place c
    → IsListed node place (revalued now c e value)
unfolding revalued
revalued-IsListed now node place c e value v = record {
  links = record {
    first = v.first;
    last = v.last;
    colder = λ i b. ground (arith, v.colder i);
    hotter = λ i b. ground (arith, v.hotter i);
    placed = v.placed;
    real = v.real;
  };
  table = v.table;
  keyed = λ i i0 il. ground (arith, v.keyed i);
  listed = λ q a o. ground (arith, v.listed q a o);
  live = v.live;
  below = v.below;
  room = v.room;
  some_room = v.some_room;
}

pub stored-revalued :
    (now : ℕ) (node place : ℕ → ℕ) (c : DnsCache) (key : List ℕ) (e : ℕ) (value : CacheValue)
    → IsListed node place c
    → indexed c key ≡ some e
    → (q : List ℕ)
    → stored (revalued now c e value) q
      ≡ (if str_equal key q then some (value, now) else stored c q)
unfolding revalued stored
stored-revalued now node place c key e value v found q = elim (Option-cases (indexed c q)) [
  | inl absent ↦ ground (arith, absent, found, str_equal_iff key q)
  | inr (a, there) ↦
      ground (arith, there, found, str_equal_iff key q, v.listed q a there, v.listed key e found)
]
