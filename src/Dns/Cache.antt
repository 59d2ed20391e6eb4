-- ===== src/Dns/Cache.antt =====
-- src/dns/dns_cache.c: the cache of resource records, a hash map over a doubly linked list in the
-- order of the last use. Addresses are numbers: 0 is NULL, 1 and 2 are the sentinels `head` and
-- `tail`, `memory` is the store of the entries and `alive` tells the addresses that are allocated.
-- The lock is left out: each function runs under it from its first access to its last. `malloc`
-- and `mtx_lock` succeed, and `now` is what `sys_time_ms` returns.
pub mod Links
pub mod Lru
pub mod Key
pub mod Invariant
pub mod Lookup
pub mod Add
pub mod Insert
pub mod Prune
pub mod Questions
mod Tests
use dns_relay.Base.{
  ℕ, zero, suc, ◌+◌, ◌-◌, ◌*◌, ◌/◌, ◌%◌, ◌^◌, Bool, true, false, ◌&&◌, ◌||◌, Option, none, some,
  List, [], ◌∷◌, ◌++◌, ltb, leb, ◌==◌, if◌then◌else◌, update,
}
use dns_relay.Stl.Key.{str_key}
use dns_relay.Stl.HashMap.{HashMap, hash_map_create, hash_map_put, hash_map_get, hash_map_remove}
use dns_relay.Dns.Packet.{ResourceRecord}

pub record CacheValue : Type 0 where
  pub answer_rrs : ℕ
  pub authority_rrs : ℕ
  pub additional_rrs : ℕ
  pub rrs : List ResourceRecord

pub record CacheEntry : Type 0 where
  pub key : List ℕ
  pub value : CacheValue
  pub created_at : ℕ
  pub hotter : ℕ
  pub colder : ℕ

pub record DnsCache : Type 0 where
  pub table : HashMap (List ℕ) ℕ
  pub memory : ℕ → CacheEntry
  pub alive : ℕ → Bool
  pub next : ℕ
  pub size : ℕ
  pub capacity : ℕ

abbrev pub head : ℕ
head = 1

abbrev pub tail : ℕ
tail = 2

abbrev empty_value : CacheValue
empty_value = record { answer_rrs = 0; authority_rrs = 0; additional_rrs = 0; rrs = [] }

abbrev sentinel : ℕ → ℕ → CacheEntry
sentinel hotter colder = record {
  key = [];
  value = empty_value;
  created_at = 0;
  hotter = hotter;
  colder = colder;
}

-- `dns_cache_init` up to the loading of the table of addresses.
unfoldable pub dns_cache_init : DnsCache
dns_cache_init = record {
  table = hash_map_create;
  memory = λ a. if a == head then sentinel 0 tail else sentinel head 0;
  alive = λ a. a == head || a == tail;
  next = 3;
  size = 0;
  capacity = 1024;
}

-- The digits that `%u` prints; the fuel bounds their number.
unfoldable pub decimal : ℕ → ℕ → List ℕ
decimal zero n = []
decimal (suc fuel) n =
    let rest = decimal fuel (n / 10) in
    if ltb n 10 then (48 + n) ∷ [] else rest ++ ((48 + n % 10) ∷ [])

-- `snprintf` with the format "%u|%u|%s".
unfoldable pub cache_key_create : List ℕ → ℕ → ℕ → List ℕ
cache_key_create qname qtype qclass = decimal 5 qclass ++ (124 ∷ (decimal 5 qtype ++ (124 ∷ qname)))

-- `(now - created_at) / 1000 >= ttl`, in signed arithmetic that rounds towards zero.
unfoldable pub is_rr_expired : ℕ → ℕ → ResourceRecord → Bool
is_rr_expired now created_at rr =
    if rr.ttl == 2 ^ 32 - 1
    then false
    else if leb created_at now
    then leb rr.ttl ((now - created_at) / 1000)
    else rr.ttl == 0 && ltb (created_at - now) 1000

unfoldable pub any_rr_expired : ℕ → ℕ → List ResourceRecord → Bool
unfolding is_rr_expired
any_rr_expired now created_at [] = false
any_rr_expired now created_at (rr ∷ rrs) =
    is_rr_expired now created_at rr || any_rr_expired now created_at rrs

unfoldable pub is_entry_expired : ℕ → CacheEntry → Bool
unfolding any_rr_expired
is_entry_expired now entry = any_rr_expired now entry.created_at entry.value.rrs

unfoldable pub set_hotter : (ℕ → CacheEntry) → ℕ → ℕ → ℕ → CacheEntry
set_hotter memory entry p = update memory entry (record (memory entry) { hotter = p })

unfoldable pub set_colder : (ℕ → CacheEntry) → ℕ → ℕ → ℕ → CacheEntry
set_colder memory entry p = update memory entry (record (memory entry) { colder = p })

-- The links of the store that `lru_remove` writes, in its order.
unfoldable pub lru_remove : (ℕ → CacheEntry) → ℕ → ℕ → CacheEntry
unfolding set_hotter set_colder
lru_remove memory entry =
    if (memory entry).hotter == 0 || (memory entry).colder == 0
    then memory
    else let m1 = set_colder memory (memory entry).hotter (memory entry).colder in
      let m2 = set_hotter m1 (m1 entry).colder (m1 entry).hotter in
      let m3 = set_hotter m2 entry 0 in set_colder m3 entry 0

-- The insertion of `lru_touch`, after the head.
unfoldable pub lru_insert : (ℕ → CacheEntry) → ℕ → ℕ → CacheEntry
unfolding set_hotter set_colder
lru_insert memory entry =
    let m1 = set_colder memory entry (memory head).colder in
    let m2 = set_hotter m1 entry head in
    let m3 = set_hotter m2 (m2 head).colder entry in set_colder m3 head entry

unfoldable pub lru_touch : (ℕ → CacheEntry) → ℕ → ℕ → CacheEntry
unfolding lru_remove lru_insert
lru_touch memory entry =
    if (memory entry).hotter == 0 || (memory entry).colder == 0
    then lru_insert memory entry
    else lru_insert (lru_remove memory entry) entry

-- The entry is freed after the table has dropped its key.
unfoldable pub cache_remove_entry : DnsCache → ℕ → DnsCache
unfolding lru_remove
cache_remove_entry c entry = record c {
  memory = lru_remove c.memory entry;
  table = hash_map_remove c.table (c.memory entry).key;
  alive = update c.alive entry false;
  size = c.size - 1;
}

-- The loop of `dns_cache_prune_locked`: the next entry is read before the entry may be freed. The
-- fuel bounds the entries.
unfoldable pub prune_loop : ℕ → ℕ → DnsCache → ℕ → DnsCache
unfolding cache_remove_entry is_entry_expired
prune_loop zero now c entry = c
prune_loop (suc fuel) now c entry = elim (entry == tail) [
  | true ↦ c
  | false ↦ elim (is_entry_expired now (c.memory entry)) [
    | true ↦ prune_loop fuel now (cache_remove_entry c entry) (c.memory entry).colder
    | false ↦ prune_loop fuel now c (c.memory entry).colder
  ]
]

unfoldable pub dns_cache_prune : ℕ → DnsCache → DnsCache
unfolding prune_loop
dns_cache_prune now c = prune_loop (c.size + 1) now c (c.memory head).colder

-- `cache_entry_create` at the next address, with the links cleared.
unfoldable pub cache_entry_create : ℕ → DnsCache → List ℕ → CacheValue → DnsCache
cache_entry_create now c key value = record c {
  memory =
      update c.memory c.next
        (record { key = key; value = value; created_at = now; hotter = 0; colder = 0 });
  alive = update c.alive c.next true;
  next = c.next + 1;
}

-- The coldest entry makes room in a full cache.
unfoldable pub evict_if_full : DnsCache → DnsCache
unfolding cache_remove_entry
evict_if_full c =
    if leb c.capacity c.size
    then if (c.memory tail).hotter == head then c else cache_remove_entry c (c.memory tail).hotter
    else c

-- The branch of `dns_cache_put` for a key that is not in the table, after the eviction.
unfoldable pub add_entry : ℕ → DnsCache → List ℕ → CacheValue → DnsCache
unfolding cache_entry_create lru_touch
add_entry now c key value =
    let c' = cache_entry_create now c key value in
    record c' {
      table = (hash_map_put c'.table key c.next).0;
      memory = lru_touch c'.memory c.next;
      size = c'.size + 1;
    }

-- The branch for a key that is there.
unfoldable pub renew_entry : ℕ → DnsCache → ℕ → CacheValue → DnsCache
unfolding lru_touch
renew_entry now c entry value = record c {
  memory =
      lru_touch
        (update c.memory entry (record (c.memory entry) { value = value; created_at = now })) entry;
}

-- `dns_cache_put` and `dns_cache_get` once the key is made.
unfoldable pub put_key : ℕ → DnsCache → List ℕ → CacheValue → DnsCache
unfolding hash_map_get evict_if_full add_entry renew_entry
put_key now c key value = elim (hash_map_get c.table key) [
  | none ↦ add_entry now (evict_if_full c) key value
  | some entry ↦ renew_entry now c entry value
]

unfoldable pub get_key : ℕ → DnsCache → List ℕ → DnsCache × Option CacheValue
unfolding hash_map_get is_entry_expired cache_remove_entry lru_touch
get_key now c key = elim (hash_map_get c.table key) [
  | none ↦ (c, none)
  | some entry ↦ elim (is_entry_expired now (c.memory entry)) [
    | true ↦ (cache_remove_entry c entry, none)
    | false ↦ (record c { memory = lru_touch c.memory entry }, some (c.memory entry).value)
  ]
]

unfoldable pub dns_cache_put : ℕ → DnsCache → List ℕ → ℕ → ℕ → CacheValue → DnsCache
unfolding put_key
dns_cache_put now c qname qtype qclass value =
    put_key now c (cache_key_create qname qtype qclass) value

-- `none` is the return value 1, a miss.
unfoldable pub dns_cache_get : ℕ → DnsCache → List ℕ → ℕ → ℕ → DnsCache × Option CacheValue
unfolding get_key
dns_cache_get now c qname qtype qclass = get_key now c (cache_key_create qname qtype qclass)
