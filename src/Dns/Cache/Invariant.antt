-- ===== src/Dns/Cache/Invariant.antt =====
-- The invariant of the cache: the list and the table hold the same entries.
use dns_relay.Base.{
  ℕ, ◌+◌, ◌-◌, ◌≤◌, ◌<◌, ◌≡◌, ◌≢◌, inl, inr, true, false, Option, some, List, arith, Bool-cases,
  sym, ◌∙◌, ap,
}
use dns_relay.Stl.Key.{str_key, str_equal, str_equal_iff}
use dns_relay.Stl.HashMap.{hash_map_get}
use dns_relay.Stl.HashMap.Laws
use dns_relay.Dns.Cache.{DnsCache, lru_touch, cache_remove_entry}
use dns_relay.Dns.Cache.Links
use dns_relay.Dns.Cache.Lru

abbrev pub indexed : DnsCache → List ℕ → Option ℕ
indexed c key = hash_map_get c.table key

-- All of the invariant, for an enumeration of the list.
pub record IsListed (node place : ℕ → ℕ) (c : DnsCache) : Type 0 where
  pub links : Lru.IsLinked node place c.size c.memory
  pub open links use *
  pub table : Laws.IsValid c.table
  pub keyed : (i : ℕ) → 0 < i → i ≤ c.size → indexed c (c.memory (node i)).key ≡ some (node i)
  pub listed :
      (key : List ℕ) (e : ℕ)
      → indexed c key ≡ some e
      → (0 < place e) × (place e ≤ c.size) × (node (place e) ≡ e) × ((c.memory e).key ≡ key)
  pub live : (i : ℕ) → i ≤ c.size + 1 → c.alive (node i) ≡ true
  pub below : (i : ℕ) → i ≤ c.size + 1 → node i < c.next
  pub room : c.size ≤ c.capacity
  pub some_room : 0 < c.capacity

-- The entries of the list and of the table are the same, each under its own key; no more of them
-- than the capacity; each is allocated.
unfoldable pub IsValid : DnsCache → Type 0
IsValid c = (node : ℕ → ℕ) × (place : ℕ → ℕ) × IsListed node place c

-- Entries are equal only to themselves: their keys differ.
keys-differ :
    (node place : ℕ → ℕ) (c : DnsCache)
    → IsListed node place c
    → (i j : ℕ) → 0 < i
    → i ≤ c.size
    → 0 < j
    → j ≤ c.size
    → i ≢ j
    → str_equal (c.memory (node i)).key (c.memory (node j)).key ≡ false
keys-differ node place c v i j i0 il j0 jl ne =
    elim (Bool-cases (str_equal (c.memory (node i)).key (c.memory (node j)).key)) [
      | inl same ↦
          let e = (str_equal_iff (c.memory (node i)).key (c.memory (node j)).key).0 same in
          let n : node i ≡ node j = ground (arith, v.keyed i i0 il, v.keyed j j0 jl, e) in
          absurd (ne (sym (v.placed i (omega arith)) ∙ ap place n ∙ v.placed j (omega arith)))
      | inr other ↦ other
    ]

pub touched-IsListed :
    (node place : ℕ → ℕ) (c : DnsCache) (k : ℕ)
    → IsListed node place c
    → 0 < k
    → k ≤ c.size
    → IsListed
        (Lru.push_node (Lru.skip_node node k) (node k))
        (Lru.push_place (Lru.skip_place place k) (node k))
        (record c { memory = lru_touch c.memory (node k) })
touched-IsListed node place c k v p h =
    let same = Lru.lru_touch-IsSame c.memory (node k) in
    record {
      links = Lru.lru_touch-IsLinked node place c.size k c.memory p h v.links;
      table = v.table;
      keyed = λ i i0 il. ground (
        arith,
        (same (Lru.push_node (Lru.skip_node node k) (node k) i)).key,
        v.keyed k p h,
        v.keyed (i - 1),
        v.keyed i,
      );
      listed = λ key e o.
          ground (arith, v.listed key e o, (same e).key, v.placed k, v.first, v.placed 0);
      live = λ i b. ground (arith, v.first, v.live 0, v.live k, v.live (i - 1), v.live i);
      below = λ i b. ground (arith, v.first, v.below 0, v.below k, v.below (i - 1), v.below i);
      room = v.room;
      some_room = v.some_room;
    }

pub removed-IsListed :
    (node place : ℕ → ℕ) (c : DnsCache) (k : ℕ)
    → IsListed node place c
    → 0 < k
    → k ≤ c.size
    → IsListed (Lru.skip_node node k) (Lru.skip_place place k) (cache_remove_entry c (node k))
unfolding cache_remove_entry
removed-IsListed node place c k v p h =
    let (t, reads) = Laws.remove-IsValid c.table (c.memory (node k)).key v.table in
    let same = Links.lru_remove-IsSame c.memory (node k) in
    record {
      links = Lru.lru_remove-IsLinked node place c.size k c.memory p h v.links;
      table = t;
      keyed = λ i i0 il. ground (
        arith,
        (same (Lru.skip_node node k i)).key,
        reads (c.memory (Lru.skip_node node k i)).key,
        keys-differ node place c v k i p h i0,
        keys-differ node place c v k (i + 1) p h,
        v.keyed i,
        v.keyed (i + 1),
      );
      listed = λ key e o. ground (
        arith,
        reads key,
        str_equal_iff (c.memory (node k)).key key,
        v.listed key e,
        (same e).key,
        v.placed k,
      );
      live =
          λ i b. ground (arith, v.placed k, v.placed i, v.placed (i + 1), v.live i, v.live (i + 1));
      below = λ i b. ground (arith, v.below i, v.below (i + 1));
      room = ground (arith, v.room);
      some_room = v.some_room;
    }
