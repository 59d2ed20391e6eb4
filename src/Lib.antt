-- ===== src/Lib.antt =====
-- DnsRelay, a DNS relay server in C. A client's query is answered from a cache where that is
-- possible and is otherwise relayed, under an id of the relay's own, to one of several upstream
-- servers; a session remembers the client until the response or the last timeout. This library
-- models the parts of the server that keep state and decide, and proves what they promise.
--
-- The parts, from the bottom up (paths are those of the repository):
--   * Base: numbers, lists, options, comparisons and `int32_t`, shared by all.
--   * Stl (src/infra/stl.c, include/infra/stl.h): Stl.Key has the hash functions and
--     comparators; Stl.Vector the growing array; Stl.LinkedList
--     the doubly linked list over a store of nodes; Stl.HashMap the chained `HashMap` with its
--     resize; Stl.LazyHeap the heap with lazy deletion, whose elements are addresses in a
--     store.
--   * IdPool (src/dns/id_factory.c): the pool of 16-bit relay ids, a stack with marks.
--   * Dns.Packet (include/dns/protocol.h): packets and the macros on their flags.
--   * Dns.Wire (the first half of src/dns/dns_resolver.c, src/infra/utils.c): the wire format over
--     memory as a list of bytes. Memory has the byte order and the cursor of a serializer, Text
--     `encode_name` and `decode_name`, Name the names with compression pointers, Record the
--     questions and records, Message `pack_serialize` and `pack_deserialize`; Labels and Place
--     say what a name is and what stands where, and the modules in Trip what is read back.
--   * Dns.Cache (src/dns/dns_cache.c): `DnsCache`, a hash map over a doubly linked list of
--     entries in the order of their last use. Entries live in a store, and the links are
--     addresses. Its children are Links and Lru (the list), Invariant, Lookup
--     (`dns_cache_get`), Insert (`dns_cache_put`), Prune, Key (the text of the key) and
--     Questions, the view of its clients.
--   * Dns.Response (src/dns/dns_resolver.c, from `setRcode` on): `pack_try_response_local`, the
--     validations that block names, the failure responses and the relayed packets.
--   * Server.Session (src/server/session_factory.c): the sessions, in a hash map from relay ids
--     and in a heap ordered by time stamps. They live in a store where a freed address reads
--     `none`.
--   * Server.Loop (src/server/server.c): `handle_dns_packet`, `do_handle_timeout` and
--     `batch_timeout` over the id pool, the sessions and the cache; Batch has the whole of
--     `batch_timeout`.
--   * Server.Receive (src/server/server.c): `pack_recv`, the rounds of `server_loop` over the
--     datagrams and times that the system calls return, and sending over Dns.Wire.
--   * Infra.Config (src/infra/config_center.c): sections of entries that are parsed when they are
--     first read, in two layers of hash maps; File is the state machine of `config_load_file`.
--   * Infra.Exception (src/infra/exception.c): the record of an error on its way up.
-- The heap keeps its keys in a hash map, the sessions use both, and the server uses the
-- sessions, the pool, the responses and through them the cache; each uses only the laws of the
-- ones below.
--
-- Conventions. A function of C becomes a function of the same name that takes the state and
-- returns it; a NULL result is `none`. Addresses are numbers, and `malloc` returns the next
-- one and does not fail. The time that `sys_time_ms` returns is an argument, in
-- `batch_timeout` one for each call of it; sizes and capacities are natural numbers, so that
-- the overflow of an `int` past 2^31 when a capacity doubles is left out. Loops without a
-- bound of their own run on fuel: `down` on the size and `up` on the index (each round at
-- least doubles or halves it), `do_delete` on the size (each round drops an element), the
-- cache's walk on its size and one more (each round passes an entry), the search over the
-- parents of a name on its length and one more (each parent is shorter), the walk over the
-- labels of a field and the chain of its pointers on the length of the buffer and one more
-- (a walk that ends visits no place twice), the loop over the labels of a name on its length
-- and one more, and five digits for the decimal form of a 16-bit word. The theorems on these
-- functions have no hypothesis on fuel, except that `batch_timeout` has its fuel as an
-- argument: one more than the sessions whose time is up. Too little of it is `none` like a
-- fault, and `name_at` keeps the two apart. `lazy_heap_add` is treated for stamps that do
-- not decrease, which is how the sessions use it.
--
-- Parameters. `Setup` of Server.Loop has what the server reads from elsewhere: the wire
-- format (`serialize`), the socket (`transmit`, the outcome of each sending) and the
-- configuration. Server.Receive fills `serialize` with `pack_serialize`, for which a run
-- that leaves the memory gives no bytes, like the result -1. `config_get` takes the parser
-- that the registry of parsers yields for a section.
--
-- Not modelled: the registration of parsers in src/infra/config_center.c; packets and
-- upstreams are lists where the code has vectors and linked lists; the file of fixed
-- addresses of the cache; locks and threads (each operation of the cache runs under its
-- lock); sockets, logging, the release of memory except where a session or a cache entry is
-- freed, and the start-up in src/main.c.
pub mod Base
pub mod IdPool
pub mod Stl
pub mod Dns
pub mod Server
pub mod Infra
