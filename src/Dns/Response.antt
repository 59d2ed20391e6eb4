-- ===== src/Dns/Response.antt =====
-- src/dns/dns_resolver.c, the part that works on packets: the answers from the cache, the failure
-- responses, and the packets that are relayed. Logging and the freeing of packets are left out; a
-- packet is a value, so that `packet_clone`, `questions_clone` and `rrs_clone` are the identity.
pub mod Ancestors
pub mod Blocking
pub mod Local
pub mod Decide
mod Tests
use dns_relay.Base.{
  ℕ, zero, suc, ◌+◌, ◌-◌, Bool, true, false, ◌&&◌, ◌||◌, Option, none, some, List, [], ◌∷◌, length,
  get_or, drop, ◌>>=◌, ltb, ◌==◌, if◌then◌else◌,
}
use Prim.Native.Nat.{bit_and}
use dns_relay.Dns.Packet.{
  SectionHeader, SectionQuestion, ResourceRecord, DnsPacket, qr_set, opcode_get, rd_get, ra_set,
  set_rcode,
}
use dns_relay.Dns.Cache.{CacheValue, DnsCache, dns_cache_get, dns_cache_put}

-- The codes of `Rcode`, `OpCode` and `Qtype` that are used.
abbrev pub noerror : ℕ
noerror = 0

abbrev pub servfail : ℕ
servfail = 2

abbrev pub nxdomain : ℕ
nxdomain = 3

abbrev pub notimp : ℕ
notimp = 4

abbrev pub qtype_a : ℕ
qtype_a = 1

abbrev pub qtype_aaaa : ℕ
qtype_aaaa = 28

unfoldable pub make_response_empty : DnsPacket → DnsPacket
make_response_empty query = record {
  header = record (query.header) {
    flags = set_rcode (qr_set (ra_set query.header.flags)) noerror;
    answer_rrs = 0;
    authority_rrs = 0;
    additional_rrs = 0;
  };
  questions = query.questions;
  rrs = [];
}

unfoldable pub make_response_fail : DnsPacket → ℕ → DnsPacket
unfolding make_response_empty
make_response_fail query code =
    let response = make_response_empty query in
    record response {
      header = record (response.header) { flags = set_rcode response.header.flags code };
    }

unfoldable pub pack_make_inner_error : DnsPacket → DnsPacket
unfolding make_response_fail
pack_make_inner_error query = make_response_fail query servfail

-- The loop of `memallz` at the index `len`; it leaves `len` at the last byte that it read.
unfoldable pub memallz : List ℕ → ℕ → Bool
memallz mem zero = true
memallz mem (suc len) =
    let rest = memallz mem len in if get_or mem len 0 == 0 then rest else len == 0

-- A name in the wire format without its first label, `some none` where NULL is returned: for the
-- root, for a compression pointer, and where no label follows. The name is a C string, whose final
-- zero can be read; `none` stands for the read behind it, where the label is longer than the rest.
unfoldable pub get_parent_qname : List ℕ → Option (Option (List ℕ))
get_parent_qname [] = some none
get_parent_qname (label ∷ rest) =
    if bit_and label 0xc0 == 0xc0
    then some none
    else if ltb (length rest) label
    then none
    else some (if label == length rest then none else some (drop label rest))

-- The test of an answer that both validations make.
unfoldable pub is_blocking : ResourceRecord → Bool
unfolding memallz
is_blocking rr = (rr.rtype == qtype_a || rr.rtype == qtype_aaaa) && memallz rr.rdata rr.rdata_length

unfoldable pub any_blocking : List ResourceRecord → Bool
unfolding is_blocking
any_blocking [] = false
any_blocking (rr ∷ rrs) = is_blocking rr || any_blocking rrs

abbrev pub blocked_by : Option CacheValue → Bool
blocked_by none = false
blocked_by (some value) = any_blocking value.rrs

-- The loop of `query_pre_validate` over a name and its parents; each is shorter than the one before,
-- and the fuel bounds their number. `none` stands for the read behind a name, or too little fuel.
unfoldable pub pre_validate_loop :
    ℕ → ℕ → DnsCache → SectionQuestion → Option (List ℕ) → Option (DnsCache × ℕ)
pre_validate_loop zero now cache q parent_qname = none
pre_validate_loop (suc fuel) now cache q none = some (cache, noerror)
pre_validate_loop (suc fuel) now cache q (some name) =
    let r = dns_cache_get now cache name q.qtype q.qclass in
    elim (blocked_by r.1) [
      | true ↦ some (r.0, nxdomain)
      | false ↦ elim (get_parent_qname name) [
        | none ↦ none
        | some parent_qname ↦ pre_validate_loop fuel now r.0 q parent_qname
      ]
    ]

unfoldable pub query_pre_validate : ℕ → DnsCache → List SectionQuestion → Option (DnsCache × ℕ)
unfolding pre_validate_loop
query_pre_validate now cache [] = some (cache, noerror)
query_pre_validate now cache (q ∷ questions) =
    pre_validate_loop (suc (length q.qname + 1)) now cache q (some q.qname)

-- The loop of `query_post_validate` with `left` records to go: the code that is left of `code`, and
-- `none` where the list has no record and NULL is followed.
unfoldable pub post_validate_loop : ℕ → List ResourceRecord → ℕ → Option ℕ
unfolding is_blocking
post_validate_loop zero ans code = some code
post_validate_loop (suc left) [] code = none
post_validate_loop (suc left) (rr ∷ ans) code = elim (is_blocking rr) [
  | true ↦ some nxdomain
  | false ↦ post_validate_loop left ans code
]

unfoldable pub query_post_validate : DnsPacket → ℕ → Option ℕ
unfolding post_validate_loop
query_post_validate response code = post_validate_loop response.header.answer_rrs response.rrs code

unfoldable pub pack_make_query_relay : DnsPacket → ℕ → DnsPacket
pack_make_query_relay query_pack relay_id = record query_pack {
  header = record (query_pack.header) { id = relay_id };
}

unfoldable pub pack_make_std_response_local : DnsPacket → CacheValue → DnsPacket
unfolding make_response_empty
pack_make_std_response_local query cache =
    let pac = make_response_empty query in
    record pac {
      header = record (pac.header) {
        answer_rrs = cache.answer_rrs;
        authority_rrs = cache.authority_rrs;
        additional_rrs = cache.additional_rrs;
      };
      rrs = cache.rrs;
    }

-- The end of `pack_make_response_relay`, on the questions of the response.
unfoldable pub put_response :
    ℕ → DnsCache → DnsPacket → DnsPacket → List SectionQuestion → Option (DnsCache × DnsPacket)
put_response now cache recv send [] = none
put_response now cache recv send (q ∷ questions) = some (
  dns_cache_put now cache q.qname q.qtype q.qclass (record {
    answer_rrs = send.header.answer_rrs;
    authority_rrs = send.header.authority_rrs;
    additional_rrs = send.header.additional_rrs;
    rrs = recv.rrs;
  }),
  send,
)

-- The packet for the client, and the cache with the answer. `none` stands for the access to the
-- question of a response that has none, while the cache is in use.
unfoldable pub pack_make_response_relay :
    ℕ → Bool → DnsCache → DnsPacket → ℕ → Option (DnsCache × DnsPacket)
pack_make_response_relay now use_cache cache recv client_id =
    let send = record recv { header = record (recv.header) { id = client_id } } in
    if use_cache then put_response now cache recv send recv.questions else some (cache, send)

-- The end of the case QUERY, from the cached value or the miss.
unfoldable pub answer_from : DnsPacket → Option CacheValue → Option (Option DnsPacket)
unfolding make_response_empty make_response_fail pack_make_std_response_local query_post_validate
answer_from query none =
    some (if rd_get query.header.flags == 0 then some (make_response_empty query) else none)
answer_from query (some value) =
    let response = pack_make_std_response_local query value in
    do
      code ← query_post_validate response noerror
      some (some (if code == noerror then response else make_response_fail query code))

-- The case QUERY from the lookup on. `none` where there is no question and NULL is followed.
unfoldable pub answer_first :
    ℕ → DnsCache → DnsPacket → List SectionQuestion → Option (DnsCache × Option DnsPacket)
answer_first now cache query [] = none
answer_first now cache query (q ∷ questions) =
    let r = dns_cache_get now cache q.qname q.qtype q.qclass in
    do answer ← answer_from query r.1; some (r.0, answer)

-- The case QUERY of `pack_try_response_local` after the checks of the question count.
unfoldable pub answer_query : ℕ → DnsCache → DnsPacket → Option (DnsCache × Option DnsPacket)
answer_query now cache query = do
  pre ← query_pre_validate now cache query.questions
  elim (pre.1 == noerror) [
    | true ↦ answer_first now pre.0 query query.questions
    | false ↦ some (pre.0, some (make_response_fail query pre.1))
  ]

-- The inner `none` stands for UPSTREAM, `some` for CLIENT with the response. The result is `none`
-- where the C code reads behind a name or follows NULL.
unfoldable pub pack_try_response_local :
    ℕ → DnsCache → DnsPacket → Option (DnsCache × Option DnsPacket)
pack_try_response_local now cache query =
    let opcode = opcode_get query.header.flags in
    let answer = answer_query now cache query in
    if opcode == 0
    then if ltb 1 query.header.qcount
      then some (cache, some (make_response_fail query notimp))
      else if query.header.qcount == 0
      then some (cache, some (make_response_empty query))
      else answer
    else if opcode == 1 || opcode == 2
    then some (cache, some (make_response_fail query notimp))
    else some (cache, some (make_response_empty query))
