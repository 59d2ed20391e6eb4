-- ===== src/Dns/Packet/Tests.antt =====
-- The macros at concrete flag words.
use dns_relay.Base.{◌≡◌, refl, ℕ}
use dns_relay.Dns.Packet.{is_query, qr_set, opcode_get, rd_get, ra_set, set_rcode}

abbrev query_flags : ℕ
query_flags = 0x0100

query_is_query : is_query query_flags ≡ 1
unfolding is_query
query_is_query = refl

query_asks_recursion : rd_get query_flags ≡ 1
unfolding rd_get
query_asks_recursion = refl

response_flags : set_rcode (qr_set (ra_set query_flags)) 3 ≡ 0x8183
unfolding set_rcode qr_set ra_set
response_flags = refl

response_is_no_query : is_query 0x8183 ≡ 0
unfolding is_query
response_is_no_query = refl

status_opcode : opcode_get 0x2000 ≡ 2
unfolding opcode_get
status_opcode = refl
