-- ===== src/Dns/Packet/Flags.antt =====
-- The macros on the flag word of a header.
use Prim.Native.Nat.{bit_and, bit_or, bit_xor}
use dns_relay.Base.{ℕ, ◌/◌, ◌^◌}

-- `IS_QUERY`: on a 16-bit word 1 for a query, 0 for a response.
unfoldable pub is_query : ℕ → ℕ
is_query flags = bit_xor (flags / 2 ^ 15) 1

unfoldable pub qr_set : ℕ → ℕ
qr_set flags = bit_or flags 0x8000

unfoldable pub opcode_get : ℕ → ℕ
opcode_get flags = bit_and (flags / 2 ^ 12) 0xf

unfoldable pub rd_get : ℕ → ℕ
rd_get flags = bit_and (flags / 2 ^ 8) 1

unfoldable pub ra_set : ℕ → ℕ
ra_set flags = bit_or flags 0x0080

unfoldable pub rcode : ℕ → ℕ
rcode flags = bit_and flags 0xf

-- `setRcode` on the flag word.
unfoldable pub set_rcode : ℕ → ℕ → ℕ
set_rcode flags code = bit_or (bit_and flags 0xfff0) (bit_and 0x000f code)
