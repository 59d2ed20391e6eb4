-- ===== src/Dns/Wire/Message.antt =====
-- `pack_serialize` and `pack_deserialize`. Logging is left out.
use dns_relay.Base.{
  ℕ, ◌+◌, true, false, ◌||◌, Option, none, some, List, [], ◌++◌, length, ltb, ◌>>=◌,
}
use dns_relay.Dns.Packet.{SectionHeader, DnsPacket}
use dns_relay.Dns.Wire.Memory.{Output, h2n_2, n2h_2, put}
use dns_relay.Dns.Wire.Record.{
  questions_serialize, questions_deserialize, rrs_serialize, rrs_deserialize,
}

-- The header in memory after `header_endian_2n`: six words.
unfoldable pub header_endian_2n : SectionHeader → List ℕ
unfolding h2n_2
header_endian_2n header =
    h2n_2 header.id
    ++ h2n_2 header.flags
    ++ h2n_2 header.qcount
    ++ h2n_2 header.answer_rrs
    ++ h2n_2 header.authority_rrs
    ++ h2n_2 header.additional_rrs

unfoldable pub header_endian_2h : List ℕ → Option SectionHeader
unfolding n2h_2
header_endian_2h raw = do
  id ← n2h_2 raw
  flags ← n2h_2 id.1
  qcount ← n2h_2 flags.1
  answer_rrs ← n2h_2 qcount.1
  authority_rrs ← n2h_2 answer_rrs.1
  additional_rrs ← n2h_2 authority_rrs.1
  some (record {
    id = id.0;
    flags = flags.0;
    qcount = qcount.0;
    answer_rrs = answer_rrs.0;
    authority_rrs = authority_rrs.0;
    additional_rrs = additional_rrs.0;
  })

abbrev pub rr_count : SectionHeader → ℕ
rr_count header = header.answer_rrs + header.authority_rrs + header.additional_rrs

-- The result: the buffer with the cursor at the end of the packet, or `some none` for -1.
unfoldable pub pack_serialize : DnsPacket → List ℕ → ℕ → Option (Option Output)
unfolding header_endian_2n put questions_serialize rrs_serialize
pack_serialize dns_pack packet_buf buf_size = do
  o ← put (record { written = []; room = packet_buf }) (header_endian_2n dns_pack.header)
  elim (ltb buf_size (length o.written)) [
    | true ↦ some none
    | false ↦ do
      o1 ← questions_serialize o dns_pack.questions dns_pack.header.qcount
      elim (ltb buf_size (length o1.written)) [
        | true ↦ some none
        | false ↦ do
          o2 ← rrs_serialize o1 dns_pack.rrs (rr_count dns_pack.header) buf_size
          some (some o2)
      ]
  ]

-- The packet of `len` bytes at the start of the buffer, or `some none` for -1. What follows it in
-- the buffer is read, too, if the counts of the header ask for it.
unfoldable pub pack_deserialize : List ℕ → ℕ → Option (Option DnsPacket)
unfolding header_endian_2h questions_deserialize rrs_deserialize
pack_deserialize raw_pack len = elim (ltb 512 len || ltb len 12) [
  | true ↦ some none
  | false ↦ do
    header ← header_endian_2h raw_pack
    questions ← questions_deserialize raw_pack 12 header.qcount
    rrs ← rrs_deserialize raw_pack questions.1 (rr_count header)
    some (some (record { header = header; questions = questions.0; rrs = rrs.0 }))
]
