-- ===== src/Dns/Wire/Tests.antt =====
-- The codec at a packet with a compressed name, and at the packets on which it fails.
use dns_relay.Base.{
  ℕ, ◌≡◌, ◌+◌, ◌<◌, ◌↔◌, refl, true, false, none, some, List, [], ◌∷◌, ◌++◌, length, replicate, All,
  arith,
}
use dns_relay.Dns.Packet.{ResourceRecord, DnsPacket}
use dns_relay.Dns.Wire.Memory.{h2n_2, h2n_4, put, next_label}
use dns_relay.Dns.Wire.Text.{encode_name, decode_name}
use dns_relay.Dns.Wire.Name.{
  name_at, name_deserialize, equals, find_loop, find_previous_name, suffix_loop, name_serialize,
}
use dns_relay.Dns.Wire.Record.{rr_serialize}
use dns_relay.Dns.Wire.Message.{header_endian_2n, pack_serialize}
use dns_relay.Dns.Wire.Labels.{wire, join, IsLabel}
use dns_relay.Dns.Wire.TextSplit.{split, encoding, encode_name-encoding}
use dns_relay.Dns.Wire.TextTrip.{Plain, decode_name-encode_name}
use dns_relay.Dns.Wire.NameRead.{Encodes, ended, pointer, name_deserialize-Encodes}
use dns_relay.Dns.Wire.QuestionTrip.{questions_bytes}
use dns_relay.Dns.Wire.RecordData.{a_name, some_bytes}
use dns_relay.Dns.Wire.RecordsTrip.{all_settled}
use dns_relay.Dns.Wire.MessageTrip.{
  IsPacket, RoundTrips, before_records, pack_deserialize-pack_serialize,
}
use dns_relay.Dns.Wire.Limits.{pack_serialize_rejects, name_at_self}

abbrev ab : List ℕ
ab = 97 ∷ 98 ∷ []

abbrev ab-IsLabel : IsLabel ab
ab-IsLabel = record {
  nonempty = omega arith;
  short = omega arith;
  nonzero = ((λ e. omega (arith, e)), ((λ e. omega (arith, e)), tt));
}

abbrev names : List (List ℕ)
names = ab ∷ ab ∷ []

abbrev names-AreLabels : All IsLabel names
names-AreLabels = (ab-IsLabel, (ab-IsLabel, tt))

ab-Plain : Plain ab
ab-Plain = ((λ e. omega (arith, e)), ((λ e. omega (arith, e)), tt))

decode_name-encode_name_example :
    (encode_name (join names) ≡ some (wire names ++ 0 ∷ []))
    × (decode_name (wire names ++ 0 ∷ []) ≡ some (some (join names)))
decode_name-encode_name_example =
    decode_name-encode_name names names-AreLabels (ab-Plain, (ab-Plain, tt)) (omega arith)

encode_name-encoding_example :
    encode_name (97 ∷ 46 ∷ 98 ∷ []) ≡ encoding (split (97 ∷ 46 ∷ 98 ∷ []))
encode_name-encoding_example = encode_name-encoding 97 (46 ∷ 98 ∷ [])

-- "ab" at the offset 0, and "ab.ab" by a label and a pointer at the offset 4.
abbrev pointed : List ℕ
pointed = 2 ∷ 97 ∷ 98 ∷ 0 ∷ 2 ∷ 97 ∷ 98 ∷ 192 ∷ 0 ∷ []

pointed-Encodes : Encodes pointed 4 names 5
unfolding wire
pointed-Encodes =
    pointer 4 (ab ∷ []) (ab ∷ []) 0 0 4 (ab-IsLabel, tt) (ab-IsLabel, tt) (omega arith)
      (omega arith) (omega arith)
      (record { before = 2 ∷ 97 ∷ 98 ∷ 0 ∷ []; after = []; parts = refl; place = refl })
      (ended 0 (ab ∷ []) (ab-IsLabel, tt)
        (record { before = []; after = 2 ∷ 97 ∷ 98 ∷ 192 ∷ 0 ∷ []; parts = refl; place = refl }))

name_deserialize-Encodes_example : name_deserialize pointed 4 ≡ some (wire names, 5)
name_deserialize-Encodes_example = name_deserialize-Encodes pointed 4 names 5 pointed-Encodes

abbrev answer : ResourceRecord
answer = record {
  name = 2 ∷ 97 ∷ 98 ∷ [];
  rtype = 1;
  rclass = 1;
  ttl = 300;
  rdata_length = 4;
  rdata = 10 ∷ 0 ∷ 2 ∷ 97 ∷ [];
}

abbrev alias : ResourceRecord
alias = record {
  name = 2 ∷ 97 ∷ 98 ∷ [];
  rtype = 5;
  rclass = 1;
  ttl = 70000;
  rdata_length = 4;
  rdata = 2 ∷ 97 ∷ 98 ∷ 0 ∷ [];
}

abbrev response : DnsPacket
response = record {
  header = record {
    id = 4660;
    flags = 0x8180;
    qcount = 1;
    answer_rrs = 2;
    authority_rrs = 0;
    additional_rrs = 0;
  };
  questions = (record { qname = 2 ∷ 97 ∷ 98 ∷ []; qtype = 1; qclass = 1 }) ∷ [];
  rrs = alias ∷ answer ∷ [];
}

response-IsPacket : IsPacket response
unfolding wire
response-IsPacket = record {
  header_words = record {
    id_word = omega arith;
    flags_word = omega arith;
    qcount_word = omega arith;
    answer_word = omega arith;
    authority_word = omega arith;
    additional_word = omega arith;
  };
  questions_counted = refl;
  rrs_counted = refl;
  are_questions = (
    record {
      qname_string =
          ((λ e. omega (arith, e)), ((λ e. omega (arith, e)), ((λ e. omega (arith, e)), tt)));
      qtype_word = omega arith;
      qclass_word = omega arith;
    },
    tt,
  );
  are_records = (
    record {
      labels = ab ∷ [];
      are_labels = (ab-IsLabel, tt);
      named = refl;
      rtype_word = omega arith;
      rclass_word = omega arith;
      ttl_word = omega arith;
      length_word = omega arith;
      measured = refl;
      data_of = a_name (ab ∷ []) refl (ab-IsLabel, tt) refl;
    },
    (
      record {
        labels = ab ∷ [];
        are_labels = (ab-IsLabel, tt);
        named = refl;
        rtype_word = omega arith;
        rclass_word = omega arith;
        ttl_word = omega arith;
        length_word = omega arith;
        measured = refl;
        data_of = some_bytes refl refl;
      },
      tt,
    ),
  );
}

abbrev send_buf : List ℕ
send_buf = replicate 100 0

response_settled : all_settled (before_records response send_buf) (response.rrs) ≡ true
unfolding h2n_2 h2n_4 put next_label equals find_loop find_previous_name suffix_loop name_serialize
    rr_serialize header_endian_2n
response_settled = refl

pack_deserialize-pack_serialize_example : RoundTrips response send_buf 100
unfolding h2n_2
pack_deserialize-pack_serialize_example =
    pack_deserialize-pack_serialize response send_buf 100 response-IsPacket (omega arith)
      (omega arith) (omega arith) response_settled

pack_serialize_rejects_example :
    (pack_serialize response send_buf 20 ≡ some none)
    ↔ (20 < 12 + length (questions_bytes (response.questions)))
unfolding h2n_2
pack_serialize_rejects_example = pack_serialize_rejects response send_buf 20 refl (omega arith)

-- The label "ab" and a pointer to the start of the name.
abbrev looping : List ℕ
looping = 2 ∷ 97 ∷ 98 ∷ 192 ∷ 0 ∷ []

name_at_self_example : name_at 1000 looping 0 ≡ none
unfolding wire
name_at_self_example =
    name_at_self 1000 looping (ab ∷ []) 0 0 0 (ab-IsLabel, tt) (omega arith) (omega arith) refl
      (record { before = []; after = []; parts = refl; place = refl })

-- The data of the first record ends with the bytes of the second name, and the zero byte is the
-- one that the pointer then overwrites.
abbrev crossing : List ResourceRecord
crossing =
    (record {
      name = [];
      rtype = 1;
      rclass = 1;
      ttl = 0;
      rdata_length = 4;
      rdata = 10 ∷ 2 ∷ 97 ∷ 98 ∷ [];
    })
    ∷ answer
    ∷ []

crossing_unsettled :
    all_settled (record { written = replicate 12 0; room = send_buf }) crossing ≡ false
unfolding h2n_2 h2n_4 put next_label equals find_loop find_previous_name suffix_loop name_serialize
    rr_serialize header_endian_2n
crossing_unsettled = refl
