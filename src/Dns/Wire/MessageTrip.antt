-- ===== src/Dns/Wire/MessageTrip.antt =====
-- Packets: what `pack_serialize` writes, `pack_deserialize` reads back.
use dns_relay.Base.{
  ℕ, ◌+◌, ◌-◌, ◌*◌, ◌/◌, ◌%◌, ◌^◌, ◌<◌, ◌≤◌, ◌≡◌, refl, ap, sym, subst, ◌∙◌, true, false, ◌||◌,
  some, List, [], ◌++◌, length, All, ◌>>=◌, arith, append_assoc, length-append, ltb,
}
use dns_relay.Dns.Packet.{SectionHeader, DnsPacket}
use dns_relay.Dns.Wire.Memory.{Output, h2n_2, put}
use dns_relay.Dns.Wire.Record.{
  questions_serialize, questions_deserialize, rrs_serialize, rrs_deserialize,
}
use dns_relay.Dns.Wire.Message.{
  header_endian_2n, header_endian_2h, rr_count, pack_serialize, pack_deserialize,
}
use dns_relay.Dns.Wire.Place.{At, At-here, after, put-after, length-room}
use dns_relay.Dns.Wire.QuestionTrip.{
  IsQuestion, questions_bytes, questions_serialize-bytes, questions_deserialize-At,
}
use dns_relay.Dns.Wire.RecordData.{IsRecord}
use dns_relay.Dns.Wire.RecordsTrip.{records_size, all_settled, rrs_serialize-RecordsWritten}

pub record IsHeader (h : SectionHeader) : Type 0 where
  pub id_word : h.id < 2 ^ 16
  pub flags_word : h.flags < 2 ^ 16
  pub qcount_word : h.qcount < 2 ^ 16
  pub answer_word : h.answer_rrs < 2 ^ 16
  pub authority_word : h.authority_rrs < 2 ^ 16
  pub additional_word : h.additional_rrs < 2 ^ 16

word : (n : ℕ) → n < 2 ^ 16 → n / 256 % 256 * 256 + n % 256 ≡ n
word n h = omega arith

header_endian_2h-2n :
    (h : SectionHeader) (r : List ℕ)
    → IsHeader h
    → header_endian_2h (header_endian_2n h ++ r) ≡ some h
unfolding header_endian_2h header_endian_2n
header_endian_2h-2n h r k =
    rw
      (
        word h.id k.id_word,
        word h.flags k.flags_word,
        word h.qcount k.qcount_word,
        word h.answer_rrs k.answer_word,
        word h.authority_rrs k.authority_word,
        word h.additional_rrs k.additional_word,
      )
      refl

pub length-header : (h : SectionHeader) → length (header_endian_2n h) ≡ 12
unfolding header_endian_2n h2n_2
length-header h = omega arith

-- A packet with the counts of its lists in the header, and with what the wire can carry in these.
pub record IsPacket (p : DnsPacket) : Type 0 where
  pub header_words : IsHeader p.header
  pub questions_counted : p.header.qcount ≡ length p.questions
  pub rrs_counted : rr_count p.header ≡ length p.rrs
  pub are_questions : All IsQuestion p.questions
  pub are_records : All IsRecord p.rrs

-- The bytes of the packet without compression.
abbrev pub packet_size : DnsPacket → ℕ
packet_size p = 12 + length (questions_bytes p.questions) + records_size p.rrs

abbrev pub empty : List ℕ → Output
empty buf = record { written = []; room = buf }

-- The buffer when the first record is written.
abbrev pub before_records : DnsPacket → List ℕ → Output
before_records p buf =
    after (after (empty buf) (header_endian_2n p.header)) (questions_bytes p.questions)

pack_steps :
    (p : DnsPacket) (buf : List ℕ) (buf_size : ℕ) (o1 o2 o3 : Output)
    → put (empty buf) (header_endian_2n p.header) ≡ some o1
    → length o1.written ≤ buf_size
    → questions_serialize o1 p.questions p.header.qcount ≡ some o2
    → length o2.written ≤ buf_size
    → rrs_serialize o2 p.rrs (rr_count p.header) buf_size ≡ some o3
    → pack_serialize p buf buf_size ≡ some (some o3)
unfolding pack_serialize
pack_steps p buf buf_size o1 o2 o3 e1 h1 e2 h2 e3 =
    let fits1 : ltb buf_size (length o1.written) ≡ false = ground arith in
    let fits2 : ltb buf_size (length o2.written) ≡ false = ground arith in
    rw (e1, ◌>>=◌, fits1, e2, fits2, e3) refl

unpack_steps :
    (raw : List ℕ) (len mid end : ℕ) (p : DnsPacket)
    → 12 ≤ len
    → len ≤ 512
    → header_endian_2h raw ≡ some p.header
    → questions_deserialize raw 12 p.header.qcount ≡ some (p.questions, mid)
    → rrs_deserialize raw mid (rr_count p.header) ≡ some (p.rrs, end)
    → pack_deserialize raw len ≡ some (some p)
unfolding pack_deserialize
unpack_steps raw len mid end p low high e1 e2 e3 =
    let sized : (ltb 512 len || ltb len 12) ≡ false = ground arith in
    rw (pack_deserialize, sized, e1, ◌>>=◌, e2, e3) refl

flat : (a b c r : List ℕ) → ((a ++ b) ++ c) ++ r ≡ a ++ (b ++ (c ++ r))
flat a b c r = append_assoc (a ++ b) c r ∙ append_assoc a b (c ++ r)

header_read :
    (h : SectionHeader) (b c r : List ℕ)
    → IsHeader h
    → header_endian_2h (((header_endian_2n h ++ b) ++ c) ++ r) ≡ some h
header_read h b c r k =
    ap header_endian_2h (flat (header_endian_2n h) b c r) ∙ header_endian_2h-2n h (b ++ (c ++ r)) k

questions_read :
    (p : DnsPacket) (c r : List ℕ) (mid : ℕ)
    → IsPacket p
    → mid ≡ 12 + length (questions_bytes p.questions)
    → questions_deserialize
        (((header_endian_2n p.header ++ questions_bytes p.questions) ++ c) ++ r)
        12
        p.header.qcount
      ≡ some (p.questions, mid)
questions_read p c r mid k e =
    let hb = header_endian_2n p.header in
    let qb = questions_bytes p.questions in
    let at : At (((hb ++ qb) ++ c) ++ r) 12 qb =
      subst (λ i. At (((hb ++ qb) ++ c) ++ r) i qb) (length-header p.header)
        (subst (λ m. At m (length hb) qb) (sym (flat hb qb c r)) (At-here hb qb (c ++ r))) in
    ap (questions_deserialize (((hb ++ qb) ++ c) ++ r) 12) k.questions_counted
    ∙ questions_deserialize-At (((hb ++ qb) ++ c) ++ r) 12 p.questions k.are_questions at
    ∙ ap (λ i. some (p.questions, i)) (sym e)

-- The packet goes through a buffer of a size and comes back, whatever follows it in memory.
pub record RoundTrips (p : DnsPacket) (buf : List ℕ) (buf_size : ℕ) : Type 0 where
  pub out : Output
  pub sent : pack_serialize p buf buf_size ≡ some (some out)
  pub bounded : length out.written ≤ packet_size p
  pub received :
      (r : List ℕ) → pack_deserialize (out.written ++ r) (length out.written) ≡ some (some p)

-- For a packet of at most 512 bytes before compression, with the counts of its lists in the
-- header, names of labels of 1 to 63 bytes without zero bytes, questions, and records of a type
-- other than MX whose data is a plain name for NS and CNAME, in a buffer that has room for it and
-- in which the name search of every record finds nothing or a place that ends before the cursor:
-- pack_serialize succeeds, writes at most that many bytes, and pack_deserialize of them gives the
-- packet back, whatever follows them in memory.
pub pack_deserialize-pack_serialize :
    (p : DnsPacket) (buf : List ℕ) (buf_size : ℕ)
    → IsPacket p
    → packet_size p ≤ 512
    → packet_size p ≤ length buf
    → packet_size p ≤ buf_size
    → all_settled (before_records p buf) p.rrs ≡ true
    → RoundTrips p buf buf_size
pack_deserialize-pack_serialize p buf buf_size k small room fits settled =
    let hb = header_endian_2n p.header in
    let qb = questions_bytes p.questions in
    let o1 = after (empty buf) hb in
    let o2 = before_records p buf in
    let n : length hb ≡ 12 = length-header p.header in
    let room1 : length o1.room ≡ length buf - 12 = omega (arith, n, length-room (empty buf) hb) in
    let n2 : length o2.written ≡ 12 + length qb = omega (arith, n, length-append hb qb) in
    let questions = questions_serialize-bytes o1 p.questions (omega (arith, room1)) in
    let v =
      rrs_serialize-RecordsWritten o2 p.rrs buf_size k.are_records (omega (arith, n2))
        (omega (arith, n2)) (omega (arith, n2)) (omega (arith, room1, length-room o1 qb)) settled in
    let total : length ((hb ++ qb) ++ v.bytes) ≡ 12 + length qb + length v.bytes =
      omega (arith, n2, length-append (hb ++ qb) v.bytes) in
    record {
      out = after o2 v.bytes;
      sent =
          pack_steps p buf buf_size o1 o2 (after o2 v.bytes)
            (put-after (empty buf) hb (omega (arith, n))) (omega (arith, n))
            (ap (questions_serialize o1 p.questions) k.questions_counted ∙ questions)
            (omega (arith, n2))
            (ap (λ c. rrs_serialize o2 p.rrs c buf_size) k.rrs_counted ∙ v.result);
      bounded = omega (arith, total, v.short);
      received = λ r.
          let raw = ((hb ++ qb) ++ v.bytes) ++ r in
          unpack_steps raw (length ((hb ++ qb) ++ v.bytes)) (length o2.written) _ p
            (omega (arith, total)) (omega (arith, total, v.short))
            (header_read p.header qb v.bytes r k.header_words) (questions_read p v.bytes r _ k n2)
            (ap (rrs_deserialize raw (length o2.written)) k.rrs_counted ∙ v.reads r);
    }
