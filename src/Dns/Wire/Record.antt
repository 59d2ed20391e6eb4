-- ===== src/Dns/Wire/Record.antt =====
-- Questions and resource records on the wire. A reader returns what it read and the index after it.
use dns_relay.Base.{
  ℕ, zero, suc, ◌+◌, ◌%◌, ◌^◌, Bool, true, false, Option, none, some, List, [], ◌∷◌, ◌++◌, length,
  take, drop, leb, ltb, ◌==◌, if◌then◌else◌, ◌>>=◌,
}
use dns_relay.Dns.Packet.{SectionQuestion, ResourceRecord}
use dns_relay.Dns.Wire.Memory.{Output, h2n_2, h2n_4, n2h_2, n2h_4, put, c_str}
use dns_relay.Dns.Wire.Name.{name_deserialize, name_serialize}

unfoldable pub question_serialize : Output → SectionQuestion → Option Output
unfolding put h2n_2
question_serialize o question = do
  o1 ← put o (question.qname ++ 0 ∷ [])
  o2 ← put o1 (h2n_2 question.qtype)
  put o2 (h2n_2 question.qclass)

unfoldable pub question_deserialize : List ℕ → ℕ → Option (SectionQuestion × ℕ)
unfolding c_str n2h_2
question_deserialize buf cur = do
  qname ← c_str (drop cur buf)
  qtype ← n2h_2 (drop (cur + (length qname + 1)) buf)
  qclass ← n2h_2 qtype.1
  some (record { qname = qname; qtype = qtype.0; qclass = qclass.0 }, cur + (length qname + 1) + 4)

-- `vector_get` past the end gives NULL, and reading that is `none`.
unfoldable pub questions_serialize : Output → List SectionQuestion → ℕ → Option Output
unfolding question_serialize
questions_serialize o questions zero = some o
questions_serialize o [] (suc qc) = none
questions_serialize o (question ∷ questions) (suc qc) = do
  o1 ← question_serialize o question
  questions_serialize o1 questions qc

unfoldable pub questions_deserialize : List ℕ → ℕ → ℕ → Option (List SectionQuestion × ℕ)
unfolding question_deserialize
questions_deserialize buf cur zero = some ([], cur)
questions_deserialize buf cur (suc qc) = do
  first ← question_deserialize buf cur
  rest ← questions_deserialize buf first.1 qc
  some (first.0 ∷ rest.0, rest.1)

-- The types whose data is a name: QTYPE_NS and QTYPE_CNAME.
abbrev pub is_name_type : ℕ → Bool
is_name_type rtype = if rtype == 5 then true else rtype == 2

abbrev pub qtype_mx : ℕ
qtype_mx = 15

-- The data of a record, `rdata_length` bytes on the wire. For an MX record the code copies the
-- preference over the pointer `rr->rdata` itself and then writes through that pointer.
unfoldable pub rdata_deserialize : List ℕ → ℕ → ℕ → ℕ → Option (List ℕ)
unfolding name_deserialize
rdata_deserialize buf cur rtype rdata_length = elim (is_name_type rtype) [
  | true ↦ do name ← name_deserialize buf cur; some (name.0 ++ 0 ∷ [])
  | false ↦
      if rtype == qtype_mx
      then none
      else if leb rdata_length (length (drop cur buf))
      then some (take rdata_length (drop cur buf))
      else none
]

-- The index after the record is the one after the data on the wire.
unfoldable pub rr_deserialize : List ℕ → ℕ → Option (ResourceRecord × ℕ)
unfolding name_deserialize n2h_2 n2h_4 rdata_deserialize
rr_deserialize buf cur = do
  name ← name_deserialize buf cur
  rtype ← n2h_2 (drop (cur + name.1) buf)
  rclass ← n2h_2 rtype.1
  ttl ← n2h_4 rclass.1
  rlen ← n2h_2 ttl.1
  rdata ← rdata_deserialize buf (cur + name.1 + 10) rtype.0 rlen.0
  some (
    record {
      name = name.0;
      rtype = rtype.0;
      rclass = rclass.0;
      ttl = ttl.0;
      rdata_length = if is_name_type rtype.0 then length rdata % 2 ^ 16 else rlen.0;
      rdata = rdata;
    },
    cur + name.1 + 10 + rlen.0,
  )

unfoldable pub rrs_deserialize : List ℕ → ℕ → ℕ → Option (List ResourceRecord × ℕ)
unfolding rr_deserialize
rrs_deserialize buf cur zero = some ([], cur)
rrs_deserialize buf cur (suc cnt) = do
  first ← rr_deserialize buf cur
  rest ← rrs_deserialize buf first.1 cnt
  some (first.0 ∷ rest.0, rest.1)

-- The data is `rdata_length` bytes at `rdata`.
unfoldable pub rr_serialize : Output → ResourceRecord → Option Output
unfolding name_serialize put h2n_2 h2n_4
rr_serialize o rr = do
  o1 ← name_serialize o rr.name
  o2 ← put o1 (h2n_2 rr.rtype)
  o3 ← put o2 (h2n_2 rr.rclass)
  o4 ← put o3 (h2n_4 rr.ttl)
  o5 ← put o4 (h2n_2 rr.rdata_length)
  if leb rr.rdata_length (length rr.rdata) then put o5 (take rr.rdata_length rr.rdata) else none

-- The check for the size of the buffer comes after the record was written, and ends the loop
-- without an error.
unfoldable pub rrs_serialize : Output → List ResourceRecord → ℕ → ℕ → Option Output
unfolding rr_serialize
rrs_serialize o rrs zero buf_size = some o
rrs_serialize o [] (suc cnt) buf_size = none
rrs_serialize o (rr ∷ rrs) (suc cnt) buf_size = do
  o1 ← rr_serialize o rr
  elim (ltb buf_size (length o1.written)) [
    | true ↦ some o1
    | false ↦ rrs_serialize o1 rrs cnt buf_size
  ]
