-- ===== src/Dns/Wire/RecordsTrip.antt =====
-- The records of a packet: what is written reads back.
use dns_relay.Base.{
  ℕ, suc, ◌+◌, ◌≤◌, ◌≡◌, refl, ap, sym, ◌∙◌, Bool, true, false, ◌&&◌, Option, none, some, List, [],
  ◌∷◌, ◌++◌, length, All, ◌>>=◌, arith, append_assoc, append-nil, length-append, ltb,
}
use dns_relay.Dns.Packet.{ResourceRecord}
use dns_relay.Dns.Wire.Memory.{Output}
use dns_relay.Dns.Wire.Record.{rr_deserialize, rr_serialize, rrs_serialize, rrs_deserialize}
use dns_relay.Dns.Wire.Place.{after, after-after, length-room}
use dns_relay.Dns.Wire.NameTrip.{is_settled}
use dns_relay.Dns.Wire.RecordData.{IsRecord}
use dns_relay.Dns.Wire.RecordTrip.{RecordWritten, rr_serialize-RecordWritten, regroup}

-- The bytes of the records without compression.
abbrev pub record_size : ResourceRecord → ℕ
record_size rr = length rr.name + 11 + length rr.rdata

abbrev pub records_size : List ResourceRecord → ℕ
records_size [] = 0
records_size (rr ∷ rrs) = record_size rr + records_size rrs

-- The search for each name is settled where the record is written.
abbrev settled_after : Option Output → (Output → Bool) → Bool
settled_after none f = true
settled_after (some o) f = f o

abbrev pub all_settled : Output → List ResourceRecord → Bool
all_settled o [] = true
all_settled o (rr ∷ rrs) =
    is_settled o rr.name && settled_after (rr_serialize o rr) (λ o1. all_settled o1 rrs)

pub record RecordsWritten (o : Output) (rrs : List ResourceRecord) (buf_size : ℕ) : Type 0 where
  pub bytes : List ℕ
  pub result : rrs_serialize o rrs (length rrs) buf_size ≡ some (after o bytes)
  pub short : length bytes ≤ records_size rrs
  pub reads :
      (r : List ℕ)
      → rrs_deserialize ((o.written ++ bytes) ++ r) (length o.written) (length rrs)
        ≡ some (rrs, length o.written + length bytes)

rrs_serialize_one :
    (o o1 : Output) (rr : ResourceRecord) (rrs : List ResourceRecord) (n buf_size : ℕ)
    → rr_serialize o rr ≡ some o1
    → length o1.written ≤ buf_size
    → rrs_serialize o (rr ∷ rrs) (suc n) buf_size ≡ rrs_serialize o1 rrs n buf_size
unfolding rrs_serialize
rrs_serialize_one o o1 rr rrs n buf_size e h =
    let fits : ltb buf_size (length o1.written) ≡ false = ground arith in
    rw (e, ◌>>=◌, fits, rrs_serialize) refl

rrs_deserialize_one :
    (buf : List ℕ) (cur mid end n : ℕ) (rr : ResourceRecord) (rrs : List ResourceRecord)
    → rr_deserialize buf cur ≡ some (rr, mid)
    → rrs_deserialize buf mid n ≡ some (rrs, end)
    → rrs_deserialize buf cur (suc n) ≡ some (rr ∷ rrs, end)
unfolding rrs_deserialize
rrs_deserialize_one buf cur mid end n rr rrs e h = rw (e, h) refl

and_right : (a b : Bool) → (a && b) ≡ true → b ≡ true
and_right a b h = ground (arith, h)

no_records : (o : Output) (buf_size : ℕ) → RecordsWritten o [] buf_size
unfolding rrs_serialize rrs_deserialize
no_records o buf_size = record {
  bytes = [];
  result = rw (append-nil o.written) refl;
  short = omega arith;
  reads = λ r. ap (λ i. some ([], i)) (omega arith);
}

-- One record, then the others.
join_written :
    {o : Output} {rr : ResourceRecord} {rrs : List ResourceRecord} {buf_size : ℕ}
    (w : RecordWritten o rr)
    → RecordsWritten (after o w.bytes) rrs buf_size
    → length (o.written ++ w.bytes) ≤ buf_size
    → RecordsWritten o (rr ∷ rrs) buf_size
join_written {o = o} {rr = rr} {rrs = rrs} {buf_size = buf_size} w v h =
    let n : length (o.written ++ w.bytes) ≡ length o.written + length w.bytes =
      length-append o.written w.bytes in
    record {
      bytes = w.bytes ++ v.bytes;
      result =
          rrs_serialize_one o (after o w.bytes) rr rrs (length rrs) buf_size w.result h
          ∙ v.result
          ∙ ap some (after-after o w.bytes v.bytes);
      short = omega (arith, w.short, v.short, length-append w.bytes v.bytes);
      reads = λ r.
          let buf = (o.written ++ (w.bytes ++ v.bytes)) ++ r in
          let here : rr_deserialize buf (length o.written)
              ≡ some (rr, length (o.written ++ w.bytes)) =
            ap (λ b. rr_deserialize b (length o.written)) (regroup o.written w.bytes v.bytes r)
            ∙ w.reads (v.bytes ++ r)
            ∙ ap (λ i. some (rr, i)) (sym n) in
          let there : rrs_deserialize buf (length (o.written ++ w.bytes)) (length rrs)
              ≡ some (rrs, length (o.written ++ w.bytes) + length v.bytes) =
            ap (λ b. rrs_deserialize b (length (o.written ++ w.bytes)) (length rrs))
              (ap (λ m. m ++ r) (sym (append_assoc o.written w.bytes v.bytes)))
            ∙ v.reads r in
          rrs_deserialize_one buf (length o.written) (length (o.written ++ w.bytes)) _ (length rrs)
            rr rrs here there
          ∙ ap (λ i. some (rr ∷ rrs, i)) (omega (arith, n, length-append w.bytes v.bytes));
    }

pub rrs_serialize-RecordsWritten :
    (o : Output) (rrs : List ResourceRecord) (buf_size : ℕ)
    → All IsRecord rrs
    → 12 ≤ length o.written
    → length o.written + records_size rrs ≤ 16384
    → length o.written + records_size rrs ≤ buf_size
    → records_size rrs ≤ length o.room
    → all_settled o rrs ≡ true
    → RecordsWritten o rrs buf_size
rrs_serialize-RecordsWritten o [] buf_size h header small fits room settled = no_records o buf_size
rrs_serialize-RecordsWritten o (rr ∷ rrs) buf_size (h, hs) header small fits room settled =
    let w =
      rr_serialize-RecordWritten o rr h header (omega arith) (omega arith)
        (ground (arith, settled)) in
    let n = length-append o.written w.bytes in
    let rest_settled : all_settled (after o w.bytes) rrs ≡ true =
      sym (ap (λ s. settled_after s (λ o2. all_settled o2 rrs)) w.result)
      ∙ and_right (is_settled o rr.name) _ settled in
    join_written w
      (rrs_serialize-RecordsWritten (after o w.bytes) rrs buf_size hs (omega (arith, n))
        (omega (arith, n, w.short)) (omega (arith, n, w.short))
        (omega (arith, w.short, length-room o w.bytes)) rest_settled)
      (omega (arith, n, w.short))
