-- ===== src/Dns/Wire/RecordTrip.antt =====
-- Resource records: what is written reads back.
use dns_relay.Base.{
  ℕ, ◌+◌, ◌%◌, ◌^◌, ◌<◌, ◌≤◌, ◌≡◌, refl, ap, sym, subst, ◌∙◌, Bool, true, false, some, List, ◌++◌,
  length, drop, ◌>>=◌, arith, append_assoc, length-append, if◌then◌else◌,
}
use dns_relay.Dns.Packet.{ResourceRecord}
use dns_relay.Dns.Wire.Memory.{Output, h2n_2, h2n_4}
use dns_relay.Dns.Wire.Name.{name_serialize, name_deserialize}
use dns_relay.Dns.Wire.Record.{is_name_type, rr_deserialize, rr_serialize}
use dns_relay.Dns.Wire.Labels.{wire}
use dns_relay.Dns.Wire.Place.{At, At-here, At-drop, At-skip, after, after-after, length-room}
use dns_relay.Dns.Wire.NameRead.{name_deserialize-Encodes}
use dns_relay.Dns.Wire.NameTrip.{is_settled, name_serialize-Written}
use dns_relay.Dns.Wire.QuestionTrip.{n2h_2-h2n_2, n2h_4-h2n_4, length-h2n_2, length-h2n_4}
use dns_relay.Dns.Wire.RecordData.{
  IsRecord, fields_bytes, length-fields_bytes, fields_serialize, fields_serialize-bytes,
  rdata_deserialize-At,
}

-- Reading a record whose name field has k bytes.
fields-At :
    {buf : List ℕ} {cur : ℕ} (rr : ResourceRecord)
    → At buf cur (fields_bytes rr)
    → (r : List ℕ) × (drop cur buf
        ≡ h2n_2 rr.rtype ++ (h2n_2 rr.rclass ++ (h2n_4 rr.ttl ++ (h2n_2 rr.rdata_length ++ r))))
fields-At rr a = (
  rr.rdata ++ a.after,
  At-drop a
      ∙ rw
          (
            append_assoc (h2n_2 rr.rtype)
                (h2n_2 rr.rclass ++ (h2n_4 rr.ttl ++ (h2n_2 rr.rdata_length ++ rr.rdata))) a.after,
            append_assoc (h2n_2 rr.rclass) (h2n_4 rr.ttl ++ (h2n_2 rr.rdata_length ++ rr.rdata))
                a.after,
            append_assoc (h2n_4 rr.ttl) (h2n_2 rr.rdata_length ++ rr.rdata) a.after,
            append_assoc (h2n_2 rr.rdata_length) rr.rdata a.after,
          )
          refl,
)

data-At :
    {buf : List ℕ} {cur : ℕ} (rr : ResourceRecord)
    → At buf cur (fields_bytes rr)
    → At buf (cur + 10) rr.rdata
data-At {buf = buf} {cur = cur} rr a =
    let k : cur
          + length (h2n_2 rr.rtype)
          + length (h2n_2 rr.rclass)
          + length (h2n_4 rr.ttl)
          + length (h2n_2 rr.rdata_length)
        ≡ cur + 10 =
      omega (
        arith,
        length-h2n_2 rr.rtype,
        length-h2n_2 rr.rclass,
        length-h2n_4 rr.ttl,
        length-h2n_2 rr.rdata_length,
      ) in
    subst (λ i. At buf i rr.rdata) k
      (At-skip (h2n_2 rr.rdata_length) rr.rdata (
        At-skip (h2n_4 rr.ttl) (h2n_2 rr.rdata_length ++ rr.rdata) (
          At-skip (h2n_2 rr.rclass) (h2n_4 rr.ttl ++ (h2n_2 rr.rdata_length ++ rr.rdata)) (
            At-skip (h2n_2 rr.rtype)
              (h2n_2 rr.rclass ++ (h2n_4 rr.ttl ++ (h2n_2 rr.rdata_length ++ rr.rdata))) a))))

if_same : (b : Bool) (n : ℕ) → (if b then n else n) ≡ n
if_same true n = refl
if_same false n = refl

kept_length :
    (rr : ResourceRecord)
    → length rr.rdata ≡ rr.rdata_length
    → rr.rdata_length < 2 ^ 16
    → (if is_name_type rr.rtype then length rr.rdata % 2 ^ 16 else rr.rdata_length)
      ≡ rr.rdata_length
kept_length rr m h =
    let n : length rr.rdata % 2 ^ 16 ≡ rr.rdata_length = omega arith in
    rw n (if_same (is_name_type rr.rtype) rr.rdata_length)

rr_deserialize-At :
    (buf : List ℕ) (cur k : ℕ) (rr : ResourceRecord)
    → IsRecord rr
    → name_deserialize buf cur ≡ some (rr.name, k)
    → At buf (cur + k) (fields_bytes rr)
    → rr_deserialize buf cur ≡ some (rr, cur + (k + length (fields_bytes rr)))
unfolding rr_deserialize
rr_deserialize-At buf cur k rr h name a =
    let (r, parts) = fields-At rr a in
    let t =
      n2h_2-h2n_2 rr.rtype (h2n_2 rr.rclass ++ (h2n_4 rr.ttl ++ (h2n_2 rr.rdata_length ++ r)))
        h.rtype_word in
    let c = n2h_2-h2n_2 rr.rclass (h2n_4 rr.ttl ++ (h2n_2 rr.rdata_length ++ r)) h.rclass_word in
    let l = n2h_4-h2n_4 rr.ttl (h2n_2 rr.rdata_length ++ r) h.ttl_word in
    let n = n2h_2-h2n_2 rr.rdata_length r h.length_word in
    let d = rdata_deserialize-At buf (cur + k + 10) rr h.measured h.data_of (data-At rr a) in
    let end : cur + k + 10 + rr.rdata_length ≡ cur + (k + length (fields_bytes rr)) =
      omega (arith, length-fields_bytes rr, h.measured) in
    rw (name, ◌>>=◌, parts, t, c, l, n, d, kept_length rr h.measured h.length_word, end) refl

-- What is written for a record.
pub record RecordWritten (o : Output) (rr : ResourceRecord) : Type 0 where
  pub bytes : List ℕ
  pub result : rr_serialize o rr ≡ some (after o bytes)
  pub short : length bytes ≤ length rr.name + 11 + length rr.rdata
  pub reads :
      (r : List ℕ)
      → rr_deserialize ((o.written ++ bytes) ++ r) (length o.written)
        ≡ some (rr, length o.written + length bytes)

pub regroup : (w a f r : List ℕ) → (w ++ (a ++ f)) ++ r ≡ (w ++ a) ++ (f ++ r)
regroup w a f r = ap (λ m. m ++ r) (sym (append_assoc w a f)) ∙ append_assoc (w ++ a) f r

rr_fields :
    (o : Output) (rr : ResourceRecord)
    → rr_serialize o rr ≡ (name_serialize o rr.name >>= λ o1. fields_serialize o1 rr)
unfolding rr_serialize fields_serialize
rr_fields o rr = refl

-- On a buffer of at most 16384 bytes up to a cursor past the header, with room for the record
-- without compression, rr_serialize of a record whose search for the name is settled writes at most
-- that many bytes, and rr_deserialize reads the record back from them, whatever follows.
pub rr_serialize-RecordWritten :
    (o : Output) (rr : ResourceRecord)
    → IsRecord rr
    → 12 ≤ length o.written
    → length o.written ≤ 16384
    → length rr.name + 11 + length rr.rdata ≤ length o.room
    → is_settled o rr.name ≡ true
    → RecordWritten o rr
rr_serialize-RecordWritten o rr h header small room settled =
    let name_size : length rr.name ≡ length (wire h.labels) = ap length h.named in
    let w =
      name_serialize-Written o h.labels h.are_labels header small (omega arith)
        (ap (is_settled o) (sym h.named) ∙ settled) in
    let fields =
      fields_serialize-bytes (after o w.bytes) rr h.measured
        (omega (arith, w.short, length-room o w.bytes, name_size)) in
    record {
      bytes = w.bytes ++ fields_bytes rr;
      result =
          rr_fields o rr
          ∙ ap (λ n. name_serialize o n >>= λ o1. fields_serialize o1 rr) h.named
          ∙ ap (λ s. s >>= λ o1. fields_serialize o1 rr) w.result
          ∙ fields
          ∙ ap some (after-after o w.bytes (fields_bytes rr));
      short = omega (
        arith,
        w.short,
        name_size,
        length-append w.bytes (fields_bytes rr),
        length-fields_bytes rr,
      );
      reads = λ r.
          let buf = (o.written ++ (w.bytes ++ fields_bytes rr)) ++ r in
          let e : buf ≡ (o.written ++ w.bytes) ++ (fields_bytes rr ++ r) =
            regroup o.written w.bytes (fields_bytes rr) r in
          let name : name_deserialize buf (length o.written) ≡ some (rr.name, length w.bytes) =
            ap (λ b. name_deserialize b (length o.written)) e
            ∙ name_deserialize-Encodes _ _ h.labels (length w.bytes)
                (w.reads (fields_bytes rr ++ r))
            ∙ ap (λ n. some (n, length w.bytes)) (sym h.named) in
          let n : length (o.written ++ w.bytes) ≡ length o.written + length w.bytes =
            length-append o.written w.bytes in
          rr_deserialize-At buf (length o.written) (length w.bytes) rr h name
            (rw (e, ← n) (At-here (o.written ++ w.bytes) (fields_bytes rr) r))
          ∙ ap (λ i. some (rr, i)) (omega (arith, length-append w.bytes (fields_bytes rr)));
    }
