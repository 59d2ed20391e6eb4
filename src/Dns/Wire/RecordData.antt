-- ===== src/Dns/Wire/RecordData.antt =====
-- Resource records after their name: what is written reads back.
use dns_relay.Base.{
  ℕ, ◌+◌, ◌-◌, ◌^◌, ◌<◌, ◌≤◌, ◌≡◌, refl, ap, sym, subst, ◌∙◌, true, false, Option, none, some, List,
  [], ◌∷◌, ◌++◌, length, take, drop, All, ◌>>=◌, arith, length-append, ◌==◌, leb, if◌then◌else◌,
  take-append, take_all,
}
use dns_relay.Dns.Packet.{ResourceRecord}
use dns_relay.Dns.Wire.Memory.{Output, h2n_2, h2n_4, put}
use dns_relay.Dns.Wire.Name.{name_deserialize}
use dns_relay.Dns.Wire.Record.{is_name_type, qtype_mx, rdata_deserialize}
use dns_relay.Dns.Wire.Labels.{wire, IsLabel}
use dns_relay.Dns.Wire.Place.{At, At-drop, after, put-after, length-room, put_then}
use dns_relay.Dns.Wire.NameRead.{ended, name_deserialize-Encodes}
use dns_relay.Dns.Wire.QuestionTrip.{length-h2n_2, length-h2n_4}

-- The data of a record that a packet can carry: a name without pointers where the type says so,
-- and any bytes for the other types but MX.
pub data IsRdata (rtype : ℕ) (rdata : List ℕ) : Type 0 where
  a_name :
      (labels : List (List ℕ))
      → is_name_type rtype ≡ true
      → All IsLabel labels
      → rdata ≡ wire labels ++ 0 ∷ []
      → IsRdata rtype rdata
  some_bytes : is_name_type rtype ≡ false → (rtype == qtype_mx) ≡ false → IsRdata rtype rdata

pub record IsRecord (rr : ResourceRecord) : Type 0 where
  pub labels : List (List ℕ)
  pub are_labels : All IsLabel labels
  pub named : rr.name ≡ wire labels
  pub rtype_word : rr.rtype < 2 ^ 16
  pub rclass_word : rr.rclass < 2 ^ 16
  pub ttl_word : rr.ttl < 2 ^ 32
  pub length_word : rr.rdata_length < 2 ^ 16
  pub measured : length rr.rdata ≡ rr.rdata_length
  pub data_of : IsRdata rr.rtype rr.rdata

abbrev pub fields_bytes : ResourceRecord → List ℕ
fields_bytes rr =
    h2n_2 rr.rtype ++ (h2n_2 rr.rclass ++ (h2n_4 rr.ttl ++ (h2n_2 rr.rdata_length ++ rr.rdata)))

pub length-fields_bytes : (rr : ResourceRecord) → length (fields_bytes rr) ≡ 10 + length rr.rdata
length-fields_bytes rr = omega (
  arith,
  length-h2n_2 rr.rtype,
  length-h2n_2 rr.rclass,
  length-h2n_4 rr.ttl,
  length-h2n_2 rr.rdata_length,
  length-append (h2n_2 rr.rtype)
      (h2n_2 rr.rclass ++ (h2n_4 rr.ttl ++ (h2n_2 rr.rdata_length ++ rr.rdata))),
  length-append (h2n_2 rr.rclass) (h2n_4 rr.ttl ++ (h2n_2 rr.rdata_length ++ rr.rdata)),
  length-append (h2n_4 rr.ttl) (h2n_2 rr.rdata_length ++ rr.rdata),
  length-append (h2n_2 rr.rdata_length) rr.rdata,
)

-- The fields after the name.
unfoldable pub fields_serialize : Output → ResourceRecord → Option Output
fields_serialize o1 rr = do
  o2 ← put o1 (h2n_2 rr.rtype)
  o3 ← put o2 (h2n_2 rr.rclass)
  o4 ← put o3 (h2n_4 rr.ttl)
  o5 ← put o4 (h2n_2 rr.rdata_length)
  if leb rr.rdata_length (length rr.rdata) then put o5 (take rr.rdata_length rr.rdata) else none

data_serialize :
    (o : Output) (rr : ResourceRecord)
    → length rr.rdata ≡ rr.rdata_length
    → length rr.rdata ≤ length o.room
    → (if leb rr.rdata_length (length rr.rdata)
        then put o (take rr.rdata_length rr.rdata)
        else none)
      ≡ some (after o rr.rdata)
data_serialize o rr m h =
    let fits : leb rr.rdata_length (length rr.rdata) ≡ true = ground arith in
    let all : take rr.rdata_length rr.rdata ≡ rr.rdata = rw (← m) (take_all rr.rdata) in
    rw (fits, all) (put-after o rr.rdata h)

pub fields_serialize-bytes :
    (o : Output) (rr : ResourceRecord)
    → length rr.rdata ≡ rr.rdata_length
    → 10 + length rr.rdata ≤ length o.room
    → fields_serialize o rr ≡ some (after o (fields_bytes rr))
unfolding fields_serialize
fields_serialize-bytes o rr m h =
    let t = h2n_2 rr.rtype in
    let c = h2n_2 rr.rclass in
    let l = h2n_4 rr.ttl in
    let n = h2n_2 rr.rdata_length in
    let o2 = after o t in
    let o3 = after o2 c in
    let o4 = after o3 l in
    let o5 = after o4 n in
    let r2 : length o2.room ≡ length o.room - 2 =
      omega (arith, length-room o t, length-h2n_2 rr.rtype) in
    let r3 : length o3.room ≡ length o.room - 4 =
      omega (arith, r2, length-room o2 c, length-h2n_2 rr.rclass) in
    let r4 : length o4.room ≡ length o.room - 8 =
      omega (arith, r3, length-room o3 l, length-h2n_4 rr.ttl) in
    let r5 : length o5.room ≡ length o.room - 10 =
      omega (arith, r4, length-room o4 n, length-h2n_2 rr.rdata_length) in
    put_then o t (c ++ (l ++ (n ++ rr.rdata))) _ (omega (arith, length-h2n_2 rr.rtype)) (
      put_then o2 c (l ++ (n ++ rr.rdata)) _ (omega (arith, r2, length-h2n_2 rr.rclass)) (
        put_then o3 l (n ++ rr.rdata) _ (omega (arith, r3, length-h2n_4 rr.ttl)) (
          put_then o4 n rr.rdata _ (omega (arith, r4, length-h2n_2 rr.rdata_length))
            (data_serialize o5 rr m (omega (arith, r5))))))

-- Reading the data.
rdata_name :
    (buf : List ℕ) (cur rtype n : ℕ) (name : List ℕ) (len : ℕ)
    → is_name_type rtype ≡ true
    → name_deserialize buf cur ≡ some (name, len)
    → rdata_deserialize buf cur rtype n ≡ some (name ++ 0 ∷ [])
unfolding rdata_deserialize
rdata_name buf cur rtype n name len e h = rw (rdata_deserialize, e, h) refl

rdata_bytes :
    (buf : List ℕ) (cur rtype n : ℕ)
    → is_name_type rtype ≡ false
    → (rtype == qtype_mx) ≡ false
    → n ≤ length (drop cur buf)
    → rdata_deserialize buf cur rtype n ≡ some (take n (drop cur buf))
unfolding rdata_deserialize
rdata_bytes buf cur rtype n e other h =
    let fits : leb n (length (drop cur buf)) ≡ true = ground arith in
    rw (rdata_deserialize, e, other, fits) refl

pub rdata_deserialize-At :
    (buf : List ℕ) (cur : ℕ) (rr : ResourceRecord)
    → length rr.rdata ≡ rr.rdata_length
    → IsRdata rr.rtype rr.rdata
    → At buf cur rr.rdata
    → rdata_deserialize buf cur rr.rtype rr.rdata_length ≡ some rr.rdata
rdata_deserialize-At buf cur rr m (a_name labels e h d) a =
    rdata_name buf cur rr.rtype rr.rdata_length (wire labels) (length (wire labels) + 1) e
      (name_deserialize-Encodes buf cur labels _ (ended cur labels h (subst (At buf cur) d a)))
    ∙ ap some (sym d)
rdata_deserialize-At buf cur rr m (some_bytes e other) a =
    let n : length (drop cur buf) ≡ length rr.rdata + length a.after =
      ap length (At-drop a) ∙ length-append rr.rdata a.after in
    rdata_bytes buf cur rr.rtype rr.rdata_length e other (omega (arith, m, n))
    ∙ ap some (
        ap (take rr.rdata_length) (At-drop a)
        ∙ ap (λ k. take k (rr.rdata ++ a.after)) (sym m)
        ∙ take-append rr.rdata a.after)
