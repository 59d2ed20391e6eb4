-- ===== src/Dns/Wire/Limits.antt =====
-- The errors of the codec, and a packet on which it does not end.
use dns_relay.Base.{
  ℕ, zero, suc, ◌+◌, ◌*◌, ◌<◌, ◌≤◌, ◌≡◌, ◌↔◌, inl, inr, refl, ap, sym, ◌∙◌, Bool, true, false,
  Option, none, some, List, [], ◌∷◌, ◌++◌, length, All, ltb, ◌>>=◌, arith, length-append,
  Bool-cases,
}
use dns_relay.Dns.Packet.{DnsPacket}
use dns_relay.Dns.Wire.Memory.{Output, put}
use dns_relay.Dns.Wire.Name.{name_at}
use dns_relay.Dns.Wire.Record.{questions_serialize, rrs_serialize}
use dns_relay.Dns.Wire.Message.{header_endian_2n, rr_count, pack_serialize}
use dns_relay.Dns.Wire.Labels.{wire, IsLabel}
use dns_relay.Dns.Wire.Place.{At, after, put-after, length-room}
use dns_relay.Dns.Wire.NameRead.{continued, name_at_back}
use dns_relay.Dns.Wire.QuestionTrip.{questions_bytes, questions_serialize-bytes}
use dns_relay.Dns.Wire.MessageTrip.{length-header, empty}

abbrev is_rejected : {A : Type 0} → Option (Option A) → Bool
is_rejected (some none) = true
is_rejected _ = false

chain_accepts :
    {A B : Type 0} (o : Option A) (f : A → B) → is_rejected (o >>= λ a. some (some (f a))) ≡ false
chain_accepts none f = refl
chain_accepts (some a) f = refl

rejected_iff :
    {A : Type 0} (o : Option (Option A)) (b : Bool)
    → is_rejected o ≡ b
    → (o ≡ some none) ↔ (b ≡ true)
rejected_iff o b e = ((λ h. sym e ∙ ap is_rejected h), λ h. only o (e ∙ h))
  where
    only : {A : Type 0} (o : Option (Option A)) → is_rejected o ≡ true → o ≡ some none
    only none h = ground arith
    only (some none) h = refl
    only (some (some a)) h = ground arith

-- pack_serialize: the checks after the header and after the questions.
reject_header :
    (p : DnsPacket) (buf : List ℕ) (buf_size : ℕ) (o1 : Output)
    → put (empty buf) (header_endian_2n p.header) ≡ some o1
    → ltb buf_size (length o1.written) ≡ true
    → pack_serialize p buf buf_size ≡ some none
unfolding pack_serialize
reject_header p buf buf_size o1 e h = rw (e, ◌>>=◌, h) refl

after_questions :
    (p : DnsPacket) (buf : List ℕ) (buf_size : ℕ) (o1 o2 : Output)
    → put (empty buf) (header_endian_2n p.header) ≡ some o1
    → ltb buf_size (length o1.written) ≡ false
    → questions_serialize o1 p.questions p.header.qcount ≡ some o2
    → is_rejected (pack_serialize p buf buf_size) ≡ ltb buf_size (length o2.written)
unfolding pack_serialize
after_questions p buf buf_size o1 o2 e h f = elim (Bool-cases (ltb buf_size (length o2.written))) [
  | inl g ↦ rw (e, ◌>>=◌, h, f, g) refl
  | inr g ↦
      rw (e, ◌>>=◌, h, f, g)
        (chain_accepts (rrs_serialize o2 p.rrs (rr_count p.header) buf_size) (λ o. o))
]

serialize_rejected :
    (p : DnsPacket) (buf : List ℕ) (buf_size : ℕ)
    → p.header.qcount ≡ length p.questions
    → 12 + length (questions_bytes p.questions) ≤ length buf
    → is_rejected (pack_serialize p buf buf_size)
      ≡ ltb buf_size (12 + length (questions_bytes p.questions))
unfolding pack_serialize
serialize_rejected p buf buf_size counted room =
    let hb = header_endian_2n p.header in
    let qb = questions_bytes p.questions in
    let o1 = after (empty buf) hb in
    let n : length hb ≡ 12 = length-header p.header in
    let n2 : length (hb ++ qb) ≡ 12 + length qb = omega (arith, n, length-append hb qb) in
    let header = put-after (empty buf) hb (omega (arith, n)) in
    let questions =
      ap (questions_serialize o1 p.questions) counted
      ∙ questions_serialize-bytes o1 p.questions (omega (arith, n, length-room (empty buf) hb)) in
    elim (Bool-cases (ltb buf_size (length hb))) [
      | inl g ↦
          let over : ltb buf_size (12 + length qb) ≡ true = ground (arith, g, n) in
          ap is_rejected (reject_header p buf buf_size o1 header g) ∙ sym over
      | inr g ↦
          after_questions p buf buf_size o1 (after o1 qb) header g questions ∙ ap (ltb buf_size) n2
    ]

-- For a packet whose question count is the length of its list, in memory with room for its header
-- and questions, pack_serialize returns -1 exactly if these have more bytes than the size given
-- for the buffer: records that are too long for it are no error.
pub pack_serialize_rejects :
    (p : DnsPacket) (buf : List ℕ) (buf_size : ℕ)
    → p.header.qcount ≡ length p.questions
    → 12 + length (questions_bytes p.questions) ≤ length buf
    → (pack_serialize p buf buf_size ≡ some none)
      ↔ (buf_size < 12 + length (questions_bytes p.questions))
pack_serialize_rejects p buf buf_size counted room =
    let (to, from) =
      rejected_iff (pack_serialize p buf buf_size) _
        (serialize_rejected p buf buf_size counted room) in
    ((λ e. let h = to e in ground arith), λ h. from (ground arith))

-- On labels and a pointer that leads back to the start of the same name, name_deserialize calls
-- itself without end: whatever depth is allowed, the recursion goes deeper, without a result and
-- without a fault.
pub name_at_self :
    (fuel : ℕ) (buf : List ℕ) (labels : List (List ℕ)) (cur high low : ℕ)
    → All IsLabel labels
    → high < 64
    → low < 256
    → high * 256 + low ≡ cur
    → At buf cur (wire labels ++ (192 + high) ∷ low ∷ [])
    → name_at fuel buf cur ≡ none
unfolding name_at
name_at_self zero buf labels cur high low h hi lo back a = refl
name_at_self (suc fuel) buf labels cur high low h hi lo back a =
    name_at_back fuel buf cur cur high low labels h hi lo back a
    ∙ ap (continued buf cur (cur + length (wire labels)))
        (name_at_self fuel buf labels cur high low h hi lo back a)
