-- ===== src/Dns/Wire/QuestionTrip.antt =====
-- Numbers and questions: what is written reads back.
use dns_relay.Base.{
  ℕ, ◌+◌, ◌*◌, ◌/◌, ◌%◌, ◌^◌, ◌<◌, ◌≤◌, ◌≡◌, ◌≢◌, refl, ap, ◌∙◌, some, List, [], ◌∷◌, ◌++◌, length,
  drop, All, ◌>>=◌, arith, append_assoc, append-nil, length-append,
}
use dns_relay.Dns.Packet.{SectionQuestion}
use dns_relay.Dns.Wire.Memory.{Output, h2n_2, h2n_4, n2h_2, n2h_4, put, c_str}
use dns_relay.Dns.Wire.Record.{
  question_serialize, question_deserialize, questions_serialize, questions_deserialize,
}
use dns_relay.Dns.Wire.Place.{
  At, At-drop, At-skip, At-front, c_str-zero, after, put-after, after-after, length-room, put_then,
}

pub n2h_2-h2n_2 : (n : ℕ) (r : List ℕ) → n < 2 ^ 16 → n2h_2 (h2n_2 n ++ r) ≡ some (n, r)
unfolding n2h_2 h2n_2
n2h_2-h2n_2 n r h = let e : (n / 256) % 256 * 256 + n % 256 ≡ n = omega arith in rw e refl

pub n2h_4-h2n_4 : (n : ℕ) (r : List ℕ) → n < 2 ^ 32 → n2h_4 (h2n_4 n ++ r) ≡ some (n, r)
unfolding n2h_4 h2n_4 n2h_2 h2n_2
n2h_4-h2n_4 n r h =
    let e : ((n / 2 ^ 16 / 256) % 256 * 256 + (n / 2 ^ 16) % 256) * 2 ^ 16
          + ((n / 256) % 256 * 256 + n % 256)
        ≡ n =
      omega arith in
    rw e refl

pub length-h2n_2 : (n : ℕ) → length (h2n_2 n) ≡ 2
unfolding h2n_2
length-h2n_2 n = omega arith

pub length-h2n_4 : (n : ℕ) → length (h2n_4 n) ≡ 4
unfolding h2n_4 h2n_2
length-h2n_4 n = omega arith

-- A question that a packet can carry: its name is a C string.
pub record IsQuestion (q : SectionQuestion) : Type 0 where
  pub qname_string : All (λ c. c ≢ 0) q.qname
  pub qtype_word : q.qtype < 2 ^ 16
  pub qclass_word : q.qclass < 2 ^ 16

abbrev pub question_bytes : SectionQuestion → List ℕ
question_bytes q = (q.qname ++ 0 ∷ []) ++ (h2n_2 q.qtype ++ h2n_2 q.qclass)

pub length-question_bytes :
    (q : SectionQuestion) → length (question_bytes q) ≡ length q.qname + 1 + 4
length-question_bytes q = omega (
  arith,
  length-append (q.qname ++ 0 ∷ []) (h2n_2 q.qtype ++ h2n_2 q.qclass),
  length-append q.qname (0 ∷ []),
  length-append (h2n_2 q.qtype) (h2n_2 q.qclass),
  length-h2n_2 q.qtype,
  length-h2n_2 q.qclass,
)

pub question_serialize-bytes :
    (o : Output) (q : SectionQuestion)
    → length (question_bytes q) ≤ length o.room
    → question_serialize o q ≡ some (after o (question_bytes q))
unfolding question_serialize
question_serialize-bytes o q h =
    let name = q.qname ++ 0 ∷ [] in
    let n = length-append q.qname (0 ∷ []) in
    let room = length-room o name in
    let t = length-h2n_2 q.qtype in
    let total = length-question_bytes q in
    put_then o name (h2n_2 q.qtype ++ h2n_2 q.qclass)
      (λ o1. do o2 ← put o1 (h2n_2 q.qtype); put o2 (h2n_2 q.qclass)) (omega (arith, h, n, total))
      (put_then (after o name) (h2n_2 q.qtype) (h2n_2 q.qclass) (λ o2. put o2 (h2n_2 q.qclass))
        (omega (arith, h, n, t, room, total))
        (put-after (after (after o name) (h2n_2 q.qtype)) (h2n_2 q.qclass) (
          omega (
            arith,
            h,
            n,
            t,
            room,
            total,
            length-h2n_2 q.qclass,
            length-room (after o name) (h2n_2 q.qtype),
          ))))

pub question_deserialize-At :
    (buf : List ℕ) (cur : ℕ) (q : SectionQuestion)
    → IsQuestion q
    → At buf cur (question_bytes q)
    → question_deserialize buf cur ≡ some (q, cur + length (question_bytes q))
unfolding question_deserialize
question_deserialize-At buf cur q h a =
    let name : c_str (drop cur buf) ≡ some q.qname =
      ap c_str (
        At-drop (At-front (q.qname ++ 0 ∷ []) (h2n_2 q.qtype ++ h2n_2 q.qclass) a)
        ∙ append_assoc q.qname (0 ∷ []) _)
      ∙ c_str-zero q.qname _ h.qname_string in
    let n = length-append q.qname (0 ∷ []) in
    let k : cur + (length q.qname + 1) ≡ cur + length (q.qname ++ 0 ∷ []) = omega (arith, n) in
    let there = At-skip (q.qname ++ 0 ∷ []) (h2n_2 q.qtype ++ h2n_2 q.qclass) a in
    let rest : drop (cur + (length q.qname + 1)) buf
        ≡ h2n_2 q.qtype ++ (h2n_2 q.qclass ++ there.after) =
      ap (λ i. drop i buf) k
      ∙ At-drop there
      ∙ append_assoc (h2n_2 q.qtype) (h2n_2 q.qclass) there.after in
    let t = n2h_2-h2n_2 q.qtype (h2n_2 q.qclass ++ there.after) h.qtype_word in
    let c = n2h_2-h2n_2 q.qclass there.after h.qclass_word in
    let end : cur + (length q.qname + 1) + 4 ≡ cur + length (question_bytes q) =
      omega (arith, length-question_bytes q) in
    rw (name, rest, t, c, end) refl

-- The questions of a packet.
abbrev pub questions_bytes : List SectionQuestion → List ℕ
questions_bytes [] = []
questions_bytes (q ∷ qs) = question_bytes q ++ questions_bytes qs

pub questions_serialize-bytes :
    (o : Output) (qs : List SectionQuestion)
    → length (questions_bytes qs) ≤ length o.room
    → questions_serialize o qs (length qs) ≡ some (after o (questions_bytes qs))
unfolding questions_serialize
questions_serialize-bytes o [] h = rw (append-nil o.written) refl
questions_serialize-bytes o (q ∷ qs) h =
    let n = length-append (question_bytes q) (questions_bytes qs) in
    rw (question_serialize-bytes o q (omega (arith, n))) (
      questions_serialize-bytes (after o (question_bytes q)) qs
        (omega (arith, h, n, length-room o (question_bytes q)))
      ∙ ap some (after-after o (question_bytes q) (questions_bytes qs)))

pub questions_deserialize-At :
    (buf : List ℕ) (cur : ℕ) (qs : List SectionQuestion)
    → All IsQuestion qs
    → At buf cur (questions_bytes qs)
    → questions_deserialize buf cur (length qs) ≡ some (qs, cur + length (questions_bytes qs))
unfolding questions_deserialize
questions_deserialize-At buf cur [] h a = ap (λ i. some ([], i)) (omega arith)
questions_deserialize-At buf cur (q ∷ qs) (h, hs) a =
    let first =
      question_deserialize-At buf cur q h (At-front (question_bytes q) (questions_bytes qs) a) in
    let rest =
      questions_deserialize-At buf (cur + length (question_bytes q)) qs hs
        (At-skip (question_bytes q) (questions_bytes qs) a) in
    let end : cur + length (question_bytes q) + length (questions_bytes qs)
        ≡ cur + length (question_bytes q ++ questions_bytes qs) =
      omega (arith, length-append (question_bytes q) (questions_bytes qs)) in
    rw (first, rest, end) refl
