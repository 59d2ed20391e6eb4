-- ===== src/Dns/Wire/Counts.antt =====
-- A packet that is read has the questions and the records that its header counts.
use dns_relay.Base.{
  ℕ, zero, suc, ◌≡◌, refl, ap, sym, subst, ◌∙◌, ◌||◌, Option, none, some, List, [], ◌∷◌, length,
  ltb, ◌>>=◌, Bool-cases, inl, inr,
}
use dns_relay.Dns.Packet.{SectionQuestion, ResourceRecord, DnsPacket}
use dns_relay.Dns.Wire.Record.{
  question_deserialize, questions_deserialize, rr_deserialize, rrs_deserialize,
}
use dns_relay.Dns.Wire.Message.{rr_count, header_endian_2h, pack_deserialize}

-- A chain that yields a result has one at its first step.
pub bind-some {ℓ κ} :
    {A : Type ℓ} {B : Type κ} (m : Option A) (f : A → Option B) (b : B)
    → (m >>= f) ≡ some b
    → (a : A) × (m ≡ some a) × (f a ≡ some b)
bind-some none f b h = cc
bind-some (some a) f b h = (a, refl, h)

pub some-injective {ℓ} : {A : Type ℓ} (a b : A) → some a ≡ some b → a ≡ b
some-injective a b e = cc (e)

questions_deserialize-length :
    (buf : List ℕ) (cur n : ℕ) (r : List SectionQuestion × ℕ)
    → questions_deserialize buf cur n ≡ some r
    → length r.0 ≡ n
unfolding questions_deserialize
questions_deserialize-length buf cur zero r h =
    sym (ap (λ r. length r.0) (some-injective ([], cur) r h))
questions_deserialize-length buf cur (suc n) r h =
    let (q, e, h1) = bind-some (question_deserialize buf cur) _ r h in
    let (rest, e1, h2) = bind-some (questions_deserialize buf q.1 n) _ r h1 in
    sym (ap (λ r. length r.0) (some-injective (q.0 ∷ rest.0, rest.1) r h2))
    ∙ ap suc (questions_deserialize-length buf q.1 n rest e1)

rrs_deserialize-length :
    (buf : List ℕ) (cur n : ℕ) (r : List ResourceRecord × ℕ)
    → rrs_deserialize buf cur n ≡ some r
    → length r.0 ≡ n
unfolding rrs_deserialize
rrs_deserialize-length buf cur zero r h = sym (ap (λ r. length r.0) (some-injective ([], cur) r h))
rrs_deserialize-length buf cur (suc n) r h =
    let (rr, e, h1) = bind-some (rr_deserialize buf cur) _ r h in
    let (rest, e1, h2) = bind-some (rrs_deserialize buf rr.1 n) _ r h1 in
    sym (ap (λ r. length r.0) (some-injective (rr.0 ∷ rest.0, rest.1) r h2))
    ∙ ap suc (rrs_deserialize-length buf rr.1 n rest e1)

pub record IsCountedPacket (p : DnsPacket) : Type 0 where
  pub questions : length p.questions ≡ p.header.qcount
  pub records : length p.rrs ≡ rr_count p.header

-- A packet that pack_deserialize gives has as many questions as its header says, and as many records
-- as the three counts of its header together.
pub pack_deserialize-IsCountedPacket :
    (raw : List ℕ) (len : ℕ) (p : DnsPacket)
    → pack_deserialize raw len ≡ some (some p)
    → IsCountedPacket p
unfolding pack_deserialize
pack_deserialize-IsCountedPacket raw len p h = elim (Bool-cases (ltb 512 len || ltb len 12)) [
  | inl wrong ↦ let h0 = rw (wrong, pack_deserialize) at h in cc (h0)
  | inr fits ↦
      let h0 = rw (fits, pack_deserialize) at h in
      let (header, e0, h1) = bind-some (header_endian_2h raw) _ (some p) h0 in
      let (qs, e1, h2) = bind-some (questions_deserialize raw 12 header.qcount) _ (some p) h1 in
      let (rrs, e2, h3) = bind-some (rrs_deserialize raw qs.1 (rr_count header)) _ (some p) h2 in
      let made : record { header = header; questions = qs.0; rrs = rrs.0 } ≡ p =
        some-injective _ _ (some-injective _ _ h3) in
      subst IsCountedPacket made (record {
        questions = questions_deserialize-length raw 12 header.qcount qs e1;
        records = rrs_deserialize-length raw qs.1 (rr_count header) rrs e2;
      })
]
