-- ===== src/Dns/Response/Tests.antt =====
-- The response theorems at concrete packets, with an address that is blocked by mistake.
use dns_relay.Base.{ℕ, ◌≡◌, ◌<◌, ◌↔◌, refl, true, false, none, some, List, [], ◌∷◌, get_or}
use dns_relay.Dns.Packet.{SectionQuestion, DnsPacket}
use dns_relay.Dns.Response.{memallz, get_parent_qname}
use dns_relay.Dns.Response.Blocking.{memallz_iff}

-- "a.b." in the class IN, for an address.
abbrev question : SectionQuestion
question = record { qname = 1 ∷ 97 ∷ 1 ∷ 98 ∷ []; qtype = 1; qclass = 1 }

abbrev query : DnsPacket
query = record {
  header = record {
    id = 7;
    flags = 0x0100;
    qcount = 1;
    answer_rrs = 0;
    authority_rrs = 0;
    additional_rrs = 0;
  };
  questions = question ∷ [];
  rrs = [];
}

parent_of_ab : get_parent_qname (1 ∷ 97 ∷ 1 ∷ 98 ∷ []) ≡ some (some (1 ∷ 98 ∷ []))
unfolding get_parent_qname
parent_of_ab = refl

-- A label that is longer than the rest of the name.
over_the_end : get_parent_qname (5 ∷ 97 ∷ []) ≡ none
unfolding get_parent_qname
over_the_end = refl

-- 10.0.0.0 passes for an address of zeros, 10.0.0.1 does not.
ten_blocked : memallz (10 ∷ 0 ∷ 0 ∷ 0 ∷ []) 4 ≡ true
unfolding memallz
ten_blocked = refl

ten_one_clear : memallz (10 ∷ 0 ∷ 0 ∷ 1 ∷ []) 4 ≡ false
unfolding memallz
ten_one_clear = refl

abbrev ten : List ℕ
ten = 10 ∷ 0 ∷ 0 ∷ 0 ∷ []

memallz_iff_example : (memallz ten 4 ≡ true) ↔ ((i : ℕ) → 0 < i → i < 4 → get_or ten i 0 ≡ 0)
memallz_iff_example = memallz_iff ten 4
