-- ===== src/Dns/Packet.antt =====
-- include/dns/protocol.h: a DNS packet, and the flags of its header.
-- A name is the list of the bytes before its final zero byte. `Vector`s of records are lists.
mod Flags
mod Tests
unfoldable pub use Flags.*
use dns_relay.Base.{ℕ, List, []}

pub record SectionHeader : Type 0 where
  pub id : ℕ
  pub flags : ℕ
  pub qcount : ℕ
  pub answer_rrs : ℕ
  pub authority_rrs : ℕ
  pub additional_rrs : ℕ

pub record SectionQuestion : Type 0 where
  pub qname : List ℕ
  pub qtype : ℕ
  pub qclass : ℕ

pub record ResourceRecord : Type 0 where
  pub name : List ℕ
  pub rtype : ℕ
  pub rclass : ℕ
  pub ttl : ℕ
  pub rdata_length : ℕ
  pub rdata : List ℕ

pub record DnsPacket : Type 0 where
  pub header : SectionHeader
  pub questions : List SectionQuestion
  pub rrs : List ResourceRecord
