-- ===== src/Dns.antt =====
-- src/dns: the packets, the cache, and what the relay does with them.
pub mod Packet
pub mod Wire
pub mod Cache
pub mod Response
