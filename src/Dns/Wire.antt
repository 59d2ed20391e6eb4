-- ===== src/Dns/Wire.antt =====
-- The wire format of src/dns/dns_resolver.c: numbers in network byte order (src/infra/utils.c) and
-- the memory that is read and written. A memory is the list of its bytes. An operation returns
-- `none` where the C code would read or write outside the memory or would not end.
mod Text
mod Name
mod Record
mod Message
pub mod Memory
pub mod Labels
pub mod TextSplit
pub mod TextTrip
pub mod Place
pub mod NameRead
pub mod Search
pub mod NameTrip
pub mod QuestionTrip
pub mod RecordData
pub mod RecordTrip
pub mod RecordsTrip
pub mod MessageTrip
pub mod Limits
pub mod Counts
mod Tests
unfoldable pub use Text.*
unfoldable pub use Name.*
unfoldable pub use Record.*
unfoldable pub use Message.*
