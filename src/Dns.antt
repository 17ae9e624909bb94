-- ===== src/Dns.antt =====
-- kernel/dns.h and kernel/dns.cpp: the resolver of names. `Names` has the names in packets,
-- `Cache` the cache, `Response` the answer of a server, and `Query` the resolver itself.
pub mod Names
pub mod Response
pub mod Cache
pub mod Query
pub mod Decode
pub mod Reads
pub mod Lookup
mod Tests
