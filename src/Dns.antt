-- ===== src/Dns.antt =====
-- service/src/dns_cache.rs: parsing DNS responses, and the cache of their answers.
pub mod Name
pub mod Response
pub mod Cache
