-- ===== src/Dns.antt =====
-- src/dns: the cache, the choice of an upstream server, and the request handler.
pub mod Cache
pub mod Message
pub mod Upstream
pub mod Handler
pub mod Server
pub mod Transport
