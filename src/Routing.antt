-- ===== src/Routing.antt =====
-- src/routing: kernel routes for resolved addresses, with aggregation into wider prefixes.
pub mod Prefix
pub mod Aggregator
pub mod Manager
pub mod Macos
pub mod Linux
