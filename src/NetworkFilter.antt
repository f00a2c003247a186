-- ===== src/NetworkFilter.antt =====
-- The NDIS filter skeleton, src/NetworkFilterDriver2.
pub mod Driver
pub mod Lifetime
mod Examples
