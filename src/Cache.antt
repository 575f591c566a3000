-- ===== src/Cache.antt =====
-- The cache of geometry details: src/gu/vfh_gu_cache.h.
pub mod Detail
pub mod Elements
pub mod References
pub mod Release
pub mod Runs
pub mod Lookups
pub mod Transparency
