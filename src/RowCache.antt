-- ===== src/RowCache.antt =====
-- include/sub0tieredcache/row_cache.hpp.
pub mod Config
pub mod State
pub mod Index
pub mod Lookup
pub mod Victim
pub mod Fill
pub mod Finish
pub mod Lease
pub mod Resolve
pub mod Prefetch
pub mod Admin
pub mod Indexed
pub mod Valid
pub mod Examples
pub mod Steps
pub mod Registry
