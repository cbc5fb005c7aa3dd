-- ===== src/LogCache.antt =====
-- backend/src/log_cache.rs: the contacts of the loaded logs.
pub mod Cached
pub mod Positions
pub mod Sorting
pub mod Cache
pub mod Ids
pub mod Consistent
pub mod Upsert
pub mod Prefix
pub mod Delete
