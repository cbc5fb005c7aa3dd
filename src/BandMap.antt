-- ===== src/BandMap.antt =====
-- backend/src/bandmap.rs: the spots on the band map.
pub mod Types
pub mod Key
pub mod Store
pub mod Indexed
pub mod Upsert
pub mod Manager
pub mod Sync
pub mod Prune
pub mod Order
pub mod UpsertOrder
