-- ===== src/Adif.antt =====
-- backend/src/adif.rs: ADIF files read and written.
pub mod Names
pub mod Parse
pub mod Export
pub mod Fuel
pub mod Decimal
pub mod Fields
pub mod RoundTrip
pub mod Files
pub mod Records
pub mod Import
pub mod ImportErrors
pub mod Contacts
pub mod FieldMaps
pub mod ContactValues
pub mod Ordering
pub mod Exported
