-- ===== src/Dxcc.antt =====
-- backend/src/dxcc.rs: the WPX prefix of a callsign, the CTY rules, and the entity of a callsign.
-- The CSV reader is a library: a file is the list of its records, each a list of fields.
-- Latitudes, longitudes and offsets are the values of a type `F` that `parse::<f64>` reads.
mod Prefix
unfoldable pub use Prefix.{callsign_prefix}
pub mod Rules
pub mod Lookup
