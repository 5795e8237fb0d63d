-- ===== src/Wire/RoundTrip.antt =====
-- Decode of mongo/operations.go reads what the Encode methods write.
pub mod Framing
pub mod Legacy
pub mod Queries
pub mod Sections
pub mod Messages
pub mod Whole
pub mod Deletes
