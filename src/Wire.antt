-- ===== src/Wire.antt =====
-- mongo/operations.go: the operations of the wire protocol.
pub mod Bytes
pub mod Package
pub mod Operations
pub mod Encode
pub mod Decode
pub mod Results
pub mod WellFormed
pub mod Sections
pub mod RoundTrip
pub mod Termination
pub mod Methods
pub mod Plain
mod Tests
