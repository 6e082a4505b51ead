-- ===== src/Formats/Cbor.antt =====
-- formats/dagcbor/dagcbor.cpp: canonical dag-cbor of the JSON projection.
pub mod Json
pub mod Encode
pub mod Decode
pub mod Keys
pub mod Sorting
pub mod Heads
pub mod Canonical
pub mod Reading
pub mod Leaves
pub mod Elements
pub mod Entries
pub mod RoundTrip
pub mod Overflow
pub mod Ends
pub mod Total
mod Runs
