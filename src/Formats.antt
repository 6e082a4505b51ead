-- ===== src/Formats.antt =====
-- formats/: the frozen constants, the text codec of content addresses, and the byte formats.
pub mod Pins
pub mod Packing
pub mod Varint
pub mod Base32
pub mod Base64
pub mod Cid
pub mod Address
pub mod Cbor
pub mod Chunk
pub mod Sample
mod Runs
