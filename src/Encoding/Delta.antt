-- ===== src/Encoding/Delta.antt =====
-- encoding/delta: DELTA_BINARY_PACKED, and the encodings of byte arrays that build on it.
pub mod Integers
pub mod Encode
pub mod Decode
pub mod Lengths
pub mod Arrays
mod Examples
