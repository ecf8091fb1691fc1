-- ===== src/Encoding.antt =====
-- The encodings of pages: encoding/.
pub mod Result
pub mod Varint
pub mod Bitpack
pub mod Rle
pub mod Delta
pub mod Plain
pub mod ByteStreamSplit
