-- ===== src/Rows.antt =====
-- The readers and writers that stand between a source of rows and its consumer.
pub mod Stream
pub mod Dedupe
pub mod Filter
pub mod Scan
pub mod Range
pub mod Seek
pub mod Group
pub mod Sorting
pub mod Merge
pub mod Concat
