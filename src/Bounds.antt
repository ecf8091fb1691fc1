-- ===== src/Bounds.antt =====
-- column_index.go and order.go: the bounds that a column index keeps of its pages, and their order.
pub mod Bytes
pub mod Truncate
pub mod Order
pub mod Indexer
mod Examples
