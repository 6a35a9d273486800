-- ===== src/Postings.antt =====
-- The postings of a shard, of pkg/phlaredb/tsdb/index/postings.go, and a caller that walks postings.
pub mod Expand
pub mod Sharded
