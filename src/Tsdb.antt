-- ===== src/Tsdb.antt =====
-- pkg/phlaredb/tsdb: the in-memory inverted index and its shards.
pub mod Shard
pub mod Offsets
pub mod BitPrefix
pub mod Tests
pub mod Index
pub mod Inverted
