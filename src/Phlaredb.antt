-- ===== src/Phlaredb.antt =====
-- pkg/phlaredb: the profile database of an ingester.
pub mod Delta
pub mod Dedup
pub mod Rewriter
pub mod Tables
pub mod Filter
