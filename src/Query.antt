-- ===== src/Query.antt =====
-- pkg/phlaredb/query: row numbers of nested columns, and the iterators that join them.
pub mod RowNumber
pub mod Join
pub mod Tests
