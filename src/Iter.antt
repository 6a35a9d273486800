-- ===== src/Iter.antt =====
-- pkg/iter/iter.go: the iterator interfaces and the iterators over a slice.
pub mod Search
pub mod Seekable
pub mod Slice
pub mod Batch
