-- ===== src/Querier.antt =====
-- pkg/querier: the merge of what the ingesters stream, the tree of stack traces and its flame graph.
pub mod Tree
pub mod FlameGraph
pub mod SelectMerge
pub mod MergeIterator
pub mod Tests
