-- ===== src/Lib.antt =====
-- Verification of the core of phlare, a database for continuous profiling: the index that finds the
-- series of a query, the row numbers by which parquet columns are joined, and the merge of stack
-- traces into the tree behind a flame graph, label sets, and the tables and deltas by which an ingester
-- takes in a profile.
--
-- A query for series goes to the inverted index (pkg/phlaredb/tsdb) or to the postings of a block
-- (pkg/phlaredb/tsdb/index). Both shard the series by the highest bits of their fingerprints, so that
-- a request reads only some shards and offsets. Postings lists are iterators (pkg/iter) that walk
-- ascending series references and can seek. The columns of the profiles found are walked by iterators
-- over row numbers (pkg/phlaredb/query), and the stack traces are merged by pkg/querier.
--
-- Files and the code that they model:
--   Base: shared tests, lists, integers and lemmas on bits; no code of the repository.
--   Iter: pkg/iter/iter.go. Seekable has the interface and the contracts of Next and Seek that
--     every client takes as parameters; Slice is the iterator over a slice;
--     Search is sort.Search of Go's standard library, written out. Batch is ReadBatch of batch.go, and
--     Rounds is about its batches.
--   Postings: Sharded is ShardedPostings of pkg/phlaredb/tsdb/index/postings.go, an iterator cut to the
--     offsets of a shard, over any postings; Expand is a caller that walks an iterator to its end.
--   Tsdb: Shard and Offsets are shard.go and fingerprint.go of pkg/phlaredb/tsdb/index. Index is a
--     shard of the index of pkg/phlaredb/tsdb/index.go, with the list functions and the pattern reader
--     of that file; Index/Within and its child follow a property of all fingerprints through its
--     operations. Inverted is the index of that file over shards by hash. BitPrefix is the choice of
--     shards in pkg/phlaredb/tsdb/bitprefix.go, and BitPrefix/Inverted the index of that file: Placed
--     and Cut are about a pass over its shards and the cut of a result, Request and Answer about
--     Lookup, Reached and Total about the states that Add and Delete lead to.
--   Query: RowNumber is the type of that name of pkg/phlaredb/query/iters.go, and Join is JoinIterator of
--     that file, over any comparison of rows by a key: Skip and Cursors are about the rows that its
--     iterators give, Scan and Over about a pass, Rows says what a join is, Round, Ahead, Loop and
--     Next are about a call of Next, and RowNumbers takes it to the comparison of row numbers.
--   Querier: Tree is pkg/querier/tree.go. FlameGraph is NewFlameGraph of flamegraph.go, with the stack
--     of stack.go: Walk is about its loop, Rows has the bars that a graph shows, and Delta reads its
--     levels. SelectMerge is skipDuplicates of select_merge.go: Order has the order of its heap,
--     Heap what its iterators give, Collect and Requeue the two halves of a round, Round and Loop what
--     the walk keeps.
--     MergeIterator is mergeIterator of that file, and Sends is about what it sends while it is walked.
--   Model: Labels is pkg/model/labels.go: the order in Labels itself and Compare, reads, subsets and
--     hashed bytes in Select, and LabelsBuilder in Builder, with the names of what it sorts in Sorted.
--   Phlaredb: Delta is pkg/phlaredb/delta.go; Dedup is deduplicating_slice.go, with Flush in a module
--     below it, over the interface Helper; Rewriter and Tables are the rewriting tables of head.go and
--     the helpers of strings.go, functions.go, mappings.go, locations.go and stacktraces.go, all of
--     pkg/phlaredb, which Tables/Lawful fits to the laws of that interface. Filter is filterProfiles of
--     phlaredb.go: Sets is about what it sends, and Select about what it keeps. A client of it is the
--     walk of Querier.MergeIterator.
--   Modules Tests have the runs at concrete inputs.
--
-- Conventions. Numbers are the native naturals. Fingerprints, offsets and series references are
-- uint64: where the code shifts or adds them, the model takes the result modulo 2^64. Row numbers
-- are int64, as integers that wrap. Stack trace values are int64 as bit patterns modulo 2^64. An index
-- out of range is `none`, the panic; an operation that may fail or panic returns an Outcome. State is
-- passed explicitly: an operation returns the new state. Pointers into a tree of nodes are lists of positions, and the
-- links to parents are the prefixes of such a list.
--
-- Strings of the index are lists of bytes, compared as Go compares strings. A map is an association
-- list, in whose order the loops over it run. The matcher of Prometheus is a parameter: a record with
-- its type, name, value and the function that says which values it matches. Hashes, the quoting of
-- strings, the sizes of Go structs, the sorts of labels and of the rows of a parquet buffer, which are
-- not stable, the parquet writer and the client of an ingester are parameters too. Samples that profiles and
-- maxima share by pointers stand in a store. Where goroutines push to a heap, the heap that they leave is
-- a parameter that may be any rearrangement.
--
-- Fuel. `search` runs on the length of its interval and one more, since each round shortens it. The
-- loop of `Flush` runs on the number of rows and one more, since each round writes at least one. The loop of `NewFlameGraph` runs on the number of nodes and
-- two more, for the node above the roots and the last pop; `skipDuplicates` runs on the number of
-- profiles sent and two more, since each round goes on by one at least; `Next` of a join
-- runs on the number of rows ahead and one more, and `ReadBatch` on the number of items and one more,
-- since each round but the last takes one. The binary logarithm runs on its argument. Errors of
-- joined and sharded iterators and Close are left out.
--
-- Not modelled: services, storage and parquet readers and writers, generated code, locks, and the code
-- of pkg/phlaredb/tsdb/index that is copied from the Prometheus library. A lock held by a whole
-- operation makes it one step here.
pub mod Base
pub mod Iter
pub mod Model
pub mod Phlaredb
pub mod Postings
pub mod Querier
pub mod Query
pub mod Tsdb
