-- ===== src/Lib.antt =====
-- GraphZeppelin keeps a graph of a stream of edge insertions and deletions as linear sketches,
-- and answers connectivity queries from them. A stream of updates is cut into batches, one per
-- node; a worker makes of each batch a delta and adds it to the supernode of the node, which
-- holds several sketches of the edges at the node. A query for the components samples an edge
-- from each supernode, joins the nodes of the edges, merges their supernodes, and goes on with
-- the next sketches until no edge is left. The updates come from stream files, which several
-- threads may read at once, and a query first pauses the workers.
--
-- Which file models which part:
--
-- - Types: include/types.h, the structs with their orders.
-- - Bucket: include/l0_sampling/bucket.h. XXH3 and the size of `vec_hash_t` are the fields of
--   the parameter `Hashing`. Bucket/Depth states what the depth of an index is.
-- - Sketch: include/l0_sampling/sketch.h and src/l0_sampling/sketch.cpp. A sketch is its seed,
--   its flag and its two arrays of buckets; the static variables of the class are the record
--   `Statics`, which `configure` computes. `update`, `batch_update` and `operator+=` stand in
--   Sketch; Sketch/Content has the set of indices that a sketch stands for, as a quotient of
--   the batches; `query` and `exhaustive_query` in Sketch/Query, copying, comparing and the two
--   file formats in Sketch/Serial.
-- - Stream: what the constructors and `write_binary` functions use of `std::istream` and
--   `std::ostream`, as lists of bytes.
-- - Util: include/util.h and src/util.cpp, the numbering of the edges. The square root of a
--   `double` is the parameter `root`.
-- - Supernode: include/supernode.h and src/supernode.cpp, sampling, merging, updates and
--   deltas. Supernode/Fields is about the loops over the sketches, Supernode/Delta about
--   batches, Supernode/Sampling about queries, Supernode/Serial about the files.
-- - Forest: the array of parents and the array of sizes that include/dsu.h and src/graph.cpp
--   both keep, and the map from nodes to roots that they stand for.
-- - Dsu: include/dsu.h. `DisjointSetUnion` over node ids of `bits` bits, and
--   `MT_DisjoinSetUnion` (Dsu/Concurrent) with one call at a time.
-- - Graph: include/graph.h and src/graph.cpp, the variables with which the components are
--   computed: `get_parent` and `supernodes_to_merge`, and `cc_from_dsu` in Graph/Answer.
--   Graph/Sampler is the interface through which a query sees the supernodes: a record of their
--   operations, and the laws that the queries rely on. Graph/Boruvka has the rounds of
--   `boruvka_emulation` with the backups in memory and on disk; Graph/Boruvka/Cut has what a
--   round does where a supernode stands for a set of nodes and its samples come from the edges
--   that leave the set, a second interface. Graph/Supernodes fills both interfaces with the
--   model of src/supernode.cpp: Supernode/Sampling/Kept and its neighbours say what the
--   sketches of such a supernode hold, and Sketch/Held and Sketch/Sifted what a bucket does.
--   What the queries then rely on is the hash function alone, `IsSeparating`: on the edges of
--   the graph no checksum matches by accident. Graph/Query has `connected_components` and
--   `point_query` with their flags. Graph/Updates has the batches, Graph/Eager `update`, with
--   USE_EAGER_DSU and without it, and Graph/File the constructors and `write_binary`.
-- - GraphWorker: include/graph_worker.h and src/graph_worker.cpp, the workers and the thread
--   that pauses, resumes and stops them, as a step relation; between two steps any other thread
--   may come in.
-- - BinaryStream: include/binary_graph_stream.h. `BinaryGraphStream` stands in BinaryStream
--   itself; BinaryStream/Shared has `BinaryGraphStream_MT` and `MT_StreamReader` as one thread
--   calls them, and BinaryStream/Threads the calls of `read_data` by several threads as a step
--   relation.
-- - StreamTools: tools/to_binary_format.cpp and tools/validate_binary_stream.cpp.
-- - Base, Bits and Tests: shared names, lists and tests; the laws of the bit operations; runs
--   at fixed inputs.
--
-- Numbers and loops: a number of w bits is a natural number, and each operation of the code
-- that can wrap is followed by its remainder by 2 ^ w. A loop with a counter is recursion on
-- the rounds that are left. `find_root` of include/dsu.h and `get_parent` follow parents: they
-- are recursion on fuel, and more than log2(n) rounds are enough for n nodes, since the size of
-- a node at least doubles from a child to its parent. The loop of `MT_DisjoinSetUnion::merge`
-- is recursion on fuel too, and two rounds are enough.
--
-- Two further loops run on fuel: `boruvka_rounds` of Graph/Boruvka, where more rounds than
-- there are samples left in all supernodes are enough, and the loop of Graph/Eager, which ends
-- with the first weak exchange that does not fail spuriously. The loop around `pread` in
-- BinaryStream/Shared is bounded by fuel as well: two rounds are enough where `pread` reads as
-- much as it is asked for.
--
-- What is not modelled: the hash function, which is a parameter; logarithms and square roots of
-- `double`s, which are parameters; the guttering system, whose `insert`, `get_data` and
-- `force_flush` are parameters or left open; clocks, messages and command lines; the
-- configuration of a graph, its destructor, and what its constructors do for the guttering
-- system and the workers; the verifiers, the benchmarks and the test code. The atomic variables
-- are those of a sequentially consistent memory. Notifications of the condition variable and
-- the blocking of `get_data` are not modelled: a wait may wake up at any time and `get_data`
-- may always come back without data, so that nothing is said of whether `pause_workers` and
-- `unpause_workers` return.
pub mod StreamTools
pub mod GraphWorker
pub mod BinaryStream
pub mod Base
pub mod Bits
pub mod Stream
pub mod Types
pub mod Util
pub mod Bucket
pub mod Sketch
pub mod Supernode
pub mod Forest
pub mod Dsu
pub mod Graph
pub mod Tests
