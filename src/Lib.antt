-- ===== src/Lib.antt =====
-- vector_store: a distributed vector database. Clients store vectors through any node; a
-- consistent-hash ring routes an insertion to a node, that node hands it to Raft, and the entries
-- that Raft commits are applied, on every node, to a local HNSW index that answers searches.
--
-- Files and the code that they model:
--   Raft            internal/consensus/raft.go: one node
--     Raft/State        Raft, logEntry, the messages of api/proto/vectordb.pb.go, stepDown,
--                       lastLogIndexTerm, advanceCommitIndex
--     Raft/Election     RequestVote, electionTicker, startElection, sendRequestVote, becomeLeader
--     Raft/Replication  AppendEntries, replicateToPeer, broadcastAppendEntries
--     Raft/Lifecycle    Make's initial state, Start, GetState, GetLeaderAddress, Kill,
--                       heartbeatLoop, commitApplyLoop
--     Raft/Persistence  persistLocked, Shutdown, loadState, Make
--     Raft/Steps        the histories of a node: each step is one handler, as rf.mu makes it atomic
--     Raft/Cluster      n nodes and the calls of their elections of one term
--   Ring            internal/sharding/hashring.go: NewHashRing, AddNode, RemoveNode,
--                   GetResponsibleNode, Nodes
--   Index           internal/vectorindex/hnsw.go: the graph's nodes and links, addBackConnection
--     Index/Heap        explorerHeap and resultsHeap, and what container/heap does with them
--     Index/Search      searchLayer and Search
--     Index/Insert      Insert
--     Index/Concurrent  Inserts that run at once, in steps between their locks
--     Index/Distance    internal/vectorindex/distance.go: CosineSimilarity
--   Applier         internal/consensus/applier.go: CommitNotifier and Applier
--     Applier/Indexing  its Run, with the index as the graph
--   Server          internal/network/grpc_server.go: Insert, forwarding, incomingHops;
--                   Search in Server/Searching
--   Process         cmd/server/main.go: the configuration, and the parts that main starts
--   Benchmark       cmd/benchmarker/main.go: topKBrute, the exact baseline
--     Benchmark/Pool     runPool, in steps of its goroutines
--     Benchmark/Measure  measureRecall, percentile, ratePerSec
--     Benchmark/Vectors  the synthetic data, and what main prepares
--   Prelude         shared names: lists and integers over the native numbers, and Run, the result of
--                   code that can panic on an index out of range
-- The modules below these, such as Raft/Replication/Append or Ring/Keys, hold the proofs; the
-- modules called Examples hold tests and instances of the theorems.
--
-- Go's int is an unbounded integer; a conversion to int32 wraps. Each handler is a function from the
-- state of a node to the state that it leaves and its answer; a goroutine that makes an RPC is two
-- functions, before and after the call, and a failed call changes nothing. The clock is an argument.
-- A slice expression that ends beyond the length counts as a panic. Signals of a condition variable
-- and log lines are not part of the state.
--
-- Between Start and the calls of GetLeaderAddress and Register, Server's Insert lets any function on
-- the node and the notifier run: what other goroutines do meanwhile.
--
-- Maps are association lists. Search and Index/Insert are those of a graph that no other goroutine
-- changes meanwhile. In Index/Concurrent, Inserts of new names run at once: a step is what one of them
-- does between its locks, and a search among them finds any nodes that are there.
--
-- Parameters: CRC-32 and the names of the ring's points, encoding/json with its round trip as a
-- law, Atoi and Itoa with theirs, the files of a disk and how a write ends; for the Applier, the
-- graph that it inserts into, where Applier/Indexing puts the index itself; for the index, the
-- similarity of two vectors, the comparison of two scores, which orders them like numbers
-- (Index.Search.Invariant.Ranked: no score is NaN), a sort by descending score, and the random
-- source and float64 operations of assignLevel; for the similarity, the operations of float32
-- and float64; for the process, the environment, the host name, Atoi, and the functions of
-- strings and filepath that it calls; for the benchmarker, the random source, and the operations of
-- float32 and float64.
-- Fuel: sort.Search has one more than the length of the list, the loops of the heaps one more than
-- the way to go, and the loop of searchLayer one more than the number of nodes, since a node is
-- expanded once at most. Fuel that runs out counts as a panic or as no result, and the theorems show
-- that it does not run out.
--
-- Not modelled: the values of floating-point arithmetic; an Insert whose level is the conversion of
-- an infinity (M = 1), as its level is a natural number that it is given; the answer of a search while a graph
-- changes, and concurrent Inserts of one name; the generated code of api/proto but for its
-- messages; the RPCs, clocks and report of cmd/benchmarker; the listener, the profiling server and the
-- signals of cmd/server.
pub mod Prelude
pub mod Applier
pub mod Benchmark
pub mod Index
pub mod Process
pub mod Raft
pub mod Ring
pub mod Server
