-- ===== src/Raft.antt =====
-- internal/consensus/raft.go: one node of a Raft cluster. Every handler is a function from the
-- node's state to its new state and what it answers or sends; rf.mu makes each of them atomic.
pub mod State
pub mod Election
pub mod Replication
pub mod Lifecycle
pub mod Persistence
pub mod Steps
pub mod Cluster
pub mod Examples
mod ElectionExamples
mod ClusterExamples
mod RoundExamples
mod RestartExamples
