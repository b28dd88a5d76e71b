-- ===== src/Raft.antt =====
-- internal/raft: the Raft node.
pub mod Log
pub mod Node
pub mod Commit
pub mod Election
pub mod Membership
pub mod Replication
pub mod Reads
pub mod Compaction
pub mod Status
pub mod Start
pub mod Run
