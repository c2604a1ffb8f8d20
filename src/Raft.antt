-- ===== src/Raft.antt =====
-- raftstore: how a replica applies the committed entries of its raft log.
pub mod Shards
pub mod Delegate
pub mod ConfChange
pub mod Split
pub mod Pending
pub mod Compact
pub mod Requests
pub mod Apply
mod Tests
