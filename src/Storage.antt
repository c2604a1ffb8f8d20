-- ===== src/Storage.antt =====
-- The storage side: raftstore/keys.go, util/kv_btree.go and storage/mem/storage.go.
pub mod Wire
pub mod Keys
pub mod BTree
pub mod Kv
pub mod Mem
pub mod Snapshot
pub mod ShardTree
pub mod Tests
