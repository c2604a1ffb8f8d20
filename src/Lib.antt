-- ===== src/Lib.antt =====
-- The matrixcube library: the operators of its scheduler, and the application of raft commands in
-- its store.
--
-- Prophet, the scheduler of matrixcube, moves the replicas of resources between containers. It plans
-- a move as an operator, a list of steps, and drives it by the heartbeats of the resource: a step is
-- looked up in the reported resource to see if it is finished and safe, and an operator goes through
-- the states created, started, and one of five ends. The raftstore keeps a shard as a raft group. A
-- replica of it applies the committed entries of the raft log in order: writes go to the handlers of
-- the application, and admin requests change the peers of the shard, split it, or cut its log. The
-- peers, the epochs and the joint states that an operator watches are what the application of these
-- requests changes. Both parts share the types of Meta. A builder makes the steps of an operator
-- from the peers that a resource has and those that it shall have. The storage keeps the data of the
-- shards under keys made of a group and a key, and the metadata of the shards and the raft logs
-- under keys of their own; a tree of ranges finds the shard of a key. The caches of the scheduler
-- stand for themselves.
--
-- Files, and the code they model (paths from the root of the repository; S is
-- components/prophet/schedule/operator, R is raftstore):
--   Meta: components/prophet/metadata/metadata.go and the protobuf messages Peer, ResourceEpoch,
--     Shard and ChangePeerRequest.
--   Operator/Status, Operator/Tracker: S/status.go and S/status_tracker.go. Each method of
--     OpStatusTracker is a function of the tracker and the time that it reads, to the new tracker and
--     its result.
--   Operator/Resource: the lookups of components/prophet/core/resource.go.
--   Operator/Influence: S/influence.go. The map of influences is a function of the container.
--   Operator/Step, Operator/Joint, Operator/OpStep: S/step.go. Operator/Step has the methods of the
--     simple steps, Operator/Joint those of ChangePeerV2Enter and ChangePeerV2Leave, and
--     Operator/OpStep the interface, as a data type with a dispatch for each method.
--   Operator/Plan: S/operator.go. Check takes a clock that gives the time at each step.
--   Operator/Builder: S/builder.go. Peers is its map of peers, as the list in the order of the
--     containers; Requests runs the requests one after the other; Prepare is prepareBuild, Exec the exec
--     functions with the choice of the leader, JointPlan buildStepsWithJointConsensus, StepPlan the plans
--     of one round and the choice among them, and PlainPlan buildStepsWithoutJointConsensus and Build.
--     The other modules prove: Pending, Added, Result, Ready and Start about prepareBuild, Leader,
--     Outcome, Changed, Built, JointPlay and JointSteps about joint consensus, Plans, Rounds, Finals,
--     PlainPlay and Targets about the rounds, and Builds about both ways. Play says what a step makes
--     of the peer of a container and of the leader.
--   Raft/Shards: R/util.go, checkKeyInShard of R/errors.go, checkEpoch of R/store.go, and
--     getConfChangeKind of R/peer_event_proposal.go.
--   Raft/Delegate: the state of R/peer_apply.go.
--   Raft/ConfChange, Raft/Split, Raft/Compact: the handlers of R/peer_apply_exec.go. A handler takes
--     the delegate and the context and returns both with a result, or an error, or the end of the
--     process.
--   Raft/Pending: the waiting commands of R/peer_apply.go. A callback that is called is a notice.
--   Raft/Requests: the requests of entries, and the asynchronous results.
--   Raft/Apply: execAdminRequest, execWriteRequest, doApplyRaftCMD, applyEntry, applyConfChange,
--     applyCommittedEntries and doApplyCommittedEntries. The writes to the metadata are a list.
--   Cache/Lru, Cache/TwoQueue: lru.go and two_queue.go of components/prophet/util/cache. The linked list
--     and the map of an LRU cache are two fields, and the 2Q cache has three LRU caches.
--   Storage/Keys: R/keys.go.
--   Storage/Kv, Storage/ShardTree: util/kv_btree.go and util/btree_shard.go.
--   Storage/Mem, Storage/Snapshot: storage/mem/storage.go and util/write_batch.go. The tree of the
--     storage is that of Storage/Kv; a snapshot is the bytes of its file. Storage/Snapshot/Runs has
--     the calls on storages and the snapshots between them as one history.
-- Each has its theorems in the modules below it, and the runs on concrete data are in
-- Operator/Tests, Raft/Tests, Cache/Tests and Storage/Tests. Prelude has the shared helpers: tests
-- on numbers, lists, byte strings, the arithmetic of 64-bit words, and integers in the big order of
-- bytes.
--
-- Numbers: int64 and uint64 counters are 64-bit patterns with the wrap written out; ids and terms
-- are plain numbers. Times are numbers of nanoseconds, and the zero time is 0. A call of the storage
-- reads the clock once. Every loop of the code goes over a list, except two, which run on fuel. That
-- of ApplySnapshot over the pairs of the file has the length of the file and one, as each round
-- takes a byte at least. That of buildStepsWithoutJointConsensus has the number of the peers that
-- are to be changed, of which each round takes one.
--
-- Parameters: the write handlers and the hooks of the application, and the function that moves data
-- at a split; the B-tree of google/btree and the integers of goetty, as records with their
-- documented laws (Storage/BTree, Storage/ShardTree, Storage/Wire), which lists fulfil; what a
-- builder asks of the cluster (Operator/Builder). Files are read and written in full.
--
-- Not modelled: logging and metrics; the text forms; the failures of a storage, which end the
-- process, and of files; the Pebble storage; WriteGroupPrefix; the registration and the start of a
-- delegate; the snapshots of raft; the proposal of commands; the controller of operators, placement
-- rules, checkers, filters, schedulers and statistics; the FIFO and TTL caches and the tree of
-- resources; the network, etcd and the processes around them. A step or a raft entry comes decoded,
-- as protobuf does it.
--
-- Left out of a write are the offset and the size of its batch, which a handler could read in the
-- context, and the bytes that it counts. Taken as given: a callback returns, so cmd.resp, which ends the process where the numbers of
-- requests and responses differ, is not opened; the replica of a shard and its delegate are there
-- when entries are applied; a value in the storage has 8 bytes or none, as encodeValue makes it, so
-- that get does not panic on a shorter one, which only a foreign file of a snapshot can hold.
pub mod Prelude
pub mod Meta
pub mod Operator
pub mod Raft
pub mod Storage
pub mod Cache
