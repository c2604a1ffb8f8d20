-- ===== src/Raft/Delegate.antt =====
-- The state of raftstore/peer_apply.go: the apply delegate of a replica, the context of the entry
-- that it applies, and what the application of an admin request yields.
use matrixcube.Prelude.{ℕ, Bool, Option, List, [], ◌∷◌, ◌++◌, if◌then◌else◌}
use matrixcube.Prelude.Bytes.{Bytes}
use matrixcube.Meta.{Shard, ChangePeerRequest}

pub record ApplyState : Type 0 where
  pub applied_index : ℕ
  pub truncated_index : ℕ
  pub truncated_term : ℕ

-- A command that waits for its entry: the id of its request and its term. A queued command always
-- has a request.
pub record Cmd : Type 0 where
  pub uuid : Bytes
  pub term : ℕ

pub record Delegate : Type 0 where
  pub peer_id : ℕ
  pub shard : Shard
  pub pending_remove : Bool
  pub apply_state : ApplyState
  pub applied_index_term : ℕ
  pub term : ℕ
  pub pending_cmds : List Cmd
  pub pending_change_peer_cmd : Option Cmd

pub data PeerState : Type 0 where
  normal tombstone : PeerState

-- What goes into the write batch of the metadata.
pub data Write : Type 0 where
  peer_state : Shard → PeerState → Write
  initial_state : ℕ → Write
  apply_state_of : ℕ → ApplyState → Write

pub record Context : Type 0 where
  pub raft_wb : List Write
  pub apply_state : ApplyState
  pub index : ℕ
  pub term : ℕ

-- `execResult` with its response: both carry the same shards
pub data AdminResult : Type 0 where
  peers_changed : (index : ℕ) (changes : List ChangePeerRequest) (shard : Shard) → AdminResult
  split_done : (derived : Shard) (shards : List Shard) → AdminResult
  log_compacted : (state : ApplyState) (first_index : ℕ) → AdminResult

pub data ApplyError : Type 0 where
  duplicated_peer unmatched_peer missing_peer voter_not_removable : ApplyError
  missing_splits missing_split_key invalid_split_key invalid_peer_ids : ApplyError
  outdated_format already_compacted beyond_applied : ApplyError

-- A handler returns, with a result or with none; or it returns an error, and keeps what it has
-- written so far; or it ends the process, by `logger.Fatalf` or a panic.
pub data Exec : Type 0 where
  done : Delegate → Context → Option AdminResult → Exec
  failed : ApplyError → Delegate → Context → Exec
  fatal : Exec

abbrev pub write : Context → Write → Context
write ctx w = record ctx { raft_wb = ctx.raft_wb ++ w ∷ [] }

-- `PeerState_Tombstone` where the peer is to be removed
abbrev pub state_of : Delegate → PeerState
state_of d = if d.pending_remove then tombstone else normal
