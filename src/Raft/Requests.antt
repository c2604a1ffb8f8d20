-- ===== src/Raft/Requests.antt =====
-- raftstore/peer_apply.go and pb/raftcmdpb: the requests that come with the entries of the raft
-- log, the handlers and hooks of the application, and the results for the replica.
use matrixcube.Prelude.{ℕ, Option, none, some, List}
use matrixcube.Prelude.Bytes.{Bytes}
use matrixcube.Meta.{Shard, ChangePeerRequest}
use matrixcube.Raft.Shards.{
  AdminCmdType, change_peer, change_peer_v2, batch_split, compact_log, transfer_leader, other_admin,
  Header,
}
use matrixcube.Raft.Delegate.{ApplyState, Context, AdminResult}
use matrixcube.Raft.Split.{SplitRequest, Hooks}
use matrixcube.Raft.Pending.{Response}

pub data AdminRequest : Type 0 where
  change_peer_request : ChangePeerRequest → AdminRequest
  change_peer_v2_request : List ChangePeerRequest → AdminRequest
  batch_split_request : List SplitRequest → AdminRequest
  compact_log_request : (compact_index compact_term : ℕ) → AdminRequest
  transfer_leader_request : AdminRequest
  other_request : ℕ → AdminRequest

abbrev pub cmd_type : AdminRequest → AdminCmdType
cmd_type (change_peer_request r) = change_peer
cmd_type (change_peer_v2_request rs) = change_peer_v2
cmd_type (batch_split_request rs) = batch_split
cmd_type (compact_log_request i t) = compact_log
cmd_type transfer_leader_request = transfer_leader
cmd_type (other_request t) = other_admin t

abbrev pub admin_type : Option AdminRequest → Option AdminCmdType
admin_type none = none
admin_type (some a) = some (cmd_type a)

pub record WriteRequest : Type 0 where
  pub id : Bytes
  pub custom_type : ℕ
  pub key : Bytes
  pub cmd : Bytes

pub record RaftCmdRequest : Type 0 where
  pub header : Header
  pub admin : Option AdminRequest
  pub requests : List WriteRequest

pub data EntryData : Type 0 where
  no_data : EntryData
  command : RaftCmdRequest → EntryData
  conf_change : RaftCmdRequest → EntryData

pub record Entry : Type 0 where
  pub index : ℕ
  pub term : ℕ
  pub data_of : EntryData

-- the handlers by custom type, and the hooks of the configuration
pub record Env : Type 0 where
  pub handlers : ℕ → Option (Shard → WriteRequest → Context → Response)
  pub hooks : Hooks

-- the `result` of an asynchronous result; `empty_change` is what `applyConfChange` makes of nil
pub data EntryResult : Type 0 where
  no_result : EntryResult
  admin_result : AdminResult → EntryResult
  empty_change : EntryResult

pub record AsyncApplyResult : Type 0 where
  pub shard_id : ℕ
  pub applied_index_term : ℕ
  pub apply_state : ApplyState
  pub result : EntryResult
