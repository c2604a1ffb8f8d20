-- ===== src/Raft/Apply.antt =====
-- raftstore/peer_apply.go: the application of committed entries, and `execAdminRequest` and
-- `execWriteRequest` of raftstore/peer_apply_exec.go. The write handlers that the application
-- registers are a parameter. The storage of the data, the metrics, and the switches of the tests
-- are left out. An entry comes with its request, decoded; its header is always there.
pub mod Frame
pub mod Order
pub mod Epoch
pub mod Returns
use matrixcube.Raft.Requests.{
  AdminRequest, AsyncApplyResult, Entry, EntryData, EntryResult, Env, RaftCmdRequest, WriteRequest,
  admin_result, admin_type, batch_split_request, change_peer_request, change_peer_v2_request,
  cmd_type, command, compact_log_request, conf_change, empty_change, no_data, no_result,
  other_request, transfer_leader_request,
}
use matrixcube.Prelude.{
  ℕ, ◌-◌, Bool, true, false, not, Option, none, some, List, [], ◌∷◌, ◌++◌, map, ◌==◌, if◌then◌else◌,
}
use matrixcube.Prelude.Bytes.{Bytes}
use matrixcube.Prelude.Words.{add64}
use matrixcube.Meta.{Shard, ChangePeerRequest}
use matrixcube.Raft.Shards.{
  AdminCmdType, change_peer, change_peer_v2, batch_split, compact_log, transfer_leader, other_admin,
  Header, check_epoch,
}
use matrixcube.Raft.Delegate.{
  ApplyState, Cmd, Delegate, Write, apply_state_of, Context, AdminResult, peers_changed, split_done,
  log_compacted, Exec, done, failed, fatal,
}
use matrixcube.Raft.ConfChange.{exec_change_peer, exec_change_peer_v2}
use matrixcube.Raft.Split.{SplitRequest, Hooks, exec_split}
use matrixcube.Storage.Keys.{decode_data_key}
use matrixcube.Raft.Compact.{exec_compact_raft_log}
use matrixcube.Raft.Pending.{
  Response, Reply, stale_epoch, admin_reply, write_reply, Notice, stale_cmd, answered, Popped,
  pop_stale, take_popped, find_cb, destroy,
}

-- A delegate with what it has done: the writes to the metadata, the callbacks that it has called,
-- and the results that it has passed to its replica.
pub record Replica : Type 0 where
  pub delegate : Delegate
  pub metadata : List Write
  pub notices : List Notice
  pub results : List AsyncApplyResult

unfoldable pub exec_admin_request : Env → Delegate → Context → AdminRequest → Exec
exec_admin_request env d ctx (change_peer_request r) = exec_change_peer d ctx r
exec_admin_request env d ctx (change_peer_v2_request rs) = exec_change_peer_v2 d ctx rs
exec_admin_request env d ctx (batch_split_request rs) = exec_split env.hooks d ctx rs
exec_admin_request env d ctx (compact_log_request i t) = exec_compact_raft_log d ctx i t
exec_admin_request env d ctx transfer_leader_request = done d ctx none
exec_admin_request env d ctx (other_request t) = done d ctx none

abbrev pub push_response : Option Response → Option (List Response) → Option (List Response)
push_response none more = none
push_response (some r) none = none
push_response (some r) (some rs) = some (r ∷ rs)

abbrev pub with_origin : Response → Option Bytes → Option Response
with_origin rsp none = none
with_origin rsp (some key) = some (record rsp { stale_error = true; origin_key = some key })

-- A stale response takes the key of its request; `DecodeDataKey` panics on one that is too short.
abbrev pub finish_response : WriteRequest → Response → Option Response
finish_response req rsp = if rsp.stale then with_origin rsp (decode_data_key req.key) else some rsp

-- A handler takes the shard, the request and the context, without the offset and the size of the
-- batch, and the bytes that it counts are left out. `none` is the call of `logger.Fatalf` for a type
-- without a handler, or the panic of a stale request.
unfoldable pub exec_write_request :
    Env → Shard → Context → List WriteRequest → Option (List Response)
exec_write_request env shard ctx [] = some []
exec_write_request env shard ctx (req ∷ rest) =
    let more = exec_write_request env shard ctx rest in
    elim (env.handlers req.custom_type) [
      | none ↦ none
      | some h ↦ push_response (finish_response req (h shard req ctx)) more
    ]

-- how the middle of `doApplyRaftCMD` ends: with a response and a result, or the end of the process
pub data Executed : Type 0 where
  executed : Delegate → Context → Option Reply → Option AdminResult → Executed
  crashed : Executed

abbrev pub admin_response : Option AdminResult → Option Reply
admin_response none = none
admin_response (some r) = some (admin_reply r)

abbrev pub executed_admin : Exec → Executed
executed_admin (done d ctx r) = executed d ctx (admin_response r) r
executed_admin (failed e d ctx) = executed d ctx (some (stale_epoch d.term d.shard)) none
executed_admin fatal = crashed

abbrev pub executed_write : Delegate → Context → Option (List Response) → Executed
executed_write d ctx none = crashed
executed_write d ctx (some rs) = executed d ctx (some (write_reply rs)) none

-- behind the check of the epoch
abbrev pub execute_fresh :
    Env → Delegate → Context → List WriteRequest → Option AdminRequest → Executed
execute_fresh env d ctx requests none =
    executed_write d ctx (exec_write_request env (d.shard) ctx requests)
execute_fresh env d ctx requests (some a) = executed_admin (exec_admin_request env d ctx a)

abbrev pub execute : Env → Delegate → Context → RaftCmdRequest → Executed
execute env d ctx req =
    if not (check_epoch (d.shard) (admin_type req.admin) (some req.header))
    then executed d ctx (some (stale_epoch d.term d.shard)) none
    else execute_fresh env d ctx req.requests req.admin

-- `buildTerm`: only an error response has the header that takes the term
abbrev pub build_term : ℕ → Reply → Reply
build_term term (stale_epoch t s) = stale_epoch term s
build_term term (admin_reply r) = admin_reply r
build_term term (write_reply rs) = write_reply rs

abbrev pub respond : ℕ → Option Cmd → Option Reply → List Notice
respond term (some c) (some reply) = answered c (build_term term reply) ∷ []
respond term c reply = []

-- the end of `doApplyRaftCMD`, from the applied index of the context on
abbrev pub commit :
    Replica → Option Cmd → List Notice → Executed → Option (Replica × Option AdminResult)
commit r cb notices crashed = none
commit r cb notices (executed d ctx reply result) =
    let state = record (ctx.apply_state) { applied_index = ctx.index } in
    let wb =
      if not d.pending_remove
      then ctx.raft_wb ++ apply_state_of d.shard.id state ∷ []
      else ctx.raft_wb in
    some (
      record r {
        delegate = record d { apply_state = state; term = ctx.term };
        metadata = r.metadata ++ wb;
        notices = r.notices ++ notices ++ respond ctx.term cb reply;
      },
      result,
    )

unfoldable pub do_apply_raft_cmd :
    Env → Replica → Context → RaftCmdRequest → Option (Replica × Option AdminResult)
do_apply_raft_cmd env r ctx req =
    if ctx.index == 0
    then none
    else (let (cb, d, notices) = find_cb r.delegate ctx.term (admin_type req.admin) req.header.id in
        if d.pending_remove then none else commit r cb notices (execute env d ctx req))

-- `d.ctx` behind its reset
abbrev pub context_of : Delegate → Entry → Context
context_of d entry = record {
  raft_wb = [];
  apply_state = d.apply_state;
  index = entry.index;
  term = entry.term;
}

-- `applyEntry` without data
unfoldable pub apply_empty : Replica → Entry → Option Replica
apply_empty r entry =
    let d = r.delegate in
    let state = record (d.apply_state) { applied_index = entry.index } in
    let p = pop_stale (entry.term - 1) d.pending_cmds in
    if entry.term == 0
    then none
    else some (record r {
      delegate = record d {
        apply_state = state;
        applied_index_term = entry.term;
        pending_cmds = p.left;
      };
      metadata = r.metadata ++ apply_state_of d.shard.id state ∷ [];
      notices = r.notices ++ map (λ c. stale_cmd c d.term) p.stale;
    })

abbrev pub plain_result : Option AdminResult → EntryResult
plain_result none = no_result
plain_result (some x) = admin_result x

-- `result.changePeer.confChange = v2cc` needs the result of a change of peers
abbrev pub conf_change_result : Option AdminResult → Option EntryResult
conf_change_result none = some empty_change
conf_change_result (some (peers_changed i cs s)) = some (admin_result (peers_changed i cs s))
conf_change_result (some (split_done d s)) = none
conf_change_result (some (log_compacted s i)) = none

-- the part of a round behind the application: the asynchronous result goes to the replica
abbrev pub add_apply_result : Replica → EntryResult → Replica
add_apply_result r x = record r {
  results =
      r.results
      ++ record {
        shard_id = r.delegate.shard.id;
        applied_index_term = r.delegate.applied_index_term;
        apply_state = r.delegate.apply_state;
        result = x;
      }
        ∷ [];
}

abbrev pub finish_empty : Option Replica → Option Replica
finish_empty none = none
finish_empty (some r) = some (add_apply_result r no_result)

abbrev pub finish_command : Option (Replica × Option AdminResult) → Option Replica
finish_command none = none
finish_command (some (r, x)) = some (add_apply_result r (plain_result x))

abbrev pub finish_conf_change : Option (Replica × Option AdminResult) → Option Replica
finish_conf_change none = none
finish_conf_change (some (r, x)) = elim (conf_change_result x) [
  | none ↦ none
  | some y ↦ some (add_apply_result r y)
]

unfoldable pub apply_one : Env → Replica → Entry → Option Replica
apply_one env r entry = elim entry.data_of [
  | no_data ↦ finish_empty (apply_empty r entry)
  | command req ↦ finish_command (do_apply_raft_cmd env r (context_of r.delegate entry) req)
  | conf_change req ↦ finish_conf_change (do_apply_raft_cmd env r (context_of r.delegate entry) req)
]

unfoldable pub apply_committed_entries : Env → Replica → List Entry → Option Replica
apply_committed_entries env r [] = some r
apply_committed_entries env r (entry ∷ rest) =
    if r.delegate.pending_remove
    then some r
    else if not (add64 r.delegate.apply_state.applied_index 1 == entry.index)
    then none
    else elim (apply_one env r entry) [
      | none ↦ none
      | some r' ↦ apply_committed_entries env r' rest
    ]

-- The replica of `doApplyCommittedEntries`, and whether its delegate stays registered.
abbrev pub destroy_removed : Option Replica → Option (Replica × Bool)
destroy_removed none = none
destroy_removed (some r) =
    if r.delegate.pending_remove
    then (let (d, notices) = destroy r.delegate in
        some (record r { delegate = d; notices = r.notices ++ notices }, false))
    else some (r, true)

unfoldable pub do_apply_committed_entries : Env → Replica → ℕ → List Entry → Option (Replica × Bool)
do_apply_committed_entries env r term entries = destroy_removed (
    apply_committed_entries env (record r { delegate = record (r.delegate) { term = term } })
      entries)
