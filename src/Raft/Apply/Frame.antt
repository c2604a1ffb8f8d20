-- ===== src/Raft/Apply/Frame.antt =====
-- What the execution of a command never changes: the state of the delegate that belongs to the
-- queue and to the log.
use matrixcube.Prelude.{
  leb, ◌==◌, ℕ, ◌≡◌, refl, Bool, true, false, Option, none, some, List, [], ◌∷◌, Bool-cases, inl,
  inr, if◌then◌else◌,
}
use matrixcube.Prelude.Words.{add64}
use matrixcube.Meta.{ChangePeerRequest, Shard}
use matrixcube.Raft.Shards.{
  key_in_shard, ConfChangeKind, simple_kind, enter_joint_kind, leave_joint_kind, check_epoch,
}
use matrixcube.Raft.Delegate.{Delegate, Context, Exec, done, failed, fatal, outdated_format}
use matrixcube.Raft.Pending.{Response}
use matrixcube.Raft.ConfChange.{
  Changed, changed, refused, commit_changed, Applied, applied, rejected, still_joint,
  commit_applied, commit_left, exec_by_kind, apply_changes, apply_leave_joint, start_conf,
  exec_change_peer, exec_change_peer_v2,
}
use matrixcube.Raft.Split.{
  SplitRequest, Hooks, Keys, keys, bad, panics, last_key, data_moved, finish_split, split_at,
  exec_split, write_shards,
}
use matrixcube.Raft.Compact.{
  Compacted, compacted, not_compacted, commit_compact, exec_compact_raft_log, compact_raft_log,
}
use matrixcube.Raft.Requests.{
  Env, AdminRequest, change_peer_request, change_peer_v2_request, batch_split_request,
  compact_log_request, transfer_leader_request, other_request, WriteRequest, RaftCmdRequest,
  admin_type,
}
use matrixcube.Raft.Apply.{
  exec_admin_request, Executed, executed, crashed, executed_admin, executed_write,
  exec_write_request, execute, execute_fresh,
}

-- the index and the term of the context stay, and so do the waiting commands
pub record IsFrame (d : Delegate) (ctx : Context) (d' : Delegate) (ctx' : Context) : Type 0 where
  pub same_index : ctx'.index ≡ ctx.index
  pub same_term : ctx'.term ≡ ctx.term
  pub same_cmds : d'.pending_cmds ≡ d.pending_cmds

abbrev pub ExecFrame : Delegate → Context → Exec → Type 0
ExecFrame d ctx (done d' ctx' r) = IsFrame d ctx d' ctx'
ExecFrame d ctx (failed e d' ctx') = IsFrame d ctx d' ctx'
ExecFrame d ctx fatal = Unit

abbrev framed : (d : Delegate) (ctx : Context) → IsFrame d ctx d ctx
framed d ctx = record { same_index = refl; same_term = refl; same_cmds = refl }

changed_frame :
    (d : Delegate) (ctx : Context) (cs : List ChangePeerRequest) (s : Changed)
    → ExecFrame d ctx (commit_changed d ctx cs s)
changed_frame d ctx cs (changed res removed) = record {
  same_index = refl;
  same_term = refl;
  same_cmds = refl;
}
changed_frame d ctx cs (refused e) = framed d ctx

applied_frame :
    (d : Delegate) (ctx : Context) (cs : List ChangePeerRequest) (a : Applied)
    → ExecFrame d ctx (commit_applied d ctx cs a)
applied_frame d ctx cs (applied c) = record {
  same_index = refl;
  same_term = refl;
  same_cmds = refl;
}
applied_frame d ctx cs (rejected e c) = record {
  same_index = refl;
  same_term = refl;
  same_cmds = refl;
}
applied_frame d ctx cs still_joint = tt

left_frame :
    (d : Delegate) (ctx : Context) (cs : List ChangePeerRequest) (o : Option Shard)
    → ExecFrame d ctx (commit_left d ctx cs o)
left_frame d ctx cs none = tt
left_frame d ctx cs (some res) = record { same_index = refl; same_term = refl; same_cmds = refl }

kind_frame :
    (kind : ConfChangeKind) (d : Delegate) (ctx : Context) (cs : List ChangePeerRequest)
    → ExecFrame d ctx (exec_by_kind kind d ctx cs)
kind_frame leave_joint_kind d ctx cs = left_frame d ctx cs (apply_leave_joint (d.shard))
kind_frame simple_kind d ctx cs =
    applied_frame d ctx cs (apply_changes simple_kind d.peer_id cs (start_conf d))
kind_frame enter_joint_kind d ctx cs =
    applied_frame d ctx cs (apply_changes enter_joint_kind d.peer_id cs (start_conf d))

write_shards_frame :
    (shards : List Shard) (ctx : Context)
    → ((write_shards shards ctx).index ≡ ctx.index) × ((write_shards shards ctx).term ≡ ctx.term)
write_shards_frame [] ctx = (refl, refl)
write_shards_frame (s ∷ rest) ctx = write_shards_frame rest _

if_frame :
    (d : Delegate) (ctx : Context) (b : Bool) (x y : Exec)
    → ExecFrame d ctx x
    → ExecFrame d ctx y
    → ExecFrame d ctx (if b then x else y)
if_frame d ctx true x y h k = h
if_frame d ctx false x y h k = k

finish_frame :
    (hooks : Hooks) (d : Delegate) (ctx : Context) (p : Shard × List Shard)
    → ExecFrame d ctx (finish_split hooks d ctx p)
finish_frame hooks d ctx (derived, shards) =
    if_frame d ctx (data_moved hooks.move_data derived shards) _ _
      (record {
        same_index = (write_shards_frame shards _).0;
        same_term = (write_shards_frame shards _).1;
        same_cmds = refl;
      })
      tt

split_frame :
    (hooks : Hooks) (d : Delegate) (ctx : Context) (reqs : List SplitRequest) (q : Keys)
    → ExecFrame d ctx (split_at hooks d ctx reqs q)
split_frame hooks d ctx reqs (bad e) = framed d ctx
split_frame hooks d ctx reqs panics = tt
split_frame hooks d ctx reqs (keys []) = framed d ctx
split_frame hooks d ctx reqs (keys (k ∷ ks)) =
    if_frame d ctx (key_in_shard (last_key k ks) (d.shard)) _ _ (finish_frame hooks d ctx _)
      (framed d ctx)

compact_frame :
    (d : Delegate) (ctx : Context) (first : ℕ) (c : Compacted)
    → ExecFrame d ctx (commit_compact d ctx first c)
compact_frame d ctx first (compacted s) = record {
  same_index = refl;
  same_term = refl;
  same_cmds = refl;
}
compact_frame d ctx first (not_compacted e) = framed d ctx

compact_log_frame :
    (d : Delegate) (ctx : Context) (i t : ℕ) → ExecFrame d ctx (exec_compact_raft_log d ctx i t)
unfolding exec_compact_raft_log
compact_log_frame d ctx i t =
    let first = add64 ctx.apply_state.truncated_index 1 in
    if_frame d ctx (leb i first) (done d ctx none)
      (if t == 0
        then failed outdated_format d ctx
        else commit_compact d ctx first (compact_raft_log ctx.apply_state i t))
      (framed d ctx)
      (if_frame d ctx (t == 0) (failed outdated_format d ctx)
        (commit_compact d ctx first (compact_raft_log ctx.apply_state i t)) (framed d ctx)
        (compact_frame d ctx first (compact_raft_log ctx.apply_state i t)))

pub exec_admin_request_frame :
    (env : Env) (d : Delegate) (ctx : Context) (a : AdminRequest)
    → ExecFrame d ctx (exec_admin_request env d ctx a)
unfolding exec_admin_request exec_change_peer exec_change_peer_v2 exec_split
exec_admin_request_frame env d ctx (change_peer_request r) = changed_frame d ctx (r ∷ []) _
exec_admin_request_frame env d ctx (change_peer_v2_request rs) = kind_frame _ d ctx rs
exec_admin_request_frame env d ctx (batch_split_request rs) = split_frame env.hooks d ctx rs _
exec_admin_request_frame env d ctx (compact_log_request i t) = compact_log_frame d ctx i t
exec_admin_request_frame env d ctx transfer_leader_request = framed d ctx
exec_admin_request_frame env d ctx (other_request t) = framed d ctx

abbrev pub ExecutedFrame : Delegate → Context → Executed → Type 0
ExecutedFrame d ctx (executed d' ctx' reply result) = IsFrame d ctx d' ctx'
ExecutedFrame d ctx crashed = Unit

admin_frame :
    (d : Delegate) (ctx : Context) (e : Exec)
    → ExecFrame d ctx e
    → ExecutedFrame d ctx (executed_admin e)
admin_frame d ctx (done d' ctx' r) h = h
admin_frame d ctx (failed e d' ctx') h = h
admin_frame d ctx fatal h = tt

write_frame :
    (d : Delegate) (ctx : Context) (o : Option (List Response))
    → ExecutedFrame d ctx (executed_write d ctx o)
write_frame d ctx none = tt
write_frame d ctx (some rs) = framed d ctx

fresh_frame :
    (env : Env) (d : Delegate) (ctx : Context) (requests : List WriteRequest)
    (o : Option AdminRequest)
    → ExecutedFrame d ctx (execute_fresh env d ctx requests o)
fresh_frame env d ctx requests none =
    write_frame d ctx (exec_write_request env (d.shard) ctx requests)
fresh_frame env d ctx requests (some a) =
    admin_frame d ctx (exec_admin_request env d ctx a) (exec_admin_request_frame env d ctx a)

pub execute_frame :
    (env : Env) (d : Delegate) (ctx : Context) (req : RaftCmdRequest)
    → ExecutedFrame d ctx (execute env d ctx req)
execute_frame env d ctx req =
    elim (Bool-cases (check_epoch (d.shard) (admin_type req.admin) (some req.header))) [
      | inl fresh ↦ rw fresh (fresh_frame env d ctx req.requests req.admin)
      | inr stale ↦ rw stale (framed d ctx)
    ]
