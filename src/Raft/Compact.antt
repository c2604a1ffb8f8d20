-- ===== src/Raft/Compact.antt =====
-- raftstore/peer_apply_exec.go: `doExecCompactRaftLog`, and `compactRaftLog` of
-- raftstore/peer_storage.go.
use matrixcube.Prelude.{ℕ, ◌≤◌, ◌≡◌, Option, none, some, arith, ltb, leb, ◌==◌, if◌then◌else◌}
use matrixcube.Prelude.Words.{add64}
use matrixcube.Raft.Delegate.{
  ApplyState, Delegate, Context, AdminResult, log_compacted, ApplyError, outdated_format,
  already_compacted, beyond_applied, Exec, done, failed,
}

pub data Compacted : Type 0 where
  compacted : ApplyState → Compacted
  not_compacted : ApplyError → Compacted

unfoldable pub compact_raft_log : ApplyState → ℕ → ℕ → Compacted
compact_raft_log state compact_index compact_term =
    if leb compact_index state.truncated_index
    then not_compacted already_compacted
    else if ltb state.applied_index compact_index
    then not_compacted beyond_applied
    else compacted (record state { truncated_index = compact_index; truncated_term = compact_term })

abbrev pub commit_compact : Delegate → Context → ℕ → Compacted → Exec
commit_compact d ctx first_index (compacted state) =
    done d (record ctx { apply_state = state }) (some (log_compacted state first_index))
commit_compact d ctx first_index (not_compacted e) = failed e d ctx

unfoldable pub exec_compact_raft_log : Delegate → Context → ℕ → ℕ → Exec
exec_compact_raft_log d ctx compact_index compact_term =
    let first_index = add64 ctx.apply_state.truncated_index 1 in
    if leb compact_index first_index
    then done d ctx none
    else if compact_term == 0
    then failed outdated_format d ctx
    else commit_compact d ctx first_index
        (compact_raft_log ctx.apply_state compact_index compact_term)

-- Where the log is cut behind what has been applied, it is so after a compaction that succeeds
-- or does nothing; the delegate and the applied index stay as they are; and the log is not cut
-- further back than before.
pub exec_compact_raft_log_lem :
    (d d' : Delegate) (ctx ctx' : Context) (index term : ℕ) (r : Option AdminResult)
    → ctx.apply_state.truncated_index ≤ ctx.apply_state.applied_index
    → exec_compact_raft_log d ctx index term ≡ done d' ctx' r
    → (ctx'.apply_state.truncated_index ≤ ctx'.apply_state.applied_index)
      × (ctx'.apply_state.applied_index ≡ ctx.apply_state.applied_index)
      × (ctx.apply_state.truncated_index ≤ ctx'.apply_state.truncated_index)
      × (d' ≡ d)
unfolding exec_compact_raft_log compact_raft_log
exec_compact_raft_log_lem d d' ctx ctx' index term r i h =
    (ground arith, ground arith, ground arith, ground arith)
