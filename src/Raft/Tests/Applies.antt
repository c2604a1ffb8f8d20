-- ===== src/Raft/Tests/Applies.antt =====
-- A replica with two commands that wait, and the entries that it applies: an empty one, and a
-- write.
use matrixcube.Prelude.{
  ℕ, ◌≤◌, ◌≡◌, refl, true, false, not, none, some, List, [], ◌∷◌, ◌++◌, map, arith, ◌⊎◌,
}
use matrixcube.Prelude.Bytes.{Bytes, bytes_eq}
use matrixcube.Prelude.Words.{add64}
use matrixcube.Raft.Shards.{change_peer}
use matrixcube.Raft.Delegate.{ApplyState, Cmd, Delegate, Context, apply_state_of, log_compacted}
use matrixcube.Raft.Pending.{
  stale_cmd, cmd_of, all_cmds, pop_pending_cmd, find_pending, pop_stale, find_cb, destroy,
}
use matrixcube.Raft.Pending.Laws.{
  IsParted, pop_stale-IsParted, IsSearched, find_pending-IsSearched, find_cb-change_peer,
}
use matrixcube.Raft.Compact.{exec_compact_raft_log, compact_raft_log, exec_compact_raft_log_lem}
use matrixcube.Raft.Requests.{Env, Entry, no_data, RaftCmdRequest, no_result}
use matrixcube.Raft.Apply.{
  Replica, apply_empty, apply_one, apply_committed_entries, do_apply_committed_entries,
}
use matrixcube.Raft.Apply.Order.{
  IsApplied, IsRun, apply_one-IsApplied, apply_committed_entries-IsRun,
}
use matrixcube.Raft.Apply.Epoch.{do_apply_committed_entries_lem}
use matrixcube.Raft.Tests.{delegate, context}

abbrev waiting : Bytes → ℕ → Cmd
waiting id term = record { uuid = id; term = term }

abbrev old_cmd : Cmd
old_cmd = waiting (1 ∷ []) 3

abbrev new_cmd : Cmd
new_cmd = waiting (2 ∷ []) 4

abbrev queue : List Cmd
queue = old_cmd ∷ new_cmd ∷ []

abbrev busy_delegate : Delegate
busy_delegate = record delegate {
  pending_cmds = queue;
  pending_change_peer_cmd = some (waiting (9 ∷ []) 3);
}

find_pending-IsSearched_example : IsSearched 4 (2 ∷ []) queue (find_pending 4 (2 ∷ []) queue)
find_pending-IsSearched_example = find_pending-IsSearched 4 (2 ∷ []) queue

pop_stale-IsParted_example : IsParted 3 queue (pop_stale 3 queue)
pop_stale-IsParted_example = pop_stale-IsParted 0 3 queue (omega arith, (omega arith, tt))

find_cb-change_peer_example :
    let d = (find_cb busy_delegate 4 (some change_peer) (9 ∷ [])).1 in
    (d ≡ busy_delegate)
    × (bytes_eq (9 ∷ []) (9 ∷ []) ≡ true)
    × (map cmd_of (destroy d).1 ≡ queue ++ waiting (9 ∷ []) 3 ∷ [])
unfolding find_cb bytes_eq
find_cb-change_peer_example =
    find_cb-change_peer busy_delegate 4 (some change_peer) (9 ∷ []) (waiting (9 ∷ []) 3) refl refl

abbrev compacted_context : Context
compacted_context = record context {
  apply_state = record { applied_index = 20; truncated_index = 15; truncated_term = 2 };
}

exec_compact_raft_log_lem_example :
    (15 ≤ 20)
    × (compacted_context.apply_state.applied_index ≡ context.apply_state.applied_index)
    × (5 ≤ 15)
    × (delegate ≡ delegate)
unfolding exec_compact_raft_log compact_raft_log add64
exec_compact_raft_log_lem_example =
    exec_compact_raft_log_lem delegate delegate context compacted_context 15 2
      (some (log_compacted compacted_context.apply_state 6)) (omega arith) refl

abbrev pub env : Env
env = record {
  handlers = λ t.
      some
        (λ s q c. record { value = q.cmd; stale = false; stale_error = false; origin_key = none });
  hooks = record { on_split = λ g. none; move_data = none };
}

abbrev pub write_command : ℕ → RaftCmdRequest
write_command version = record {
  header = record {
    id = 2 ∷ [];
    epoch = record { conf_ver = 4; version = version };
    ignore_epoch_check = false;
  };
  admin = none;
  requests =
      record {
        id = 1 ∷ [];
        custom_type = 1;
        key = 122 ∷ 0 ∷ 0 ∷ 0 ∷ 0 ∷ 0 ∷ 0 ∷ 0 ∷ 1 ∷ 3 ∷ [];
        cmd = 5 ∷ [];
      }
      ∷ [];
}

abbrev pub replica : Replica
replica = record { delegate = busy_delegate; metadata = []; notices = []; results = [] }

abbrev pub empty_entry : Entry
empty_entry = record { index = 21; term = 4; data_of = no_data }

abbrev behind_empty : Replica
behind_empty =
    let state : ApplyState = record {
      applied_index = 21;
      truncated_index = 5;
      truncated_term = 1;
    } in
    record {
      delegate = record busy_delegate {
        pending_cmds = new_cmd ∷ [];
        apply_state = state;
        applied_index_term = 4;
      };
      metadata = apply_state_of 7 state ∷ [];
      notices = stale_cmd old_cmd 3 ∷ [];
      results =
          record { shard_id = 7; applied_index_term = 4; apply_state = state; result = no_result }
          ∷ [];
    }

apply_one-IsApplied_example : IsApplied 21 behind_empty
unfolding apply_one apply_empty pop_stale pop_pending_cmd
apply_one-IsApplied_example = apply_one-IsApplied env replica behind_empty empty_entry refl

apply_committed_entries-IsRun_example : IsRun 20 (empty_entry ∷ []) behind_empty
unfolding apply_committed_entries apply_one apply_empty pop_stale pop_pending_cmd add64
apply_committed_entries-IsRun_example =
    apply_committed_entries-IsRun env replica behind_empty (empty_entry ∷ []) (omega arith) refl

do_apply_committed_entries_lem_example :
    (true ≡ not false)
    × ((true ≡ true) ⊎ (all_cmds (record (behind_empty.delegate) { term = 3 }) ≡ []))
unfolding do_apply_committed_entries apply_committed_entries apply_one apply_empty pop_stale
    pop_pending_cmd add64
do_apply_committed_entries_lem_example =
    do_apply_committed_entries_lem env replica behind_empty 3 (empty_entry ∷ []) true refl
