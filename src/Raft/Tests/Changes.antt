-- ===== src/Raft/Tests/Changes.antt =====
-- Runs of the changes of peers.
use matrixcube.Prelude.{
  ℕ, ◌-◌, ◌≡◌, refl, false, inl, Option, some, List, [], ◌∷◌, ◌++◌, arith, map,
}
use matrixcube.Prelude.Words.{add64}
use matrixcube.Meta.{
  voter, learner, incoming_voter, demoting_voter, Shard, ChangePeerRequest, add_node,
  add_learner_node, is_in_joint_state, count_in_joint_state,
}
use matrixcube.Meta.Laws.{HasDistinctContainers}
use matrixcube.Raft.Shards.{find_peer, set_role, get_conf_change_kind}
use matrixcube.Raft.Delegate.{
  Delegate, Context, AdminResult, peers_changed, peer_state, normal, write,
}
use matrixcube.Raft.ConfChange.{
  bump_conf_ver, exec_change_peer, apply_change, apply_changes, leave_joint_peers, leave_joint_num,
  apply_leave_joint, exec_change_peer_v2,
}
use matrixcube.Raft.ConfChange.Simple.{Keeps, PeersAfter, exec_change_peer-done}
use matrixcube.Raft.ConfChange.Joint.{identity, apply_leave_joint_lem, exec_change_peer_v2-readded}
use matrixcube.Raft.ConfChange.Stores.{exec_change_peer_v2-distinct}
use matrixcube.Raft.Tests.{peer_in, peers, shard, delegate, context, request, peers_distinct}

-- what a handler leaves that has made the shard `s` of the changes
abbrev shard_written : Shard → Context
shard_written s = write context (peer_state s normal)

abbrev result : List ChangePeerRequest → Shard → Option AdminResult
result changes s = some (peers_changed 21 changes s)

abbrev add_fourth : ChangePeerRequest
add_fourth = request add_node (peer_in 4 voter)

abbrev with_fourth : Shard
with_fourth = record (bump_conf_ver shard 1) { peers = peers ++ peer_in 4 voter ∷ [] }

abbrev at : Shard → Delegate
at s = record delegate { shard = s }

exec_change_peer-done_example :
    Keeps shard with_fourth × PeersAfter delegate add_fourth with_fourth.peers false
unfolding exec_change_peer find_peer
exec_change_peer-done_example =
    exec_change_peer-done delegate (at with_fourth) context (shard_written with_fourth) add_fourth
      (result (add_fourth ∷ []) with_fourth) refl

abbrev bumped : ℕ → Shard
bumped n = bump_conf_ver shard n

-- the shard in joint state, and behind it
abbrev joint_shard : Shard
joint_shard = record shard {
  peers = peer_in 1 voter ∷ peer_in 2 demoting_voter ∷ peer_in 3 incoming_voter ∷ [];
}

abbrev left_shard : Shard
left_shard = record (bumped 1) {
  peers = peer_in 1 voter ∷ peer_in 2 learner ∷ peer_in 3 voter ∷ [];
}

apply_leave_joint_lem_example :
    (is_in_joint_state left_shard.peers ≡ false)
    × (map identity left_shard.peers ≡ map identity joint_shard.peers)
    × (left_shard.epoch.conf_ver ≡ add64 4 (3 - count_in_joint_state joint_shard.peers))
unfolding apply_leave_joint leave_joint_peers leave_joint_num
apply_leave_joint_lem_example = apply_leave_joint_lem joint_shard left_shard refl

-- a promotion of the learner
abbrev promote_third : ChangePeerRequest
promote_third = request add_node (peer_in 3 voter)

exec_change_peer_v2-readded_example : bumped 1 ≡ bump_conf_ver shard 1
unfolding exec_change_peer_v2 apply_changes apply_change find_peer set_role get_conf_change_kind
exec_change_peer_v2-readded_example =
    exec_change_peer_v2-readded delegate (at (bumped 1)) context (shard_written (bumped 1))
      promote_third [] (result (promote_third ∷ []) (bumped 1)) ((inl refl, refl), tt) refl

abbrev add_learner_fifth : ChangePeerRequest
add_learner_fifth = request add_learner_node (peer_in 5 learner)

abbrev with_two : Shard
with_two = record (bumped 2) { peers = peers ++ peer_in 4 incoming_voter ∷ peer_in 5 learner ∷ [] }

exec_change_peer_v2-distinct_example : HasDistinctContainers with_two.peers
unfolding exec_change_peer_v2 apply_changes apply_change find_peer set_role get_conf_change_kind
exec_change_peer_v2-distinct_example =
    exec_change_peer_v2-distinct delegate (at with_two) context (shard_written with_two)
      (add_fourth ∷ add_learner_fifth ∷ []) (result (add_fourth ∷ add_learner_fifth ∷ []) with_two)
      ((omega arith, tt), (tt, tt)) peers_distinct refl
