-- ===== src/Raft/ConfChange.antt =====
-- raftstore/peer_apply_exec.go: the application of a change of the peers of a shard.
pub mod Simple
pub mod Steps
pub mod Joint
pub mod Stores
use matrixcube.Prelude.{
  ℕ, zero, suc, ◌+◌, Bool, true, false, not, ◌&&◌, ◌||◌, Option, none, some, List, [], ◌∷◌, ◌++◌,
  ◌==◌, length, if◌then◌else◌,
}
use matrixcube.Prelude.Words.{add64}
use matrixcube.Meta.{
  Peer, PeerRole, voter, learner, incoming_voter, demoting_voter, role_is_voter, role_is_learner,
  role_is_incoming, role_is_demoting, in_joint, Shard, ResourceEpoch, ChangePeerRequest, add_node,
  remove_node, update_node, add_learner_node, scale_peer,
}
use matrixcube.Raft.Shards.{
  find_peer, set_role, remove_peer, ConfChangeKind, simple_kind, enter_joint_kind, leave_joint_kind,
  get_conf_change_kind,
}
use matrixcube.Raft.Delegate.{
  Delegate, Context, AdminResult, peers_changed, ApplyError, duplicated_peer, unmatched_peer,
  missing_peer, voter_not_removable, Exec, done, failed, fatal, peer_state, write, state_of,
}

abbrev pub bump_conf_ver : Shard → ℕ → Shard
bump_conf_ver s n = record s { epoch = record s.epoch { conf_ver = add64 s.epoch.conf_ver n } }

-- the shard and the flag of the delegate, as `doExecChangePeer` leaves them, or the error
pub data Changed : Type 0 where
  changed : Shard → Bool → Changed
  refused : ApplyError → Changed

module _ (d : Delegate) (peer : Peer) where
  -- the `switch` on the type of the change; `p` is what `findPeer` has found in the copy `res`
  abbrev pub change_simple : ChangePeerRequest → Shard → Option Peer → Changed
  change_simple req res p = elim req.change_type [
    | add_node ↦ elim p [
      | none ↦ changed (record res { peers = res.peers ++ peer ∷ [] }) d.pending_remove
      | some q ↦
          if not (role_is_learner q.role) || not (q.id == peer.id)
          then refused duplicated_peer
          else changed (record res { peers = set_role res.peers peer.container_id voter })
              d.pending_remove
    ]
    | remove_node ↦ elim p [
      | none ↦ refused missing_peer
      | some q ↦
          if not (q.id == peer.id) || not (q.container_id == peer.container_id)
          then refused unmatched_peer
          else changed res (if d.peer_id == peer.id then true else d.pending_remove)
    ]
    | add_learner_node ↦ elim p [
      | none ↦ changed (record res { peers = res.peers ++ peer ∷ [] }) d.pending_remove
      | some q ↦ refused duplicated_peer
    ]
    | update_node ↦ changed res d.pending_remove
    | scale_peer ↦ changed res d.pending_remove
  ]

-- how both handlers end: the delegate takes the new shard, which is written with its state
abbrev pub commit_shard : Delegate → Context → List ChangePeerRequest → Shard → Bool → Exec
commit_shard d ctx changes res removed =
    let d' = record d { shard = res; pending_remove = removed } in
    done d' (write ctx (peer_state res (state_of d'))) (some (peers_changed ctx.index changes res))

abbrev pub commit_changed : Delegate → Context → List ChangePeerRequest → Changed → Exec
commit_changed d ctx changes (changed res removed) = commit_shard d ctx changes res removed
commit_changed d ctx changes (refused e) = failed e d ctx

unfoldable pub exec_change_peer : Delegate → Context → ChangePeerRequest → Exec
unfolding find_peer
exec_change_peer d ctx req =
    let res = bump_conf_ver d.shard 1 in
    commit_changed d ctx (req ∷ [])
      (change_simple d req.peer req res (find_peer res.peers req.peer.container_id))

-- The state of the loop of `applyConfChangeByKind`: the peers of the delegate's own shard, in
-- which the existing peer is looked up and its role is set through the pointer, the copy that will
-- replace the shard, and the flag.
pub record Conf : Type 0 where
  pub own_peers : List Peer
  pub res : Shard
  pub pending_remove : Bool

pub data Applied : Type 0 where
  applied : Conf → Applied
  rejected : ApplyError → Conf → Applied
  still_joint : Applied

abbrev pub role_added : ConfChangeKind → PeerRole → PeerRole
role_added simple_kind role = voter
role_added enter_joint_kind role = incoming_voter
role_added leave_joint_kind role = role

abbrev pub role_promoted : ConfChangeKind → PeerRole
role_promoted simple_kind = voter
role_promoted enter_joint_kind = incoming_voter
role_promoted leave_joint_kind = learner

abbrev pub role_demoted : ConfChangeKind → PeerRole
role_demoted simple_kind = learner
role_demoted enter_joint_kind = demoting_voter
role_demoted leave_joint_kind = voter

abbrev pub is_enter_joint : ConfChangeKind → Bool
is_enter_joint enter_joint_kind = true
is_enter_joint _ = false

abbrev pub append_peer : Conf → Peer → Conf
append_peer c peer = record c { res = record c.res { peers = c.res.peers ++ peer ∷ [] } }

abbrev pub set_own_role : Conf → ℕ → PeerRole → Conf
set_own_role c store_id role = record c { own_peers = set_role c.own_peers store_id role }

-- the branch for an existing peer and AddNode or AddLearnerNode; `to_voter` says which
abbrev pub readd : ConfChangeKind → Bool → Peer → Peer → Conf → Applied
readd kind to_voter q peer c =
    if not (q.id == peer.id)
      || role_is_voter q.role && to_voter
      || role_is_learner q.role && not to_voter
    then rejected duplicated_peer c
    else if role_is_voter q.role && not to_voter
    then applied (set_own_role c peer.container_id (role_demoted kind))
    else if role_is_learner q.role && to_voter
    then applied (set_own_role c peer.container_id (role_promoted kind))
    else applied c

-- the branch for an existing peer and RemoveNode, behind its first test
abbrev pub take_out : ℕ → Peer → Conf → Option Peer × List Peer → Applied
take_out self peer c (none, left) = applied (record c { res = record c.res { peers = left } })
take_out self peer c (some p, left) =
    let c' = record c { res = record c.res { peers = left } } in
    if not (p.id == peer.id) || not (p.container_id == peer.container_id)
    then rejected unmatched_peer c'
    else applied (record c' { pending_remove = if self == peer.id then true else c.pending_remove })

module _ (kind : ConfChangeKind) (self : ℕ) (cp : ChangePeerRequest) (c : Conf) where
  abbrev pub change_absent : Applied
  change_absent = elim cp.change_type [
    | add_node ↦ applied (append_peer c (record (cp.peer) { role = role_added kind cp.peer.role }))
    | add_learner_node ↦ applied (append_peer c (record (cp.peer) { role = learner }))
    | remove_node ↦ rejected missing_peer c
    | update_node ↦ applied c
    | scale_peer ↦ applied c
  ]

  abbrev pub change_existing : Peer → Applied
  change_existing q = elim cp.change_type [
    | add_node ↦ readd kind true q (cp.peer) c
    | add_learner_node ↦ readd kind false q (cp.peer) c
    | remove_node ↦
        if is_enter_joint kind && role_is_voter q.role
        then rejected voter_not_removable c
        else take_out self (cp.peer) c (remove_peer c.res.peers cp.peer.container_id)
    | update_node ↦ applied c
    | scale_peer ↦ applied c
  ]

  abbrev pub change_found : Option Peer → Applied
  change_found none = change_absent
  change_found (some q) = if in_joint q then still_joint else change_existing q

  unfoldable pub apply_change : Applied
  apply_change = change_found (find_peer c.own_peers cp.peer.container_id)

-- the loop of `applyConfChangeByKind`
unfoldable pub apply_changes : ConfChangeKind → ℕ → List ChangePeerRequest → Conf → Applied
apply_changes kind self [] c = applied c
apply_changes kind self (cp ∷ rest) c = elim (apply_change kind self cp c) [
  | applied c' ↦ apply_changes kind self rest c'
  | rejected e c' ↦ rejected e c'
  | still_joint ↦ still_joint
]

-- the loop of `applyLeaveJoint`: the peers with their new roles, and `change_num`
abbrev pub left_role : Peer → Peer
left_role p =
    if role_is_incoming p.role
    then record p { role = voter }
    else if role_is_demoting p.role
    then record p { role = learner }
    else p

unfoldable pub leave_joint_peers : List Peer → List Peer
leave_joint_peers [] = []
leave_joint_peers (p ∷ rest) = left_role p ∷ leave_joint_peers rest

unfoldable pub leave_joint_num : List Peer → ℕ
leave_joint_num [] = 0
leave_joint_num (p ∷ rest) =
    let more = leave_joint_num rest in
    if role_is_incoming p.role then more else if role_is_demoting p.role then more else suc more

-- `none` is the call of `logger.Fatalf`
unfoldable pub apply_leave_joint : Shard → Option Shard
apply_leave_joint shard =
    let change_num = leave_joint_num shard.peers in
    if change_num == 0
    then none
    else some (bump_conf_ver (record shard { peers = leave_joint_peers shard.peers }) change_num)

-- the delegate with what the loop has written to it
abbrev pub with_conf : Delegate → Conf → Delegate
with_conf d c = record d {
  shard = record (d.shard) { peers = c.own_peers };
  pending_remove = c.pending_remove;
}

abbrev pub commit_applied : Delegate → Context → List ChangePeerRequest → Applied → Exec
commit_applied d ctx changes (applied c) =
    commit_shard (with_conf d c) ctx changes (bump_conf_ver c.res (length changes)) c.pending_remove
commit_applied d ctx changes (rejected e c) = failed e (with_conf d c) ctx
commit_applied d ctx changes still_joint = fatal

abbrev pub commit_left : Delegate → Context → List ChangePeerRequest → Option Shard → Exec
commit_left d ctx changes none = fatal
commit_left d ctx changes (some res) = commit_shard d ctx changes res d.pending_remove

abbrev pub start_conf : Delegate → Conf
start_conf d = record {
  own_peers = d.shard.peers;
  res = d.shard;
  pending_remove = d.pending_remove;
}

abbrev pub exec_by_kind : ConfChangeKind → Delegate → Context → List ChangePeerRequest → Exec
exec_by_kind leave_joint_kind d ctx changes =
    commit_left d ctx changes (apply_leave_joint (d.shard))
exec_by_kind simple_kind d ctx changes =
    commit_applied d ctx changes (apply_changes simple_kind d.peer_id changes (start_conf d))
exec_by_kind enter_joint_kind d ctx changes =
    commit_applied d ctx changes (apply_changes enter_joint_kind d.peer_id changes (start_conf d))

unfoldable pub exec_change_peer_v2 : Delegate → Context → List ChangePeerRequest → Exec
exec_change_peer_v2 d ctx changes =
    exec_by_kind (get_conf_change_kind (length changes)) d ctx changes
