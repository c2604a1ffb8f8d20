-- ===== src/Operator/Builder/JointPlan.antt =====
-- components/prophet/schedule/operator/builder.go: `buildStepsWithJointConsensus`.
use Prim.Native.Nat.{bit_or}
use matrixcube.Prelude.{
  ℕ, Bool, true, false, not, ◌||◌, Option, none, some, List, [], ◌∷◌, ◌==◌, if◌then◌else◌,
}
use matrixcube.Meta.{Peer, learner, is_learner}
use matrixcube.Operator.Plan.{op_resource}
use matrixcube.Operator.Builder.Peers.{PeersMap, lookup, set}
use matrixcube.Operator.Builder.{Builder, BuilderError, no_valid_leader, with_role}
use matrixcube.Operator.Builder.Exec.{
  exec_transfer_leader, exec_add_peer, exec_remove_peer, exec_change_peer_v2,
  set_target_leader_if_not_exist,
}

-- the bit `OpLeader` of a kind
abbrev pub op_leader : ℕ
op_leader = 1

-- one round of the first loop: a voter is added as a learner, to be promoted
unfoldable pub add_as_learner : Builder → Peer → Builder
add_as_learner b p =
    if not (is_learner p)
    then (let e = exec_add_peer b (with_role p learner) in
        record e { to_promote = set e.to_promote p })
    else exec_add_peer b p

unfoldable pub add_all : Builder → List Peer → Builder
add_all b [] = b
add_all b (p ∷ ps) = add_all (add_as_learner b p) ps

-- the second loop: a voter that is removed is demoted before
unfoldable pub demote_removed : Builder → Peer → Builder
demote_removed b p =
    if not (is_learner p) then record b { to_demote = set b.to_demote (with_role p learner) } else b

unfoldable pub demote_all : Builder → List Peer → Builder
demote_all b [] = b
demote_all b (p ∷ ps) = demote_all (demote_removed b p) ps

unfoldable pub remove_all : Builder → List Peer → Builder
remove_all b [] = b
remove_all b (p ∷ ps) = remove_all (exec_remove_peer b p) ps

abbrev pub or_kind : List Peer → ℕ → ℕ
or_kind [] kind = kind
or_kind (p ∷ ps) kind = bit_or kind op_resource

abbrev pub is_voter_in : PeersMap → ℕ → Bool
is_voter_in m id = elim (lookup m id) [ none ↦ false | some p ↦ not (is_learner p) ]

abbrev pub moves_leader : Builder → Bool
moves_leader b = not (b.origin_leader == b.target_leader)

-- the three orders of the change of peers and the transfer of the leader
unfoldable pub change_and_transfer : Builder → ℕ → Builder × ℕ
change_and_transfer b kind =
    let led = bit_or kind op_leader in
    if is_voter_in b.origin_peers b.target_leader
    then (if moves_leader b
        then (exec_change_peer_v2 (exec_transfer_leader b b.target_leader) true false, led)
        else (exec_change_peer_v2 b true false, kind))
    else if b.origin_leader == 0 || is_voter_in b.target_peers b.origin_leader
    then (let c = exec_change_peer_v2 b true false in
        if moves_leader c then (exec_transfer_leader c c.target_leader, led) else (c, kind))
    else (exec_change_peer_v2 b true true, led)

unfoldable pub build_joint : Builder → ℕ → Builder × (ℕ × Option BuilderError)
build_joint b kind =
    let a = set_target_leader_if_not_exist (add_all b b.to_add) in
    let kind1 = or_kind b.to_add kind in
    if a.target_leader == 0
    then (a, (kind1, some no_valid_leader))
    else (let d = demote_all a a.to_remove in
        let c = change_and_transfer d kind1 in
        let r = remove_all (c.0) (c.0).to_remove in (r, (or_kind (c.0).to_remove (c.1), none)))
