-- ===== src/Operator/OpStep.antt =====
-- The interface OpStep of components/prophet/schedule/operator/step.go: the step types as one data
-- type, and each method by dispatch on it. `String`, which only displays a step, is left out, and
-- so are the fields that only `String` or the sender of the request reads.
pub mod Laws
pub mod Joint
pub mod Influence
use matrixcube.Prelude.{ℕ, Bool, true, Option, none, List, [], ◌∷◌, ◌++◌, map, if◌then◌else◌}
use matrixcube.Prelude.Bytes.{Bytes}
use matrixcube.Meta.{voter, learner, ChangePeerRequest, add_node, add_learner_node}
use matrixcube.Operator.Resource.{CachedResource}
use matrixcube.Operator.Influence.{OpInfluence}
use matrixcube.Operator.Step.{
  PromoteLearner, DemoteVoter, SafetyError, bool_to_uint64, transfer_leader_is_finish,
  transfer_leader_check_safety, transfer_leader_influence, add_peer_conf_ver_changed,
  add_peer_is_finish, add_peer_check_safety, add_peer_influence, add_light_peer_influence,
  add_learner_conf_ver_changed, add_learner_is_finish, add_learner_check_safety,
  promote_learner_is_finish, promote_learner_check_safety, demote_conf_ver_changed,
  demote_is_finish, demote_follower_check_safety, remove_peer_conf_ver_changed,
  remove_peer_is_finish, remove_peer_check_safety, remove_peer_influence, range_differs,
  merge_is_finish, merge_influence, split_influence,
}
use matrixcube.Operator.Joint.{
  changes, enter_conf_ver_changed, enter_is_finish, enter_check_safety, leave_conf_ver_changed,
  leave_is_finish, leave_check_safety,
}

pub data OpStep : Type 0 where
  transfer_leader : (from_container to_container : ℕ) → OpStep
  add_peer add_light_peer : (to_container peer_id : ℕ) → OpStep
  add_learner add_light_learner : (to_container peer_id : ℕ) → OpStep
  promote_learner : (to_container peer_id : ℕ) → OpStep
  remove_peer : (from_container peer_id : ℕ) → OpStep
  merge_resource : (to_start to_end : Bytes) (is_passive : Bool) → OpStep
  split_resource : (start_key end_key : Bytes) → OpStep
  demote_follower : (to_container peer_id : ℕ) → OpStep
  change_peer_v2_enter : List PromoteLearner → List DemoteVoter → OpStep
  change_peer_v2_leave : List PromoteLearner → List DemoteVoter → OpStep
  destory_directly : OpStep

unfoldable pub conf_ver_changed : OpStep → CachedResource → ℕ
conf_ver_changed (transfer_leader a b) res = 0
conf_ver_changed (add_peer c i) res = add_peer_conf_ver_changed c i res
conf_ver_changed (add_light_peer c i) res = add_peer_conf_ver_changed c i res
conf_ver_changed (add_learner c i) res = add_learner_conf_ver_changed c i res
conf_ver_changed (add_light_learner c i) res = add_learner_conf_ver_changed c i res
conf_ver_changed (promote_learner c i) res = add_peer_conf_ver_changed c i res
conf_ver_changed (remove_peer c i) res = remove_peer_conf_ver_changed c i res
conf_ver_changed (merge_resource s e p) res = 0
conf_ver_changed (split_resource s e) res = 0
conf_ver_changed (demote_follower c i) res = bool_to_uint64 (demote_conf_ver_changed c i res)
conf_ver_changed (change_peer_v2_enter ps ds) res = enter_conf_ver_changed ps ds res
conf_ver_changed (change_peer_v2_leave ps ds) res = leave_conf_ver_changed ps ds res
conf_ver_changed destory_directly res = 0

unfoldable pub is_finish : OpStep → CachedResource → Bool
is_finish (transfer_leader a b) res = transfer_leader_is_finish a b res
is_finish (add_peer c i) res = add_peer_is_finish c i res
is_finish (add_light_peer c i) res = add_peer_is_finish c i res
is_finish (add_learner c i) res = add_learner_is_finish c i res
is_finish (add_light_learner c i) res = add_learner_is_finish c i res
is_finish (promote_learner c i) res = promote_learner_is_finish c i res
is_finish (remove_peer c i) res = remove_peer_is_finish c i res
is_finish (merge_resource s e p) res = merge_is_finish s e p res
is_finish (split_resource s e) res = range_differs s e res
is_finish (demote_follower c i) res = demote_is_finish c i res
is_finish (change_peer_v2_enter ps ds) res = enter_is_finish ps ds res
is_finish (change_peer_v2_leave ps ds) res = leave_is_finish ps ds res
is_finish destory_directly res = true

unfoldable pub check_safety : OpStep → CachedResource → Option SafetyError
check_safety (transfer_leader a b) res = transfer_leader_check_safety a b res
check_safety (add_peer c i) res = add_peer_check_safety c i res
check_safety (add_light_peer c i) res = add_peer_check_safety c i res
check_safety (add_learner c i) res = add_learner_check_safety c i res
check_safety (add_light_learner c i) res = add_learner_check_safety c i res
check_safety (promote_learner c i) res = promote_learner_check_safety c i res
check_safety (remove_peer c i) res = remove_peer_check_safety c i res
check_safety (merge_resource s e p) res = none
check_safety (split_resource s e) res = none
check_safety (demote_follower c i) res = demote_follower_check_safety c i res
check_safety (change_peer_v2_enter ps ds) res = enter_check_safety ps ds res
check_safety (change_peer_v2_leave ps ds) res = leave_check_safety ps ds res
check_safety destory_directly res = none

unfoldable pub influence : OpStep → OpInfluence → CachedResource → OpInfluence
influence (transfer_leader a b) m res = transfer_leader_influence a b m res
influence (add_peer c i) m res = add_peer_influence c i m res
influence (add_light_peer c i) m res = add_light_peer_influence c i m res
influence (add_learner c i) m res = add_peer_influence c i m res
influence (add_light_learner c i) m res = add_light_peer_influence c i m res
influence (promote_learner c i) m res = m
influence (remove_peer c i) m res = remove_peer_influence c i m res
influence (merge_resource s e p) m res = merge_influence p m res
influence (split_resource s e) m res = split_influence m res
influence (demote_follower c i) m res = m
influence (change_peer_v2_enter ps ds) m res = m
influence (change_peer_v2_leave ps ds) m res = m
influence destory_directly m res = m

-- `ChangePeerV2Enter.GetRequest`: the request that enters the joint configuration
unfoldable pub get_request : List PromoteLearner → List DemoteVoter → List ChangePeerRequest
get_request promotes demotes =
    map
      (λ pl. record {
        change_type = add_node;
        peer = record { id = pl.peer_id; container_id = pl.to_container; role = voter };
      })
      promotes
    ++ map
        (λ dv. record {
          change_type = add_learner_node;
          peer = record { id = dv.peer_id; container_id = dv.to_container; role = learner };
        })
        demotes
