-- ===== src/Operator/Tests/Steps.antt =====
-- Runs of the joint steps, and the influence of steps.
use matrixcube.Prelude.{◌≡◌, ◌≢◌, refl, ◌⊎◌, List, [], ◌∷◌, All}
use matrixcube.Meta.{
  incoming_voter, demoting_voter, role_is_voter, role_is_learner, role_is_incoming,
  role_is_demoting, count_in_joint_state,
}
use matrixcube.Operator.Resource.{CachedResource, classify_voter_and_learner, leader_container_id}
use matrixcube.Operator.Influence.{OpInfluence, zero_influence}
use matrixcube.Operator.Step.{PromoteLearner, DemoteVoter}
use matrixcube.Operator.Joint.{changes, scan, enter_check_safety, leave_check_safety}
use matrixcube.Operator.OpStep.Joint.{AllAt, enter_check_safety-atomic, leave_check_safety-atomic}
use matrixcube.Operator.Tests.{peer_at, raw_resource, resource}

abbrev promotes : List PromoteLearner
promotes = record { to_container = 3; peer_id = 13 } ∷ []

abbrev demotes : List DemoteVoter
demotes = record { to_container = 2; peer_id = 12 } ∷ []

-- the resource behind the step that enters the joint configuration
abbrev joint_resource : CachedResource
joint_resource = classify_voter_and_learner (
    raw_resource (
      peer_at 1
      ∷ record { id = 12; container_id = 2; role = demoting_voter }
      ∷ record { id = 13; container_id = 3; role = incoming_voter }
      ∷ []))

enter_check_safety-atomic_example :
    AllAt resource role_is_incoming role_is_demoting promotes demotes
      × (count_in_joint_state resource.peers ≡ changes promotes demotes)
    ⊎ AllAt resource role_is_learner role_is_voter promotes demotes
      × (count_in_joint_state resource.peers ≡ 0)
    ⊎ (promotes ≡ []) × (demotes ≡ [])
unfolding enter_check_safety scan classify_voter_and_learner count_in_joint_state
enter_check_safety-atomic_example = enter_check_safety-atomic promotes demotes resource refl

leave_check_safety-atomic_example :
    AllAt joint_resource role_is_incoming role_is_demoting promotes demotes
      × (count_in_joint_state joint_resource.peers ≡ changes promotes demotes)
      × All (λ (dv : DemoteVoter). dv.to_container ≢ leader_container_id joint_resource) demotes
    ⊎ AllAt joint_resource role_is_voter role_is_learner promotes demotes
      × (count_in_joint_state joint_resource.peers ≡ 0)
    ⊎ (promotes ≡ []) × (demotes ≡ [])
unfolding leave_check_safety scan classify_voter_and_learner count_in_joint_state
leave_check_safety-atomic_example = leave_check_safety-atomic promotes demotes joint_resource refl

abbrev no_influence : OpInfluence
no_influence c = zero_influence
