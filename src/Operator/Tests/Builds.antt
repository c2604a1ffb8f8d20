-- ===== src/Operator/Tests/Builds.antt =====
-- Runs of the builder of components/prophet/schedule/operator/builder.go.
use matrixcube.Prelude.{Option, ◌≡◌, refl, true, false, none, some, List, [], ◌∷◌}
use matrixcube.Meta.{voter, is_in_joint_state}
use matrixcube.Operator.Resource.{CachedResource, classify_voter_and_learner}
use matrixcube.Operator.OpStep.{
  OpStep, add_learner, change_peer_v2_enter, change_peer_v2_leave, transfer_leader,
}
use matrixcube.Operator.Builder.Peers.{set, copy, set_all, delete}
use matrixcube.Operator.Builder.{
  Builder, BuilderError, Cluster, new_builder, set_leader, add_peer, remove_peer, demote_voter,
  promote_learner, leader_error, collect_origin,
}
use matrixcube.Operator.Builder.Requests.{
  Request, request, requests, adds, removes, demotes, promotes, leads,
}
use matrixcube.Operator.Builder.Prepare.{
  prepare_build, diff_targets, diff_origins, diff_origin, allow_leader, any_rule, diff_target,
  pending_count,
}
use matrixcube.Operator.Builder.Exec.{
  add_step, expected, is_better, exec_promote_learner, exec_demote_follower, exec_add_peer,
  set_target_leader_if_not_exist, choose_leader, exec_change_peer_v2, exec_transfer_leader,
  exec_remove_peer,
}
use matrixcube.Operator.Builder.JointPlan.{
  build_joint, add_all, add_as_learner, demote_all, demote_removed, change_and_transfer, remove_all,
}
use matrixcube.Operator.Builder.PlainPlan.{
  build, State, build_plain, rounds, exec_plan, transfer_to, last_transfer,
}
use matrixcube.Operator.Builder.StepPlan.{
  peer_plan, plan_replace, each, plan_replace_leaders, compare_plan, plan_demote_peer,
  plan_remove_peer, plan_add_peer, prefer_replace_by_nearest, prefer_up_container_as_leader,
  new_peer_cost, prefer_less_leader_transfer, prefer_target_leader,
  prefer_add_or_promote_target_leader, label_match, match_labels,
}
use matrixcube.Operator.Builder.Rounds.{IsBuilt, build_plain-requests}
use matrixcube.Operator.Builder.Builds.{build-requests}
use matrixcube.Operator.Builder.JointSteps.{StepsLead, StepsElect, build_joint-requests}
use matrixcube.Operator.Tests.{resource, peer_at, learner_at, raw_resource}

abbrev cluster : Cluster
cluster = record {
  get_container = λ id. some (record { is_up = true; admits_leader = true; label_value = λ l. [] });
  joint_consensus_enabled = true;
  use_joint_consensus = true;
  placement_rules_enabled = false;
  location_labels = [];
  fit_rules = [];
  ids = 101 ∷ 102 ∷ [];
}

-- the voter of container 2 is demoted, the learner of container 3 removed, and container 4 gets a new
-- voter, which is to lead
abbrev wishes : List Request
wishes =
    demotes 2 ∷ removes 3 ∷ adds (record { id = 0; container_id = 4; role = voter }) ∷ leads 4 ∷ []

abbrev builder : Builder
builder =
    requests (new_builder cluster 7 (record { conf_ver = 1; version = 1 }) resource [] false) wishes

prepared : (prepare_build builder).1 ≡ none
unfolding requests request set_leader add_peer remove_peer demote_voter new_builder leader_error
    classify_voter_and_learner collect_origin set is_in_joint_state copy set_all delete
    prepare_build diff_targets diff_origins diff_origin allow_leader any_rule diff_target
    pending_count
prepared = refl

planned : (build_joint (prepare_build builder).0 0).1.1 ≡ none
unfolding requests request set_leader add_peer remove_peer demote_voter new_builder leader_error
    classify_voter_and_learner collect_origin set is_in_joint_state copy set_all delete
    prepare_build diff_targets diff_origins diff_origin allow_leader any_rule diff_target
    pending_count build_joint add_all add_as_learner exec_add_peer set_target_leader_if_not_exist
    choose_leader demote_all demote_removed change_and_transfer exec_change_peer_v2
    exec_transfer_leader remove_all exec_remove_peer
planned = refl

-- the steps
steps_of_plan :
    (build_joint (prepare_build builder).0 0).0.steps
    ≡ add_learner 4 101
      ∷ change_peer_v2_enter
          (record { to_container = 4; peer_id = 101 } ∷ [])
          (record { to_container = 2; peer_id = 12 } ∷ [])
      ∷ change_peer_v2_leave
          (record { to_container = 4; peer_id = 101 } ∷ [])
          (record { to_container = 2; peer_id = 12 } ∷ [])
      ∷ transfer_leader 1 4
      ∷ OpStep.remove_peer 3 13
      ∷ []
unfolding requests request set_leader add_peer remove_peer demote_voter new_builder leader_error
    classify_voter_and_learner collect_origin set is_in_joint_state copy set_all delete
    prepare_build diff_targets diff_origins diff_origin allow_leader any_rule diff_target
    pending_count build_joint add_all add_as_learner exec_add_peer set_target_leader_if_not_exist
    choose_leader demote_all demote_removed change_and_transfer exec_change_peer_v2
    exec_transfer_leader remove_all exec_remove_peer
steps_of_plan = refl

build_joint-requests_example :
    StepsLead builder 2 (build_joint (prepare_build builder).0 0).0.steps
    × StepsElect builder (build_joint (prepare_build builder).0 0).0.steps
build_joint-requests_example =
    build_joint-requests cluster 7 (record { conf_ver = 1; version = 1 }) resource [] false wishes 0
      2 refl prepared planned

abbrev built : State
built = ((build_joint (prepare_build builder).0 0).0, (build_joint (prepare_build builder).0 0).1.0)

build_done : build builder 0 ≡ some (built, none)
unfolding build requests request set_leader add_peer remove_peer demote_voter new_builder
    leader_error classify_voter_and_learner collect_origin set is_in_joint_state copy set_all delete
    prepare_build diff_targets diff_origins diff_origin allow_leader any_rule diff_target
    pending_count build_joint add_all add_as_learner exec_add_peer set_target_leader_if_not_exist
    choose_leader demote_all demote_removed change_and_transfer exec_change_peer_v2
    exec_transfer_leader remove_all exec_remove_peer
build_done = refl

build-requests_example : StepsLead builder 2 built.0.steps
build-requests_example =
    build-requests cluster 7 (record { conf_ver = 1; version = 1 }) resource [] false wishes 0 2
      built refl build_done

abbrev plain_cluster : Cluster
plain_cluster = record cluster { joint_consensus_enabled = false; use_joint_consensus = false }

abbrev four_peers : CachedResource
four_peers =
    classify_voter_and_learner
      (raw_resource (peer_at 1 ∷ peer_at 2 ∷ peer_at 3 ∷ learner_at 4 ∷ []))

-- the voters of containers 2 and 3 are demoted, the learner of container 4 is promoted
abbrev exchange : List Request
exchange = demotes 2 ∷ demotes 3 ∷ promotes 4 ∷ []

abbrev exchanger : Builder
exchanger =
    requests
      (new_builder plain_cluster 7 (record { conf_ver = 1; version = 1 }) four_peers [] false)
      exchange

prepared_exchange : (prepare_build exchanger).1 ≡ none
unfolding requests request demote_voter promote_learner new_builder leader_error
    classify_voter_and_learner collect_origin set is_in_joint_state copy set_all delete
    prepare_build diff_targets diff_origins diff_origin allow_leader any_rule diff_target
    pending_count
prepared_exchange = refl

build_plain-requests_example : IsBuilt (build_plain (prepare_build exchanger).0 0)
build_plain-requests_example =
    build_plain-requests plain_cluster 7 (record { conf_ver = 1; version = 1 }) four_peers [] false
      exchange 0 prepared_exchange

abbrev steps_of : Option (State × Option BuilderError) → List OpStep
steps_of none = []
steps_of (some (s, e)) = s.0.steps

-- the learner of container 2 is added while its voter is there, and removed with it
steps_of_exchange :
    steps_of (build_plain (prepare_build exchanger).0 0)
    ≡ add_learner 2 12
      ∷ OpStep.promote_learner 4 14
      ∷ OpStep.remove_peer 3 13
      ∷ OpStep.remove_peer 2 12
      ∷ add_learner 3 13
      ∷ []
unfolding requests request demote_voter promote_learner new_builder leader_error
    classify_voter_and_learner collect_origin set is_in_joint_state copy set_all delete
    prepare_build diff_targets diff_origins diff_origin allow_leader any_rule diff_target
    pending_count build_plain rounds exec_plan peer_plan plan_replace each plan_replace_leaders
    compare_plan is_better plan_demote_peer plan_remove_peer plan_add_peer transfer_to exec_add_peer
    exec_promote_learner exec_demote_follower exec_remove_peer exec_transfer_leader last_transfer
    set_target_leader_if_not_exist choose_leader prefer_replace_by_nearest
    prefer_up_container_as_leader new_peer_cost prefer_less_leader_transfer prefer_target_leader
    prefer_add_or_promote_target_leader label_match match_labels add_step expected
steps_of_exchange = refl
