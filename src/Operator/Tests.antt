-- ===== src/Operator/Tests.antt =====
-- Concrete runs of the operator code: a resource with three peers, and the steps that act on it.
mod Steps
mod Builds
mod Plans
use matrixcube.Prelude.{
  ℕ, ◌+◌, ◌*◌, ◌%◌, ◌≤◌, ◌≡◌, ◌≢◌, ◌↔◌, refl, Bool, true, false, not, ◌⊎◌, inl, inr, Option, none,
  some, List, [], ◌∷◌, arith, All, length, drop, count_if,
}
use matrixcube.Prelude.Words.{word, add64}
use matrixcube.Meta.{
  Peer, voter, learner, incoming_voter, demoting_voter, role_is_voter, role_is_learner,
  role_is_incoming, role_is_demoting, is_learner, is_in_joint_state, count_in_joint_state,
}
use matrixcube.Meta.Laws.{HasDistinctContainers}
use matrixcube.Operator.Status.{
  OpStatus, created, started, success, expired, timeout, canceled, is_end_status, trans_at,
}
use matrixcube.Operator.Tracker.{
  Time, OpStatusTracker, to, to_locked, set_time, is_end, reach_time, check_expired, check_timeout,
}
use matrixcube.Operator.Tracker.Laws.{
  Edge, Call, call_to, call_check_expired, call_check_timeout, to_lem, calls-end, check_expired_lem,
  check_timeout_lem,
}
use matrixcube.Operator.Tracker.Clock.{IsForward}
use matrixcube.Operator.Resource.{
  CachedResource, new_cached_resource, classify_voter_and_learner, at_container, get_container_peer,
  get_container_voter, get_container_learner, leader_container_id,
}
use matrixcube.Operator.Resource.Laws.{
  IsClassified, filtered, classify-IsClassified, get_container_voter_lem, get_container_learner_lem,
}
use matrixcube.Operator.Influence.{OpInfluence, zero_influence}
use matrixcube.Operator.Step.{PromoteLearner, DemoteVoter}
use matrixcube.Operator.Joint.{
  changes, scan, enter_check_safety, leave_check_safety, leave_conf_ver_changed,
}
use matrixcube.Operator.OpStep.{
  OpStep, transfer_leader, add_peer, remove_peer, split_resource, is_finish, conf_ver_changed,
  influence,
}
use matrixcube.Operator.OpStep.Laws.{
  conf_ver_cost, is_finish-conf_ver_changed, conf_ver_changed-le, leave_conf_ver_changed-early,
}

abbrev pub peer_at : ℕ → Peer
peer_at c = record { id = 10 + c; container_id = c; role = voter }

abbrev pub learner_at : ℕ → Peer
learner_at c = record { id = 10 + c; container_id = c; role = learner }

abbrev pub raw_resource : List Peer → CachedResource
raw_resource ps = record {
  start_key = 1 ∷ [];
  end_key = 9 ∷ [];
  peers = ps;
  learners = [];
  voters = [];
  pending_peers = [];
  leader = some (peer_at 1);
  approximate_size = 30;
}

abbrev pub three_peers : List Peer
three_peers = peer_at 1 ∷ peer_at 2 ∷ learner_at 3 ∷ []

abbrev pub resource : CachedResource
resource = classify_voter_and_learner (raw_resource three_peers)

three_peers_distinct : HasDistinctContainers three_peers
three_peers_distinct = ((omega arith, (omega arith, tt)), ((omega arith, tt), (tt, tt)))

pub resource-IsClassified : IsClassified resource
resource-IsClassified = classify-IsClassified (raw_resource three_peers) three_peers_distinct

abbrev finished_tracker : OpStatusTracker
finished_tracker = record {
  current = success;
  reach_times = record { at_created = 5; at_started = 7; at_end = 9 };
}

abbrev started_tracker : OpStatusTracker
started_tracker = record {
  current = started;
  reach_times = record { at_created = 5; at_started = 7; at_end = 0 };
}

abbrev life : List (Call × Time)
life = (call_to started, 7) ∷ (call_check_timeout 9, 8) ∷ (call_to success, 9) ∷ []

is_finish-conf_ver_changed_example :
    conf_ver_changed (remove_peer 4 14) resource ≡ conf_ver_cost (remove_peer 4 14)
unfolding is_finish matrixcube.Operator.Step.remove_peer_is_finish classify_voter_and_learner
is_finish-conf_ver_changed_example =
    is_finish-conf_ver_changed (remove_peer 4 14) resource resource-IsClassified refl
