-- ===== src/Operator/Tests/Plans.antt =====
-- Runs of an operator that moves a peer from the container 2 to the container 4.
use matrixcube.Prelude.{ℕ, ◌+◌, refl, List, [], ◌∷◌}
use matrixcube.Operator.Status.{started, success, is_end_status}
use matrixcube.Operator.Tracker.{Time, OpStatusTracker, is_end}
use matrixcube.Operator.OpStep.{OpStep, add_peer, remove_peer, transfer_leader}
use matrixcube.Operator.Plan.{Operator, normal_priority, check}
use matrixcube.Operator.Plan.Check.{Progress, check-Progress}
use matrixcube.Operator.Tests.{resource}

abbrev move_peer : List OpStep
move_peer = add_peer 4 14 ∷ remove_peer 2 12 ∷ transfer_leader 1 4 ∷ []

abbrev tracker : OpStatusTracker
tracker = record {
  current = started;
  reach_times = record { at_created = 5; at_started = 7; at_end = 0 };
}

abbrev operator : Operator
operator = record {
  res_id = 1;
  res_epoch = record { conf_ver = 1; version = 1 };
  kind = 2;
  steps = move_peer;
  steps_time = 0 ∷ 0 ∷ 0 ∷ [];
  current_step = 0;
  status = tracker;
  level = normal_priority;
}

-- an operator whose only step is finished in the resource
abbrev light_operator : Operator
light_operator = record operator { steps = remove_peer 4 14 ∷ []; steps_time = 0 ∷ [] }

abbrev ended_operator : Operator
ended_operator = record operator { status = record tracker { current = success } }

abbrev clock : ℕ → Time
clock j = 20 + j

check-Progress_example :
    let r = check operator resource clock 30 in Progress operator r.0 resource r.1
unfolding is_end is_end_status
check-Progress_example = check-Progress operator resource clock 30 refl
