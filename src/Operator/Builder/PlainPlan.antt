-- ===== src/Operator/Builder/PlainPlan.antt =====
-- components/prophet/schedule/operator/builder.go: `buildStepsWithoutJointConsensus`, and `Build`
-- with both ways to build the steps.
use Prim.Native.Nat.{bit_or}
use matrixcube.Prelude.{
  ℕ, zero, suc, true, false, not, ◌&&◌, Option, none, some, ◌==◌, if◌then◌else◌, length,
}
use matrixcube.Meta.{Peer}
use matrixcube.Operator.Plan.{op_resource}
use matrixcube.Operator.Builder.Peers.{has}
use matrixcube.Operator.Builder.{Builder, BuilderError, empty_plan, no_step}
use matrixcube.Operator.Builder.Prepare.{pending_count, prepare_build}
use matrixcube.Operator.Builder.Exec.{
  exec_transfer_leader, exec_promote_learner, exec_demote_follower, exec_add_peer, exec_remove_peer,
  set_target_leader_if_not_exist,
}
use matrixcube.Operator.Builder.JointPlan.{op_leader, build_joint}
use matrixcube.Operator.Builder.StepPlan.{StepPlan, is_empty, peer_plan}

-- the builder and the kind
abbrev pub State : Type 0
State = Builder × ℕ

unfoldable pub transfer_to : ℕ → State → State
transfer_to id (b, kind) =
    if not (id == 0) && not (id == b.current_leader)
    then (exec_transfer_leader b id, bit_or kind op_leader)
    else (b, kind)

abbrev pub add_planned : Option Peer → State → State
add_planned none s = s
add_planned (some p) s = (exec_add_peer s.0 p, bit_or s.1 op_resource)

abbrev pub promote_planned : Option Peer → State → State
promote_planned none s = s
promote_planned (some p) s = (exec_promote_learner s.0 p, s.1)

abbrev pub demote_planned : Option Peer → State → State
demote_planned none s = s
demote_planned (some p) s = (exec_demote_follower s.0 p, s.1)

abbrev pub remove_planned : Option Peer → State → State
remove_planned none s = s
remove_planned (some p) s = (exec_remove_peer s.0 p, bit_or s.1 op_resource)

-- the body of the loop, with a plan that is not empty
unfoldable pub exec_plan : StepPlan → State → State
exec_plan p s = remove_planned p.remove (
    demote_planned p.demote (
      transfer_to p.leader_before_remove
        (promote_planned p.promote (add_planned p.add (transfer_to p.leader_before_add s)))))

-- How the loop ends: with nothing left to do, with an empty plan, or with its fuel.
pub data Rounds : Type 0 where
  ended : State → Rounds
  stuck : State → Rounds
  out_of_fuel : Rounds

unfoldable pub rounds : ℕ → State → Rounds
rounds zero s = elim (pending_count s.0 == 0) [ true ↦ ended s | false ↦ out_of_fuel ]
rounds (suc fuel) s = elim (pending_count s.0 == 0) [
  | true ↦ ended s
  | false ↦ elim (is_empty (peer_plan s.0)) [
    | true ↦ stuck s
    | false ↦ rounds fuel (exec_plan (peer_plan s.0) s)
  ]
]

-- the transfer at the end, to a target leader that there is
unfoldable pub last_transfer : State → State
last_transfer (b, kind) =
    let l = set_target_leader_if_not_exist b in
    if has l.current_peers l.target_leader
      && not (l.target_leader == 0)
      && not (l.current_leader == l.target_leader)
    then (exec_transfer_leader l l.target_leader, bit_or kind op_leader)
    else (l, kind)

abbrev pub with_steps : State → State × Option BuilderError
with_steps s = (s, if length s.0.steps == 0 then some no_step else none)

-- `none` is the end of the fuel
abbrev pub after_rounds : Rounds → Option (State × Option BuilderError)
after_rounds (ended s) = some (with_steps (last_transfer s))
after_rounds (stuck s) = some (s, some empty_plan)
after_rounds out_of_fuel = none

-- Each round takes a peer from those to be changed, so their number is fuel enough.
unfoldable pub build_plain : Builder → ℕ → Option (State × Option BuilderError)
build_plain b kind = after_rounds (rounds (pending_count b) (b, kind))

-- `Build`, up to the steps: the operator has the epoch of the builder and its steps
abbrev pub joint_built : Builder × (ℕ × Option BuilderError) → State × Option BuilderError
joint_built (b, (kind, e)) = ((b, kind), e)

abbrev pub after_prepare : Builder × Option BuilderError → ℕ → Option (State × Option BuilderError)
after_prepare (p, some e) kind = some ((p, kind), some e)
after_prepare (p, none) kind =
    if p.use_joint then some (joint_built (build_joint p kind)) else build_plain p kind

abbrev pub unless_error :
    Option BuilderError
    → State
    → Option (State × Option BuilderError)
    → Option (State × Option BuilderError)
unless_error none s next = next
unless_error (some e) s next = some (s, some e)

unfoldable pub build : Builder → ℕ → Option (State × Option BuilderError)
build b kind = unless_error b.err (b, kind) (after_prepare (prepare_build b) kind)
