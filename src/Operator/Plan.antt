-- ===== src/Operator/Plan.antt =====
-- components/prophet/schedule/operator/operator.go: an operator, its steps and its progress. The
-- text fields, the counters of Prometheus and the conversion to text and JSON are left out.
pub mod Check
pub mod Totals
use Prim.Native.Nat.{bit_and}
use matrixcube.Prelude.{
  ℕ, zero, suc, ◌+◌, Bool, true, false, not, ◌||◌, Option, none, some, List, [], ◌∷◌, ◌++◌, ltb,
  leb, ◌==◌, length, get_elem?, get_or, set, drop, take, if◌then◌else◌,
}
use matrixcube.Prelude.Words.{add64}
use matrixcube.Meta.{ResourceEpoch}
use matrixcube.Operator.Status.{OpStatus, created, started, success, canceled, replaced}
use matrixcube.Operator.Tracker
use matrixcube.Operator.Tracker.{Time, OpStatusTracker, new_tracker, to, reach_time_of, is_end}
use matrixcube.Operator.Resource.{CachedResource}
use matrixcube.Operator.Influence.{OpInfluence}
use matrixcube.Operator.OpStep
use matrixcube.Operator.OpStep.{
  OpStep, transfer_leader, add_peer, add_light_peer, add_learner, add_light_learner, remove_peer,
  is_finish, influence,
}

-- durations in nanoseconds
abbrev pub operator_expire_time : Time
operator_expire_time = 3000000000

abbrev pub fast_operator_wait_time : Time
fast_operator_wait_time = 10000000000

abbrev pub slow_operator_wait_time : Time
slow_operator_wait_time = 600000000000

-- the bits of `OpKind` that this file tests
abbrev pub op_resource : ℕ
op_resource = 2

abbrev pub op_admin : ℕ
op_admin = 8

abbrev pub has_kind : ℕ → ℕ → Bool
has_kind kind bit = not (bit_and kind bit == 0)

pub data PriorityLevel : Type 0 where
  normal_priority high_priority : PriorityLevel

pub record Operator : Type 0 where
  pub res_id : ℕ
  pub res_epoch : ResourceEpoch
  pub kind : ℕ
  pub steps : List OpStep
  pub steps_time : List Time
  pub current_step : ℕ
  pub status : OpStatusTracker
  pub level : PriorityLevel

abbrev pub zeros : List OpStep → List Time
zeros [] = []
zeros (s ∷ rest) = 0 ∷ zeros rest

unfoldable pub new_operator : ℕ → ResourceEpoch → ℕ → List OpStep → Time → Operator
unfolding new_tracker
new_operator res_id res_epoch kind steps now = record {
  res_id = res_id;
  res_epoch = res_epoch;
  kind = kind;
  steps = steps;
  steps_time = zeros steps;
  current_step = 0;
  status = new_tracker now;
  level = if has_kind kind op_admin then high_priority else normal_priority;
}

abbrev pub op_is_end : Operator → Bool
op_is_end o = is_end o.status

-- a call of the tracker, with the operator that holds it
abbrev pub with_status : Operator → OpStatusTracker × Bool → Operator × Bool
with_status o (trk, done) = (record o { status = trk }, done)

unfoldable pub start : Operator → Time → Operator × Bool
start o now = with_status o (to o.status started now)

unfoldable pub cancel : Operator → Time → Operator × Bool
cancel o now = with_status o (to o.status canceled now)

unfoldable pub replace : Operator → Time → Operator × Bool
replace o now = with_status o (to o.status replaced now)

unfoldable pub check_expired : Operator → Time → Operator × Bool
check_expired o now = with_status o (Tracker.check_expired o.status operator_expire_time now)

abbrev pub or_success : Operator × Bool → Operator × Bool
or_success (o, done) = (o, done || o.status.current == success)

unfoldable pub check_success : Operator → Time → Operator × Bool
check_success o now =
    if leb (length o.steps) o.current_step
    then or_success (with_status o (to o.status success now))
    else (o, false)

-- what `CheckTimeout` does after its call of `CheckSuccess`
abbrev pub timeout_unless : Time → Operator × Bool → Operator × Bool
timeout_unless now (o, true) = (o, false)
timeout_unless now (o, false) =
    if has_kind o.kind op_resource
    then with_status o (Tracker.check_timeout o.status slow_operator_wait_time now)
    else with_status o (Tracker.check_timeout o.status fast_operator_wait_time now)

unfoldable pub check_timeout : Operator → Time → Operator × Bool
unfolding check_success
check_timeout o now = timeout_unless now (check_success o now)

unfoldable pub step_at : Operator → ℕ → Option OpStep
step_at o i = get_elem? o.steps i

-- `atomic.CompareAndSwapInt64(&(o.stepsTime[step]), 0, now)` and the store of `currentStep`
unfoldable pub finish_step : Operator → ℕ → Time → Operator
finish_step o i now = record o {
  steps_time = if get_or o.steps_time i 0 == 0 then set o.steps_time i now else o.steps_time;
  current_step = suc i;
}

-- The loop of `Check` over the steps that are left, from step `i` on; `clock j` is the time that
-- it reads at step `j`.
unfoldable pub check_from :
    CachedResource → (ℕ → Time) → List OpStep → ℕ → Operator → Operator × Option OpStep
check_from res clock [] i o = (o, none)
check_from res clock (s ∷ rest) i o =
    let next = check_from res clock rest (suc i) (finish_step o i (clock i)) in
    if is_finish s res then next else (o, some s)

-- the deferred call of `CheckTimeout`
abbrev pub then_check_timeout : Time → Operator × Option OpStep → Operator × Option OpStep
then_check_timeout now (o, s) = ((check_timeout o now).0, s)

unfoldable pub check : Operator → CachedResource → (ℕ → Time) → Time → Operator × Option OpStep
check o res clock now =
    if op_is_end o
    then (o, none)
    else then_check_timeout now
        (check_from res clock (drop o.current_step o.steps) o.current_step o)

unfoldable pub sum_conf_ver : List OpStep → CachedResource → ℕ → ℕ
sum_conf_ver [] res total = total
sum_conf_ver (s ∷ rest) res total =
    sum_conf_ver rest res (add64 total (OpStep.conf_ver_changed s res))

-- `o.steps[0 : current+1]`, where `current` is one less at the end
unfoldable pub conf_ver_changed : Operator → CachedResource → ℕ
unfolding sum_conf_ver
conf_ver_changed o res =
    let upto = if o.current_step == length o.steps then o.current_step else o.current_step + 1 in
    sum_conf_ver (take upto o.steps) res 0

unfoldable pub influence_left : List OpStep → OpInfluence → CachedResource → OpInfluence
influence_left [] m res = m
influence_left (s ∷ rest) m res =
    influence_left rest (if not (is_finish s res) then influence s m res else m) res

unfoldable pub unfinished_influence : Operator → OpInfluence → CachedResource → OpInfluence
unfinished_influence o m res = influence_left (drop o.current_step o.steps) m res

unfoldable pub influence_all : List OpStep → OpInfluence → CachedResource → OpInfluence
influence_all [] m res = m
influence_all (s ∷ rest) m res = influence_all rest (influence s m res) res

unfoldable pub total_influence : Operator → OpInfluence → CachedResource → OpInfluence
total_influence o m res = influence_all o.steps m res

pub data ResourceKind : Type 0 where
  leader_kind replica_kind : ResourceKind

pub record OpHistory : Type 0 where
  pub finish_time : Time
  pub from_container : ℕ
  pub to_container : ℕ
  pub kind : ResourceKind

-- the first loop of `History`: the histories of the transfers, and the two lists of containers
pub record Histories : Type 0 where
  pub transfers : List OpHistory
  pub added : List ℕ
  pub removed : List ℕ

unfoldable pub scan_step : Time → OpStep → Histories → Histories
scan_step now (transfer_leader a b) h = record h {
  transfers =
      h.transfers
      ++ record { finish_time = now; from_container = a; to_container = b; kind = leader_kind }
        ∷ [];
}
scan_step now (add_peer c i) h = record h { added = h.added ++ c ∷ [] }
scan_step now (add_light_peer c i) h = record h { added = h.added ++ c ∷ [] }
scan_step now (add_learner c i) h = record h { added = h.added ++ c ∷ [] }
scan_step now (add_light_learner c i) h = record h { added = h.added ++ c ∷ [] }
scan_step now (remove_peer c i) h = record h { removed = h.removed ++ c ∷ [] }
scan_step now _ h = h

unfoldable pub scan_steps : Time → List OpStep → Histories → Histories
scan_steps now [] h = h
scan_steps now (s ∷ rest) h = scan_steps now rest (scan_step now s h)

-- the second loop: the i-th addition with the i-th removal, as long as there is one
unfoldable pub pair_moves : Time → List ℕ → List ℕ → List OpHistory
pair_moves now [] removed = []
pair_moves now (a ∷ added) [] = []
pair_moves now (a ∷ added) (r ∷ removed) =
    record { finish_time = now; from_container = r; to_container = a; kind = replica_kind }
    ∷ pair_moves now added removed

unfoldable pub history : Operator → Time → List OpHistory
history o now =
    let h = scan_steps now o.steps (record { transfers = []; added = []; removed = [] }) in
    h.transfers ++ pair_moves now h.added h.removed
