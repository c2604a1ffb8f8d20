-- ===== src/Operator/Influence.antt =====
-- components/prophet/schedule/operator/influence.go and the constants of
-- components/prophet/limit/store_limit.go. The map of influences is a function: a container with
-- no entry reads as the zero influence, which is what `GetContainerInfluence` inserts for it.
use matrixcube.Prelude.{ℕ, ◌&&◌, not, ◌==◌, if◌then◌else◌}
use matrixcube.Prelude.Words.{add64, gt64}

pub data LimitType : Type 0 where
  add_peer_limit remove_peer_limit : LimitType

-- the counters are int64, as 64-bit patterns; `StepCost` has one cost for each limit type
pub record ContainerInfluence : Type 0 where
  pub resource_size : ℕ
  pub resource_count : ℕ
  pub leader_size : ℕ
  pub leader_count : ℕ
  pub add_cost : ℕ
  pub remove_cost : ℕ

abbrev pub zero_influence : ContainerInfluence
zero_influence = record {
  resource_size = 0;
  resource_count = 0;
  leader_size = 0;
  leader_count = 0;
  add_cost = 0;
  remove_cost = 0;
}

abbrev pub OpInfluence : Type 0
OpInfluence = ℕ → ContainerInfluence

-- `o := opInfluence.GetContainerInfluence(id)`, and then the writes `f` through the pointer
abbrev pub adjust : OpInfluence → ℕ → (ContainerInfluence → ContainerInfluence) → OpInfluence
adjust m id f c = if c == id then f (m c) else m c

abbrev pub small_resource_threshold : ℕ
small_resource_threshold = 20

abbrev pub empty_resource_approximate_size : ℕ
empty_resource_approximate_size = 1

-- both limit types have the same entries in either map
abbrev pub resource_influence : LimitType → ℕ
resource_influence t = 1000

abbrev pub small_resource_influence : LimitType → ℕ
small_resource_influence t = 200

unfoldable pub add_step_cost : ContainerInfluence → LimitType → ℕ → ContainerInfluence
add_step_cost s add_peer_limit cost = record s { add_cost = add64 s.add_cost cost }
add_step_cost s remove_peer_limit cost = record s { remove_cost = add64 s.remove_cost cost }

unfoldable pub adjust_step_cost : ContainerInfluence → LimitType → ℕ → ContainerInfluence
unfolding add_step_cost
adjust_step_cost s t size =
    if gt64 size small_resource_threshold
    then add_step_cost s t (resource_influence t)
    else if not (gt64 size small_resource_threshold) && gt64 size empty_resource_approximate_size
    then add_step_cost s t (small_resource_influence t)
    else s
