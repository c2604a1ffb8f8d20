-- ===== src/Operator/OpStep/Influence.antt =====
-- What the steps add to the influence of the containers.
use matrixcube.Prelude.{ℕ, ◌+◌, ◌%◌, ◌≡◌, ◌≢◌, List, [], ◌∷◌, arith, count_if}
use matrixcube.Prelude.Words.{word, add64, add64-sub64}
use matrixcube.Prelude.Bytes.{Bytes}
use matrixcube.Meta.{Peer}
use matrixcube.Operator.Resource.{CachedResource, at_container, leader_id}
use matrixcube.Operator.Influence.{OpInfluence, ContainerInfluence, adjust}
use matrixcube.Operator.Step.{count_peer, count_peers, split_influence, transfer_leader_influence}
use matrixcube.Operator.OpStep.{transfer_leader, split_resource, influence}

adjust_self :
    (m : OpInfluence) (c : ℕ) (f : ContainerInfluence → ContainerInfluence)
    → adjust m c f c ≡ f (m c)
adjust_self m c f = ground arith

adjust_other :
    (m : OpInfluence) (c d : ℕ) (f : ContainerInfluence → ContainerInfluence)
    → d ≢ c
    → adjust m c f d ≡ m d
adjust_other m c d f h = ground arith

-- A transfer of the leader between two containers moves one leader and its size from the first to
-- the second: their sums stay as they were, in 64-bit arithmetic, and another container `c` does not
-- change.
pub transfer_leader-influence :
    (a b c : ℕ) (m : OpInfluence) (res : CachedResource)
    → a ≢ b
    → c ≢ a
    → c ≢ b
    → let m' = influence (transfer_leader a b) m res in
      (add64 (m' a).leader_count (m' b).leader_count ≡ add64 (m a).leader_count (m b).leader_count)
      × (add64 (m' a).leader_size (m' b).leader_size ≡ add64 (m a).leader_size (m b).leader_size)
      × ((m' b).leader_count ≡ add64 (m b).leader_count 1)
      × (m' c ≡ m c)
unfolding influence transfer_leader_influence
transfer_leader-influence a b c m res h p q = (
  ground (arith, add64-sub64 (m a).leader_count (m b).leader_count 1),
  ground (arith, add64-sub64 (m a).leader_size (m b).leader_size res.approximate_size),
  ground arith,
  ground arith,
)

count_peers-resource_count :
    (leader c : ℕ) (ps : List Peer) (m : OpInfluence)
    → (count_peers (λ n. add64 n 1) leader ps m c).resource_count % word
      ≡ ((m c).resource_count + count_if (at_container c) ps) % word
unfolding count_peers add64
count_peers-resource_count leader c [] m = omega arith
count_peers-resource_count leader c (p ∷ ps) m = ground (
  arith,
  count_peers-resource_count leader c ps
      (adjust m p.container_id (count_peer (λ n. add64 n 1) leader p)),
)

-- A split counts one more resource in a container for each peer that the container holds, in
-- 64-bit arithmetic.
pub split_resource-influence :
    (start_key end_key : Bytes) (m : OpInfluence) (res : CachedResource) (c : ℕ)
    → (influence (split_resource start_key end_key) m res c).resource_count % word
      ≡ ((m c).resource_count + count_if (at_container c) res.peers) % word
unfolding influence split_influence
split_resource-influence start_key end_key m res c =
    count_peers-resource_count (leader_id res) c res.peers m
