-- ===== src/Operator/Step.antt =====
-- components/prophet/schedule/operator/step.go: the steps of an operator and what each method
-- says of a resource. The joint-consensus steps are in Operator/Joint.antt.
use matrixcube.Prelude.{
  ℕ, Bool, true, false, not, ◌&&◌, ◌||◌, Option, none, some, List, [], ◌∷◌, ◌==◌, if◌then◌else◌,
}
use matrixcube.Prelude.Bytes.{Bytes, bytes_eq}
use matrixcube.Prelude.Words.{add64, sub64}
use matrixcube.Meta.{Peer, is_learner}
use matrixcube.Operator.Resource.{
  CachedResource, peer_or_zero, leader_id, leader_container_id, get_container_peer,
  get_container_voter, get_container_learner, get_pending_voter, get_pending_learner,
}
use matrixcube.Operator.Influence.{
  OpInfluence, ContainerInfluence, adjust, adjust_step_cost, add_peer_limit, remove_peer_limit,
}

pub record PromoteLearner : Type 0 where
  pub to_container : ℕ
  pub peer_id : ℕ

pub record DemoteVoter : Type 0 where
  pub to_container : ℕ
  pub peer_id : ℕ

-- The errors of `CheckSafety`, by their messages.
pub data SafetyError : Type 0 where
  peer_does_not_exist peer_already_learner peer_already_voter peer_still_voter : SafetyError
  peer_still_learner container_has_other_peer cannot_remove_leader cannot_demote_leader :
      SafetyError
  cannot_promote_demoting cannot_demote_incoming unexpected_role non_atomic_joint : SafetyError
  others_in_joint_state others_not_in_joint_state : SafetyError

abbrev pub bool_to_uint64 : Bool → ℕ
bool_to_uint64 true = 1
bool_to_uint64 false = 0

abbrev pub has_id : ℕ → Peer → Bool
has_id peer_id peer = peer.id == peer_id

-- `if peer, ok := …; ok { return test }; return false`
abbrev pub found_and : Option Peer → (Peer → Bool) → Bool
found_and none test = false
found_and (some peer) test = test peer

abbrev pub is_none : Option Peer → Bool
is_none none = true
is_none (some peer) = false

-- TransferLeader
module _ (from_container to_container : ℕ) where
  unfoldable pub transfer_leader_is_finish : CachedResource → Bool
  transfer_leader_is_finish res = leader_container_id res == to_container

  unfoldable pub transfer_leader_check_safety : CachedResource → Option SafetyError
  transfer_leader_check_safety res = elim (get_container_peer res to_container) [
    | none ↦ some peer_does_not_exist
    | some peer ↦ if is_learner peer then some peer_already_learner else none
  ]

  unfoldable pub transfer_leader_influence : OpInfluence → CachedResource → OpInfluence
  transfer_leader_influence m res =
      let size = res.approximate_size in
      adjust
        (adjust m from_container (λ o. record o {
          leader_size = sub64 o.leader_size size;
          leader_count = sub64 o.leader_count 1;
        }))
        to_container
        (λ o. record o {
          leader_size = add64 o.leader_size size;
          leader_count = add64 o.leader_count 1;
        })

-- AddPeer and AddLightPeer, AddLearner and AddLightLearner: the light steps differ from the plain
-- ones in the influence only
module _ (to_container peer_id : ℕ) where
  unfoldable pub add_peer_conf_ver_changed : CachedResource → ℕ
  add_peer_conf_ver_changed res =
      bool_to_uint64 (has_id peer_id (peer_or_zero (get_container_voter res to_container)))

  unfoldable pub add_peer_is_finish : CachedResource → Bool
  add_peer_is_finish res =
      found_and (get_container_voter res to_container)
        λ peer. if not (has_id peer_id peer) then false else is_none (get_pending_voter res peer.id)

  unfoldable pub add_peer_check_safety : CachedResource → Option SafetyError
  add_peer_check_safety res =
      if found_and (get_container_peer res to_container) (λ peer. not (has_id peer_id peer))
      then some container_has_other_peer
      else none

  unfoldable pub add_peer_influence : OpInfluence → CachedResource → OpInfluence
  add_peer_influence m res = adjust m to_container λ o.
      adjust_step_cost
        (record o {
          resource_size = add64 o.resource_size res.approximate_size;
          resource_count = add64 o.resource_count 1;
        })
        add_peer_limit res.approximate_size

  unfoldable pub add_light_peer_influence : OpInfluence → CachedResource → OpInfluence
  add_light_peer_influence m res = adjust m to_container λ o. record o {
    resource_size = add64 o.resource_size res.approximate_size;
    resource_count = add64 o.resource_count 1;
  }

  unfoldable pub add_learner_conf_ver_changed : CachedResource → ℕ
  add_learner_conf_ver_changed res =
      bool_to_uint64 (has_id peer_id (peer_or_zero (get_container_peer res to_container)))

  unfoldable pub add_learner_is_finish : CachedResource → Bool
  add_learner_is_finish res =
      found_and (get_container_learner res to_container) λ peer.
        if not (has_id peer_id peer) then false else is_none (get_pending_learner res peer.id)

  unfoldable pub add_learner_check_safety : CachedResource → Option SafetyError
  add_learner_check_safety res = elim (get_container_peer res to_container) [
    | none ↦ none
    | some peer ↦
        if not (has_id peer_id peer)
        then some container_has_other_peer
        else if not (is_learner peer)
        then some peer_already_voter
        else none
  ]

  unfoldable pub promote_learner_is_finish : CachedResource → Bool
  promote_learner_is_finish res = found_and (get_container_voter res to_container) (has_id peer_id)

  unfoldable pub promote_learner_check_safety : CachedResource → Option SafetyError
  promote_learner_check_safety res =
      if has_id peer_id (peer_or_zero (get_container_peer res to_container))
      then none
      else some peer_does_not_exist

  -- DemoteFollower and DemoteVoter
  unfoldable pub demote_conf_ver_changed : CachedResource → Bool
  demote_conf_ver_changed res =
      has_id peer_id (peer_or_zero (get_container_learner res to_container))

  unfoldable pub demote_is_finish : CachedResource → Bool
  demote_is_finish res = found_and (get_container_learner res to_container) (has_id peer_id)

  unfoldable pub demote_follower_check_safety : CachedResource → Option SafetyError
  demote_follower_check_safety res =
      let peer = peer_or_zero (get_container_peer res to_container) in
      if not (has_id peer_id peer)
      then some peer_does_not_exist
      else if peer.id == leader_id res
      then some cannot_demote_leader
      else none

-- RemovePeer
module _ (from_container peer_id : ℕ) where
  unfoldable pub remove_peer_conf_ver_changed : CachedResource → ℕ
  remove_peer_conf_ver_changed res =
      let id = (peer_or_zero (get_container_peer res from_container)).id in
      bool_to_uint64 (id == 0 || (not (peer_id == 0) && not (id == peer_id)))

  unfoldable pub remove_peer_is_finish : CachedResource → Bool
  remove_peer_is_finish res = is_none (get_container_peer res from_container)

  unfoldable pub remove_peer_check_safety : CachedResource → Option SafetyError
  remove_peer_check_safety res =
      if from_container == leader_container_id res then some cannot_remove_leader else none

  unfoldable pub remove_peer_influence : OpInfluence → CachedResource → OpInfluence
  remove_peer_influence m res = adjust m from_container λ o.
      adjust_step_cost
        (record o {
          resource_size = sub64 o.resource_size res.approximate_size;
          resource_count = sub64 o.resource_count 1;
        })
        remove_peer_limit res.approximate_size

-- a resource's range, as `MergeResource` and `SplitResource` remember it
abbrev pub range_differs : Bytes → Bytes → CachedResource → Bool
range_differs start_key end_key res =
    not (bytes_eq res.start_key start_key) || not (bytes_eq res.end_key end_key)

-- MergeResource
module _ (to_start to_end : Bytes) (is_passive : Bool) where
  unfoldable pub merge_is_finish : CachedResource → Bool
  merge_is_finish res = if is_passive then range_differs to_start to_end res else false

-- the loops of `MergeResource.Influence` and `SplitResource.Influence` over the peers
abbrev pub count_peer : (ℕ → ℕ) → ℕ → Peer → ContainerInfluence → ContainerInfluence
count_peer bump leader peer o = record o {
  resource_count = bump o.resource_count;
  leader_count = if leader == peer.id then bump o.leader_count else o.leader_count;
}

unfoldable pub count_peers : (ℕ → ℕ) → ℕ → List Peer → OpInfluence → OpInfluence
count_peers bump leader [] m = m
count_peers bump leader (peer ∷ rest) m =
    count_peers bump leader rest (adjust m peer.container_id (count_peer bump leader peer))

unfoldable pub merge_influence : Bool → OpInfluence → CachedResource → OpInfluence
merge_influence is_passive m res =
    if is_passive then count_peers (λ n. sub64 n 1) (leader_id res) res.peers m else m

unfoldable pub split_influence : OpInfluence → CachedResource → OpInfluence
split_influence m res = count_peers (λ n. add64 n 1) (leader_id res) res.peers m
