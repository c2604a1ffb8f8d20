-- ===== src/Operator/Joint.antt =====
-- components/prophet/schedule/operator/step.go: ChangePeerV2Enter and ChangePeerV2Leave, the steps
-- that enter and leave a joint configuration.
use matrixcube.Prelude.{
  ℕ, ◌+◌, Bool, true, false, not, ◌&&◌, ◌||◌, Option, none, some, List, [], ◌∷◌, ◌==◌, length,
  if◌then◌else◌,
}
use matrixcube.Meta.{
  Peer, PeerRole, voter, learner, incoming_voter, demoting_voter, unknown, role_is_voter,
  role_is_incoming, role_is_demoting, is_voter_or_incoming_voter, is_learner_or_demoting_voter,
  is_in_joint_state, count_in_joint_state,
}
use matrixcube.Operator.Resource.{
  CachedResource, leader_container_id, get_container_peer, get_container_voter,
}
use matrixcube.Operator.Step.{
  PromoteLearner, DemoteVoter, SafetyError, peer_does_not_exist, peer_already_learner,
  peer_already_voter, peer_still_voter, peer_still_learner, cannot_demote_leader,
  cannot_promote_demoting, cannot_demote_incoming, unexpected_role, non_atomic_joint,
  others_in_joint_state, others_not_in_joint_state, has_id, found_and, is_none,
  demote_conf_ver_changed, demote_is_finish,
}

-- a loop that returns at the first element that fails the test
abbrev pub all_of {ℓ} : {A : Type ℓ} → (A → Bool) → List A → Bool
all_of test [] = true
all_of test (x ∷ xs) = if test x then all_of test xs else false

-- The three flags of `CheckSafety`; `ChangePeerV2Enter` never sets the last one.
pub record Flags : Type 0 where
  pub in_joint_state : Bool
  pub not_in_joint_state : Bool
  pub demote_leader : Bool

abbrev pub no_flags : Flags
no_flags = record { in_joint_state = false; not_in_joint_state = false; demote_leader = false }

pub data Scan : Type 0 where
  fail : SafetyError → Scan
  go : Flags → Scan

abbrev pub joint : Flags → Scan
joint fl = go (record fl { in_joint_state = true })

abbrev pub not_joint : Flags → Scan
not_joint fl = go (record fl { not_in_joint_state = true })

-- the loops over the changes: `judge` is the `switch` on the role of the peer that was found
module _ {A : Type 0} (container peer_id : A → ℕ) (judge : PeerRole → A → Flags → Scan) where
  abbrev pub scan_peer : A → Flags → Option Peer → Scan
  scan_peer a fl none = fail peer_does_not_exist
  scan_peer a fl (some peer) =
      if has_id (peer_id a) peer then judge peer.role a fl else fail peer_does_not_exist

  unfoldable pub scan : CachedResource → List A → Flags → Scan
  scan res [] fl = go fl
  scan res (a ∷ rest) fl = elim (scan_peer a fl (get_container_peer res (container a))) [
    | fail e ↦ fail e
    | go fl' ↦ scan res rest fl'
  ]

abbrev pub enter_promote : PeerRole → PromoteLearner → Flags → Scan
enter_promote learner pl fl = not_joint fl
enter_promote incoming_voter pl fl = joint fl
enter_promote voter pl fl = fail peer_already_voter
enter_promote demoting_voter pl fl = fail cannot_promote_demoting
enter_promote (unknown r) pl fl = fail unexpected_role

abbrev pub enter_demote : PeerRole → DemoteVoter → Flags → Scan
enter_demote voter dv fl = not_joint fl
enter_demote demoting_voter dv fl = joint fl
enter_demote learner dv fl = fail peer_already_learner
enter_demote incoming_voter dv fl = fail cannot_demote_incoming
enter_demote (unknown r) dv fl = fail unexpected_role

abbrev pub leave_promote : PeerRole → PromoteLearner → Flags → Scan
leave_promote voter pl fl = not_joint fl
leave_promote incoming_voter pl fl = joint fl
leave_promote learner pl fl = fail peer_still_learner
leave_promote demoting_voter pl fl = fail cannot_promote_demoting
leave_promote (unknown r) pl fl = fail unexpected_role

-- the peer was found in the container of the change, so its container is that one
abbrev pub leave_demote : ℕ → PeerRole → DemoteVoter → Flags → Scan
leave_demote leader learner dv fl = not_joint fl
leave_demote leader demoting_voter dv fl =
    if dv.to_container == leader then joint (record fl { demote_leader = true }) else joint fl
leave_demote leader voter dv fl = fail peer_still_voter
leave_demote leader incoming_voter dv fl = fail cannot_demote_incoming
leave_demote leader (unknown r) dv fl = fail unexpected_role

-- the `switch` with which both methods end; `total` is the number of the changes
abbrev pub verdict : ℕ → ℕ → Flags → Option SafetyError
verdict count total fl =
    if fl.not_in_joint_state && fl.in_joint_state
    then some non_atomic_joint
    else if fl.not_in_joint_state && not (count == 0)
    then some others_in_joint_state
    else if fl.in_joint_state && not (count == total)
    then some others_not_in_joint_state
    else if fl.demote_leader
    then some cannot_demote_leader
    else none

abbrev pub finish_scan : ℕ → ℕ → Scan → Option SafetyError
finish_scan count total (fail e) = some e
finish_scan count total (go fl) = verdict count total fl

abbrev pub then_scan : Scan → (Flags → Scan) → Scan
then_scan (fail e) next = fail e
then_scan (go fl) next = next fl

-- the tests of the loops in `ConfVerChanged` and `IsFinish`, for one change each
module _ (res : CachedResource) where
  abbrev pub promote_counted : PromoteLearner → Bool
  promote_counted pl =
      found_and (get_container_voter res pl.to_container)
        λ peer. has_id pl.peer_id peer && is_voter_or_incoming_voter peer

  abbrev pub demote_counted : DemoteVoter → Bool
  demote_counted dv = not (
      found_and (get_container_voter res dv.to_container)
        λ peer. not (has_id dv.peer_id peer) || not (is_learner_or_demoting_voter peer))

  abbrev pub promote_entered : PromoteLearner → Bool
  promote_entered pl =
      found_and (get_container_voter res pl.to_container)
        λ peer. has_id pl.peer_id peer && role_is_incoming peer.role

  abbrev pub demote_entered : DemoteVoter → Bool
  demote_entered dv =
      found_and (get_container_voter res dv.to_container)
        λ peer. has_id dv.peer_id peer && role_is_demoting peer.role

  abbrev pub promote_left : PromoteLearner → Bool
  promote_left pl =
      found_and (get_container_voter res pl.to_container)
        λ peer. has_id pl.peer_id peer && role_is_voter peer.role

  abbrev pub demote_left : DemoteVoter → Bool
  demote_left dv = demote_is_finish dv.to_container dv.peer_id res

  -- `GetContainerPeer` is called with the id of the peer here
  abbrev pub demote_left_counted : DemoteVoter → Bool
  demote_left_counted dv =
      is_none (get_container_peer res dv.peer_id)
      || demote_conf_ver_changed dv.to_container dv.peer_id res

module _ (promotes : List PromoteLearner) (demotes : List DemoteVoter) where
  abbrev pub changes : ℕ
  changes = length promotes + length demotes

  unfoldable pub enter_conf_ver_changed : CachedResource → ℕ
  enter_conf_ver_changed res =
      if all_of (promote_counted res) promotes
      then (if all_of (demote_counted res) demotes then changes else 0)
      else 0

  unfoldable pub enter_is_finish : CachedResource → Bool
  enter_is_finish res =
      if all_of (promote_entered res) promotes then all_of (demote_entered res) demotes else false

  unfoldable pub enter_check_safety : CachedResource → Option SafetyError
  enter_check_safety res = finish_scan (count_in_joint_state res.peers) changes (
      then_scan
        (scan (λ pl. pl.to_container) (λ pl. pl.peer_id) enter_promote res promotes no_flags)
        λ fl. scan (λ dv. dv.to_container) (λ dv. dv.peer_id) enter_demote res demotes fl)

  unfoldable pub leave_conf_ver_changed : CachedResource → ℕ
  leave_conf_ver_changed res =
      if all_of (promote_left res) promotes
      then (if all_of (demote_left_counted res) demotes then changes else 0)
      else 0

  unfoldable pub leave_is_finish : CachedResource → Bool
  leave_is_finish res =
      if all_of (promote_left res) promotes
      then (if all_of (demote_left res) demotes then not (is_in_joint_state res.peers) else false)
      else false

  unfoldable pub leave_check_safety : CachedResource → Option SafetyError
  leave_check_safety res = finish_scan (count_in_joint_state res.peers) changes (
      then_scan
        (scan (λ pl. pl.to_container) (λ pl. pl.peer_id) leave_promote res promotes no_flags)
        λ fl.
          scan (λ dv. dv.to_container) (λ dv. dv.peer_id) (leave_demote (leader_container_id res))
            res demotes fl)
