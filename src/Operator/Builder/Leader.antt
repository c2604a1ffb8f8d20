-- ===== src/Operator/Builder/Leader.antt =====
-- The choice of a target leader, `setTargetLeaderIfNotExist` of
-- components/prophet/schedule/operator/builder.go.
use matrixcube.Prelude.{
  ℕ, ◌<◌, ◌≡◌, refl, Bool, true, false, not, some, List, [], ◌∷◌, ◌==◌, ◌⊎◌, All, if◌then◌else◌,
  Bool-cases, inl, inr, arith,
}
use matrixcube.Meta.{Peer, is_learner}
use matrixcube.Operator.Builder.Peers.{PeersMap, lookup, IsMap}
use matrixcube.Operator.Builder.{Builder}
use matrixcube.Operator.Builder.Prepare.{allow_leader}
use matrixcube.Operator.Builder.Exec.{
  set_target_leader_if_not_exist, choose_leader, is_better, leader_scores, expected,
  is_follower_role,
}

-- no container, or that of a target peer which is not a learner
abbrev pub IsVoterOf : PeersMap → ℕ → Type 0
IsVoterOf m id = (id ≡ 0) ⊎ ((p : Peer) × (lookup m id ≡ some p) × (is_learner p ≡ false))

allowed-voter :
    (b : Builder) (p : Peer) (ignore : Bool) → allow_leader b p ignore ≡ true → is_learner p ≡ false
unfolding allow_leader
allowed-voter b p ignore h = ground arith

pick :
    (P : ℕ → Type 0) (x y z : Bool) (best id : ℕ)
    → P best
    → P id
    → P (if x then best else if y then id else if z then id else best)
pick P true y z best id h k = h
pick P false true z best id h k = k
pick P false false true best id h k = k
pick P false false false best id h k = h

chosen_voter :
    (b : Builder) (p : Peer) (best : ℕ)
    → IsVoterOf b.target_peers best
    → lookup b.target_peers p.container_id ≡ some p
    → IsVoterOf b.target_peers (
        if not (allow_leader b p b.force_target_leader)
        then best
        else if expected is_follower_role b.expected_roles p.container_id
        then best
        else if best == 0
        then p.container_id
        else if is_better (leader_scores b best p.container_id)
        then p.container_id
        else best)
chosen_voter b p best h l = elim (Bool-cases (allow_leader b p b.force_target_leader)) [
  | inr n ↦ rw n h
  | inl y ↦ rw y (
      pick (IsVoterOf b.target_peers) (expected is_follower_role b.expected_roles p.container_id)
        (best == 0) (is_better (leader_scores b best p.container_id)) best p.container_id h
        (inr (p, l, allowed-voter b p b.force_target_leader y)))
]

choose_leader-IsVoter :
    (b : Builder) (ps : List Peer) (best : ℕ)
    → IsVoterOf b.target_peers best
    → All (λ (p : Peer). lookup b.target_peers p.container_id ≡ some p) ps
    → IsVoterOf b.target_peers (choose_leader b ps best)
unfolding choose_leader
choose_leader-IsVoter b [] best h a = h
choose_leader-IsVoter b (p ∷ ps) best h a =
    choose_leader-IsVoter b ps _ (chosen_voter b p best h a.0) a.1

later_lookup :
    (p : Peer) (m ps : PeersMap)
    → All (λ (q : Peer). p.container_id < q.container_id) ps
    → All (λ (q : Peer). lookup m q.container_id ≡ some q) ps
    → All (λ (q : Peer). lookup (p ∷ m) q.container_id ≡ some q) ps
later_lookup p m [] a h = tt
later_lookup p m (q ∷ qs) a h = (ground arith, later_lookup p m qs a.1 h.1)

pub own_lookup : (m : PeersMap) → IsMap m → All (λ (p : Peer). lookup m p.container_id ≡ some p) m
own_lookup [] i = tt
own_lookup (p ∷ ps) i = (ground arith, later_lookup p ps ps i.0 (own_lookup ps i.1))

pub set_leader-IsStep :
    (b : Builder)
    → IsVoterOf b.target_peers b.target_leader
    → IsMap b.target_peers
    → ((set_target_leader_if_not_exist b).current_peers ≡ b.current_peers)
      × ((set_target_leader_if_not_exist b).to_promote ≡ b.to_promote)
      × ((set_target_leader_if_not_exist b).to_demote ≡ b.to_demote)
      × ((set_target_leader_if_not_exist b).to_remove ≡ b.to_remove)
      × ((set_target_leader_if_not_exist b).origin_leader ≡ b.origin_leader)
      × ((set_target_leader_if_not_exist b).current_leader ≡ b.current_leader)
      × IsVoterOf b.target_peers (set_target_leader_if_not_exist b).target_leader
unfolding set_target_leader_if_not_exist
set_leader-IsStep b v i = elim (Bool-cases (b.target_leader == 0)) [
  | inl e ↦
      rw (e, set_target_leader_if_not_exist)
        (
          refl,
          refl,
          refl,
          refl,
          refl,
          refl,
          choose_leader-IsVoter b b.target_peers 0 (inl refl) (own_lookup b.target_peers i),
        )
  | inr n ↦ rw (n, set_target_leader_if_not_exist) (refl, refl, refl, refl, refl, refl, v)
]
