-- ===== src/Raft/ConfChange/Joint.antt =====
-- `doExecChangePeerV2`: several changes at once, through a joint configuration.
use matrixcube.Prelude.{
  ℕ, ◌+◌, ◌-◌, ◌≡◌, ◌↔◌, refl, sym, ap, ◌∙◌, true, false, Option, none, some, List, [], ◌∷◌, arith,
  All, length, map, ◌==◌, Bool-cases, inl, inr, ◌⊎◌,
}
use matrixcube.Prelude.Words.{add64}
use matrixcube.Meta.{
  Peer, Shard, ChangePeerRequest, add_node, add_learner_node, is_in_joint_state,
  count_in_joint_state,
}
use matrixcube.Raft.Shards.{find_peer, ConfChangeKind}
use matrixcube.Raft.Shards.Laws.{holds, holds-set_role, find_peer-some}
use matrixcube.Raft.Delegate.{Delegate, Context, AdminResult, done}
use matrixcube.Raft.ConfChange.Steps.{apply_step, kind_of, committed, exec_as_applied}
use matrixcube.Raft.ConfChange.{
  bump_conf_ver, Conf, applied, change_found, apply_change, role_promoted, role_demoted,
  apply_changes, leave_joint_peers, leave_joint_num, apply_leave_joint, start_conf,
  exec_change_peer_v2,
}

-- Leaving the joint state counts the peers that are not in it.
leave_joint_num_lem : (ps : List Peer) → leave_joint_num ps + count_in_joint_state ps ≡ length ps
unfolding leave_joint_num count_in_joint_state
leave_joint_num_lem [] = refl
leave_joint_num_lem (p ∷ ps) = ground (arith, leave_joint_num_lem ps)

leave_joint_peers-none : (ps : List Peer) → is_in_joint_state (leave_joint_peers ps) ≡ false
unfolding leave_joint_peers is_in_joint_state
leave_joint_peers-none [] = refl
leave_joint_peers-none (p ∷ ps) = ground (arith, leave_joint_peers-none ps)

-- who a peer is, whatever its role
abbrev pub identity : Peer → ℕ × ℕ
identity p = (p.id, p.container_id)

leave_joint_peers-ids : (ps : List Peer) → map identity (leave_joint_peers ps) ≡ map identity ps
unfolding leave_joint_peers
leave_joint_peers-ids [] = refl
leave_joint_peers-ids (p ∷ ps) = ground (arith, leave_joint_peers-ids ps)

pub apply_leave_joint-some :
    (shard new : Shard)
    → apply_leave_joint shard ≡ some new
    → new
      ≡ bump_conf_ver
          (record shard { peers = leave_joint_peers shard.peers })
          (leave_joint_num shard.peers)
unfolding apply_leave_joint
apply_leave_joint-some shard new h = elim (Bool-cases (leave_joint_num shard.peers == 0)) [
  | inl all ↦ ground arith
  | inr more ↦ ground arith
]

-- `applyLeaveJoint` ends the process exactly when every peer is in joint state.
pub apply_leave_joint-none :
    (shard : Shard)
    → (apply_leave_joint shard ≡ none) ↔ (count_in_joint_state shard.peers ≡ length shard.peers)
unfolding apply_leave_joint
apply_leave_joint-none shard = (
  λ h. ground (arith, leave_joint_num_lem shard.peers),
  λ h. ground (arith, leave_joint_num_lem shard.peers),
)

-- Where `applyLeaveJoint` returns a shard, no peer of it is in joint state, its peers have the ids
-- and the stores of the old ones, in order, and its configuration version has grown by the number
-- of the old peers that were not in joint state.
pub apply_leave_joint_lem :
    (shard new : Shard)
    → apply_leave_joint shard ≡ some new
    → (is_in_joint_state new.peers ≡ false)
      × (map identity new.peers ≡ map identity shard.peers)
      × (new.epoch.conf_ver
          ≡ add64 shard.epoch.conf_ver (length shard.peers - count_in_joint_state shard.peers))
unfolding apply_leave_joint
apply_leave_joint_lem shard new h =
    let e = apply_leave_joint-some shard new h in
    rw e (
      leave_joint_peers-none shard.peers,
      leave_joint_peers-ids shard.peers,
      ap (add64 shard.epoch.conf_ver) (omega (arith, leave_joint_num_lem shard.peers)),
    )

-- a change that adds or promotes or demotes
abbrev pub IsAddition : ChangePeerRequest → Type 0
IsAddition cp = (cp.change_type ≡ add_node) ⊎ (cp.change_type ≡ add_learner_node)

readd_same_copy :
    (kind : ConfChangeKind) (self : ℕ) (cp : ChangePeerRequest) (c c' : Conf) (q : Peer)
    → IsAddition cp
    → change_found kind self cp c (some q) ≡ applied c'
    → (c'.res ≡ c.res) × (c'.pending_remove ≡ c.pending_remove)
readd_same_copy kind self cp c c' q (inl t) h = ground arith
readd_same_copy kind self cp c c' q (inr t) h = ground arith

readd_same_stores :
    (kind : ConfChangeKind) (self : ℕ) (cp : ChangePeerRequest) (c c' : Conf) (q : Peer) (d : ℕ)
    → change_found kind self cp c (some q) ≡ applied c'
    → holds c'.own_peers d ≡ holds c.own_peers d
readd_same_stores kind self cp c c' q d h = ground (
  arith,
  holds-set_role c.own_peers cp.peer.container_id d (role_promoted kind),
  holds-set_role c.own_peers cp.peer.container_id d (role_demoted kind),
)

-- every change adds a peer to a store that already has one
abbrev pub AllReadded : List Peer → List ChangePeerRequest → Type 0
AllReadded peers =
    All (λ (cp : ChangePeerRequest). IsAddition cp × (holds peers cp.peer.container_id ≡ true))

AllReadded-same :
    (ps qs : List Peer) (cs : List ChangePeerRequest)
    → ((d : ℕ) → holds qs d ≡ holds ps d)
    → AllReadded ps cs
    → AllReadded qs cs
AllReadded-same ps qs [] same h = tt
AllReadded-same ps qs (cp ∷ cs) same h =
    ((h.0.0, same cp.peer.container_id ∙ h.0.1), AllReadded-same ps qs cs same h.1)

apply_changes_readded :
    (kind : ConfChangeKind) (self : ℕ) (cs : List ChangePeerRequest) (c c' : Conf)
    → AllReadded c.own_peers cs
    → apply_changes kind self cs c ≡ applied c'
    → c'.res ≡ c.res
unfolding apply_changes apply_change
apply_changes_readded kind self [] c c' all h = ground arith
apply_changes_readded kind self (cp ∷ cs) c c' all h =
    let (q, f) = find_peer-some c.own_peers cp.peer.container_id all.0.1 in
    let (c₁, s, t) =
      apply_step kind self cs c'
        (change_found kind self cp c (find_peer c.own_peers cp.peer.container_id)) h in
    let s' : change_found kind self cp c (some q) ≡ applied c₁ = rw f at s in
    apply_changes_readded kind self cs c₁ c'
      (AllReadded-same c.own_peers c₁.own_peers cs (λ d. readd_same_stores kind self cp c c₁ q d s')
        all.1)
      t
    ∙ (readd_same_copy kind self cp c c₁ q all.0.0 s').0

-- `doExecChangePeerV2` with at least one change, where every change adds a peer to a store that
-- has one, to promote or demote it. If it is accepted, the shard has the same peers with the same
-- roles as before: the new roles were written to the shard that is thrown away. Only the
-- configuration version has grown, by the number of the changes.
pub exec_change_peer_v2-readded :
    (d d' : Delegate) (ctx ctx' : Context) (cp : ChangePeerRequest)
    (changes : List ChangePeerRequest) (r : Option AdminResult)
    → AllReadded d.shard.peers (cp ∷ changes)
    → exec_change_peer_v2 d ctx (cp ∷ changes) ≡ done d' ctx' r
    → d'.shard ≡ bump_conf_ver (d.shard) (length (cp ∷ changes))
exec_change_peer_v2-readded d d' ctx ctx' cp changes r all h =
    let (c, a, s, _) =
      committed d d' ctx ctx' (cp ∷ changes) _ r (sym (exec_as_applied d ctx cp changes) ∙ h) in
    let e =
      apply_changes_readded (kind_of (cp ∷ changes)) d.peer_id (cp ∷ changes) (start_conf d) c all
        a in
    s ∙ ap (λ (x : Shard). bump_conf_ver x (length (cp ∷ changes))) e
