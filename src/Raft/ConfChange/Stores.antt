-- ===== src/Raft/ConfChange/Stores.antt =====
-- The changes of `doExecChangePeerV2` keep the stores of the peers distinct.
use mathlib.Core.Path.{subst}
use matrixcube.Prelude.{
  ℕ, ◌≡◌, ◌≢◌, refl, sym, ◌∙◌, false, Option, none, some, List, [], ◌∷◌, ◌++◌, arith, All,
}
use matrixcube.Meta.{
  Peer, learner, Shard, ChangePeerType, ChangePeerRequest, add_node, add_learner_node, remove_node,
  update_node, scale_peer,
}
use matrixcube.Meta.Laws.{HasDistinctContainers}
use matrixcube.Raft.ConfChange.Joint.{apply_leave_joint-some}
use matrixcube.Raft.Shards.{find_peer, remove_peer, ConfChangeKind, get_conf_change_kind}
use matrixcube.Raft.Shards.Laws.{
  holds, holds-set_role, holds-append, holds-remove_peer, find_peer-holds, find_peer-none,
  HasDistinctContainers-append, HasDistinctContainers-remove_peer,
}
use matrixcube.Raft.Delegate.{Delegate, Context, AdminResult, done}
use matrixcube.Raft.ConfChange.Steps.{apply_step, kind_of, committed, exec_as_applied}
use matrixcube.Raft.ConfChange.{
  Conf, applied, change_found, apply_change, apply_changes, take_out, start_conf, leave_joint_peers,
  left_role, apply_leave_joint, commit_left, exec_change_peer_v2, role_added, role_promoted,
  role_demoted,
}

-- the changes that are left, each to a store of its own
abbrev pub HasDistinctStores : List ChangePeerRequest → Type 0
HasDistinctStores [] = Unit
HasDistinctStores (cp ∷ rest) =
    All (λ (c : ChangePeerRequest). c.peer.container_id ≢ cp.peer.container_id) rest
    × HasDistinctStores rest

-- A store of a change that is left holds a peer of the copy only if it holds one of the shard.
abbrev pub Agree : Conf → ℕ → Type 0
Agree c d = holds c.own_peers d ≡ false → holds c.res.peers d ≡ false

-- what one change does to the peers of the copy
data CopyAfter (c : Conf) (cp : ChangePeerRequest) (peers : List Peer) : Type 0 where
  same : peers ≡ c.res.peers → CopyAfter c cp peers
  appended :
      (q : Peer)
      → q.container_id ≡ cp.peer.container_id
      → find_peer c.own_peers cp.peer.container_id ≡ none
      → peers ≡ c.res.peers ++ q ∷ []
      → CopyAfter c cp peers
  taken : peers ≡ (remove_peer c.res.peers cp.peer.container_id).1 → CopyAfter c cp peers

take_out_peers :
    (self : ℕ) (peer : Peer) (c c' : Conf) (r : Option Peer × List Peer)
    → take_out self peer c r ≡ applied c'
    → c'.res.peers ≡ r.1
take_out_peers self peer c c' (none, left) h = ground arith
take_out_peers self peer c c' (some p, left) h = ground arith

take_out_own :
    (self : ℕ) (peer : Peer) (c c' : Conf) (r : Option Peer × List Peer)
    → take_out self peer c r ≡ applied c'
    → c'.own_peers ≡ c.own_peers
take_out_own self peer c c' (none, left) h = ground arith
take_out_own self peer c c' (some p, left) h = ground arith

copy_after :
    (kind : ConfChangeKind) (self : ℕ) (cp : ChangePeerRequest) (c c' : Conf) (o : Option Peer)
    (t : ChangePeerType)
    → cp.change_type ≡ t
    → find_peer c.own_peers cp.peer.container_id ≡ o
    → change_found kind self cp c o ≡ applied c'
    → CopyAfter c cp c'.res.peers
copy_after kind self cp c c' none add_node e f k =
    appended (record (cp.peer) { role = role_added kind cp.peer.role }) refl f (ground arith)
copy_after kind self cp c c' none add_learner_node e f k =
    appended (record (cp.peer) { role = learner }) refl f (ground arith)
copy_after kind self cp c c' none remove_node e f k = same (ground arith)
copy_after kind self cp c c' none update_node e f k = same (ground arith)
copy_after kind self cp c c' none scale_peer e f k = same (ground arith)
copy_after kind self cp c c' (some q) remove_node e f k = taken (
    ground
      (arith, take_out_peers self (cp.peer) c c' (remove_peer c.res.peers cp.peer.container_id)))
copy_after kind self cp c c' (some q) _ e f k = same (ground arith)

own_stores :
    (kind : ConfChangeKind) (self : ℕ) (cp : ChangePeerRequest) (c c' : Conf) (o : Option Peer)
    (d : ℕ)
    → change_found kind self cp c o ≡ applied c'
    → holds c'.own_peers d ≡ holds c.own_peers d
own_stores kind self cp c c' none d k = ground arith
own_stores kind self cp c c' (some q) d k = ground (
  arith,
  take_out_own self (cp.peer) c c' (remove_peer c.res.peers cp.peer.container_id),
  holds-set_role c.own_peers cp.peer.container_id d (role_promoted kind),
  holds-set_role c.own_peers cp.peer.container_id d (role_demoted kind),
)

after_distinct :
    {c : Conf} {cp : ChangePeerRequest} {peers : List Peer}
    → CopyAfter c cp peers
    → HasDistinctContainers c.res.peers
    → Agree c cp.peer.container_id
    → HasDistinctContainers peers
after_distinct (same e) h a = rw e h
after_distinct {c} {cp} (appended q s f e) h a = rw e (
    HasDistinctContainers-append c.res.peers q h (
      rw s (
        find_peer-none c.res.peers cp.peer.container_id
          (a (find_peer-holds c.own_peers cp.peer.container_id f)))))
after_distinct {c} {cp} (taken e) h a =
    rw e (HasDistinctContainers-remove_peer c.res.peers cp.peer.container_id h)

after_other :
    {c : Conf} {cp : ChangePeerRequest} {peers : List Peer} (d : ℕ)
    → CopyAfter c cp peers
    → d ≢ cp.peer.container_id
    → holds c.res.peers d ≡ false
    → holds peers d ≡ false
after_other d (same e) n h = rw e h
after_other {c} {cp} d (appended q s f e) n h = rw e (rw holds-append (ground arith))
after_other {c} {cp} d (taken e) n h = rw e (rw holds-remove_peer (ground arith))

AllAgree : Conf → List ChangePeerRequest → Type 0
AllAgree c cs = All (λ (cp : ChangePeerRequest). Agree c cp.peer.container_id) cs

agree_after :
    (c c' : Conf) (cp : ChangePeerRequest) (rest : List ChangePeerRequest)
    → CopyAfter c cp c'.res.peers
    → ((d : ℕ) → holds c'.own_peers d ≡ holds c.own_peers d)
    → All (λ (x : ChangePeerRequest). x.peer.container_id ≢ cp.peer.container_id) rest
    → AllAgree c rest
    → AllAgree c' rest
unfolding AllAgree
agree_after c c' cp [] p o n a = tt
agree_after c c' cp (x ∷ rest) p o n a = (
  λ h. after_other x.peer.container_id p n.0 (a.0 (sym (o x.peer.container_id) ∙ h)),
  agree_after c c' cp rest p o n.1 a.1,
)

apply_changes-distinct :
    (kind : ConfChangeKind) (self : ℕ) (cs : List ChangePeerRequest) (c c' : Conf)
    → HasDistinctStores cs
    → AllAgree c cs
    → HasDistinctContainers c.res.peers
    → apply_changes kind self cs c ≡ applied c'
    → HasDistinctContainers c'.res.peers
unfolding apply_changes apply_change AllAgree
apply_changes-distinct kind self [] c c' n a h k =
    let e : c ≡ c' = ground arith in subst (λ x. HasDistinctContainers x.res.peers) e h
apply_changes-distinct kind self (cp ∷ cs) c c' n a h k =
    let o = find_peer c.own_peers cp.peer.container_id in
    let (c₁, s, t) = apply_step kind self cs c' (change_found kind self cp c o) k in
    let p = copy_after kind self cp c c₁ o cp.change_type refl refl s in
    apply_changes-distinct kind self cs c₁ c' n.1
      (unfold AllAgree in
        agree_after c c₁ cp cs p (λ d. own_stores kind self cp c c₁ o d s) n.0 a.1)
      (after_distinct p h a.0) t

AllAgree-at_start : (d : Delegate) (cs : List ChangePeerRequest) → AllAgree (start_conf d) cs
unfolding AllAgree
AllAgree-at_start d [] = tt
AllAgree-at_start d (cp ∷ cs) = ((λ h. h), AllAgree-at_start d cs)

added_distinct :
    (d d' : Delegate) (ctx ctx' : Context) (cp : ChangePeerRequest)
    (changes : List ChangePeerRequest) (r : Option AdminResult)
    → HasDistinctStores (cp ∷ changes)
    → HasDistinctContainers d.shard.peers
    → exec_change_peer_v2 d ctx (cp ∷ changes) ≡ done d' ctx' r
    → HasDistinctContainers d'.shard.peers
added_distinct d d' ctx ctx' cp changes r n h k =
    let (c, a, s, _) =
      committed d d' ctx ctx' (cp ∷ changes) _ r (sym (exec_as_applied d ctx cp changes) ∙ k) in
    subst (λ (x : Shard). HasDistinctContainers x.peers) (sym s)
      (apply_changes-distinct (kind_of (cp ∷ changes)) d.peer_id (cp ∷ changes) (start_conf d) c n
        (AllAgree-at_start d (cp ∷ changes)) h a)

absent-leave :
    (c : ℕ) (ps : List Peer)
    → All (λ (p : Peer). p.container_id ≢ c) ps
    → All (λ (p : Peer). p.container_id ≢ c) (leave_joint_peers ps)
unfolding leave_joint_peers
absent-leave c [] h = tt
absent-leave c (p ∷ ps) h = (ground (arith, h.0), absent-leave c ps h.1)

stores-left : (p : Peer) → (left_role p).container_id ≡ p.container_id
stores-left p = ground arith

HasDistinctContainers-leave :
    (ps : List Peer) → HasDistinctContainers ps → HasDistinctContainers (leave_joint_peers ps)
unfolding leave_joint_peers
HasDistinctContainers-leave [] h = tt
HasDistinctContainers-leave (p ∷ ps) h =
    (rw (stores-left p) (absent-leave p.container_id ps h.0), HasDistinctContainers-leave ps h.1)

left_distinct :
    (d d' : Delegate) (ctx ctx' : Context) (o : Option Shard) (r : Option AdminResult)
    → apply_leave_joint (d.shard) ≡ o
    → HasDistinctContainers d.shard.peers
    → commit_left d ctx [] o ≡ done d' ctx' r
    → HasDistinctContainers d'.shard.peers
left_distinct d d' ctx ctx' none r e h k = cc
left_distinct d d' ctx ctx' (some new) r e h k =
    let same : new ≡ d'.shard = ground arith in
    subst (λ (x : Shard). HasDistinctContainers x.peers)
      (sym (apply_leave_joint-some (d.shard) new e) ∙ same)
      (HasDistinctContainers-leave d.shard.peers h)

-- If no two peers of a shard share a store, and no two changes are for the same store, then after
-- `doExecChangePeerV2` has accepted the changes, or has left the joint state where there is none, no
-- two peers share a store.
pub exec_change_peer_v2-distinct :
    (d d' : Delegate) (ctx ctx' : Context) (changes : List ChangePeerRequest)
    (r : Option AdminResult)
    → HasDistinctStores changes
    → HasDistinctContainers d.shard.peers
    → exec_change_peer_v2 d ctx changes ≡ done d' ctx' r
    → HasDistinctContainers d'.shard.peers
exec_change_peer_v2-distinct d d' ctx ctx' [] r n h k =
    left_distinct d d' ctx ctx' (apply_leave_joint (d.shard)) r refl h
      (unfold exec_change_peer_v2 get_conf_change_kind in k)
exec_change_peer_v2-distinct d d' ctx ctx' (cp ∷ changes) r n h k =
    added_distinct d d' ctx ctx' cp changes r n h k
