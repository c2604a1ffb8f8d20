-- ===== src/Raft/ConfChange/Simple.antt =====
-- `doExecChangePeer`: the change of one peer, outside joint consensus.
use matrixcube.Prelude.{
  ◌≡◌, refl, Bool, true, Option, none, some, List, [], ◌∷◌, ◌++◌, arith, ◌==◌, inl, inr,
  if◌then◌else◌, ◌⊎◌,
}
use matrixcube.Prelude.Words.{add64}
use matrixcube.Meta.{
  Peer, voter, learner, Shard, ChangePeerType, ChangePeerRequest, add_node, remove_node,
  update_node, add_learner_node, scale_peer,
}
use matrixcube.Meta.Laws.{HasDistinctContainers}
use matrixcube.Raft.Shards.{find_peer, set_role}
use matrixcube.Raft.Shards.Laws.{HasDistinctContainers-append, HasDistinctContainers-set_role}
use matrixcube.Raft.Delegate.{Delegate, Context, AdminResult, ApplyError, done, failed}
use matrixcube.Raft.ConfChange.{
  bump_conf_ver, Changed, changed, refused, change_simple, commit_changed, exec_change_peer,
}

-- the copy that `doExecChangePeer` works on, and what the switch makes of it
abbrev pub copy : Delegate → Shard
copy d = bump_conf_ver (d.shard) 1

abbrev switched : Delegate → ChangePeerRequest → Changed
switched d req =
    change_simple d (req.peer) req (copy d) (find_peer d.shard.peers req.peer.container_id)

switch_of_done :
    (d d' : Delegate) (ctx ctx' : Context) (req : ChangePeerRequest) (s : Changed)
    (r : Option AdminResult)
    → commit_changed d ctx (req ∷ []) s ≡ done d' ctx' r
    → (res : Shard) × (removed : Bool) × (s ≡ changed res removed)
      × (d' ≡ record d { shard = res; pending_remove = removed })
switch_of_done d d' ctx ctx' req (changed res removed) r h = (res, removed, refl, ground arith)
switch_of_done d d' ctx ctx' req (refused e) r h = cc

-- what a change leaves alone, and what it always does
pub record Keeps (old new : Shard) : Type 0 where
  pub id : new.id ≡ old.id
  pub start : new.start ≡ old.start
  pub end : new.end ≡ old.end
  pub version : new.epoch.version ≡ old.epoch.version
  pub conf_ver : new.epoch.conf_ver ≡ add64 old.epoch.conf_ver 1

-- the peers after a change that is accepted, and the flag of the delegate, by the type of the change
-- and the peer in its store
pub data PeersAfter (d : Delegate) (req : ChangePeerRequest) (peers : List Peer) (removed : Bool)
    : Type 0 where
  appended :
      (req.change_type ≡ add_node) ⊎ (req.change_type ≡ add_learner_node)
      → find_peer d.shard.peers req.peer.container_id ≡ none
      → peers ≡ d.shard.peers ++ req.peer ∷ []
      → removed ≡ d.pending_remove
      → PeersAfter d req peers removed
  promoted :
      (q : Peer)
      → req.change_type ≡ add_node
      → find_peer d.shard.peers req.peer.container_id ≡ some q
      → q.id ≡ req.peer.id
      → q.role ≡ learner
      → peers ≡ set_role d.shard.peers req.peer.container_id voter
      → removed ≡ d.pending_remove
      → PeersAfter d req peers removed
  not_taken :
      (q : Peer)
      → req.change_type ≡ remove_node
      → find_peer d.shard.peers req.peer.container_id ≡ some q
      → q.id ≡ req.peer.id
      → peers ≡ d.shard.peers
      → removed ≡ (if d.peer_id == req.peer.id then true else d.pending_remove)
      → PeersAfter d req peers removed
  kept :
      (req.change_type ≡ update_node) ⊎ (req.change_type ≡ scale_peer)
      → peers ≡ d.shard.peers
      → removed ≡ d.pending_remove
      → PeersAfter d req peers removed

switched-Keeps :
    (d : Delegate) (req : ChangePeerRequest) (res : Shard) (removed : Bool) (o : Option Peer)
    → change_simple d (req.peer) req (copy d) o ≡ changed res removed
    → Keeps (d.shard) res
switched-Keeps d req res removed o h = ground arith

switched_peers :
    (d : Delegate) (req : ChangePeerRequest) (res : Shard) (removed : Bool) (o : Option Peer)
    (t : ChangePeerType)
    → req.change_type ≡ t
    → find_peer d.shard.peers req.peer.container_id ≡ o
    → change_simple d (req.peer) req (copy d) o ≡ changed res removed
    → PeersAfter d req res.peers removed
switched_peers d req res removed none add_node e f h =
    appended (inl e) f (ground arith) (ground arith)
switched_peers d req res removed (some q) add_node e f h =
    promoted q e f (ground arith) (ground arith) (ground arith) (ground arith)
switched_peers d req res removed none add_learner_node e f h =
    appended (inr e) f (ground arith) (ground arith)
switched_peers d req res removed (some q) add_learner_node e f h = absurd (ground arith)
switched_peers d req res removed none remove_node e f h = absurd (ground arith)
switched_peers d req res removed (some q) remove_node e f h =
    not_taken q e f (ground arith) (ground arith) (ground arith)
switched_peers d req res removed o update_node e f h = kept (inl e) (ground arith) (ground arith)
switched_peers d req res removed o scale_peer e f h = kept (inr e) (ground arith) (ground arith)

after_distinct :
    {d : Delegate} {req : ChangePeerRequest} {peers : List Peer} {removed : Bool}
    → PeersAfter d req peers removed
    → HasDistinctContainers d.shard.peers
    → HasDistinctContainers peers
after_distinct {d} {req} (appended t f e g) h =
    rw e (HasDistinctContainers-append d.shard.peers req.peer h f)
after_distinct {d} {req} (promoted q t f i r e g) h =
    rw e (HasDistinctContainers-set_role d.shard.peers req.peer.container_id voter h)
after_distinct (not_taken q t f i e g) h = rw e h
after_distinct (kept t e g) h = rw e h

-- A change that is accepted raises the configuration version by one and leaves the id, the range
-- and the version of the shard alone. AddNode and AddLearnerNode append the peer, if its store had
-- none; AddNode makes a learner with the id of the peer, if its store had that, a voter. RemoveNode,
-- which needs a peer with the id in the store, leaves the peers as they were, this one with them, and
-- only marks a delegate that is itself the peer for removal. The other types change no peer.
pub exec_change_peer-done :
    (d d' : Delegate) (ctx ctx' : Context) (req : ChangePeerRequest) (r : Option AdminResult)
    → exec_change_peer d ctx req ≡ done d' ctx' r
    → Keeps (d.shard) (d'.shard) × PeersAfter d req d'.shard.peers d'.pending_remove
unfolding exec_change_peer
exec_change_peer-done d d' ctx ctx' req r h =
    let (res, removed, s, e) = switch_of_done d d' ctx ctx' req (switched d req) r h in
    let k = switched-Keeps d req res removed (find_peer d.shard.peers req.peer.container_id) s in
    let p =
      switched_peers d req res removed (find_peer d.shard.peers req.peer.container_id)
        req.change_type refl refl s in
    rw e (k, p)

-- Where no two peers share a store, no two do after a change that is accepted.
pub exec_change_peer-distinct :
    (d d' : Delegate) (ctx ctx' : Context) (req : ChangePeerRequest) (r : Option AdminResult)
    → HasDistinctContainers d.shard.peers
    → exec_change_peer d ctx req ≡ done d' ctx' r
    → HasDistinctContainers d'.shard.peers
exec_change_peer-distinct d d' ctx ctx' req r distinct h =
    let (k, p) = exec_change_peer-done d d' ctx ctx' req r h in after_distinct p distinct

refused_kept :
    (d d' : Delegate) (ctx ctx' : Context) (req : ChangePeerRequest) (s : Changed) (x : ApplyError)
    → commit_changed d ctx (req ∷ []) s ≡ failed x d' ctx'
    → (d' ≡ d) × (ctx' ≡ ctx)
refused_kept d d' ctx ctx' req (changed res removed) x h = cc
refused_kept d d' ctx ctx' req (refused e) x h = ground arith

-- A change that fails leaves the delegate and the context as they were.
pub exec_change_peer-failed :
    (d d' : Delegate) (ctx ctx' : Context) (req : ChangePeerRequest) (x : ApplyError)
    → exec_change_peer d ctx req ≡ failed x d' ctx'
    → (d' ≡ d) × (ctx' ≡ ctx)
unfolding exec_change_peer
exec_change_peer-failed d d' ctx ctx' req x h = refused_kept d d' ctx ctx' req (switched d req) x h
