-- ===== src/Raft/Split/Shape.antt =====
-- The shards of a split besides their ranges, and the splits that are refused.
use mathlib.Core.Path.{subst₂}
use matrixcube.Prelude.{
  ℕ, suc, ◌≡◌, refl, sym, ap, ◌∙◌, none, some, List, [], ◌∷◌, arith, All, length, map, inl, inr,
  ◌⊎◌,
}
use matrixcube.Prelude.Bytes.{Bytes}
use matrixcube.Prelude.Words.{add64}
use matrixcube.Meta.{Peer, voter, Shard}
use matrixcube.Raft.Delegate.{Delegate, Context, split_done, ApplyError, done, failed}
use matrixcube.Raft.Split.{
  SplitRequest, Keys, keys, bad, panics, split_keys, new_peers, new_shard, new_shards, derive,
  Hooks, split_at, exec_split,
}
use matrixcube.Raft.Split.Queue.{Checked, split_keys_lem}
use matrixcube.Raft.Split.Done.{split_done_of, no_hook}

-- the containers of the peers, in order
abbrev pub containers : List Peer → List ℕ
containers = map (λ p. p.container_id)

-- A new shard has the epoch of the derived one and a peer in each container that the old shard had
-- a peer in, in the same order; each of its peers is a voter.
pub record IsSibling (old derived s : Shard) : Type 0 where
  pub same_epoch : s.epoch ≡ derived.epoch
  pub same_containers : containers s.peers ≡ containers old.peers
  pub all_voters : All (λ (p : Peer). p.role ≡ voter) s.peers
  pub same_group : s.group ≡ old.group

containers-new_peers :
    (ids : List ℕ) (ps : List Peer)
    → length ids ≡ length ps
    → containers (new_peers ids ps) ≡ containers ps
unfolding new_peers
containers-new_peers [] [] h = refl
containers-new_peers [] (p ∷ ps) h = absurd (omega arith)
containers-new_peers (i ∷ ids) [] h = absurd (omega arith)
containers-new_peers (i ∷ ids) (p ∷ ps) h =
    ap (λ (l : List ℕ). p.container_id ∷ l) (containers-new_peers ids ps (omega arith))

new_peers_voters :
    (ids : List ℕ) (ps : List Peer) → All (λ (p : Peer). p.role ≡ voter) (new_peers ids ps)
unfolding new_peers
new_peers_voters [] ps = tt
new_peers_voters (i ∷ ids) [] = tt
new_peers_voters (i ∷ ids) (p ∷ ps) = (refl, new_peers_voters ids ps)

new_shard-IsSibling :
    (old : Shard) (n : ℕ) (e start end : Bytes) (r : SplitRequest)
    → length r.new_peer_ids ≡ length old.peers
    → IsSibling old (derive old n e) (new_shard (derive old n e) r start end)
unfolding derive new_shard
new_shard-IsSibling old n e start end r h = record {
  same_epoch = refl;
  same_containers = containers-new_peers r.new_peer_ids old.peers h;
  all_voters = new_peers_voters r.new_peer_ids old.peers;
  same_group = refl;
}

new_shards-IsSibling :
    (old : Shard) (n : ℕ) (e end : Bytes) (reqs : List SplitRequest) (ks : List Bytes)
    → Checked (length old.peers) reqs ks
    → (length (new_shards (derive old n e) end reqs ks) ≡ length reqs)
      × All (IsSibling old (derive old n e)) (new_shards (derive old n e) end reqs ks)
      × (map (λ (s : Shard). s.id) (new_shards (derive old n e) end reqs ks)
          ≡ map (λ (r : SplitRequest). r.new_shard_id) reqs)
unfolding new_shards new_shard
new_shards-IsSibling old n e end [] [] c = (refl, tt, refl)
new_shards-IsSibling old n e end [] (k ∷ ks) c = absurd c
new_shards-IsSibling old n e end (r ∷ reqs) [] c = absurd c
new_shards-IsSibling old n e end (r ∷ reqs) (k ∷ []) c =
    let (l, a, m) = new_shards-IsSibling old n e end reqs [] c.2 in
    (
      ap suc l,
      (new_shard-IsSibling old n e k end r c.1, a),
      ap (λ (x : List ℕ). r.new_shard_id ∷ x) m,
    )
new_shards-IsSibling old n e end (r ∷ reqs) (k ∷ k' ∷ ks) c =
    let (l, a, m) = new_shards-IsSibling old n e end reqs (k' ∷ ks) c.2 in
    (
      ap suc l,
      (new_shard-IsSibling old n e k k' r c.1, a),
      ap (λ (x : List ℕ). r.new_shard_id ∷ x) m,
    )

-- what a split makes of a shard, its ranges aside
pub record IsSplit (old derived : Shard) (shards : List Shard) (reqs : List SplitRequest)
    : Type 0 where
  pub same_id : derived.id ≡ old.id
  pub same_start : derived.start ≡ old.start
  pub same_peers : derived.peers ≡ old.peers
  pub version : derived.epoch.version ≡ add64 old.epoch.version (length reqs)
  pub conf_ver : derived.epoch.conf_ver ≡ old.epoch.conf_ver
  pub siblings : All (IsSibling old derived) shards
  pub ids : map (λ (s : Shard). s.id) shards ≡ map (λ (r : SplitRequest). r.new_shard_id) reqs

-- Where no hook is registered for the group of the shard, a split that succeeds leaves the id, the
-- start, the peers and the configuration version of the shard alone, and raises its version by the
-- number of the requests. It makes one new shard for each request, with the id of the request. A
-- new shard has the group and the new epoch of the old one, and a voter in each of its containers.
pub exec_split-IsSplit :
    (hooks : Hooks) (d d' : Delegate) (ctx ctx' : Context) (reqs : List SplitRequest)
    (derived : Shard) (shards : List Shard)
    → hooks.on_split d.shard.group ≡ none
    → exec_split hooks d ctx reqs ≡ done d' ctx' (some (split_done derived shards))
    → IsSplit (d.shard) derived shards reqs
unfolding exec_split derive
exec_split-IsSplit hooks d d' ctx ctx' reqs derived shards n h =
    let (k, ks, q, last, (p, e, x, y, z)) =
      split_done_of hooks d d' ctx ctx' reqs derived shards _ h in
    let (i, c) = split_keys_lem (length d.shard.peers) d.shard.start reqs (k ∷ ks) q in
    let e' = e ∙ no_hook (hooks.on_split d.shard.group) _ _ n in
    let x' = x ∙ ap (λ (t : Shard × List Shard). t.0) e' in
    let y' = y ∙ ap (λ (t : Shard × List Shard). t.1) e' in
    let (l, a, m) = new_shards-IsSibling (d.shard) (length reqs) k d.shard.end reqs (k ∷ ks) c in
    subst₂ (λ (a : Shard) (b : List Shard). IsSplit (d.shard) a b reqs) (sym x') (sym y')
      (record {
        same_id = refl;
        same_start = refl;
        same_peers = refl;
        version = refl;
        conf_ver = refl;
        siblings = a;
        ids = m;
      })

split_at_kept :
    (hooks : Hooks) (d d' : Delegate) (ctx ctx' : Context) (reqs : List SplitRequest) (q : Keys)
    → (split_at hooks d ctx reqs q ≡ done d' ctx' none)
      ⊎ ((x : ApplyError) × (split_at hooks d ctx reqs q ≡ failed x d' ctx'))
    → (d' ≡ d) × (ctx' ≡ ctx)
split_at_kept hooks d d' ctx ctx' reqs (bad e) (inl h) = cc
split_at_kept hooks d d' ctx ctx' reqs (bad e) (inr (x, h)) = (ground arith, ground arith)
split_at_kept hooks d d' ctx ctx' reqs panics (inl h) = cc
split_at_kept hooks d d' ctx ctx' reqs panics (inr (x, h)) = cc
split_at_kept hooks d d' ctx ctx' reqs (keys []) (inl h) = cc
split_at_kept hooks d d' ctx ctx' reqs (keys []) (inr (x, h)) = (ground arith, ground arith)
split_at_kept hooks d d' ctx ctx' reqs (keys (k ∷ ks)) (inl h) = (ground arith, ground arith)
split_at_kept hooks d d' ctx ctx' reqs (keys (k ∷ ks)) (inr (x, h)) = (ground arith, ground arith)

-- A split that fails, or that ends with no result, leaves the delegate and the context, and so the
-- write batch, as they were.
pub exec_split_kept :
    (hooks : Hooks) (d d' : Delegate) (ctx ctx' : Context) (reqs : List SplitRequest)
    → (exec_split hooks d ctx reqs ≡ done d' ctx' none)
      ⊎ ((x : ApplyError) × (exec_split hooks d ctx reqs ≡ failed x d' ctx'))
    → (d' ≡ d) × (ctx' ≡ ctx)
unfolding exec_split
exec_split_kept hooks d d' ctx ctx' reqs h =
    split_at_kept hooks d d' ctx ctx' reqs (split_keys (length d.shard.peers) d.shard.start reqs) h
