-- ===== src/Raft/Split/Done.antt =====
-- `doExecSplit` taken apart: what it has decided when it ends with a split.
use matrixcube.Prelude.{
  ◌≡◌, refl, true, Option, none, some, List, [], ◌∷◌, arith, length, Bool-cases, inl, inr,
}
use matrixcube.Prelude.Bytes.{Bytes}
use matrixcube.Meta.{Shard}
use matrixcube.Raft.Shards.{key_in_shard}
use matrixcube.Raft.Delegate.{Delegate, Context, split_done, done}
use matrixcube.Raft.Split.{
  SplitRequest, Keys, keys, bad, panics, last_key, new_shards, derive, Hooks, call_hook, data_moved,
  finish_split, split_at,
}

-- the end of a split that has moved its data
finished :
    (hooks : Hooks) (d d' : Delegate) (ctx ctx' : Context) (derived : Shard) (shards : List Shard)
    (p : Shard × List Shard)
    → finish_split hooks d ctx p ≡ done d' ctx' (some (split_done derived shards))
    → (derived ≡ p.0) × (shards ≡ p.1) × (d'.shard ≡ p.0)
finished hooks d d' ctx ctx' derived shards (x, y) h =
    elim (Bool-cases (data_moved hooks.move_data x y)) [
      | inl moved ↦ (ground arith, ground arith, ground arith)
      | inr stuck ↦ absurd (ground arith)
    ]

-- the shards of a split at the keys of the queue, before the hook has seen them
abbrev pub split_of : Shard → List SplitRequest → Bytes → List Bytes → Shard × List Shard
split_of shard reqs k ks =
    let derived = derive shard (length reqs) k in
    (derived, new_shards derived shard.end reqs (k ∷ ks))

-- what `exec_split` has decided when it ends with a split
pub split_done_of :
    (hooks : Hooks) (d d' : Delegate) (ctx ctx' : Context) (reqs : List SplitRequest)
    (derived : Shard) (shards : List Shard) (q : Keys)
    → split_at hooks d ctx reqs q ≡ done d' ctx' (some (split_done derived shards))
    → (k : Bytes) × (ks : List Bytes) × (q ≡ keys (k ∷ ks))
      × (key_in_shard (last_key k ks) (d.shard) ≡ true)
      × ((p : Shard × List Shard) × (p
            ≡ call_hook
                (hooks.on_split (derive (d.shard) (length reqs) k).group)
                (derive (d.shard) (length reqs) k)
                (new_shards (derive (d.shard) (length reqs) k) d.shard.end reqs (k ∷ ks)))
          × (derived ≡ p.0)
          × (shards ≡ p.1)
          × (d'.shard ≡ p.0))
split_done_of hooks d d' ctx ctx' reqs derived shards (bad e) h = cc
split_done_of hooks d d' ctx ctx' reqs derived shards panics h = cc
split_done_of hooks d d' ctx ctx' reqs derived shards (keys []) h = cc
split_done_of hooks d d' ctx ctx' reqs derived shards (keys (k ∷ ks)) h =
    elim (Bool-cases (key_in_shard (last_key k ks) (d.shard))) [
      | inl inside ↦
          let p =
            call_hook (hooks.on_split (derive (d.shard) (length reqs) k).group)
              (derive (d.shard) (length reqs) k)
              (new_shards (derive (d.shard) (length reqs) k) d.shard.end reqs (k ∷ ks)) in
          let e : finish_split hooks d ctx p ≡ done d' ctx' (some (split_done derived shards)) =
            rw inside at h in
          let f = finished hooks d d' ctx ctx' derived shards p e in
          (k, ks, refl, inside, (p, refl, f.0, f.1, f.2))
      | inr outside ↦ absurd (ground arith)
    ]

pub no_hook :
    (h : Option (Shard → List Shard → Shard × List Shard)) (x : Shard) (y : List Shard)
    → h ≡ none
    → call_hook h x y ≡ (x, y)
no_hook none x y e = refl
no_hook (some f) x y e = cc
