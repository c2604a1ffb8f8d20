-- ===== src/Raft/Split/Accepts.antt =====
-- The splits that `doExecSplit` accepts.
use matrixcube.Prelude.{ℕ, ◌≡◌, refl, true, false, none, some, List, [], ◌∷◌, arith, length, ◌==◌}
use matrixcube.Prelude.Bytes.{Bytes, bytes_lt}
use matrixcube.Meta.{Shard}
use matrixcube.Raft.Shards.{key_in_shard}
use matrixcube.Raft.Delegate.{Delegate, Context, split_done, done}
use matrixcube.Storage.Keys.{decode_data_key}
use matrixcube.Raft.Split.{
  SplitRequest, Keys, keys, check_request, split_keys, last_key, derive, new_shards, Hooks,
  call_hook, data_moved, finish_split, exec_split,
}
use matrixcube.Raft.Split.Queue.{Increasing, Checked}

not_missing : (key k : Bytes) → decode_data_key key ≡ some k → (length key == 0) ≡ false
unfolding decode_data_key
not_missing key k h = ground arith

accepted_request :
    (peers : ℕ) (prev : Bytes) (req : SplitRequest) (k : Bytes) (next : Bytes → Keys)
    (ks : List Bytes)
    → bytes_lt prev k ≡ true
    → length req.new_peer_ids ≡ peers
    → next k ≡ keys ks
    → check_request peers prev req (some k) next ≡ keys (k ∷ ks)
accepted_request peers prev req k next ks lt n e =
    let p : (length req.new_peer_ids == peers) ≡ true = ground arith in rw (lt, p, e) refl

-- keys that increase, and requests that fit them, pass the first loop
split_keys_accepts :
    (peers : ℕ) (prev : Bytes) (reqs : List SplitRequest) (ks : List Bytes)
    → Increasing prev ks
    → Checked peers reqs ks
    → split_keys peers prev reqs ≡ keys ks
unfolding split_keys
split_keys_accepts peers prev [] [] i c = refl
split_keys_accepts peers prev [] (k ∷ ks) i c = absurd c
split_keys_accepts peers prev (req ∷ rest) [] i c = absurd c
split_keys_accepts peers prev (req ∷ rest) (k ∷ ks) i c =
    let next = λ (key : Bytes). split_keys peers key rest in
    let ih = split_keys_accepts peers k rest ks i.1 c.2 in
    rw (not_missing req.split_key k c.0, c.0) (accepted_request peers prev req k next ks i.0 c.1 ih)

finish_accepts :
    (hooks : Hooks) (d : Delegate) (ctx : Context) (p : Shard × List Shard)
    → data_moved hooks.move_data p.0 p.1 ≡ true
    → (d' : Delegate) × (ctx' : Context) × (finish_split hooks d ctx p
        ≡ done d' ctx' (some (split_done p.0 p.1)))
finish_accepts hooks d ctx (x, y) h = rw h (_, _, refl)

-- Split requests whose keys decode to keys that increase from above the start of the shard, the
-- last of them inside the shard, and that have one new peer id for each peer: without a function
-- that moves data, the split succeeds, whatever the hook is.
pub exec_split-accepts :
    (hooks : Hooks) (d : Delegate) (ctx : Context) (reqs : List SplitRequest) (k : Bytes)
    (ks : List Bytes)
    → hooks.move_data ≡ none
    → Increasing d.shard.start (k ∷ ks)
    → Checked (length d.shard.peers) reqs (k ∷ ks)
    → key_in_shard (last_key k ks) (d.shard) ≡ true
    → (d' : Delegate) × (ctx' : Context) × (derived : Shard) × (shards : List Shard) × (exec_split
          hooks d ctx reqs
        ≡ done d' ctx' (some (split_done derived shards)))
unfolding exec_split
exec_split-accepts hooks d ctx reqs k ks m i c inside =
    let e = split_keys_accepts (length d.shard.peers) d.shard.start reqs (k ∷ ks) i c in
    let p =
      call_hook (hooks.on_split (derive (d.shard) (length reqs) k).group)
        (derive (d.shard) (length reqs) k)
        (new_shards (derive (d.shard) (length reqs) k) d.shard.end reqs (k ∷ ks)) in
    let (d', ctx', f) = finish_accepts hooks d ctx p (rw m refl) in
    (d', ctx', p.0, p.1, rw (e, inside) f)
