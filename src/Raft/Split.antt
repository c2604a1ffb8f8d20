-- ===== src/Raft/Split.antt =====
-- raftstore/peer_apply_exec.go: `doExecSplit`, the split of a shard at one or more keys. The hook
-- of the configuration that is told of the split, and may change the shards, is a parameter, and
-- so is the function that moves the data. The counters of the metrics are left out.
pub mod Queue
pub mod Done
pub mod Ranges
pub mod Shape
pub mod Accepts
use matrixcube.Prelude.{
  ℕ, zero, suc, Bool, true, false, not, ◌&&◌, ◌||◌, Option, none, some, List, [], ◌∷◌, ◌++◌, ltb,
  ◌==◌, length, drop, if◌then◌else◌,
}
use matrixcube.Prelude.Bytes.{Bytes, bytes_lt, bytes_le}
use matrixcube.Prelude.Words.{add64}
use matrixcube.Meta.{Peer, voter, Shard}
use matrixcube.Storage.Keys.{decode_data_key}
use matrixcube.Raft.Shards.{key_in_shard}
use matrixcube.Raft.Delegate.{
  Delegate, Context, AdminResult, split_done, ApplyError, missing_splits, missing_split_key,
  invalid_split_key, invalid_peer_ids, Exec, done, failed, fatal, normal, Write, peer_state,
  initial_state, write,
}

pub record SplitRequest : Type 0 where
  pub split_key : Bytes
  pub new_shard_id : ℕ
  pub new_peer_ids : List ℕ

-- The first loop: the queue of the decoded keys, or what it returns early.
pub data Keys : Type 0 where
  keys : List Bytes → Keys
  bad : ApplyError → Keys
  panics : Keys

abbrev pub push_front : Bytes → Keys → Keys
push_front k (keys ks) = keys (k ∷ ks)
push_front k (bad e) = bad e
push_front k panics = panics

-- the tests of one round; `prev` is the last key in the queue, or the start of the shard
abbrev pub check_request : ℕ → Bytes → SplitRequest → Option Bytes → (Bytes → Keys) → Keys
check_request peers prev req none next = panics
check_request peers prev req (some key) next =
    if bytes_le key prev
    then bad invalid_split_key
    else if not (length req.new_peer_ids == peers)
    then bad invalid_peer_ids
    else push_front key (next key)

unfoldable pub split_keys : ℕ → Bytes → List SplitRequest → Keys
split_keys peers prev [] = keys []
split_keys peers prev (req ∷ rest) =
    let next = λ (key : Bytes). split_keys peers key rest in
    if length req.split_key == 0
    then bad missing_split_key
    else check_request peers prev req (decode_data_key req.split_key) next

-- `keys.MustBack()`
abbrev pub last_key : Bytes → List Bytes → Bytes
last_key k [] = k
last_key k (k' ∷ ks) = last_key k' ks

-- the peers of a new shard: the containers of the old peers, with new ids, and the zero role
unfoldable pub new_peers : List ℕ → List Peer → List Peer
new_peers (i ∷ ids) (p ∷ ps) =
    record { id = i; container_id = p.container_id; role = voter } ∷ new_peers ids ps
new_peers ids ps = []

unfoldable pub new_shard : Shard → SplitRequest → Bytes → Bytes → Shard
new_shard derived req start end = record {
  id = req.new_shard_id;
  start = start;
  end = end;
  epoch = derived.epoch;
  state = 0;
  peers = new_peers req.new_peer_ids derived.peers;
  disable_split = derived.disable_split;
  group = derived.group;
  unique = derived.unique;
  rule_groups = derived.rule_groups;
  payload = [];
}

-- the second loop; the last key of the queue is followed by `end`, the end of the old shard
unfoldable pub new_shards : Shard → Bytes → List SplitRequest → List Bytes → List Shard
new_shards derived end [] ks = []
new_shards derived end (req ∷ reqs) [] = []
new_shards derived end (req ∷ reqs) (k ∷ []) =
    new_shard derived req k end ∷ new_shards derived end reqs []
new_shards derived end (req ∷ reqs) (k ∷ k' ∷ ks) =
    new_shard derived req k k' ∷ new_shards derived end reqs (k' ∷ ks)

-- the shard that keeps the id: the range up to the first key, and a higher version
unfoldable pub derive : Shard → ℕ → Bytes → Shard
derive shard count end = record shard {
  end = end;
  epoch = record (shard.epoch) { version = add64 shard.epoch.version count };
}

abbrev pub write_shards : List Shard → Context → Context
write_shards [] ctx = ctx
write_shards (s ∷ rest) ctx =
    write_shards rest (write (write ctx (peer_state s normal)) (initial_state s.id))

-- `CustomSplitCompletedFuncFactory` and `DataMoveFunc`
pub record Hooks : Type 0 where
  pub on_split : ℕ → Option (Shard → List Shard → Shard × List Shard)
  pub move_data : Option (Shard → List Shard → Bool)

abbrev pub call_hook :
    Option (Shard → List Shard → Shard × List Shard) → Shard → List Shard → Shard × List Shard
call_hook none derived shards = (derived, shards)
call_hook (some fn) derived shards = fn derived shards

abbrev pub data_moved : Option (Shard → List Shard → Bool) → Shard → List Shard → Bool
data_moved none derived shards = true
data_moved (some fn) derived shards = fn derived shards

abbrev pub finish_split : Hooks → Delegate → Context → Shard × List Shard → Exec
finish_split hooks d ctx (derived, shards) =
    if data_moved hooks.move_data derived shards
    then done (record d { shard = derived })
        (write_shards shards (write ctx (peer_state derived normal)))
        (some (split_done derived shards))
    else fatal

-- behind the first loop
abbrev pub split_at : Hooks → Delegate → Context → List SplitRequest → Keys → Exec
split_at hooks d ctx reqs (bad e) = failed e d ctx
split_at hooks d ctx reqs panics = fatal
split_at hooks d ctx reqs (keys []) = failed missing_splits d ctx
split_at hooks d ctx reqs (keys (k ∷ ks)) =
    if key_in_shard (last_key k ks) (d.shard)
    then (let derived = derive (d.shard) (length reqs) k in
        finish_split hooks d ctx (
          call_hook (hooks.on_split derived.group) derived
            (new_shards derived d.shard.end reqs (k ∷ ks))))
    else done d ctx none

unfoldable pub exec_split : Hooks → Delegate → Context → List SplitRequest → Exec
exec_split hooks d ctx reqs =
    split_at hooks d ctx reqs (split_keys (length d.shard.peers) d.shard.start reqs)
