-- ===== src/Raft/Tests/Splits.antt =====
-- A run of a split at two keys.
use matrixcube.Prelude.{some, ℕ, ◌≡◌, refl, none, List, [], ◌∷◌, count_if}
use matrixcube.Prelude.Bytes.{Bytes, bytes_lt}
use matrixcube.Prelude.Words.{add64}
use matrixcube.Meta.{Shard, voter}
use matrixcube.Raft.Shards.{key_in_shard}
use matrixcube.Raft.Delegate.{
  split_done, done, Delegate, Context, peer_state, initial_state, normal,
}
use matrixcube.Storage.Keys.{decode_data_key}
use matrixcube.Raft.Split.{
  SplitRequest, Hooks, split_keys, new_peers, new_shard, new_shards, derive, exec_split,
}
use matrixcube.Raft.Split.Ranges.{one_if, exec_split-partition}
use matrixcube.Raft.Split.Accepts.{exec_split-accepts}
use matrixcube.Raft.Split.Shape.{IsSplit, exec_split-IsSplit}
use matrixcube.Raft.Tests.{shard, delegate, context}

abbrev hooks : Hooks
hooks = record { on_split = λ group. none; move_data = none }

-- the data key of the one byte `b`
abbrev data_key : ℕ → Bytes
data_key b = 2 ∷ 0 ∷ 0 ∷ 0 ∷ 0 ∷ 0 ∷ 0 ∷ 0 ∷ 0 ∷ b ∷ []

abbrev split_request : ℕ → ℕ → SplitRequest
split_request b id = record {
  split_key = data_key b;
  new_shard_id = id;
  new_peer_ids = 31 ∷ 32 ∷ 33 ∷ [];
}

abbrev requests : List SplitRequest
requests = split_request 20 8 ∷ split_request 30 9 ∷ []

abbrev derived : Shard
derived = record shard { end = 20 ∷ []; epoch = record { conf_ver = 4; version = 4 } }

abbrev sibling : ℕ → Bytes → Bytes → Shard
sibling id start end = record derived {
  id = id;
  start = start;
  end = end;
  peers =
      record { id = 31; container_id = 1; role = voter }
      ∷ record { id = 32; container_id = 2; role = voter }
      ∷ record { id = 33; container_id = 3; role = voter }
      ∷ [];
}

abbrev siblings : List Shard
siblings = sibling 8 (20 ∷ []) (30 ∷ []) ∷ sibling 9 (30 ∷ []) [] ∷ []

abbrev after : Delegate
after = record delegate { shard = derived }

abbrev written : Context
written = record context {
  raft_wb =
      peer_state derived normal
      ∷ peer_state (sibling 8 (20 ∷ []) (30 ∷ [])) normal
      ∷ initial_state 8
      ∷ peer_state (sibling 9 (30 ∷ []) []) normal
      ∷ initial_state 9
      ∷ [];
}

exec_split-partition_example :
    (derived ≡ derived)
    × ((key : Bytes)
        → count_if (key_in_shard key) (derived ∷ siblings) ≡ one_if (key_in_shard key shard))
unfolding exec_split split_keys decode_data_key bytes_lt derive new_shards new_shard new_peers
    key_in_shard add64
exec_split-partition_example =
    exec_split-partition hooks delegate after context written requests derived siblings refl refl

exec_split-IsSplit_example : IsSplit shard derived siblings requests
unfolding exec_split split_keys decode_data_key bytes_lt derive new_shards new_shard new_peers
    key_in_shard add64
exec_split-IsSplit_example =
    exec_split-IsSplit hooks delegate after context written requests derived siblings refl refl

exec_split-accepts_example :
    (d' : Delegate) × (ctx' : Context) × (s : Shard) × (shards : List Shard) × (exec_split hooks
        delegate context requests
      ≡ done d' ctx' (some (split_done s shards)))
unfolding bytes_lt decode_data_key key_in_shard
exec_split-accepts_example =
    exec_split-accepts hooks delegate context requests (20 ∷ []) ((30 ∷ []) ∷ []) refl
      (refl, (refl, tt)) (refl, refl, (refl, refl, tt)) refl
