-- ===== src/Storage/Keys.antt =====
-- raftstore/keys.go: the keys under which a store keeps its metadata, its raft logs and the data of
-- its shards. The pooled buffer that each function acquires and releases is local to it.
pub mod Laws
use matrixcube.Prelude.{
  ltb, ℕ, suc, ◌+◌, Bool, true, false, ◌&&◌, Option, none, some, List, [], ◌∷◌, ◌++◌, ◌==◌,
  if◌then◌else◌, length, drop, get_or,
}
use matrixcube.Prelude.Bytes.{Bytes, has_prefix}
use matrixcube.Prelude.Words.{add64}
use matrixcube.Prelude.BigEndian.{uint64}
use matrixcube.Meta.{Shard}
use matrixcube.Storage.Wire.{Wire}

-- the suffixes and prefixes
abbrev pub state_suffix : ℕ
state_suffix = 1

abbrev pub raft_log_suffix : ℕ
raft_log_suffix = 1

abbrev pub raft_state_suffix : ℕ
raft_state_suffix = 2

abbrev pub apply_state_suffix : ℕ
apply_state_suffix = 3

abbrev pub local_prefix : ℕ
local_prefix = 1

abbrev pub data_prefix : ℕ
data_prefix = b'z'

abbrev pub data_prefix_key : Bytes
data_prefix_key = data_prefix ∷ []

abbrev pub data_prefix_size : ℕ
data_prefix_size = length data_prefix_key + 8

abbrev pub store_ident_key : Bytes
store_ident_key = local_prefix ∷ 1 ∷ []

abbrev pub raft_prefix_key : Bytes
raft_prefix_key = local_prefix ∷ 2 ∷ []

abbrev pub meta_prefix_key : Bytes
meta_prefix_key = local_prefix ∷ 3 ∷ []

abbrev pub meta_min_key : Bytes
meta_min_key = local_prefix ∷ 3 ∷ []

abbrev pub meta_max_key : Bytes
meta_max_key = local_prefix ∷ 4 ∷ []

pub data KeyError : Type 0 where
  invalid_length invalid_prefix : KeyError

pub data KeyResult (A : Type 0) : Type 0 where
  ok : A → KeyResult A
  err : KeyError → KeyResult A

unfoldable pub decode_meta_key : Bytes → KeyResult (ℕ × ℕ)
decode_meta_key key =
    if length meta_prefix_key + 9 == length key
    then (if has_prefix key meta_prefix_key
        then ok (uint64 (drop (length meta_prefix_key) key), get_or (drop 10 key) 0 0)
        else err invalid_prefix)
    else err invalid_length

unfoldable pub get_raft_log_index : Bytes → KeyResult ℕ
get_raft_log_index key = if length key == 19 then ok (uint64 (drop 11 key)) else err invalid_length

-- `key[DataPrefixSize:]`, which panics on a shorter key
unfoldable pub decode_data_key : Bytes → Option Bytes
decode_data_key key =
    if ltb (length key) data_prefix_size then none else some (drop data_prefix_size key)

module _ (w : Wire) where
  unfoldable pub get_meta_key : ℕ → ℕ → Bytes
  get_meta_key shard_id suffix = meta_prefix_key ++ (w.write_int64 shard_id ++ (suffix ∷ []))

  unfoldable pub get_meta_prefix : ℕ → Bytes
  get_meta_prefix shard_id = meta_prefix_key ++ w.write_int64 shard_id

  unfoldable pub get_id_key : ℕ → ℕ → ℕ → ℕ → Bytes
  get_id_key shard_id suffix extra_cap extra =
      raft_prefix_key
      ++ (w.write_int64 shard_id ++ (suffix ∷ (if extra_cap == 0 then [] else w.write_int64 extra)))

  unfoldable pub get_shard_locale_state_key : ℕ → Bytes
  get_shard_locale_state_key shard_id = get_meta_key shard_id state_suffix

  unfoldable pub get_raft_local_state_key : ℕ → Bytes
  get_raft_local_state_key shard_id = get_id_key shard_id raft_state_suffix 0 0

  unfoldable pub get_raft_apply_state_key : ℕ → Bytes
  get_raft_apply_state_key shard_id = get_id_key shard_id apply_state_suffix 0 0

  unfoldable pub get_raft_prefix : ℕ → Bytes
  get_raft_prefix shard_id = raft_prefix_key ++ w.write_int64 shard_id

  unfoldable pub get_raft_log_key : ℕ → ℕ → Bytes
  get_raft_log_key shard_id log_index = get_id_key shard_id raft_log_suffix 8 log_index

  -- `getDataKey0`, which appends the key when it is not empty
  unfoldable pub encode_data_key : ℕ → Bytes → Bytes
  encode_data_key group key = data_prefix_key ++ (w.write_uint64 group ++ key)

  unfoldable pub get_data_max_key : ℕ → Bytes
  get_data_max_key group = data_prefix ∷ w.write_uint64 (add64 group 1)

  unfoldable pub get_data_end_key : ℕ → Bytes → Bytes
  get_data_end_key group end_key =
      if length end_key == 0 then get_data_max_key group else encode_data_key group end_key

  -- a shard without peers stops the program, which is `none`
  unfoldable pub enc_start_key : Shard → Option Bytes
  enc_start_key shard =
      if length shard.peers == 0 then none else some (encode_data_key shard.group shard.start)

  unfoldable pub enc_end_key : Shard → Option Bytes
  enc_end_key shard =
      if length shard.peers == 0 then none else some (get_data_end_key shard.group shard.end)
