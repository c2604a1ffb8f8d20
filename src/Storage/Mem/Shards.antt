-- ===== src/Storage/Mem/Shards.antt =====
-- `RemoveShardData` of storage/mem/storage.go with the keys of raftstore/keys.go.
use matrixcube.Prelude.{
  ℕ, ◌+◌, ◌<◌, ◌≡◌, ◌∙◌, refl, ap, Bool, true, false, ◌&&◌, ◌||◌, Option, none, some, ◌==◌,
  if◌then◌else◌, length,
}
use matrixcube.Prelude.Bytes.{Bytes, bytes_lt, bytes_le}
use matrixcube.Prelude.Words.{word}
use matrixcube.Meta.{Shard}
use matrixcube.Storage.Wire.{Wire}
use matrixcube.Storage.BTree.{BTree}
use matrixcube.Storage.Kv.Laws.{get-find, find-range_delete, in_range}
use matrixcube.Storage.Keys.{encode_data_key, enc_start_key, enc_end_key}
use matrixcube.Storage.Keys.Laws.{enc_start_key-enc_end_key}
use matrixcube.Storage.Kv
use matrixcube.Storage.Mem.{Storage, decode_value, get, range_delete, remove_shard_data}

decoded-if :
    (w : Wire) (now : ℕ) (b : Bool) (o : Option Bytes)
    → decode_value w now (if b then none else o) ≡ (if b then none else decode_value w now o)
unfolding decode_value
decoded-if w now true o = refl
decoded-if w now false o = refl

module _ (w : Wire) {T : Type 0} (tree : BTree T) where
  -- Removing the data of a shard with peers, between its encoded start and end keys, removes the
  -- keys of its group that are in its range, where an empty end is no limit, and leaves every other
  -- data key as it was. The group of the shard is not the highest 64-bit number.
  pub get-remove_shard_data :
      (now : ℕ) (s : Storage T) (shard : Shard) (start end : Bytes) (g : ℕ) (key : Bytes)
      → g < word
      → shard.group + 1 < word
      → enc_start_key w shard ≡ some start
      → enc_end_key w shard ≡ some end
      → get w tree now (remove_shard_data w tree s start end) (encode_data_key w g key) ≡ (
          if g == shard.group
            && (bytes_le shard.start key && (length shard.end == 0 || bytes_lt key shard.end))
          then none
          else get w tree now s (encode_data_key w g key))
  unfolding get remove_shard_data range_delete
  get-remove_shard_data now s shard start end g key i j p q =
      let k = encode_data_key w g key in
      ap (decode_value w now) (
        get-find tree (Kv.range_delete tree s.kv start end) k
        ∙ find-range_delete tree s.kv start end k)
      ∙ (decoded-if w now (in_range start end k) (tree.find s.kv k)
          ∙ rw (enc_start_key-enc_end_key w shard g key start end i j p q)
              (rw (get-find tree s.kv k) refl))
