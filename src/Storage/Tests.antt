-- ===== src/Storage/Tests.antt =====
-- Runs of the storage on a sorted list, with the encoding of goetty.
mod Trees
use matrixcube.Prelude.{
  ℕ, ◌≡◌, refl, Bool, true, false, Option, none, some, List, [], ◌∷◌, ltb, ◌==◌, length, All, ◌*◌,
  ◌≤◌, arith,
}
use matrixcube.Prelude.Bytes.{Bytes, bytes_eq, bytes_lt}
use matrixcube.Prelude.Words.{add64, lt64}
use matrixcube.Prelude.BigEndian.{put_bytes, put_uint64, uint64, value_from}
use matrixcube.Meta.{Shard, voter}
use matrixcube.Storage.Wire.{Wire}
use matrixcube.Storage.BTree.{TreeItem, BTree, lookup, IsAscending}
use matrixcube.Storage.BTree.Sorted
use matrixcube.Storage.BTree.Sorted.{Sorted, sorted}
use matrixcube.Storage.Kv.{new_kv_tree, put, range_items, take_while}
use matrixcube.Storage.Keys.{
  get_meta_key, decode_meta_key, ok, get_raft_log_key, get_raft_log_index, encode_data_key,
  enc_start_key, enc_end_key, get_data_end_key,
}
use matrixcube.Storage.Keys.Laws.{
  decode_meta_key-get_meta_key, get_raft_log_index-get_raft_log_key, get_raft_log_key-lt,
  enc_start_key-enc_end_key,
}
use matrixcube.Storage.Mem
use matrixcube.Storage.Mem.{
  encode_value, set_with_ttl, Storage, new_storage, get, decode_value, BatchOp, WriteBatch,
  batch_set_with_ttl, batch_delete_op, split_check, storage_scan, remove_shard_data, BatchError,
}
use matrixcube.Storage.Mem.Laws.{Entries, update, Holds, new-Holds}
use matrixcube.Storage.Mem.Runs.{Call, call, run, replay, change, run-Holds}
use matrixcube.Storage.Snapshot.Runs.{
  History, fresh, called, restored, entries_of, storage_of, Fits, get-storage_of,
}
use matrixcube.Storage.Mem.Shards.{get-remove_shard_data}
use matrixcube.Storage.Mem.Scans.{collect, lookup-storage_scan, handed}
use matrixcube.Storage.Mem.Pieces.{IsCut, sizes}
use matrixcube.Storage.Mem.Split.{split_check-total}
use matrixcube.Storage.Snapshot.{create_snapshot, apply_snapshot, applied}
use matrixcube.Storage.Snapshot.Laws.{apply_snapshot-create_snapshot}

unfoldable pub goetty : Wire
goetty = record {
  write_int64 = λ n. put_uint64 n;
  write_uint64 = λ n. put_uint64 n;
  int64_to_bytes = λ n. put_uint64 n;
  byte2int64 = λ bs. uint64 bs;
  write_int64_lem = λ n. refl;
  write_uint64_lem = λ n. refl;
  int64_to_bytes_lem = λ n. refl;
  byte2int64_lem = λ bs. refl;
}

abbrev pub key : ℕ → Bytes
key b = b ∷ []

-- a batch that writes one key for three seconds and deletes another
abbrev batch : WriteBatch
batch =
    record { op = 0; key = key 2; value = some (7 ∷ []); ttl = 3 }
    ∷ record { op = 1; key = key 1; value = none; ttl = 0 }
    ∷ []

abbrev calls : List Call
calls =
    Call.set 10 (key 1) (5 ∷ [])
    ∷ Call.set 10 (key 4) (6 ∷ [])
    ∷ Call.write 10 batch
    ∷ Call.range_delete (key 3) (key 4)
    ∷ []

stored : Storage Sorted
stored = run goetty sorted calls (new_storage goetty sorted)

-- a new storage into which the first key is restored, after which the second is set
abbrev restored_history : History
restored_history =
    called (Call.set_with_ttl 10 (key 2) (7 ∷ []) 3)
      (restored (called (Call.set 10 (key 1) (5 ∷ [])) fresh) fresh (key 1) (key 2))

fits : Fits goetty sorted restored_history
unfolding storage_of call Mem.set set_with_ttl encode_value sorted new_storage new_kv_tree put
    range_items take_while bytes_lt bytes_eq Sorted.insert Sorted.from put_bytes goetty
fits = (
  tt,
  tt,
  (omega arith, omega arith),
  (omega arith, omega arith),
  (((omega arith, omega arith), (omega arith, omega arith)), tt),
)

get-storage_of_example :
    get goetty sorted 12 (storage_of goetty sorted restored_history) (key 1) ≡ some (5 ∷ [])
unfolding storage_of entries_of change bytes_lt bytes_eq add64 lt64
get-storage_of_example = get-storage_of goetty sorted restored_history 12 (key 1) fits

-- at its deadline it can be read, and a second later it cannot
expired : get goetty sorted 14 (storage_of goetty sorted restored_history) (key 2) ≡ none
unfolding storage_of entries_of change bytes_lt bytes_eq add64 lt64
expired = get-storage_of goetty sorted restored_history 14 (key 2) fits

decode_meta_key-get_meta_key_example : decode_meta_key (get_meta_key goetty 258 1) ≡ ok (258, 1)
decode_meta_key-get_meta_key_example = decode_meta_key-get_meta_key goetty 258 1 (omega arith)

get_raft_log_key-lt_example :
    bytes_lt (get_raft_log_key goetty 3 255) (get_raft_log_key goetty 3 256) ≡ true
get_raft_log_key-lt_example =
    get_raft_log_key-lt goetty 3 3 255 256 (omega arith) (omega arith) (omega arith) (omega arith)

abbrev pub shard : Shard
shard = record {
  id = 7;
  start = key 2;
  end = key 9;
  epoch = record { conf_ver = 4; version = 2 };
  state = 0;
  peers = record { id = 1; container_id = 1; role = voter } ∷ [];
  disable_split = false;
  group = 3;
  unique = "";
  rule_groups = [];
  payload = [];
}

abbrev start_key : Bytes
start_key = b'z' ∷ 0 ∷ 0 ∷ 0 ∷ 0 ∷ 0 ∷ 0 ∷ 0 ∷ 3 ∷ 2 ∷ []

abbrev end_key : Bytes
end_key = b'z' ∷ 0 ∷ 0 ∷ 0 ∷ 0 ∷ 0 ∷ 0 ∷ 0 ∷ 3 ∷ 9 ∷ []

-- a key in the range of the shard is removed
get-remove_shard_data_example :
    get goetty sorted 12
      (remove_shard_data goetty sorted stored start_key end_key)
      (encode_data_key goetty 3 (key 5))
    ≡ none
unfolding enc_start_key encode_data_key goetty put_bytes enc_end_key get_data_end_key bytes_lt
get-remove_shard_data_example =
    get-remove_shard_data goetty sorted 12 stored shard start_key end_key 3 (key 5) (omega arith)
      (omega arith) refl refl

abbrev map_of_calls : Entries
map_of_calls = replay calls (λ _. none)

lookup-storage_scan_example :
    IsAscending (storage_scan goetty sorted {E = BatchError} 12 collect stored (key 1) (key 3) []).0
    × (lookup
          (key 2)
          ((storage_scan goetty sorted {E = BatchError} 12 collect stored (key 1) (key 3) []).0)
        ≡ some (7 ∷ []))
unfolding new_storage sorted new_kv_tree stored run bytes_lt replay change bytes_eq add64 lt64
lookup-storage_scan_example =
    lookup-storage_scan goetty 12 sorted BatchError stored map_of_calls (key 1) (key 3) (key 2) (
      run-Holds goetty sorted calls (new_storage goetty sorted) (λ _. none)
        (new-Holds goetty sorted))

abbrev item : ℕ → ℕ → TreeItem
item k v = record { key = key k; value = 0 ∷ 0 ∷ 0 ∷ 0 ∷ 0 ∷ 0 ∷ 0 ∷ 0 ∷ v ∷ [] }

-- two keys that never expire
small : Storage Sorted
unfolding bytes_lt
small = record {
  kv = (item 1 5 ∷ item 2 6 ∷ [], ((refl, tt), (tt, tt)));
  written_keys = 0;
  written_bytes = 0;
  sync_count = 0;
}

split_check-total_example :
    ((split_check goetty sorted 12 small (key 1) (key 9) 2).total ≡ 4)
    × ((split_check goetty sorted 12 small (key 1) (key 9) 2).keys ≡ 2)
    × IsCut 2
        (handed goetty 12 (range_items sorted small.kv (key 1) (key 9)))
        (split_check goetty sorted 12 small (key 1) (key 9) 2)
    × (length (split_check goetty sorted 12 small (key 1) (key 9) 2).split_keys * 2
        ≤ (split_check goetty sorted 12 small (key 1) (key 9) 2).total)
unfolding small sorted range_items take_while bytes_lt Sorted.from goetty decode_value uint64
    value_from
split_check-total_example = split_check-total goetty sorted 12 small (key 1) (key 9) 2 (omega arith)

apply_snapshot-create_snapshot_example :
    ((apply_snapshot goetty sorted
        (create_snapshot goetty sorted small (key 1) (key 3))
        (new_storage goetty sorted)).1
      ≡ applied)
    × (sorted.find
          (apply_snapshot goetty sorted
            (create_snapshot goetty sorted small (key 1) (key 3))
            (new_storage goetty sorted)).0.kv
          (key 2)
        ≡ some (0 ∷ 0 ∷ 0 ∷ 0 ∷ 0 ∷ 0 ∷ 0 ∷ 0 ∷ 6 ∷ []))
unfolding small sorted range_items take_while bytes_lt Sorted.from lookup bytes_eq
apply_snapshot-create_snapshot_example =
    apply_snapshot-create_snapshot goetty sorted small (new_storage goetty sorted) (key 1) (key 3)
      (key 2) (omega arith, omega arith) (omega arith, omega arith)
      (
        ((omega arith, omega arith), (omega arith, omega arith)),
        (((omega arith, omega arith), (omega arith, omega arith)), tt),
      )
