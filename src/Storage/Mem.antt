-- ===== src/Storage/Mem.antt =====
-- storage/mem/storage.go and the write batch of util/write_batch.go. The clock `time.Now().Unix()`
-- is read once in each call, and is the argument `now`. The counters of the statistics that no
-- method writes are left out. Snapshot files are in Storage/Snapshot.antt.
pub mod Laws
pub mod Runs
pub mod Split
pub mod Pieces
pub mod Scans
pub mod Shards
use matrixcube.Prelude.{
  ℕ, suc, ◌+◌, ◌/◌, ◌%◌, Bool, true, false, not, ◌&&◌, Option, none, some, List, [], ◌∷◌, ◌++◌, ltb,
  leb, ◌==◌, if◌then◌else◌, length, drop,
}
use matrixcube.Prelude.Bytes.{Bytes}
use matrixcube.Prelude.Words.{add64, lt64}
use matrixcube.Storage.Wire.{Wire}
use matrixcube.Storage.BTree.{TreeItem, BTree}
use matrixcube.Storage.Kv
use matrixcube.Storage.Kv.{Answer, go_on, stop, failed, new_kv_tree, scan, prefix_scan}

pub record Storage (T : Type 0) : Type 0 where
  pub kv : T
  pub written_keys : ℕ
  pub written_bytes : ℕ
  pub sync_count : ℕ

-- the test `ttl > 0` on a 32-bit pattern
abbrev pub is_positive : ℕ → Bool
is_positive ttl = ltb 0 ttl && ltb ttl 2147483648

-- a nil slice is `none`
abbrev pub is_empty : Option Bytes → Bool
is_empty none = true
is_empty (some bs) = length bs == 0

-- util/write_batch.go: the entries of the four slices at one index
pub record BatchOp : Type 0 where
  pub op : ℕ
  pub key : Bytes
  pub value : Option Bytes
  pub ttl : ℕ

abbrev pub op_set : ℕ
op_set = 0

abbrev pub op_delete : ℕ
op_delete = 1

abbrev pub WriteBatch : Type 0
WriteBatch = List BatchOp

unfoldable pub batch_delete_op : WriteBatch → Bytes → WriteBatch
batch_delete_op wb key = wb ++ (record { op = op_delete; key = key; value = none; ttl = 0 } ∷ [])

unfoldable pub batch_set_with_ttl : WriteBatch → Bytes → Bytes → ℕ → WriteBatch
batch_set_with_ttl wb key value ttl =
    wb ++ (record { op = op_set; key = key; value = some value; ttl = ttl } ∷ [])

unfoldable pub batch_set_op : WriteBatch → Bytes → Bytes → WriteBatch
batch_set_op wb key value = batch_set_with_ttl wb key value 0

unfoldable pub batch_reset : WriteBatch → WriteBatch
batch_reset wb = []

pub data BatchError : Type 0 where
  invalid_args_len : ℕ → BatchError

abbrev pub value_or_empty : Option Bytes → Bytes
value_or_empty none = []
value_or_empty (some value) = value

-- the sum of the lengths
unfoldable pub total_length : List Bytes → ℕ
total_length [] = 0
total_length (key ∷ keys) = length key + total_length keys

module _ (w : Wire) where
  unfoldable pub encode_value : Bytes → ℕ → Bytes
  encode_value value expire_at = w.int64_to_bytes expire_at ++ value

  -- Only what `encode_value` made is stored, so `value[8:]` is in bounds.
  unfoldable pub decode_value : ℕ → Option Bytes → Option Bytes
  decode_value now none = none
  decode_value now (some raw) =
      let expire_at = w.byte2int64 raw in
      if length raw == 0
      then none
      else if not (expire_at == 0) && lt64 expire_at now
      then none
      else some (drop 8 raw)

  -- the handler that the scans of the storage give to those of the tree
  module _ {S E : Type 0} (now : ℕ) (handler : Bytes → Bytes → S → S × Answer E) where
    abbrev pub handle_live : Bytes → Option Bytes → S → S × Answer E
    handle_live key none s = (s, go_on)
    handle_live key (some value) s = if length value == 0 then (s, go_on) else handler key value s

    unfoldable pub live : Bytes → Bytes → S → S × Answer E
    live key raw s = handle_live key (decode_value now (some raw)) s

  module _ {T : Type 0} (tree : BTree T) where
    unfoldable pub new_storage : Storage T
    new_storage = record {
      kv = new_kv_tree tree;
      written_keys = 0;
      written_bytes = 0;
      sync_count = 0;
    }

    abbrev pub count_written : Storage T → ℕ → ℕ → Storage T
    count_written s keys bytes = record s {
      written_keys = add64 s.written_keys keys;
      written_bytes = add64 s.written_bytes bytes;
    }

    unfoldable pub set_with_ttl : ℕ → Storage T → Bytes → Bytes → ℕ → Storage T
    set_with_ttl now s key value ttl =
        let expire_at = if is_positive ttl then add64 now ttl else 0 in
        let c = count_written s 1 (length value + length key) in
        record c { kv = Kv.put tree c.kv key (encode_value value expire_at) }

    unfoldable pub set : ℕ → Storage T → Bytes → Bytes → Storage T
    set now s key value =
        set_with_ttl now (count_written s 1 (length value + length key)) key value 0

    -- the loop of `BatchSet` over the pairs
    unfoldable pub set_pairs : ℕ → Storage T → List Bytes → Storage T
    set_pairs now s [] = s
    set_pairs now s (key ∷ []) = s
    set_pairs now s (key ∷ value ∷ rest) =
        set_pairs now (count_written (set now s key value) 0 (length key + length value)) rest

    unfoldable pub batch_set : ℕ → Storage T → List Bytes → Storage T × Option BatchError
    batch_set now s pairs =
        if length pairs % 2 == 0
        then (set_pairs now (count_written s (length pairs / 2) 0) pairs, none)
        else (s, some (invalid_args_len (length pairs)))

    unfoldable pub get : ℕ → Storage T → Bytes → Option Bytes
    get now s key = decode_value now (Kv.get tree s.kv key)

    unfoldable pub mget : ℕ → Storage T → List Bytes → List (Option Bytes)
    mget now s [] = []
    mget now s (key ∷ keys) = get now s key ∷ mget now s keys

    unfoldable pub delete : Storage T → Bytes → Storage T
    delete s key =
        let c = count_written s 1 (length key) in record c { kv = (Kv.delete tree c.kv key).0 }

    -- the loop of `BatchDelete`
    unfoldable pub delete_keys : T → List Bytes → T
    delete_keys kv [] = kv
    delete_keys kv (key ∷ keys) = delete_keys ((Kv.delete tree kv key).0) keys

    unfoldable pub batch_delete : Storage T → List Bytes → Storage T
    batch_delete s keys =
        count_written (record s { kv = delete_keys s.kv keys }) (length keys) (total_length keys)

    unfoldable pub range_delete : Storage T → Bytes → Bytes → Storage T
    range_delete s start end =
        let c = count_written s 2 (length start + length end) in
        record c { kv = Kv.range_delete tree c.kv start end }

    -- `RemoveShardData`, which does not read the shard
    unfoldable pub remove_shard_data : Storage T → Bytes → Bytes → Storage T
    remove_shard_data s encoded_start_key encoded_end_key =
        range_delete s encoded_start_key encoded_end_key

    -- the key that was found and its value, which may have expired
    unfoldable pub seek : ℕ → Storage T → Bytes → Option (Bytes × Option Bytes)
    seek now s key = elim (Kv.seek tree s.kv key) [
      | none ↦ none
      | some x ↦ some (x.key, decode_value now (some x.value))
    ]

    unfoldable pub sync : Storage T → Storage T
    sync s = record s { sync_count = add64 s.sync_count 1 }

    unfoldable pub write_op : ℕ → Storage T → BatchOp → Storage T
    write_op now s o =
        if o.op == op_delete
        then delete s o.key
        else if o.op == op_set
        then set_with_ttl now s o.key (value_or_empty o.value) o.ttl
        else s

    unfoldable pub write : ℕ → Storage T → WriteBatch → Storage T
    write now s [] = s
    write now s (o ∷ rest) = write now (write_op now s o) rest

    module _ {S E : Type 0} (now : ℕ) (handler : Bytes → Bytes → S → S × Answer E) where
      unfoldable pub storage_scan : Storage T → Bytes → Bytes → S → S × Option E
      storage_scan s start end st = scan tree (live now handler) s.kv start end st

      unfoldable pub storage_prefix_scan : Storage T → Bytes → S → S × Option E
      storage_prefix_scan s prefix st = prefix_scan tree (live now handler) s.kv prefix st

-- the variables of `SplitCheck`
pub record SplitState : Type 0 where
  pub total : ℕ
  pub keys : ℕ
  pub sum : ℕ
  pub append_split_key : Bool
  pub split_keys : List Bytes

abbrev pub split_start : SplitState
split_start = record { total = 0; keys = 0; sum = 0; append_split_key = false; split_keys = [] }

-- the key that ends a piece
abbrev pub append_key : Bytes → SplitState → SplitState
append_key key st =
    if st.append_split_key
    then record st { split_keys = st.split_keys ++ (key ∷ []); append_split_key = false; sum = 0 }
    else st

-- the handler of `SplitCheck`, after its test of the value
unfoldable pub split_step : ℕ → Bytes → Bytes → SplitState → SplitState
split_step size key value st =
    let a = append_key key st in
    let n = length key + length value in
    let sum = add64 a.sum n in
    record a {
      total = add64 a.total n;
      sum = sum;
      keys = add64 a.keys 1;
      append_split_key = if leb size sum then true else a.append_split_key;
    }

module _ (w : Wire) {T : Type 0} (tree : BTree T) where
  -- the total, the keys and the split keys are the results
  unfoldable pub split_check : ℕ → Storage T → Bytes → Bytes → ℕ → SplitState
  split_check now s start end size =
      (scan tree {E = BatchError}
        (live w now (λ key value st. (split_step size key value st, go_on))) s.kv start end
        split_start).0
