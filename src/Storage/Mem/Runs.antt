-- ===== src/Storage/Mem/Runs.antt =====
-- Batches and any sequence of calls of storage/mem/storage.go, as the same changes of a map.
use matrixcube.Prelude.{
  ℕ, ◌%◌, ◌/◌, none, some, List, [], ◌∷◌, ◌==◌, if◌then◌else◌, length, Bool-cases, inl, inr,
}
use matrixcube.Prelude.Bytes.{Bytes}
use matrixcube.Storage.Wire.{Wire}
use matrixcube.Storage.BTree.{BTree}
use matrixcube.Storage.Kv
use matrixcube.Storage.Kv.Laws.{in_range}
use matrixcube.Storage.Mem
use matrixcube.Storage.Mem.{
  Storage, BatchOp, WriteBatch, op_set, op_delete, new_storage, count_written, set_pairs, get,
  delete_keys, write_op, value_or_empty,
}
use matrixcube.Storage.Mem.Laws.{
  Entries, update, deadline, Holds, set_with_ttl-Holds, set-Holds, storage_delete-Holds,
  delete-Holds, range_delete-Holds,
}

-- the calls that change the content
pub data Call : Type 0 where
  set : (now : ℕ) (key value : Bytes) → Call
  set_with_ttl : (now : ℕ) (key value : Bytes) (ttl : ℕ) → Call
  batch_set : (now : ℕ) (pairs : List Bytes) → Call
  delete : (key : Bytes) → Call
  batch_delete : (keys : List Bytes) → Call
  range_delete : (start end : Bytes) → Call
  remove_shard_data : (start end : Bytes) → Call
  write : (now : ℕ) (wb : WriteBatch) → Call

abbrev pub set_all : List Bytes → Entries → Entries
set_all [] f = f
set_all (key ∷ []) f = f
set_all (key ∷ value ∷ rest) f = set_all rest (update f key (some (value, 0)))

abbrev pub delete_each : List Bytes → Entries → Entries
delete_each [] f = f
delete_each (key ∷ keys) f = delete_each keys (update f key none)

-- an operation of a batch that is neither a write nor a delete does nothing
abbrev pub batch_op : ℕ → BatchOp → Entries → Entries
batch_op now o f =
    if o.op == op_delete
    then update f o.key none
    else if o.op == op_set
    then update f o.key (some (value_or_empty o.value, deadline now o.ttl))
    else f

abbrev pub write_all : ℕ → WriteBatch → Entries → Entries
write_all now [] f = f
write_all now (o ∷ rest) f = write_all now rest (batch_op now o f)

-- the same call on a map
unfoldable pub change : Call → Entries → Entries
change (set now key value) f = update f key (some (value, 0))
change (set_with_ttl now key value ttl) f = update f key (some (value, deadline now ttl))
change (batch_set now pairs) f = if length pairs % 2 == 0 then set_all pairs f else f
change (delete key) f = update f key none
change (batch_delete keys) f = delete_each keys f
change (range_delete start end) f = λ k. if in_range start end k then none else f k
change (remove_shard_data start end) f = λ k. if in_range start end k then none else f k
change (write now wb) f = write_all now wb f

unfoldable pub replay : List Call → Entries → Entries
replay [] f = f
replay (c ∷ cs) f = replay cs (change c f)

module _ (w : Wire) {T : Type 0} (tree : BTree T) where
  unfoldable pub call : Call → Storage T → Storage T
  call (set now key value) s = Mem.set w tree now s key value
  call (set_with_ttl now key value ttl) s = Mem.set_with_ttl w tree now s key value ttl
  call (batch_set now pairs) s = (Mem.batch_set w tree now s pairs).0
  call (delete key) s = Mem.delete w tree s key
  call (batch_delete keys) s = Mem.batch_delete w tree s keys
  call (range_delete start end) s = Mem.range_delete w tree s start end
  call (remove_shard_data start end) s = Mem.remove_shard_data w tree s start end
  call (write now wb) s = Mem.write w tree now s wb

  unfoldable pub run : List Call → Storage T → Storage T
  run [] s = s
  run (c ∷ cs) s = run cs (call c s)

  set_pairs-Holds :
      (now : ℕ) (pairs : List Bytes) (s : Storage T) (f : Entries)
      → Holds w tree s.kv f
      → Holds w tree (set_pairs w tree now s pairs).kv (set_all pairs f)
  unfolding set_pairs
  set_pairs-Holds now [] s f h = h
  set_pairs-Holds now (key ∷ []) s f h = h
  set_pairs-Holds now (key ∷ value ∷ rest) s f h =
      set_pairs-Holds now rest _ (update f key (some (value, 0)))
        (set-Holds w tree now s f key value h)

  delete_keys-Holds :
      (keys : List Bytes) (kv : T) (f : Entries)
      → Holds w tree kv f
      → Holds w tree (delete_keys w tree kv keys) (delete_each keys f)
  unfolding delete_keys
  delete_keys-Holds [] kv f h = h
  delete_keys-Holds (key ∷ keys) kv f h =
      delete_keys-Holds keys ((Kv.delete tree kv key).0) (update f key none)
        (delete-Holds w tree kv f key h)

  write_op-Holds :
      (now : ℕ) (o : BatchOp) (s : Storage T) (f : Entries)
      → Holds w tree s.kv f
      → Holds w tree (write_op w tree now s o).kv (batch_op now o f)
  unfolding write_op
  write_op-Holds now o s f h = elim (Bool-cases (o.op == op_delete)) [
    | inl d ↦ rw (d, write_op) (storage_delete-Holds w tree s f o.key h)
    | inr n ↦ elim (Bool-cases (o.op == op_set)) [
      | inl d ↦
          rw (n, d, write_op)
            (set_with_ttl-Holds w tree now s f o.key (value_or_empty o.value) o.ttl h)
      | inr m ↦ rw (n, m, write_op) h
    ]
  ]

  write-Holds :
      (now : ℕ) (wb : WriteBatch) (s : Storage T) (f : Entries)
      → Holds w tree s.kv f
      → Holds w tree (Mem.write w tree now s wb).kv (write_all now wb f)
  unfolding Mem.write
  write-Holds now [] s f h = h
  write-Holds now (o ∷ rest) s f h =
      write-Holds now rest (write_op w tree now s o) (batch_op now o f) (write_op-Holds now o s f h)

  batch_set-Holds :
      (now : ℕ) (pairs : List Bytes) (s : Storage T) (f : Entries)
      → Holds w tree s.kv f
      → Holds w tree
          ((Mem.batch_set w tree now s pairs).0).kv
          (if length pairs % 2 == 0 then set_all pairs f else f)
  unfolding Mem.batch_set
  batch_set-Holds now pairs s f h = elim (Bool-cases (length pairs % 2 == 0)) [
    | inl e ↦
        rw (e, Mem.batch_set)
          (set_pairs-Holds now pairs (count_written w tree s (length pairs / 2) 0) f h)
    | inr n ↦ rw (n, Mem.batch_set) h
  ]

  pub call-Holds :
      (c : Call) (s : Storage T) (f : Entries)
      → Holds w tree s.kv f
      → Holds w tree (call c s).kv (change c f)
  unfolding call change Mem.batch_delete Mem.remove_shard_data
  call-Holds (set now key value) s f h = set-Holds w tree now s f key value h
  call-Holds (set_with_ttl now key value ttl) s f h =
      set_with_ttl-Holds w tree now s f key value ttl h
  call-Holds (batch_set now pairs) s f h = batch_set-Holds now pairs s f h
  call-Holds (delete key) s f h = storage_delete-Holds w tree s f key h
  call-Holds (batch_delete keys) s f h = delete_keys-Holds keys s.kv f h
  call-Holds (range_delete start end) s f h = range_delete-Holds w tree s f start end h
  call-Holds (remove_shard_data start end) s f h = range_delete-Holds w tree s f start end h
  call-Holds (write now wb) s f h = write-Holds now wb s f h

  pub run-Holds :
      (cs : List Call) (s : Storage T) (f : Entries)
      → Holds w tree s.kv f
      → Holds w tree (run cs s).kv (replay cs f)
  unfolding run replay
  run-Holds [] s f h = h
  run-Holds (c ∷ cs) s f h = run-Holds cs (call c s) (change c f) (call-Holds c s f h)
