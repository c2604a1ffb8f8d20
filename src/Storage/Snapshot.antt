-- ===== src/Storage/Snapshot.antt =====
-- storage/mem/storage.go: the snapshot file that `CreateSnapshot` writes and `ApplySnapshot` reads.
-- A file is the list of its bytes, of which a read takes as many as it asks for and as are there.
-- The errors of the file system end both functions at once and are left out.
pub mod Laws
pub mod Runs
use matrixcube.Prelude.{
  ℕ, zero, suc, ◌+◌, Bool, true, false, Option, none, some, List, [], ◌∷◌, ◌++◌, ltb, ◌==◌,
  if◌then◌else◌, length, take, drop,
}
use matrixcube.Prelude.Bytes.{Bytes}
use matrixcube.Prelude.BigEndian.{put_uint32, uint32}
use matrixcube.Storage.Wire.{Wire}
use matrixcube.Storage.BTree.{TreeItem, BTree}
use matrixcube.Storage.Kv.{put, range_items, range_delete}
use matrixcube.Storage.Mem.{Storage, count_written}

-- What `readBytes` ends with: nil at the end of the file, or some bytes and the rest of the file.
-- `stuck` is no value: at the end of a file that is too short, the loop reads on for ever.
pub data ReadResult : Type 0 where
  at_end stuck : ReadResult
  ok : (bytes rest : Bytes) → ReadResult

pub data SnapshotError : Type 0 where
  missing_start missing_end missing_value : SnapshotError

-- How `ApplySnapshot` ends: without an error, with one, or in the loop of `readBytes`.
pub data Outcome : Type 0 where
  applied loops : Outcome
  refused : SnapshotError → Outcome

unfoldable pub write_bytes : Bytes → Bytes → Bytes
write_bytes file bytes = file ++ (put_uint32 (length bytes) ++ bytes)

unfoldable pub read_rest : ℕ → Bytes → ReadResult
read_rest total rest =
    if ltb (length rest) total then stuck else ok (take total rest) (drop total rest)

-- a size that is cut off keeps the zeros of its buffer
unfoldable pub read_bytes : Bytes → ReadResult
read_bytes [] = at_end
read_bytes (b ∷ bs) =
    read_rest (uint32 (take 4 (take 4 (b ∷ bs) ++ (0 ∷ 0 ∷ 0 ∷ 0 ∷ [])))) (drop 4 (b ∷ bs))

-- the handler of the scan
unfoldable pub write_items : List TreeItem → Bytes → Bytes
write_items [] file = file
write_items (x ∷ xs) file = write_items xs (write_bytes (write_bytes file x.key) x.value)

-- a field that must be there, and what is done with it
abbrev pub field : {A : Type 0} → ReadResult → A → (Outcome → A) → (Bytes → Bytes → A) → A
field at_end missing other next = missing
field stuck missing other next = other loops
field (ok bytes rest) missing other next = if length bytes == 0 then missing else next bytes rest

module _ (w : Wire) {T : Type 0} (tree : BTree T) where
  unfoldable pub create_snapshot : Storage T → Bytes → Bytes → Bytes
  create_snapshot s start end =
      write_items (range_items tree s.kv start end) (write_bytes (write_bytes [] start) end)

  abbrev pub apply_pair : Storage T → Bytes → Bytes → Storage T
  apply_pair s key value =
      let c = count_written w tree s 1 (length key + length value) in
      record c { kv = put tree c.kv key value }

  -- The loop over the pairs: each round takes a byte at least, so the length of the file is fuel
  -- enough. `loops` also stands for the end of the fuel.
  unfoldable pub apply_pairs : ℕ → Bytes → Storage T → Storage T × Outcome
  apply_pairs zero file s = (s, loops)
  apply_pairs (suc fuel) file s =
      field (read_bytes file) (s, applied) (λ o. (s, o))
        λ key rest.
          field (read_bytes rest) (s, refused missing_value) (λ o. (s, o))
            λ value rest'. apply_pairs fuel rest' (apply_pair s key value)

  unfoldable pub apply_snapshot : Bytes → Storage T → Storage T × Outcome
  apply_snapshot file s =
      field (read_bytes file) (s, refused missing_start) (λ o. (s, o))
        λ start rest.
          field (read_bytes rest) (s, refused missing_end) (λ o. (s, o))
            λ end rest'.
              apply_pairs (suc (length rest')) rest'
                (record s { kv = range_delete tree s.kv start end })
