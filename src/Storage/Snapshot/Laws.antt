-- ===== src/Storage/Snapshot/Laws.antt =====
-- A snapshot that is created and applied carries a range over, and ends.
use matrixcube.Prelude.{
  ℕ, zero, suc, ◌≤◌, ◌<◌, ◌≡◌, refl, sym, ap, ◌∙◌, Bool, true, false, Option, none, some, List, [],
  ◌∷◌, ◌++◌, ltb, ◌==◌, if◌then◌else◌, length, length-append, take, drop, All, Bool-cases, inl, inr,
  arith,
}
use mathlib.Core.List.{append_assoc, append-nil}
use matrixcube.Prelude.Bytes.{Bytes, bytes_eq, bytes_eq→eq}
use matrixcube.Prelude.BigEndian.{put_uint32, uint32, put_bytes, value_from, value_from-put_bytes}
use matrixcube.Storage.Wire.{Wire}
use matrixcube.Storage.BTree.{TreeItem, lookup, IsAscending, BTree}
use matrixcube.Storage.BTree.Sorted.{lookup-Above}
use matrixcube.Storage.Kv.{put, range_items, range_delete}
use matrixcube.Storage.Kv.Laws.{in_range, lookup-range_items, find-range_delete}
use matrixcube.Storage.Mem.{Storage}
use matrixcube.Storage.Mem.Scans.{take_while-IsAscending}
use matrixcube.Storage.Snapshot.{
  ReadResult, at_end, ok, Outcome, applied, write_bytes, read_rest, read_bytes, write_items, field,
  create_snapshot, apply_pair, apply_pairs, apply_snapshot,
}

-- what can be written with its size in 32 bits, and is not taken for the end
abbrev pub IsField : Bytes → Type 0
IsField bytes = (0 < length bytes) × (length bytes < 4294967296)

abbrev pub IsPair : TreeItem → Type 0
IsPair x = IsField x.key × IsField x.value

record_of : Bytes → Bytes
record_of bytes = put_uint32 (length bytes) ++ bytes

take-append : (xs ys : Bytes) → take (length xs) (xs ++ ys) ≡ xs
take-append [] ys = refl
take-append (x ∷ xs) ys = ap (λ t. x ∷ t) (take-append xs ys)

drop-append : (xs ys : Bytes) → drop (length xs) (xs ++ ys) ≡ ys
drop-append [] ys = refl
drop-append (x ∷ xs) ys = drop-append xs ys

read_rest_lem : (xs ys : Bytes) → read_rest (length xs) (xs ++ ys) ≡ ok xs ys
unfolding read_rest
read_rest_lem xs ys =
    let enough : ltb (length (xs ++ ys)) (length xs) ≡ false =
      ground (arith, length-append xs ys) in
    rw enough (rw (take-append xs ys, drop-append xs ys) refl)

-- What was written is read.
read_bytes-record_of :
    (bytes rest : Bytes)
    → length bytes < 4294967296
    → read_bytes (record_of bytes ++ rest) ≡ ok bytes rest
unfolding read_bytes record_of put_bytes uint32 value_from
read_bytes-record_of bytes rest h =
    rw (value_from-put_bytes 4 (length bytes) [] h) (read_rest_lem bytes rest)

read_bytes_nil : read_bytes [] ≡ at_end
unfolding read_bytes
read_bytes_nil = refl

field_lem :
    {A : Type 0} (r : ReadResult) (missing : A) (other : Outcome → A) (next : Bytes → Bytes → A)
    (bytes rest : Bytes)
    → r ≡ ok bytes rest
    → 0 < length bytes
    → field r missing other next ≡ next bytes rest
field_lem r missing other next bytes rest e h =
    let n : (length bytes == 0) ≡ false = ground arith in rw (e, field) (rw n refl)

abbrev encoded : List TreeItem → Bytes
encoded [] = []
encoded (x ∷ xs) = record_of x.key ++ (record_of x.value ++ encoded xs)

write_items-encoded : (xs : List TreeItem) (file : Bytes) → write_items xs file ≡ file ++ encoded xs
unfolding write_items write_bytes record_of
write_items-encoded [] file = sym (append-nil file)
write_items-encoded (x ∷ xs) file =
    write_items-encoded xs ((file ++ record_of x.key) ++ record_of x.value)
    ∙ (append_assoc (file ++ record_of x.key) (record_of x.value) (encoded xs)
        ∙ append_assoc file (record_of x.key) (record_of x.value ++ encoded xs))

or_else : Option Bytes → Option Bytes → Option Bytes
or_else none o = o
or_else (some v) o = some v

record_of_positive : (bytes : Bytes) → 0 < length (record_of bytes)
unfolding record_of put_bytes
record_of_positive bytes = omega arith

module _ (w : Wire) {T : Type 0} (tree : BTree T) where
  abbrev put_all : List TreeItem → Storage T → Storage T
  put_all [] s = s
  put_all (x ∷ xs) s = put_all xs (apply_pair w tree s x.key x.value)

  find-put_all :
      (xs : List TreeItem) (s : Storage T) (k : Bytes)
      → IsAscending xs
      → tree.find (put_all xs s).kv k ≡ or_else (lookup k xs) (tree.find s.kv k)
  unfolding lookup or_else put
  find-put_all [] s k h = refl
  find-put_all (x ∷ xs) s k h =
      find-put_all xs (apply_pair w tree s x.key x.value) k h.1
      ∙ (ap (or_else (lookup k xs))
            (tree.find-insert s.kv (record { key = x.key; value = x.value }) k)
          ∙ elim (Bool-cases (bytes_eq x.key k)) [
            | inl e ↦
                let gone : lookup k xs ≡ none =
                  lookup-Above k xs (rw (← bytes_eq→eq x.key k e) h.0) in
                rw (e, gone) refl
            | inr n ↦ rw n refl
          ])

  apply_pairs-encoded :
      (fuel : ℕ) (xs : List TreeItem) (s : Storage T)
      → All IsPair xs
      → length xs < fuel
      → apply_pairs w tree fuel (encoded xs) s ≡ (put_all xs s, applied)
  unfolding apply_pairs
  apply_pairs-encoded zero xs s a h = absurd (omega (arith, h))
  apply_pairs-encoded (suc fuel) [] s a h = rw read_bytes_nil refl
  apply_pairs-encoded (suc fuel) (x ∷ xs) s a h =
      field_lem _ _ _ _ x.key (record_of x.value ++ encoded xs)
        (read_bytes-record_of x.key (record_of x.value ++ encoded xs) a.0.0.1) a.0.0.0
      ∙ (field_lem _ _ _ _ x.value (encoded xs) (read_bytes-record_of x.value (encoded xs) a.0.1.1)
            a.0.1.0
          ∙ apply_pairs-encoded fuel xs (apply_pair w tree s x.key x.value) a.1 (omega (arith, h)))

  length-encoded : (xs : List TreeItem) → length xs ≤ length (encoded xs)
  length-encoded [] = omega arith
  length-encoded (x ∷ xs) =
      let k = length-append (record_of x.key) (record_of x.value ++ encoded xs) in
      let v = length-append (record_of x.value) (encoded xs) in
      omega (arith, k, v, length-encoded xs, record_of_positive x.key)

  file_lem :
      (s : Storage T) (start end : Bytes)
      → create_snapshot w tree s start end
        ≡ record_of start ++ (record_of end ++ encoded (range_items tree s.kv start end))
  unfolding create_snapshot write_bytes record_of
  file_lem s start end =
      write_items-encoded (range_items tree s.kv start end)
        (([] ++ record_of start) ++ record_of end)
      ∙ append_assoc (record_of start) (record_of end) (encoded (range_items tree s.kv start end))

  range_items-IsAscending :
      (s : Storage T) (start end : Bytes) → IsAscending (range_items tree s.kv start end)
  unfolding range_items
  range_items-IsAscending s start end =
      take_while-IsAscending _ (tree.ascend_greater_or_equal s.kv start)
        (tree.ascend-IsAscending s.kv start)

  from_snapshot :
      (b : Bool) (o p : Option Bytes)
      → or_else (if b then o else none) (if b then none else p) ≡ (if b then o else p)
  unfolding or_else
  from_snapshot true none p = refl
  from_snapshot true (some v) p = refl
  from_snapshot false o p = refl

  -- Applying the snapshot that was created of a range ends without an error, and the storage then has
  -- in the range exactly what the other storage had there, and out of it what it had itself. The
  -- ends of the range and the keys and values in it are not empty, and shorter than 2 ^ 32 bytes.
  pub apply_snapshot-create_snapshot :
      (s t : Storage T) (start end k : Bytes)
      → IsField start
      → IsField end
      → All IsPair (range_items tree s.kv start end)
      → ((apply_snapshot w tree (create_snapshot w tree s start end) t).1 ≡ applied)
        × (tree.find (apply_snapshot w tree (create_snapshot w tree s start end) t).0.kv k
            ≡ (if in_range start end k then tree.find s.kv k else tree.find t.kv k))
  unfolding apply_snapshot
  apply_snapshot-create_snapshot s t start end k a b c =
      let xs = range_items tree s.kv start end in
      let u : Storage T = record t { kv = range_delete tree t.kv start end } in
      let e : apply_snapshot w tree (create_snapshot w tree s start end) t
          ≡ (put_all xs u, applied) =
        ap (λ f. apply_snapshot w tree f t) (file_lem s start end)
        ∙ (field_lem _ _ _ _ start (record_of end ++ encoded xs)
              (read_bytes-record_of start (record_of end ++ encoded xs) a.1) a.0
            ∙ (field_lem _ _ _ _ end (encoded xs) (read_bytes-record_of end (encoded xs) b.1) b.0
                ∙ apply_pairs-encoded (suc (length (encoded xs))) xs u c
                    (omega (arith, length-encoded xs)))) in
      rw e (
        refl,
        find-put_all xs u k (range_items-IsAscending s start end)
            ∙ rw (lookup-range_items tree s.kv start end k, find-range_delete tree t.kv start end k)
                (from_snapshot (in_range start end k) (tree.find s.kv k) (tree.find t.kv k)),
      )
