-- ===== src/Storage/Snapshot/Runs.antt =====
-- Storages that come about by calls of storage/mem/storage.go, those of its snapshots with them.
use matrixcube.Prelude.{ℕ, ◌≡◌, refl, ◌∙◌, Bool, true, false, Option, none, if◌then◌else◌, All}
use matrixcube.Prelude.Bytes.{Bytes}
use matrixcube.Storage.Wire.{Wire}
use matrixcube.Storage.BTree.{BTree}
use matrixcube.Storage.Kv
use matrixcube.Storage.Kv.{range_items}
use matrixcube.Storage.Kv.Laws.{in_range}
use matrixcube.Storage.Mem.{Storage, new_storage, get}
use matrixcube.Storage.Mem.Laws.{
  Entries, Entry, readable, Holds, new-Holds, get_lem, encoded, IsBounded,
}
use matrixcube.Storage.Mem.Runs
use matrixcube.Storage.Mem.Runs.{Call, change, call-Holds}
use matrixcube.Storage.Snapshot.{create_snapshot, apply_snapshot}
use matrixcube.Storage.Snapshot.Laws.{IsField, IsPair, apply_snapshot-create_snapshot}

-- How a storage came about: new, by a call, or by the snapshot of a range of another one.
pub data History : Type 0 where
  fresh : History
  called : Call → History → History
  restored : (source target : History) (start end : Bytes) → History

-- the same history on maps
unfoldable pub entries_of : History → Entries
entries_of fresh = λ _. none
entries_of (called c h) = change c (entries_of h)
entries_of (restored source target start end) =
    λ k. if in_range start end k then entries_of source k else entries_of target k

picked :
    (b : Bool) (e f : Option Entry) → IsBounded e → IsBounded f → IsBounded (if b then e else f)
picked true e f h k = h
picked false e f h k = k

module _ (w : Wire) {T : Type 0} (tree : BTree T) where
  unfoldable pub storage_of : History → Storage T
  storage_of fresh = new_storage w tree
  storage_of (called c h) = Runs.call w tree c (storage_of h)
  storage_of (restored source target start end) =
      (apply_snapshot w tree (create_snapshot w tree (storage_of source) start end)
        (storage_of target)).0

  -- The ends of the range of each snapshot, and the keys and values in it, are not empty and shorter
  -- than 2 ^ 32 bytes.
  abbrev pub Fits : History → Type 0
  Fits fresh = Unit
  Fits (called c h) = Fits h
  Fits (restored source target start end) =
      Fits source
      × Fits target
      × IsField start
      × IsField end
      × All IsPair (range_items tree (storage_of source).kv start end)

  encoded_pick :
      (b : Bool) (e f : Option Entry)
      → (if b then encoded w e else encoded w f) ≡ encoded w (if b then e else f)
  encoded_pick true e f = refl
  encoded_pick false e f = refl

  storage_of-Holds : (h : History) → Fits h → Holds w tree (storage_of h).kv (entries_of h)
  unfolding storage_of entries_of new_storage Kv.new_kv_tree
  storage_of-Holds fresh i = new-Holds w tree
  storage_of-Holds (called c h) i =
      call-Holds w tree c (storage_of h) (entries_of h) (storage_of-Holds h i)
  storage_of-Holds (restored source target start end) (i, j, a, b, p) =
      let x = storage_of-Holds source i in
      let y = storage_of-Holds target j in
      record {
        stored = λ k.
            (apply_snapshot-create_snapshot w tree (storage_of source) (storage_of target) start end
              k a b p).1
            ∙ (rw (x.stored k, y.stored k)
                (encoded_pick (in_range start end k) (entries_of source k) (entries_of target k)));
        bounded = λ k.
            picked (in_range start end k) (entries_of source k) (entries_of target k) (x.bounded k)
              (y.bounded k);
      }

  -- After any calls on a new storage, with snapshots of ranges of other storages with such a history
  -- applied between them, `Get` at any time reads what the same changes of an empty map leave, unless
  -- its deadline is over: the value last set under the key, or that of the snapshot, and nothing when
  -- it was deleted, alone, in a batch or in a range. What goes through a snapshot is not empty and
  -- shorter than 2 ^ 32 bytes.
  pub get-storage_of :
      (h : History) (now : ℕ) (k : Bytes)
      → Fits h
      → get w tree now (storage_of h) k ≡ readable now (entries_of h k)
  get-storage_of h now k i =
      get_lem w tree now (storage_of h) (entries_of h) k (storage_of-Holds h i)
