-- ===== src/Storage/Kv.antt =====
-- util/kv_btree.go: `KVTree`, whose methods hold its lock from their start to their end, or until
-- they have collected the items. The tree is the one of Storage/BTree.antt; a nil slice of a key
-- that is not there is `none`.
pub mod Laws
use matrixcube.Prelude.{ℕ, Bool, true, false, Option, none, some, List, [], ◌∷◌, if◌then◌else◌}
use matrixcube.Prelude.Bytes.{Bytes, bytes_eq, bytes_lt, has_prefix}
use matrixcube.Storage.BTree.{TreeItem, BTree}

-- what a handler answers: to go on, to stop, or an error
pub data Answer (E : Type 0) : Type 0 where
  go_on stop : Answer E
  failed : E → Answer E

-- the items before the first that fails the test, at which the iterator returns false
unfoldable pub take_while : (TreeItem → Bool) → List TreeItem → List TreeItem
take_while test [] = []
take_while test (x ∷ xs) = let rest = take_while test xs in if test x then x ∷ rest else []

-- the first item that the iterator sees
abbrev pub head : List TreeItem → Option TreeItem
head [] = none
head (x ∷ xs) = some x

-- the loops over the collected items; a handler changes a state of its own
module _ {S E : Type 0} (handler : Bytes → Bytes → S → S × Answer E) where
  unfoldable pub handle_all : List TreeItem → S → S × Option E
  handle_all [] s = (s, none)
  handle_all (x ∷ xs) s =
      let r = handler x.key x.value s in
      elim (r.1) [ go_on ↦ handle_all xs r.0 | stop ↦ (r.0, none) | failed e ↦ (r.0, some e) ]

module _ {T : Type 0} (tree : BTree T) where
  unfoldable pub new_kv_tree : T
  new_kv_tree = tree.new

  unfoldable pub put : T → Bytes → Bytes → T
  put kv key value = tree.replace_or_insert kv (record { key = key; value = value })

  unfoldable pub delete : T → Bytes → T × Bool
  delete kv key = tree.delete kv key

  -- the loop of `RangeDelete` over the collected items
  unfoldable pub delete_all : List TreeItem → T → T
  delete_all [] kv = kv
  delete_all (x ∷ xs) kv = delete_all xs ((tree.delete kv x.key).0)

  -- the items that `RangeDelete` and `Scan` collect
  unfoldable pub range_items : T → Bytes → Bytes → List TreeItem
  range_items kv start end =
      take_while (λ x. bytes_lt x.key end) (tree.ascend_greater_or_equal kv start)

  unfoldable pub range_delete : T → Bytes → Bytes → T
  range_delete kv start end = delete_all (range_items kv start end) kv

  unfoldable pub get : T → Bytes → Option Bytes
  get kv key = elim (head (tree.ascend_greater_or_equal kv key)) [
    | none ↦ none
    | some x ↦ if bytes_eq x.key key then some x.value else none
  ]

  -- the next item, which `Seek` returns as a key and a value
  unfoldable pub seek : T → Bytes → Option TreeItem
  seek kv key = head (tree.ascend_greater_or_equal kv key)

  unfoldable pub prefix_items : T → Bytes → List TreeItem
  prefix_items kv prefix =
      take_while (λ x. has_prefix x.key prefix) (tree.ascend_greater_or_equal kv prefix)

  module _ {S E : Type 0} (handler : Bytes → Bytes → S → S × Answer E) where
    unfoldable pub scan : T → Bytes → Bytes → S → S × Option E
    scan kv start end s = handle_all handler (range_items kv start end) s

    unfoldable pub prefix_scan : T → Bytes → S → S × Option E
    prefix_scan kv prefix s = handle_all handler (prefix_items kv prefix) s
