-- ===== src/Storage/BTree.antt =====
-- What util/kv_btree.go uses of github.com/google/btree: an ordered tree of items, which are known
-- by their keys. The laws are its documentation: `ReplaceOrInsert` adds an item in place of an equal
-- one, `Delete` removes an equal item and returns it, and `AscendGreaterOrEqual` visits, in order,
-- the items from the pivot on until the iterator returns false.
pub mod Sorted
use matrixcube.Prelude.{
  ℕ, ◌≡◌, Bool, true, false, Option, none, some, List, [], ◌∷◌, if◌then◌else◌, All,
}
use matrixcube.Prelude.Bytes.{Bytes, bytes_eq, bytes_lt}

pub record TreeItem : Type 0 where
  pub key : Bytes
  pub value : Bytes

-- the item that is equal to one with the key, in a list of items
unfoldable pub lookup : Bytes → List TreeItem → Option Bytes
lookup k [] = none
lookup k (x ∷ xs) = if bytes_eq x.key k then some x.value else lookup k xs

abbrev pub is_some {ℓ} : {A : Type ℓ} → Option A → Bool
is_some none = false
is_some (some a) = true

-- each key is below those that follow it
abbrev pub IsAscending : List TreeItem → Type 0
IsAscending [] = Unit
IsAscending (x ∷ xs) = All (λ (y : TreeItem). bytes_lt x.key y.key ≡ true) xs × IsAscending xs

pub record BTree (T : Type 0) : Type 0 where
  pub new : T
  pub replace_or_insert : T → TreeItem → T
  -- the tree without the item, and whether there was one
  pub delete : T → Bytes → T × Bool
  -- the items that are visited when the iterator never returns false
  pub ascend_greater_or_equal : T → Bytes → List TreeItem
  -- the value of the item with the key
  pub find : T → Bytes → Option Bytes
  pub find-new : (k : Bytes) → find new k ≡ none
  pub find-insert :
      (t : T) (x : TreeItem) (k : Bytes)
      → find (replace_or_insert t x) k ≡ (if bytes_eq x.key k then some x.value else find t k)
  pub find-delete :
      (t : T) (d k : Bytes) → find ((delete t d).0) k ≡ (if bytes_eq d k then none else find t k)
  pub delete_found : (t : T) (d : Bytes) → (delete t d).1 ≡ is_some (find t d)
  pub ascend-IsAscending : (t : T) (pivot : Bytes) → IsAscending (ascend_greater_or_equal t pivot)
  pub lookup-ascend :
      (t : T) (pivot k : Bytes)
      → lookup k (ascend_greater_or_equal t pivot) ≡ (if bytes_lt k pivot then none else find t k)
