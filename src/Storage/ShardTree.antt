-- ===== src/Storage/ShardTree.antt =====
-- util/btree_shard.go: `ShardTree`, the shards of a store by their ranges. The tree orders its items
-- by the start keys, the highest first. What it uses of github.com/google/btree is the record below,
-- whose laws are the documentation of that package: the items in the order that the methods visit
-- them. An item is known by the start of its shard. The pool of items is local to `find`, and each
-- method holds the lock of the tree.
pub mod Search
pub mod Overlaps
pub mod Starts
pub mod Laws
pub mod Sorted
use matrixcube.Prelude.{
  ℕ, ◌≡◌, Bool, true, false, not, ◌&&◌, ◌||◌, Option, none, some, List, [], ◌∷◌, ◌++◌, ltb, ◌==◌,
  if◌then◌else◌, length, find_first, keep, All,
}
use matrixcube.Prelude.Bytes.{Bytes, bytes_eq, bytes_lt, bytes_le}
use matrixcube.Meta.{Shard}

abbrev pub reverse : List Shard → List Shard
reverse [] = []
reverse (x ∷ xs) = reverse xs ++ (x ∷ [])

-- a shard in its place by the start, in place of one with the same start
unfoldable pub insert : Shard → List Shard → List Shard
insert s [] = s ∷ []
insert s (y ∷ ys) =
    let rest = insert s ys in
    if bytes_lt y.start s.start
    then y ∷ rest
    else if bytes_eq y.start s.start
    then s ∷ ys
    else s ∷ y ∷ ys

pub record ShardBTree (T : Type 0) : Type 0 where
  pub new : T
  pub replace_or_insert : T → Shard → T
  pub delete : T → Bytes → T
  -- what the iterators visit when they never return false
  pub ascend_greater_or_equal : T → Bytes → List Shard
  pub descend : T → List Shard
  pub descend_less_or_equal : T → Bytes → List Shard
  pub descend_range : T → Bytes → Bytes → List Shard
  -- the items, by their starts
  pub items : T → List Shard
  pub items-new : items new ≡ []
  pub items-insert : (t : T) (s : Shard) → items (replace_or_insert t s) ≡ insert s (items t)
  pub items-delete :
      (t : T) (k : Bytes) → items (delete t k) ≡ keep (λ y. not (bytes_eq k y.start)) (items t)
  pub ascend_greater_or_equal_lem :
      (t : T) (k : Bytes)
      → ascend_greater_or_equal t k ≡ reverse (keep (λ y. bytes_le y.start k) (items t))
  pub descend_lem : (t : T) → descend t ≡ items t
  pub descend_less_or_equal_lem :
      (t : T) (k : Bytes) → descend_less_or_equal t k ≡ keep (λ y. bytes_le k y.start) (items t)
  pub descend_range_lem :
      (t : T) (k e : Bytes)
      → descend_range t k e ≡ keep (λ y. bytes_le k y.start && bytes_lt y.start e) (items t)

unfoldable pub contains : Shard → Bytes → Bool
contains s key = bytes_le s.start key && (length s.end == 0 || bytes_lt key s.end)

-- the first item that the iterator sees
abbrev pub head : List Shard → Option Shard
head [] = none
head (x ∷ xs) = some x

-- the items before the first at which the iterator returns false
unfoldable pub take_while : (Shard → Bool) → List Shard → List Shard
take_while test [] = []
take_while test (x ∷ xs) = let rest = take_while test xs in if test x then x ∷ rest else []

-- the calls of `fn` until it returns false; it changes a state of its own
unfoldable pub iterate : {S : Type 0} → (Shard → S → S × Bool) → List Shard → S → S
iterate fn [] s = s
iterate fn (x ∷ xs) s = let r = fn x s in elim (r.1) [ true ↦ iterate fn xs r.0 | false ↦ r.0 ]

-- the result of the iterator, unless it does not contain the key
abbrev pub containing : Bytes → Option Shard → Option Shard
containing key none = none
containing key (some s) = if contains s key then some s else none

abbrev pub start_or : Bytes → Option Shard → Bytes
start_or key none = key
start_or key (some s) = s.start

-- the iterator of `Update` goes on
abbrev pub goes_on : Shard → Shard → Bool
goes_on s over = not (ltb 0 (length s.end) && bytes_le s.end over.start)

module _ {T : Type 0} (tree : ShardBTree T) where
  unfoldable pub find : T → Bytes → Option Shard
  find t key = containing key (head (tree.ascend_greater_or_equal t key))

  unfoldable pub delete_all : List Shard → T → T
  delete_all [] t = t
  delete_all (x ∷ xs) t = delete_all xs (tree.delete t x.start)

  unfoldable pub overlaps : T → Shard → List Shard
  overlaps t s =
      take_while (goes_on s) (tree.descend_less_or_equal t (start_or s.start (find t s.start)))

  unfoldable pub update : T → Shard → T
  update t s = tree.replace_or_insert (delete_all (overlaps t s) t) s

  unfoldable pub remove : T → Shard → T × Bool
  remove t s = elim (find t s.start) [
    | none ↦ (t, false)
    | some r ↦ if r.id == s.id then (tree.delete t r.start, true) else (t, false)
  ]

  unfoldable pub next_shard : T → Bytes → Option Shard
  next_shard t start = find_first (λ s. bytes_lt start s.start) (tree.descend_less_or_equal t start)

  -- `none` is the empty shard
  unfoldable pub search : T → Bytes → Option Shard
  search t key = find t key

  unfoldable pub ascend : {S : Type 0} → (Shard → S → S × Bool) → T → S → S
  ascend fn t s = iterate fn (tree.descend t) s

  unfoldable pub ascend_range : {S : Type 0} → (Shard → S → S × Bool) → T → Bytes → Bytes → S → S
  ascend_range fn t start end s = iterate fn (tree.descend_range t start end) s
