-- ===== src/Storage/Kv/Laws.antt =====
-- `KVTree` as a map from keys to values: what each method reads and leaves.
use matrixcube.Prelude.{
  ◌≡◌, refl, sym, ap, ◌∙◌, Bool, true, false, ◌&&◌, Option, none, some, List, [], ◌∷◌,
  if◌then◌else◌, All, arith, Bool-cases, inl, inr,
}
use matrixcube.Prelude.Bytes.{
  Bytes, bytes_eq, bytes_lt, bytes_le, bytes_eq→eq, bytes_eq_refl, bytes_lt_irrefl, bytes_lt_trans,
  has_prefix, has_prefix-le, has_prefix-lt,
}
use matrixcube.Storage.BTree.{TreeItem, lookup, IsAscending, is_some, BTree}
use matrixcube.Storage.BTree.Sorted.{lookup-Above, Above-lt, not_lt-not_eq}
use matrixcube.Storage.Kv.{
  take_while, head, delete_all, range_items, range_delete, get, prefix_items,
}

-- a test that, once it fails in the order of the keys, fails for good
abbrev pub IsDownward : (Bytes → Bool) → Bytes → Type 0
IsDownward test from =
    (j k : Bytes) → bytes_lt j from ≡ false → test j ≡ false → bytes_lt j k ≡ true → test k ≡ false

lookup-rejected :
    (test : Bytes → Bool) (k : Bytes) (xs : List TreeItem)
    → All (λ (y : TreeItem). test y.key ≡ false) xs
    → test k ≡ true
    → lookup k xs ≡ none
unfolding lookup
lookup-rejected test k [] a h = refl
lookup-rejected test k (y ∷ ys) a h = elim (Bool-cases (bytes_eq y.key k)) [
  | inl e ↦ absurd (cc (ap test (bytes_eq→eq y.key k e), a.0))
  | inr n ↦ rw n (lookup-rejected test k ys a.1 h)
]

rejected_All :
    (test : Bytes → Bool) (from j : Bytes) (xs : List TreeItem)
    → IsDownward test from
    → bytes_lt j from ≡ false
    → test j ≡ false
    → All (λ (y : TreeItem). bytes_lt j y.key ≡ true) xs
    → All (λ (y : TreeItem). test y.key ≡ false) xs
rejected_All test from j [] d l h a = tt
rejected_All test from j (y ∷ ys) d l h a =
    (d j y.key l h a.0, rejected_All test from j ys d l h a.1)

-- The items taken are those that pass.
lookup-take_while :
    (test : Bytes → Bool) (from k : Bytes) (xs : List TreeItem)
    → IsDownward test from
    → All (λ (y : TreeItem). bytes_lt y.key from ≡ false) xs
    → IsAscending xs
    → lookup k (take_while (λ x. test x.key) xs) ≡ (if test k then lookup k xs else none)
unfolding lookup take_while
lookup-take_while test from k [] d l h = ground arith
lookup-take_while test from k (y ∷ ys) d l h = elim (Bool-cases (test y.key)) [
  | inl e ↦
      rw (e, take_while)
        (ground (arith, lookup-take_while test from k ys d l.1 h.1, bytes_eq→eq y.key k))
  | inr n ↦
      rw (n, take_while)
        (elim (Bool-cases (test k)) [
          | inr m ↦ rw m refl
          | inl m ↦ rw m (
              sym (
                lookup-rejected test k (y ∷ ys) (n, rejected_All test from y.key ys d l.0 n h.0) m))
        ])
]

-- The pivot bounds what is visited.
visited_All :
    (p : Bytes) (xs : List TreeItem)
    → ((k : Bytes) → bytes_lt k p ≡ true → lookup k xs ≡ none)
    → All (λ (y : TreeItem). bytes_lt y.key p ≡ false) xs
unfolding lookup
visited_All p [] f = tt
visited_All p (y ∷ ys) f = (
  elim (Bool-cases (bytes_lt y.key p)) [
    | inl l ↦ ground (arith, f y.key l, bytes_eq_refl y.key)
    | inr n ↦ n
  ],
  visited_All p ys (λ k l. ground (arith, f k l)),
)

below-IsDownward : (from end : Bytes) → IsDownward (λ k. bytes_lt k end) from
below-IsDownward from end j k l n h = elim (Bool-cases (bytes_lt k end)) [
  | inl b ↦ cc (bytes_lt_trans j k end h b)
  | inr m ↦ m
]

prefix-IsDownward : (prefix : Bytes) → IsDownward (λ k. has_prefix k prefix) prefix
prefix-IsDownward prefix j k l n h = has_prefix-lt j k prefix l n h

abbrev pub in_range : Bytes → Bytes → Bytes → Bool
in_range start end k = bytes_le start k && bytes_lt k end

dropped :
    (b : Bool) (o : Option Bytes)
    → (if is_some (if b then o else none) then none else o) ≡ (if b then none else o)
dropped true none = refl
dropped true (some v) = refl
dropped false o = refl

-- `Get` looks at the first item only.
abbrev first : Bytes → Option TreeItem → Option Bytes
first key none = none
first key (some x) = if bytes_eq x.key key then some x.value else none

first_lem :
    (key : Bytes) (xs : List TreeItem)
    → All (λ (y : TreeItem). bytes_lt y.key key ≡ false) xs
    → IsAscending xs
    → first key (head xs) ≡ lookup key xs
unfolding lookup
first_lem key [] l h = refl
first_lem key (y ∷ ys) l h = elim (Bool-cases (bytes_eq y.key key)) [
  | inl e ↦ rw e refl
  | inr n ↦
      let b : bytes_lt key y.key ≡ true = not_lt-not_eq y.key key l.0 n in
      rw n (sym (lookup-Above key ys (Above-lt key y.key ys b h.0)))
]

module _ {T : Type 0} (tree : BTree T) where
  ascend_All :
      (t : T) (p : Bytes)
      → All (λ (y : TreeItem). bytes_lt y.key p ≡ false) (tree.ascend_greater_or_equal t p)
  ascend_All t p =
      visited_All p (tree.ascend_greater_or_equal t p)
        (λ k l. ground (arith, tree.lookup-ascend t p k))

  -- `Get` finds the value of the key.
  pub get-find : (t : T) (key : Bytes) → get tree t key ≡ tree.find t key
  unfolding get lookup
  get-find t key =
      first_lem key (tree.ascend_greater_or_equal t key) (ascend_All t key)
        (tree.ascend-IsAscending t key)
      ∙ tree.lookup-ascend t key key
      ∙ rw (bytes_lt_irrefl key) refl

  -- The items that `Scan` hands out are those of the keys in the range.
  pub lookup-range_items :
      (t : T) (start end k : Bytes)
      → lookup k (range_items tree t start end)
        ≡ (if in_range start end k then tree.find t k else none)
  unfolding range_items
  lookup-range_items t start end k =
      lookup-take_while (λ k. bytes_lt k end) start k (tree.ascend_greater_or_equal t start)
        (below-IsDownward start end) (ascend_All t start) (tree.ascend-IsAscending t start)
      ∙ rw (tree.lookup-ascend t start k) (ground arith)

  -- The items that `PrefixScan` hands out are those of the keys with the prefix.
  pub lookup-prefix_items :
      (t : T) (prefix k : Bytes)
      → lookup k (prefix_items tree t prefix)
        ≡ (if has_prefix k prefix then tree.find t k else none)
  unfolding prefix_items
  lookup-prefix_items t prefix k =
      lookup-take_while (λ k. has_prefix k prefix) prefix k (tree.ascend_greater_or_equal t prefix)
        (prefix-IsDownward prefix) (ascend_All t prefix) (tree.ascend-IsAscending t prefix)
      ∙ rw (tree.lookup-ascend t prefix k) (ground (arith, has_prefix-le k prefix))

  find-delete_all :
      (xs : List TreeItem) (t : T) (k : Bytes)
      → tree.find (delete_all tree xs t) k ≡ (if is_some (lookup k xs) then none else tree.find t k)
  unfolding delete_all lookup
  find-delete_all [] t k = refl
  find-delete_all (x ∷ xs) t k =
      find-delete_all xs (tree.delete t x.key).0 k ∙ rw (tree.find-delete t x.key k) (ground arith)

  -- `RangeDelete` removes the keys in the range, and no other.
  pub find-range_delete :
      (t : T) (start end k : Bytes)
      → tree.find (range_delete tree t start end) k
        ≡ (if in_range start end k then none else tree.find t k)
  unfolding range_delete
  find-range_delete t start end k =
      find-delete_all (range_items tree t start end) t k
      ∙ rw (lookup-range_items t start end k) (dropped (in_range start end k) (tree.find t k))
