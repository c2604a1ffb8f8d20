-- ===== src/Storage/BTree/Sorted.antt =====
-- A list in the order of the keys satisfies the interface of the tree.
use matrixcube.Prelude.{
  ◌≡◌, refl, ap, true, false, none, some, List, [], ◌∷◌, if◌then◌else◌, All, arith, Bool-cases, inl,
  inr,
}
use matrixcube.Prelude.Bytes.{
  Bytes, bytes_eq, bytes_lt, bytes_eq→eq, bytes_eq_refl, bytes_lt_irrefl, bytes_lt_trans,
  bytes_lt_total, bytes_lt_le_trans,
}
use matrixcube.Storage.BTree.{TreeItem, lookup, is_some, IsAscending, BTree}

unfoldable pub insert : TreeItem → List TreeItem → List TreeItem
insert x [] = x ∷ []
insert x (y ∷ ys) =
    let rest = insert x ys in
    if bytes_lt x.key y.key then x ∷ y ∷ ys else if bytes_eq x.key y.key then x ∷ ys else y ∷ rest

unfoldable pub remove : Bytes → List TreeItem → List TreeItem
remove k [] = []
remove k (y ∷ ys) = let rest = remove k ys in if bytes_eq k y.key then ys else y ∷ rest

unfoldable pub from : Bytes → List TreeItem → List TreeItem
from k [] = []
from k (y ∷ ys) = let rest = from k ys in if bytes_lt y.key k then rest else y ∷ ys

abbrev pub Above : Bytes → List TreeItem → Type 0
Above k xs = All (λ (y : TreeItem). bytes_lt k y.key ≡ true) xs

abbrev pub Sorted : Type 0
Sorted = (xs : List TreeItem) × IsAscending xs

pub Above-lt : (j k : Bytes) (xs : List TreeItem) → bytes_lt j k ≡ true → Above k xs → Above j xs
Above-lt j k [] h a = tt
Above-lt j k (y ∷ ys) h a = (bytes_lt_trans j k y.key h a.0, Above-lt j k ys h a.1)

pub lt-ne : (k y : Bytes) → bytes_lt k y ≡ true → bytes_eq y k ≡ false
lt-ne k y h = elim (Bool-cases (bytes_eq y k)) [
  | inl e ↦
      let e' : y ≡ k = bytes_eq→eq y k e in
      absurd (cc (ap (λ z. bytes_lt k z) e', bytes_lt_irrefl k))
  | inr n ↦ n
]

pub lookup-Above : (k : Bytes) (xs : List TreeItem) → Above k xs → lookup k xs ≡ none
unfolding lookup
lookup-Above k [] a = refl
lookup-Above k (y ∷ ys) a = rw (lt-ne k y.key a.0) (lookup-Above k ys a.1)

Above-insert :
    (k : Bytes) (x : TreeItem) (xs : List TreeItem)
    → bytes_lt k x.key ≡ true
    → Above k xs
    → Above k (insert x xs)
unfolding insert
Above-insert k x [] h a = (h, tt)
Above-insert k x (y ∷ ys) h a = elim (Bool-cases (bytes_lt x.key y.key)) [
  | inl e ↦ rw (e, insert) (h, a)
  | inr n ↦ elim (Bool-cases (bytes_eq x.key y.key)) [
    | inl e ↦ rw (n, e, insert) (h, a.1)
    | inr m ↦ rw (n, m, insert) (a.0, Above-insert k x ys h a.1)
  ]
]

pub not_lt-not_eq :
    (x y : Bytes) → bytes_lt x y ≡ false → bytes_eq x y ≡ false → bytes_lt y x ≡ true
not_lt-not_eq x y n m = elim (bytes_lt_total x y n) [
  | inl l ↦ l
  | inr e ↦ absurd (cc (ap (λ z. bytes_eq x z) e, bytes_eq_refl x))
]

pub insert-IsAscending :
    (x : TreeItem) (xs : List TreeItem) → IsAscending xs → IsAscending (insert x xs)
unfolding insert
insert-IsAscending x [] h = (tt, tt)
insert-IsAscending x (y ∷ ys) h = elim (Bool-cases (bytes_lt x.key y.key)) [
  | inl e ↦ rw (e, insert) ((e, Above-lt x.key y.key ys e h.0), h)
  | inr n ↦ elim (Bool-cases (bytes_eq x.key y.key)) [
    | inl e ↦ rw (n, e, insert) (rw (bytes_eq→eq x.key y.key e) h.0, h.1)
    | inr m ↦
        rw (n, m, insert)
          (Above-insert y.key x ys (not_lt-not_eq x.key y.key n m) h.0, insert-IsAscending x ys h.1)
  ]
]

pub lookup-insert :
    (k : Bytes) (x : TreeItem) (xs : List TreeItem)
    → lookup k (insert x xs) ≡ (if bytes_eq x.key k then some x.value else lookup k xs)
unfolding insert lookup
lookup-insert k x [] = refl
lookup-insert k x (y ∷ ys) = ground (
  arith,
  lookup-insert k x ys,
  bytes_eq→eq x.key y.key,
  bytes_eq→eq x.key k,
  bytes_eq→eq y.key k,
  bytes_eq_refl k,
  bytes_eq_refl y.key,
)

Above-remove : (j k : Bytes) (xs : List TreeItem) → Above j xs → Above j (remove k xs)
unfolding remove
Above-remove j k [] a = tt
Above-remove j k (y ∷ ys) a = elim (Bool-cases (bytes_eq k y.key)) [
  | inl e ↦ rw (e, remove) a.1
  | inr n ↦ rw (n, remove) (a.0, Above-remove j k ys a.1)
]

pub remove-IsAscending :
    (k : Bytes) (xs : List TreeItem) → IsAscending xs → IsAscending (remove k xs)
unfolding remove
remove-IsAscending k [] h = tt
remove-IsAscending k (y ∷ ys) h = elim (Bool-cases (bytes_eq k y.key)) [
  | inl e ↦ rw (e, remove) h.1
  | inr n ↦ rw (n, remove) (Above-remove y.key k ys h.0, remove-IsAscending k ys h.1)
]

pub lookup-remove :
    (d k : Bytes) (xs : List TreeItem)
    → IsAscending xs
    → lookup k (remove d xs) ≡ (if bytes_eq d k then none else lookup k xs)
unfolding remove lookup
lookup-remove d k [] h = ground arith
lookup-remove d k (y ∷ ys) h = elim (Bool-cases (bytes_eq d y.key)) [
  | inl e ↦
      let e' : d ≡ y.key = bytes_eq→eq d y.key e in
      rw (e, remove)
        (rw e' (ground (arith, lookup-Above k ys, lookup-Above y.key ys h.0, bytes_eq→eq y.key k)))
  | inr n ↦
      rw (n, remove)
        (ground (
          arith,
          lookup-remove d k ys h.1,
          bytes_eq→eq d k,
          bytes_eq→eq y.key k,
          bytes_eq_refl y.key,
        ))
]

pub from-IsAscending : (k : Bytes) (xs : List TreeItem) → IsAscending xs → IsAscending (from k xs)
unfolding from
from-IsAscending k [] h = tt
from-IsAscending k (y ∷ ys) h = elim (Bool-cases (bytes_lt y.key k)) [
  | inl e ↦ rw (e, from) (from-IsAscending k ys h.1)
  | inr n ↦ rw (n, from) h
]

pub lookup-from :
    (p k : Bytes) (xs : List TreeItem)
    → IsAscending xs
    → lookup k (from p xs) ≡ (if bytes_lt k p then none else lookup k xs)
unfolding from lookup
lookup-from p k [] h = ground arith
lookup-from p k (y ∷ ys) h = elim (Bool-cases (bytes_lt y.key p)) [
  | inl e ↦ rw (e, from) (ground (arith, lookup-from p k ys h.1, bytes_eq→eq y.key k))
  | inr n ↦
      rw (n, from)
        (elim (Bool-cases (bytes_lt k p)) [
          | inl l ↦
              let b : bytes_lt k y.key ≡ true = bytes_lt_le_trans k p y.key l n in
              rw (l, lt-ne k y.key b) (lookup-Above k ys (Above-lt k y.key ys b h.0))
          | inr m ↦ rw m refl
        ])
]

-- the tree as such a list
unfoldable pub sorted : BTree Sorted
unfolding insert remove lookup from
sorted = record {
  new = ([], tt);
  replace_or_insert = λ t x. (insert x t.0, insert-IsAscending x t.0 t.1);
  delete = λ t k. ((remove k t.0, remove-IsAscending k t.0 t.1), is_some (lookup k t.0));
  ascend_greater_or_equal = λ t k. from k t.0;
  find = λ t k. lookup k t.0;
  find-new = λ k. refl;
  find-insert = λ t x k. lookup-insert k x t.0;
  find-delete = λ t d k. lookup-remove d k t.0 t.1;
  delete_found = λ t d. refl;
  ascend-IsAscending = λ t k. from-IsAscending k t.0 t.1;
  lookup-ascend = λ t p k. lookup-from p k t.0 t.1;
}
