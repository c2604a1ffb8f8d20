-- ===== src/Storage/Mem/Scans.antt =====
-- What the scans of storage/mem/storage.go hand to a handler that goes on.
use matrixcube.Prelude.{
  ℕ, ◌≡◌, refl, sym, ap, ◌∙◌, Bool, true, false, Option, none, some, List, [], ◌∷◌, ◌++◌, ◌==◌,
  if◌then◌else◌, length, Bool-cases, inl, inr, arith,
}
use mathlib.Core.Path.{subst}
use mathlib.Core.List.{append_assoc, append-nil}
use matrixcube.Prelude.Bytes.{Bytes, bytes_lt, bytes_eq, has_prefix, bytes_eq→eq}
use matrixcube.Storage.Wire.{Wire}
use matrixcube.Storage.BTree.{TreeItem, lookup, IsAscending, BTree}
use matrixcube.Storage.BTree.Sorted.{Above, lookup-Above}
use matrixcube.Storage.Kv.{
  Answer, go_on, stop, failed, take_while, handle_all, range_items, scan, prefix_items, prefix_scan,
}
use matrixcube.Storage.Kv.Laws.{in_range, lookup-range_items, lookup-prefix_items}
use matrixcube.Storage.Mem.{
  Storage, decode_value, handle_live, live, storage_scan, storage_prefix_scan,
}
use matrixcube.Storage.Mem.Laws.{Entries, Entry, readable, Holds, decode_value-encoded}

-- the handler that collects what it is given
abbrev pub collect : {E : Type 0} → Bytes → Bytes → List TreeItem → List TreeItem × Answer E
collect key value s = (s ++ (record { key = key; value = value } ∷ []), go_on)

-- an empty value is not handed out
abbrev pub non_empty : Option Bytes → Option Bytes
non_empty none = none
non_empty (some value) = if length value == 0 then none else some value

Above-take_while :
    (test : TreeItem → Bool) (k : Bytes) (xs : List TreeItem)
    → Above k xs
    → Above k (take_while test xs)
unfolding take_while
Above-take_while test k [] a = tt
Above-take_while test k (y ∷ ys) a = elim (Bool-cases (test y)) [
  | inl e ↦ rw (e, take_while) (a.0, Above-take_while test k ys a.1)
  | inr n ↦ rw (n, take_while) tt
]

pub take_while-IsAscending :
    (test : TreeItem → Bool) (xs : List TreeItem)
    → IsAscending xs
    → IsAscending (take_while test xs)
unfolding take_while
take_while-IsAscending test [] h = tt
take_while-IsAscending test (y ∷ ys) h = elim (Bool-cases (test y)) [
  | inl e ↦
      rw (e, take_while) (Above-take_while test y.key ys h.0, take_while-IsAscending test ys h.1)
  | inr n ↦ rw (n, take_while) tt
]

pub handle_all-next :
    {S E : Type 0} (handler : Bytes → Bytes → S → S × Answer E) (x : TreeItem) (xs : List TreeItem)
    (s t : S)
    → handler x.key x.value s ≡ (t, go_on)
    → handle_all handler (x ∷ xs) s ≡ handle_all handler xs t
unfolding handle_all
handle_all-next {S} {E} handler x xs s t h =
    ap
      (λ (r : S × Answer E). elim (r.1) [
        | go_on ↦ handle_all handler xs r.0
        | stop ↦ (r.0, none)
        | failed e ↦ (r.0, some e)
      ])
      h

module _ (w : Wire) (now : ℕ) where
  -- one item, as it is handed out
  abbrev pub shown : Bytes → Option Bytes → List TreeItem
  shown key none = []
  shown key (some value) = record { key = key; value = value } ∷ []

  abbrev pub value_of : TreeItem → Option Bytes
  value_of x = non_empty (decode_value w now (some x.value))

  -- what is handed out of some items
  abbrev pub handed : List TreeItem → List TreeItem
  handed [] = []
  handed (x ∷ xs) = shown x.key (value_of x) ++ handed xs

  or_else : Option Bytes → Option Bytes → Option Bytes
  or_else none o = o
  or_else (some v) o = some v

  lookup-shown :
      (k key : Bytes) (o : Option Bytes) (xs : List TreeItem)
      → lookup k (shown key o ++ xs)
        ≡ (if bytes_eq key k then or_else o (lookup k xs) else lookup k xs)
  unfolding lookup or_else
  lookup-shown k key none xs = ground arith
  lookup-shown k key (some v) xs = refl

  or_else-none : (o : Option Bytes) → or_else o none ≡ o
  unfolding or_else
  or_else-none none = refl
  or_else-none (some v) = refl

  -- a lookup in what is handed out of items in order
  lookup-handed :
      (k : Bytes) (xs : List TreeItem)
      → IsAscending xs
      → lookup k (handed xs) ≡ non_empty (decode_value w now (lookup k xs))
  unfolding lookup decode_value
  lookup-handed k [] h = refl
  lookup-handed k (x ∷ xs) h =
      lookup-shown k x.key (value_of x) (handed xs) ∙ elim (Bool-cases (bytes_eq x.key k)) [
        | inl e ↦
            let gone : lookup k xs ≡ none = lookup-Above k xs (rw (← bytes_eq→eq x.key k e) h.0) in
            rw e (
              rw (lookup-handed k xs h.1 ∙ ap (λ o. non_empty (decode_value w now o)) gone)
                (or_else-none (value_of x)))
        | inr n ↦ rw n (lookup-handed k xs h.1)
      ]

  Above-shown :
      (k key : Bytes) (o : Option Bytes) (xs : List TreeItem)
      → bytes_lt k key ≡ true
      → Above k xs
      → Above k (shown key o ++ xs)
  Above-shown k key none xs h a = a
  Above-shown k key (some v) xs h a = (h, a)

  Above-handed : (k : Bytes) (xs : List TreeItem) → Above k xs → Above k (handed xs)
  Above-handed k [] a = tt
  Above-handed k (x ∷ xs) a =
      Above-shown k x.key (value_of x) (handed xs) a.0 (Above-handed k xs a.1)

  shown-IsAscending :
      (key : Bytes) (o : Option Bytes) (xs : List TreeItem)
      → Above key xs
      → IsAscending xs
      → IsAscending (shown key o ++ xs)
  shown-IsAscending key none xs a h = h
  shown-IsAscending key (some v) xs a h = (a, h)

  -- what is handed out is in order
  handed-IsAscending : (xs : List TreeItem) → IsAscending xs → IsAscending (handed xs)
  handed-IsAscending [] h = tt
  handed-IsAscending (x ∷ xs) h =
      shown-IsAscending x.key (value_of x) (handed xs) (Above-handed x.key xs h.0)
        (handed-IsAscending xs h.1)

  module _ {E : Type 0} where
    live_lem :
        (key : Bytes) (o : Option Bytes) (s : List TreeItem)
        → handle_live w now (collect {E = E}) key o s ≡ (s ++ shown key (non_empty o), go_on)
    live_lem key none s = ap (λ t. (t, go_on)) (sym (append-nil s))
    live_lem key (some value) s = elim (Bool-cases (length value == 0)) [
      | inl e ↦ rw e (ap (λ t. (t, go_on)) (sym (append-nil s)))
      | inr n ↦ rw n refl
    ]

    handle_all_lem :
        (xs s : List TreeItem)
        → handle_all (live w now (collect {E = E})) xs s ≡ (s ++ handed xs, none)
    unfolding handle_all live
    handle_all_lem [] s = ap (λ t. (t, none)) (sym (append-nil s))
    handle_all_lem (x ∷ xs) s =
        handle_all-next (live w now (collect {E = E})) x xs s (s ++ shown x.key (value_of x))
          (live_lem x.key (decode_value w now (some x.value)) s)
        ∙ (handle_all_lem xs (s ++ shown x.key (value_of x))
            ∙ ap (λ t. (t, none)) (append_assoc s (shown x.key (value_of x)) (handed xs)))

  module _ {T : Type 0} (tree : BTree T) where
    scanned_lem :
        (E : Type 0) (xs : List TreeItem) (k : Bytes)
        → IsAscending xs
        → lookup k (handle_all {E = E} (live w now collect) xs []).0
          ≡ non_empty (decode_value w now (lookup k xs))
    scanned_lem E xs k h =
        ap (λ (p : List TreeItem × Option E). lookup k p.0) (handle_all_lem {E = E} xs [])
        ∙ lookup-handed k xs h

    decoded_when :
        (b : Bool) (o : Option Bytes) (e : Option Entry)
        → decode_value w now o ≡ readable now e
        → non_empty (decode_value w now (if b then o else none))
          ≡ (if b then non_empty (readable now e) else none)
    unfolding decode_value
    decoded_when true o e h = ap non_empty h
    decoded_when false o e h = refl

    stored_lem :
        (s : Storage T) (f : Entries) (k : Bytes)
        → Holds w tree s.kv f
        → decode_value w now (tree.find s.kv k) ≡ readable now (f k)
    stored_lem s f k h = rw (h.stored k) (decode_value-encoded w now (f k) (h.bounded k))

    ascending_lem :
        (E : Type 0) (xs : List TreeItem)
        → IsAscending xs
        → IsAscending (handle_all {E = E} (live w now collect) xs []).0
    ascending_lem E xs h =
        subst IsAscending
          (sym (ap (λ (p : List TreeItem × Option E). p.0) (handle_all_lem {E = E} xs [])))
          (handed-IsAscending xs h)

    -- A scan of a range hands out, in the order of the keys and each once, exactly the keys in the range
    -- that can be read and have a value that is not empty, with their values.
    pub lookup-storage_scan :
        (E : Type 0) (s : Storage T) (f : Entries) (start end k : Bytes)
        → Holds w tree s.kv f
        → IsAscending (storage_scan w tree {E = E} now collect s start end []).0
          × (lookup k ((storage_scan w tree {E = E} now collect s start end []).0)
              ≡ (if in_range start end k then non_empty (readable now (f k)) else none))
    unfolding storage_scan scan range_items
    lookup-storage_scan E s f start end k h = (
      ascending_lem E (range_items tree s.kv start end) (
          take_while-IsAscending _ (tree.ascend_greater_or_equal s.kv start)
            (tree.ascend-IsAscending s.kv start)),
      scanned_lem E (range_items tree s.kv start end) k (
            take_while-IsAscending _ (tree.ascend_greater_or_equal s.kv start)
              (tree.ascend-IsAscending s.kv start))
          ∙ (ap (λ o. non_empty (decode_value w now o)) (lookup-range_items tree s.kv start end k)
              ∙ decoded_when (in_range start end k) (tree.find s.kv k) (f k) (stored_lem s f k h)),
    )

    -- A scan of a prefix hands out exactly the keys with the prefix that can be read and have a value
    -- that is not empty, with their values.
    pub lookup-storage_prefix_scan :
        (E : Type 0) (s : Storage T) (f : Entries) (prefix k : Bytes)
        → Holds w tree s.kv f
        → lookup k ((storage_prefix_scan w tree {E = E} now collect s prefix []).0)
          ≡ (if has_prefix k prefix then non_empty (readable now (f k)) else none)
    unfolding storage_prefix_scan prefix_scan prefix_items
    lookup-storage_prefix_scan E s f prefix k h =
        scanned_lem E (prefix_items tree s.kv prefix) k (
          take_while-IsAscending _ (tree.ascend_greater_or_equal s.kv prefix)
            (tree.ascend-IsAscending s.kv prefix))
        ∙ (ap (λ o. non_empty (decode_value w now o)) (lookup-prefix_items tree s.kv prefix k)
            ∙ decoded_when (has_prefix k prefix) (tree.find s.kv k) (f k) (stored_lem s f k h))
