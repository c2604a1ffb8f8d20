-- ===== src/Storage/ShardTree/Starts.antt =====
-- Which starts are among the shards that an iterator visits, and lists with some shards left out.
use mathlib.Core.Path.{subst}
use matrixcube.Prelude.{
  ◌≡◌, refl, sym, ap, ◌∙◌, Bool, true, false, ◌&&◌, ◌||◌, List, [], ◌∷◌, ◌==◌, length, keep, All,
  Bool-cases, inl, inr, arith,
}
use matrixcube.Prelude.Bytes.{Bytes, bytes_eq, bytes_lt, bytes_eq→eq, bytes_eq_refl, bytes_lt_trans}
use matrixcube.Meta.{Shard}
use matrixcube.Storage.ShardTree.{goes_on, take_while}
use matrixcube.Storage.ShardTree.Search.{is_range, before, IsDisjoint}
use matrixcube.Storage.ShardTree.Overlaps.{goes_on_lem, before-lt}

abbrev pub has_start : Bytes → List Shard → Bool
has_start k [] = false
has_start k (x ∷ xs) = bytes_eq x.start k || has_start k xs

pub has_start-keep :
    (q : Bytes → Bool) (k : Bytes) (xs : List Shard)
    → has_start k (keep (λ y. q y.start) xs) ≡ (q k && has_start k xs)
has_start-keep q k [] = ground arith
has_start-keep q k (x ∷ xs) = elim (Bool-cases (bytes_eq x.start k)) [
  | inl e ↦
      let e' : x.start ≡ k = bytes_eq→eq x.start k e in
      let q' : q x.start ≡ q k = ap q e' in ground (arith, has_start-keep q k xs)
  | inr n ↦ ground (arith, has_start-keep q k xs)
]

above_start :
    (j k : Bytes) (xs : List Shard)
    → All (λ (y : Shard). bytes_lt j y.start ≡ true) xs
    → has_start k xs ≡ true
    → bytes_lt j k ≡ true
above_start j k [] a h = cc
above_start j k (x ∷ xs) a h = elim (Bool-cases (bytes_eq x.start k)) [
  | inl e ↦ subst (λ z. bytes_lt j z ≡ true) (bytes_eq→eq x.start k e) a.0
  | inr n ↦ above_start j k xs a.1 (rw n at h)
]

before-starts :
    (x : Shard) (ys : List Shard)
    → is_range x ≡ true
    → All (λ (y : Shard). before x y ≡ true) ys
    → All (λ (y : Shard). bytes_lt x.start y.start ≡ true) ys
before-starts x [] r a = tt
before-starts x (y ∷ ys) r a = (before-lt x y r a.0, before-starts x ys r a.1)

abbrev pub below_end : Shard → Bytes → Bool
below_end s k = length s.end == 0 || bytes_lt k s.end

-- From an item past the end on, no item is below it.
past_end :
    (s : Shard) (k : Bytes) (x : Shard) (xs : List Shard)
    → below_end s x.start ≡ false
    → All (λ (y : Shard). bytes_lt x.start y.start ≡ true) xs
    → (below_end s k && (bytes_eq x.start k || has_start k xs)) ≡ false
past_end s k x xs b a = elim (Bool-cases (below_end s k)) [
  | inr m ↦ rw m refl
  | inl m ↦ elim (Bool-cases (bytes_eq x.start k)) [
    | inl e ↦ absurd (cc (subst (λ z. below_end s z ≡ false) (bytes_eq→eq x.start k e) b, m))
    | inr n ↦ elim (Bool-cases (has_start k xs)) [
      | inr h ↦ rw (m, n, h) refl
      | inl h ↦
          let l : bytes_lt x.start k ≡ true = above_start x.start k xs a h in
          ground (arith, bytes_lt_trans x.start k s.end l)
    ]
  ]
]

pub has_start-take_while :
    (s : Shard) (k : Bytes) (xs : List Shard)
    → IsDisjoint xs
    → has_start k (take_while (goes_on s) xs) ≡ (below_end s k && has_start k xs)
unfolding take_while
has_start-take_while s k [] d = ground arith
has_start-take_while s k (x ∷ xs) d = elim (Bool-cases (below_end s x.start)) [
  | inl b ↦
      let g : goes_on s x ≡ true = goes_on_lem s x ∙ b in
      rw (g, take_while)
        (elim (Bool-cases (bytes_eq x.start k)) [
          | inl e ↦
              let bk : below_end s k ≡ true =
                subst (λ z. below_end s z ≡ true) (bytes_eq→eq x.start k e) b in
              rw (e, bk) refl
          | inr n ↦ rw n (has_start-take_while s k xs d.2)
        ])
  | inr b ↦
      let g : goes_on s x ≡ false = goes_on_lem s x ∙ b in
      rw (g, take_while) (sym (past_end s k x xs b (before-starts x xs d.0 d.1)))
]

own_starts :
    (x : Shard) (xs ys : List Shard)
    → All (λ (y : Shard). has_start y.start xs ≡ true) ys
    → All (λ (y : Shard). has_start y.start (x ∷ xs) ≡ true) ys
own_starts x xs [] a = tt
own_starts x xs (y ∷ ys) a = (ground (arith, a.0), own_starts x xs ys a.1)

pub has_start_All : (xs : List Shard) → All (λ (y : Shard). has_start y.start xs ≡ true) xs
has_start_All [] = tt
has_start_All (x ∷ xs) = (rw (bytes_eq_refl x.start) refl, own_starts x xs xs (has_start_All xs))

pub keep-ext :
    (p q : Shard → Bool) (xs : List Shard)
    → All (λ (y : Shard). p y ≡ q y) xs
    → keep p xs ≡ keep q xs
keep-ext p q [] a = refl
keep-ext p q (x ∷ xs) a = let e : keep p xs ≡ keep q xs = keep-ext p q xs a.1 in rw (a.0, e) refl

pub keep-keep :
    (p q : Shard → Bool) (xs : List Shard) → keep p (keep q xs) ≡ keep (λ y. q y && p y) xs
keep-keep p q [] = refl
keep-keep p q (x ∷ xs) = elim (Bool-cases (q x)) [
  | inl e ↦ rw (e, keep-keep p q xs) refl
  | inr n ↦ rw (n, keep-keep p q xs) refl
]

pub keep_All :
    (P : Shard → Type 0) (p : Shard → Bool) (xs : List Shard) → All P xs → All P (keep p xs)
keep_All P p [] a = tt
keep_All P p (x ∷ xs) a = elim (Bool-cases (p x)) [
  | inl e ↦ rw e (a.0, keep_All P p xs a.1)
  | inr n ↦ rw n (keep_All P p xs a.1)
]

pub keep-IsDisjoint : (p : Shard → Bool) (xs : List Shard) → IsDisjoint xs → IsDisjoint (keep p xs)
keep-IsDisjoint p [] d = tt
keep-IsDisjoint p (x ∷ xs) d = elim (Bool-cases (p x)) [
  | inl e ↦ rw e (d.0, keep_All (λ y. before x y ≡ true) p xs d.1, keep-IsDisjoint p xs d.2)
  | inr n ↦ rw n (keep-IsDisjoint p xs d.2)
]
