-- ===== src/Storage/ShardTree/Overlaps.antt =====
-- The shards that `Update` of util/btree_shard.go removes.
use mathlib.Core.Path.{subst}
use matrixcube.Prelude.{
  ◌⊎◌, ◌≡◌, refl, sym, Bool, true, false, ◌&&◌, ◌||◌, Option, none, some, List, [], ◌∷◌, ◌==◌,
  if◌then◌else◌, length, find_first, All, Bool-cases, Option-cases, inl, inr, arith,
}
use matrixcube.Prelude.Bytes.{
  Bytes, bytes_lt, bytes_le, bytes_lt_irrefl, bytes_lt_asym, bytes_lt_le_trans, bytes_le_lt_trans,
}
use matrixcube.Meta.{Shard}
use matrixcube.Storage.ShardTree.{contains, start_or, goes_on}
use matrixcube.Storage.ShardTree.Search.{is_range, before, IsDisjoint, in_range-before}

-- `y` ends above the start of `s`, and starts below the end of `s`
abbrev pub reaches : Shard → Shard → Bool
reaches s y = length y.end == 0 || bytes_lt s.start y.end

abbrev pub starts_below : Shard → Shard → Bool
starts_below s y = length s.end == 0 || bytes_lt y.start s.end

-- Two ranges have a key in common.
abbrev pub overlap : Shard → Shard → Bool
overlap s y = reaches s y && starts_below s y

pub goes_on_lem : (s y : Shard) → goes_on s y ≡ starts_below s y
goes_on_lem s y = ground arith

-- the order of two disjoint ranges
pub before-lt :
    (x y : Shard) → is_range x ≡ true → before x y ≡ true → bytes_lt x.start y.start ≡ true
before-lt x y r b = bytes_lt_le_trans x.start x.end y.start (ground arith) (ground arith)

-- A range that starts at the start of `s` or above reaches over it.
pub above-reaches :
    (s y : Shard) → is_range y ≡ true → bytes_lt y.start s.start ≡ false → reaches s y ≡ true
above-reaches s y r h = elim (Bool-cases (length y.end == 0)) [
  | inl e ↦ rw e refl
  | inr n ↦ rw (n, bytes_le_lt_trans s.start y.start y.end h (ground arith)) refl
]

-- The range that contains the start of `s` does so too, and no range before it.
contains-reaches : (s y : Shard) → contains y s.start ≡ true → reaches s y ≡ true
unfolding contains
contains-reaches s y c = ground arith

not_contains-reaches :
    (s y : Shard)
    → contains y s.start ≡ false
    → is_range y ≡ true
    → bytes_le s.start y.start ≡ reaches s y
unfolding contains
not_contains-reaches s y c r = elim (Bool-cases (bytes_lt y.start s.start)) [
  | inl l ↦ ground (arith, bytes_lt_asym y.start s.start l)
  | inr n ↦ rw (n, above-reaches s y r n) refl
]

found_step :
    (b : Bool) (x r : Shard) (o : Option Shard)
    → (if b then some x else o) ≡ some r
    → ((b ≡ true) × (x ≡ r)) ⊎ ((b ≡ false) × (o ≡ some r))
found_step true x r o e = inl (refl, cc)
found_step false x r o e = inr (refl, e)

found-contains :
    (k : Bytes) (xs : List Shard) (r : Shard)
    → find_first (λ y. contains y k) xs ≡ some r
    → contains r k ≡ true
found-contains k [] r e = cc
found-contains k (x ∷ xs) r e =
    elim (found_step (contains x k) x r (find_first (λ y. contains y k) xs) e) [
      | inl (c, same) ↦ subst (λ z. contains z k ≡ true) same c
      | inr (c, f) ↦ found-contains k xs r f
    ]

found_All :
    (P : Shard → Type 0) (test : Shard → Bool) (xs : List Shard) (r : Shard)
    → find_first test xs ≡ some r
    → All P xs
    → P r
found_All P test [] r e a = cc
found_All P test (x ∷ xs) r e a = elim (found_step (test x) x r (find_first test xs) e) [
  | inl (c, same) ↦ subst P same a.0
  | inr (c, f) ↦ found_All P test xs r f a.1
]

-- what the iterator starts from: the shard with the start of `s`, or `s`
abbrev pub AtReach : Shard → Option Shard → Shard → Type 0
AtReach s o y = bytes_le (start_or s.start o) y.start ≡ reaches s y

none_All :
    (s : Shard) (xs : List Shard)
    → IsDisjoint xs
    → find_first (λ y. contains y s.start) xs ≡ none
    → All (AtReach s none) xs
none_All s [] d e = tt
none_All s (y ∷ ys) d e = elim (Bool-cases (contains y s.start)) [
  | inl c ↦ absurd (cc (rw c at e))
  | inr n ↦ (not_contains-reaches s y n d.0, none_All s ys d.2 (rw n at e))
]

-- behind the shard with the start of `s`
behind_All :
    (s x : Shard) (ys : List Shard)
    → contains x s.start ≡ true
    → is_range x ≡ true
    → All (λ (y : Shard). before x y ≡ true) ys
    → IsDisjoint ys
    → All (AtReach s (some x)) ys
unfolding contains
behind_All s x [] c r a d = tt
behind_All s x (y ∷ ys) c r a d = (
  rw (bytes_lt_asym x.start y.start (before-lt x y r a.0)) (
      sym (
        above-reaches s y d.0
          (bytes_lt_asym s.start y.start (ground (arith, in_range-before s.start x y c a.0))))),
  behind_All s x ys c r a.1 d.2,
)

starts_le : (k : Bytes) (r : Shard) → contains r k ≡ true → bytes_lt k r.start ≡ false
unfolding contains
starts_le k r c = ground arith

-- A shard ahead of the one with the start of `s` does not reach over it.
ahead :
    (s x r : Shard)
    → contains r s.start ≡ true
    → is_range x ≡ true
    → before x r ≡ true
    → AtReach s (some r) x
unfolding contains
ahead s x r c i b =
    let low : bytes_lt s.start x.end ≡ false = elim (Bool-cases (bytes_lt s.start x.end)) [
      | inl l ↦
          absurd
            (cc (bytes_lt_le_trans s.start x.end r.start l (ground arith), starts_le s.start r c))
      | inr n ↦ n
    ] in
    ground (arith, before-lt x r i b)

some_All :
    (s r : Shard) (xs : List Shard)
    → IsDisjoint xs
    → find_first (λ y. contains y s.start) xs ≡ some r
    → All (AtReach s (some r)) xs
some_All s r [] d e = tt
some_All s r (x ∷ xs) d e =
    elim (found_step (contains x s.start) x r (find_first (λ y. contains y s.start) xs) e) [
      | inl (c, same) ↦
          subst (λ z. All (AtReach s (some z)) (x ∷ xs)) same
            (
              rw (bytes_lt_irrefl x.start) (sym (contains-reaches s x c)),
              behind_All s x xs c d.0 d.1 d.2,
            )
      | inr (c, f) ↦ (
        ahead s x r (found-contains s.start xs r f) d.0
            (found_All (λ y. before x y ≡ true) (λ y. contains y s.start) xs r f d.1),
        some_All s r xs d.2 f,
      )
    ]

-- `Update` starts from the shard with the start of `s`, or from `s`.
pub AtReach-All :
    (s : Shard) (xs : List Shard)
    → IsDisjoint xs
    → All (AtReach s (find_first (λ y. contains y s.start) xs)) xs
AtReach-All s xs d = elim (Option-cases (find_first (λ y. contains y s.start) xs)) [
  | inl e ↦ rw e (none_All s xs d e)
  | inr (r, e) ↦ rw e (some_All s r xs d e)
]
