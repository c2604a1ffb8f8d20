-- ===== src/Storage/ShardTree/Search.antt =====
-- Shards with ranges that do not overlap, and the search by a key.
use matrixcube.Prelude.{
  ◌≡◌, refl, ◌∙◌, Bool, true, false, not, ◌&&◌, ◌||◌, Option, none, some, List, [], ◌∷◌, ◌++◌, ◌==◌,
  length, find_first, keep, All, Bool-cases, inl, inr, arith,
}
use matrixcube.Prelude.Bytes.{Bytes, bytes_lt, bytes_le, bytes_lt_le_trans}
use matrixcube.Meta.{Shard}
use matrixcube.Storage.ShardTree.{ShardBTree, reverse, contains, head, containing, find}

-- A range from a start below its end, or without an end.
abbrev pub is_range : Shard → Bool
is_range s = length s.end == 0 || bytes_lt s.start s.end

-- The range of the first ends where that of the second starts, or before.
abbrev pub before : Shard → Shard → Bool
before x y = not (length x.end == 0) && bytes_le x.end y.start

-- Ranges in order, of which no two overlap.
abbrev pub IsDisjoint : List Shard → Type 0
IsDisjoint [] = Unit
IsDisjoint (x ∷ xs) =
    (is_range x ≡ true) × All (λ (y : Shard). before x y ≡ true) xs × IsDisjoint xs

-- a key in a range is below the shards behind it
pub in_range-before :
    (k : Bytes) (x y : Shard) → contains x k ≡ true → before x y ≡ true → bytes_le y.start k ≡ false
unfolding contains
in_range-before k x y c b =
    let l : bytes_lt k x.end ≡ true = ground (arith) in
    let m : bytes_lt y.start x.end ≡ false = ground (arith) in
    rw (bytes_lt_le_trans k x.end y.start l m) refl

keep-before :
    (k : Bytes) (x : Shard) (xs : List Shard)
    → contains x k ≡ true
    → All (λ (y : Shard). before x y ≡ true) xs
    → keep (λ y. bytes_le y.start k) xs ≡ []
keep-before k x [] c a = refl
keep-before k x (y ∷ ys) c a = rw (in_range-before k x y c a.0) (keep-before k x ys c a.1)

abbrev or_else : Option Shard → Option Shard → Option Shard
or_else none o = o
or_else (some s) o = some s

head-append : (xs : List Shard) (x : Shard) → head (xs ++ (x ∷ [])) ≡ or_else (head xs) (some x)
head-append [] x = refl
head-append (y ∷ ys) x = refl

abbrev last_below : Bytes → List Shard → Option Shard
last_below k xs = head (reverse (keep (λ y. bytes_le y.start k) xs))

not_containing :
    (k : Bytes) (o : Option Shard) (x : Shard)
    → contains x k ≡ false
    → containing k (or_else o (some x)) ≡ containing k o
not_containing k none x n = rw n refl
not_containing k (some z) x n = refl

pub above-contains : (k : Bytes) (x : Shard) → bytes_le x.start k ≡ false → contains x k ≡ false
unfolding contains
above-contains k x n = rw n refl

-- The last shard that does not start above a key is the only one that can contain it.
containing_lem :
    (k : Bytes) (xs : List Shard)
    → IsDisjoint xs
    → containing k (last_below k xs) ≡ find_first (λ s. contains s k) xs
containing_lem k [] d = refl
containing_lem k (x ∷ xs) d = elim (Bool-cases (bytes_le x.start k)) [
  | inr n ↦ rw (n, above-contains k x n) (containing_lem k xs d.2)
  | inl l ↦
      rw (l, head-append (reverse (keep (λ y. bytes_le y.start k) xs)) x)
        (elim (Bool-cases (contains x k)) [
          | inl c ↦ rw (keep-before k x xs c d.1, c) refl
          | inr n ↦ rw n (not_containing k (last_below k xs) x n ∙ containing_lem k xs d.2)
        ])
]

-- `find`, and so `Search`, gives the shard of the tree that contains the key, and nothing when there
-- is none.
pub find_lem :
    {T : Type 0} (tree : ShardBTree T) (t : T) (key : Bytes)
    → IsDisjoint (tree.items t)
    → find tree t key ≡ find_first (λ s. contains s key) (tree.items t)
unfolding find
find_lem tree t key d =
    rw (tree.ascend_greater_or_equal_lem t key) (containing_lem key (tree.items t) d)
