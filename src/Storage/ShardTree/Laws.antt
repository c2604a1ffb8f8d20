-- ===== src/Storage/ShardTree/Laws.antt =====
-- `Update` and `Remove` of util/btree_shard.go, on trees with ranges that do not overlap.
use matrixcube.Prelude.{
  ◌≡◌, refl, sym, ap, ◌∙◌, true, false, not, ◌&&◌, some, List, [], ◌∷◌, ◌==◌, if◌then◌else◌,
  find_first, keep, All, Bool-cases, Option-cases, inl, inr, arith, ==→eq, ◌⊎◌,
}
use matrixcube.Prelude.Bytes.{
  Bytes, bytes_eq, bytes_lt, bytes_le, bytes_eq→eq, bytes_lt_irrefl, bytes_lt_trans,
}
use matrixcube.Meta.{Shard}
use matrixcube.Storage.ShardTree.{
  ShardBTree, insert, contains, find, start_or, delete_all, overlaps, update, remove,
}
use matrixcube.Storage.ShardTree.Search.{
  is_range, before, IsDisjoint, find_lem, above-contains, in_range-before,
}
use matrixcube.Storage.ShardTree.Overlaps.{reaches, overlap, before-lt, above-reaches, AtReach-All}
use matrixcube.Storage.ShardTree.Starts.{
  has_start, below_end, has_start-keep, has_start-take_while, has_start_All, keep-ext, keep-keep,
  keep-IsDisjoint,
}

removed_All :
    (s : Shard) (p : Bytes) (ovs xs ys : List Shard)
    → ((k : Bytes) → has_start k ovs ≡ (below_end s k && (bytes_le p k && has_start k xs)))
    → All (λ (y : Shard). has_start y.start xs ≡ true) ys
    → All (λ (y : Shard). bytes_le p y.start ≡ reaches s y) ys
    → All (λ (y : Shard). not (has_start y.start ovs) ≡ not (overlap s y)) ys
removed_All s p ovs xs [] f a b = tt
removed_All s p ovs xs (y ∷ ys) f a b =
    (ground (arith, f y.start, a.0, b.0), removed_All s p ovs xs ys f a.1 b.1)

keep-true : (xs : List Shard) → keep (λ y. true) xs ≡ xs
keep-true [] = refl
keep-true (x ∷ xs) = ap (λ t. x ∷ t) (keep-true xs)

every : {P : Shard → Type 0} → ((y : Shard) → P y) → (xs : List Shard) → All P xs
every f [] = tt
every f (x ∷ xs) = (f x, every f xs)

module _ {T : Type 0} (tree : ShardBTree T) where
  items-delete_all :
      (xs : List Shard) (t : T)
      → tree.items (delete_all tree xs t) ≡ keep (λ y. not (has_start y.start xs)) (tree.items t)
  unfolding delete_all
  items-delete_all [] t = sym (keep-true (tree.items t))
  items-delete_all (x ∷ xs) t =
      items-delete_all xs (tree.delete t x.start)
      ∙ rw (tree.items-delete t x.start) (
          keep-keep (λ y. not (has_start y.start xs)) (λ y. not (bytes_eq x.start y.start))
            (tree.items t)
          ∙ keep-ext _ _ (tree.items t) (every (λ y. ground arith) (tree.items t)))

  has_start-overlaps :
      (t : T) (s : Shard) (k : Bytes)
      → IsDisjoint (tree.items t)
      → has_start k (overlaps tree t s) ≡ (
          below_end s k
          && (bytes_le (start_or s.start (find tree t s.start)) k && has_start k (tree.items t)))
  unfolding overlaps
  has_start-overlaps t s k d =
      let p = start_or s.start (find tree t s.start) in
      rw (tree.descend_less_or_equal_lem t p) (
        has_start-take_while s k (keep (λ y. bytes_le p y.start) (tree.items t))
          (keep-IsDisjoint (λ y. bytes_le p y.start) (tree.items t) d)
        ∙ ap (λ b. below_end s k && b) (has_start-keep (λ k. bytes_le p k) k (tree.items t)))

  -- `Update` takes out exactly the shards that overlap the new one, and puts that in its place.
  pub items-update :
      (t : T) (s : Shard)
      → IsDisjoint (tree.items t)
      → tree.items (update tree t s) ≡ insert s (keep (λ y. not (overlap s y)) (tree.items t))
  unfolding update
  items-update t s d =
      let xs = tree.items t in
      tree.items-insert (delete_all tree (overlaps tree t s) t) s
      ∙ ap (insert s) (
          items-delete_all (overlaps tree t s) t
          ∙ keep-ext _ _ xs (
              removed_All s (start_or s.start (find tree t s.start)) (overlaps tree t s) xs xs
                (λ k. has_start-overlaps t s k d) (has_start_All xs)
                (rw (find_lem tree t s.start d) (AtReach-All s xs d))))

insert_All :
    (P : Shard → Type 0) (s : Shard) (ys : List Shard) → P s → All P ys → All P (insert s ys)
unfolding insert
insert_All P s [] h a = (h, tt)
insert_All P s (y ∷ ys) h a = elim (Bool-cases (bytes_lt y.start s.start)) [
  | inl e ↦ rw (e, insert) (a.0, insert_All P s ys h a.1)
  | inr n ↦ elim (Bool-cases (bytes_eq y.start s.start)) [
    | inl e ↦ rw (n, e, insert) (h, a.1)
    | inr m ↦ rw (n, m, insert) (h, a)
  ]
]

-- A range that does not overlap is ahead or behind.
ahead-before :
    (s y : Shard)
    → is_range s ≡ true
    → overlap s y ≡ false
    → bytes_lt y.start s.start ≡ true
    → before y s ≡ true
ahead-before s y r o l = ground (arith, bytes_lt_trans y.start s.start s.end l)

behind-before :
    (s y : Shard)
    → is_range y ≡ true
    → overlap s y ≡ false
    → bytes_lt y.start s.start ≡ false
    → before s y ≡ true
behind-before s y r o l = ground (arith, above-reaches s y r l)

behind_All :
    (s : Shard) (ys : List Shard)
    → IsDisjoint ys
    → All (λ (y : Shard). overlap s y ≡ false) ys
    → All (λ (y : Shard). bytes_lt y.start s.start ≡ false) ys
    → All (λ (y : Shard). before s y ≡ true) ys
behind_All s [] d o l = tt
behind_All s (y ∷ ys) d o l = (behind-before s y d.0 o.0 l.0, behind_All s ys d.2 o.1 l.1)

later_All :
    (s y : Shard) (ys : List Shard)
    → is_range y ≡ true
    → All (λ (z : Shard). before y z ≡ true) ys
    → bytes_lt y.start s.start ≡ false
    → All (λ (z : Shard). bytes_lt z.start s.start ≡ false) ys
later_All s y [] r a l = tt
later_All s y (z ∷ zs) r a l = (
  elim (Bool-cases (bytes_lt z.start s.start)) [
    | inl k ↦ absurd (cc (bytes_lt_trans y.start z.start s.start (before-lt y z r a.0) k, l))
    | inr n ↦ n
  ],
  later_All s y zs r a.1 l,
)

-- A range that overlaps none of some disjoint ones is disjoint with them.
pub insert-IsDisjoint :
    (s : Shard) (ys : List Shard)
    → is_range s ≡ true
    → IsDisjoint ys
    → All (λ (y : Shard). overlap s y ≡ false) ys
    → IsDisjoint (insert s ys)
unfolding insert
insert-IsDisjoint s [] r d o = (r, tt, tt)
insert-IsDisjoint s (y ∷ ys) r d o = elim (Bool-cases (bytes_lt y.start s.start)) [
  | inl e ↦
      rw (e, insert)
        (
          d.0,
          insert_All (λ z. before y z ≡ true) s ys (ahead-before s y r o.0 e) d.1,
          insert-IsDisjoint s ys r d.2 o.1,
        )
  | inr n ↦
      let b : All (λ (z : Shard). before s z ≡ true) (y ∷ ys) =
        behind_All s (y ∷ ys) d o (n, later_All s y ys d.0 d.1 n) in
      elim (Bool-cases (bytes_eq y.start s.start)) [
        | inl e ↦ rw (n, e, insert) (r, b.1, d.2)
        | inr m ↦ rw (n, m, insert) (r, b, d)
      ]
]

kept_All :
    (s : Shard) (xs : List Shard)
    → All (λ (y : Shard). overlap s y ≡ false) (keep (λ y. not (overlap s y)) xs)
kept_All s [] = tt
kept_All s (x ∷ xs) = elim (Bool-cases (overlap s x)) [
  | inl e ↦ rw e (kept_All s xs)
  | inr n ↦ rw n (n, kept_All s xs)
]

-- the shard that contains a key, once a shard is inserted
find_first-insert :
    (s : Shard) (ys : List Shard) (key : Bytes)
    → is_range s ≡ true
    → IsDisjoint ys
    → All (λ (y : Shard). overlap s y ≡ false) ys
    → find_first (λ y. contains y key) (insert s ys)
      ≡ (if contains s key then some s else find_first (λ y. contains y key) ys)
unfolding insert
find_first-insert s [] key r d o = refl
find_first-insert s (y ∷ ys) key r d o = elim (Bool-cases (bytes_lt y.start s.start)) [
  | inl e ↦
      rw (e, insert)
        (elim (Bool-cases (contains y key)) [
          | inl c ↦
              let n : contains s key ≡ false =
                above-contains key s (in_range-before key y s c (ahead-before s y r o.0 e)) in
              rw (c, n) refl
          | inr c ↦ rw c (find_first-insert s ys key r d.2 o.1)
        ])
  | inr n ↦ elim (Bool-cases (bytes_eq y.start s.start)) [
    | inl e ↦ absurd (
        cc (
          before-lt s y r (behind-before s y d.0 o.0 n),
          bytes_eq→eq y.start s.start e,
          bytes_lt_irrefl y.start,
        ))
    | inr m ↦ rw (n, m, insert) refl
  ]
]

module _ {T : Type 0} (tree : ShardBTree T) where
  pub update-IsDisjoint :
      (t : T) (s : Shard)
      → is_range s ≡ true
      → IsDisjoint (tree.items t)
      → IsDisjoint (tree.items (update tree t s))
  update-IsDisjoint t s r d = rw (items-update tree t s d) (
      insert-IsDisjoint s (keep (λ y. not (overlap s y)) (tree.items t)) r
        (keep-IsDisjoint (λ y. not (overlap s y)) (tree.items t) d) (kept_All s (tree.items t)))

  -- After an update, a key in the range of the new shard is found there, and any other key where it was
  -- found before, unless that shard overlapped the new one: then it is found nowhere.
  pub find-update :
      (t : T) (s : Shard) (key : Bytes)
      → is_range s ≡ true
      → IsDisjoint (tree.items t)
      → find tree (update tree t s) key ≡ (
          if contains s key
          then some s
          else find_first (λ y. contains y key) (keep (λ y. not (overlap s y)) (tree.items t)))
  find-update t s key r d =
      find_lem tree (update tree t s) key (update-IsDisjoint t s r d)
      ∙ (ap (find_first (λ y. contains y key)) (items-update tree t s d)
          ∙ find_first-insert s (keep (λ y. not (overlap s y)) (tree.items t)) key r
              (keep-IsDisjoint (λ y. not (overlap s y)) (tree.items t) d)
              (kept_All s (tree.items t)))

  -- `Remove` takes out the shard that contains the start of its argument when it has the same id, and
  -- changes nothing otherwise.
  pub remove_lem :
      (t : T) (s : Shard)
      → IsDisjoint (tree.items t)
      → (tree.items ((remove tree t s).0) ≡ tree.items t)
        ⊎ ((r : Shard) × (find tree t s.start ≡ some r)
            × (r.id ≡ s.id)
            × (tree.items ((remove tree t s).0)
                ≡ keep (λ y. not (bytes_eq r.start y.start)) (tree.items t)))
  unfolding remove
  remove_lem t s d = elim (Option-cases (find tree t s.start)) [
    | inl e ↦ inl (rw (e, remove) refl)
    | inr (r, e) ↦ elim (Bool-cases (r.id == s.id)) [
      | inl same ↦
          inr (r, e, ==→eq r.id s.id same, rw (e, same, remove) (tree.items-delete t r.start))
      | inr other ↦ inl (rw (e, other, remove) refl)
    ]
  ]
