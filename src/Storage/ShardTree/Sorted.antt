-- ===== src/Storage/ShardTree/Sorted.antt =====
-- A list of shards satisfies the interface of the tree, and sequences of calls on any tree.
use matrixcube.Prelude.{
  ◌≡◌, refl, true, not, ◌&&◌, List, [], ◌∷◌, keep, All, Option-cases, Bool-cases, inl, inr, ◌==◌,
}
use matrixcube.Prelude.Bytes.{bytes_eq, bytes_lt, bytes_le}
use matrixcube.Meta.{Shard}
use matrixcube.Storage.ShardTree
use matrixcube.Storage.ShardTree.{ShardBTree, reverse, insert, find}
use matrixcube.Storage.ShardTree.Search.{is_range, IsDisjoint}
use matrixcube.Storage.ShardTree.Starts.{keep-IsDisjoint}
use matrixcube.Storage.ShardTree.Laws.{update-IsDisjoint}

unfoldable pub shard_list : ShardBTree (List Shard)
unfolding insert
shard_list = record {
  new = [];
  replace_or_insert = λ t s. insert s t;
  delete = λ t k. keep (λ y. not (bytes_eq k y.start)) t;
  ascend_greater_or_equal = λ t k. reverse (keep (λ y. bytes_le y.start k) t);
  descend = λ t. t;
  descend_less_or_equal = λ t k. keep (λ y. bytes_le k y.start) t;
  descend_range = λ t k e. keep (λ y. bytes_le k y.start && bytes_lt y.start e) t;
  items = λ t. t;
  items-new = refl;
  items-insert = λ t s. refl;
  items-delete = λ t k. refl;
  ascend_greater_or_equal_lem = λ t k. refl;
  descend_lem = λ t. refl;
  descend_less_or_equal_lem = λ t k. refl;
  descend_range_lem = λ t k e. refl;
}

pub data TreeCall : Type 0 where
  update remove : Shard → TreeCall

-- an update is of a range
abbrev pub HasRange : TreeCall → Type 0
HasRange (update s) = is_range s ≡ true
HasRange (remove s) = Unit

module _ {T : Type 0} (tree : ShardBTree T) where
  unfoldable pub call : TreeCall → T → T
  call (update s) t = ShardTree.update tree t s
  call (remove s) t = (ShardTree.remove tree t s).0

  unfoldable pub run : List TreeCall → T → T
  run [] t = t
  run (c ∷ cs) t = run cs (call c t)

  remove-IsDisjoint :
      (t : T) (s : Shard)
      → IsDisjoint (tree.items t)
      → IsDisjoint (tree.items ((ShardTree.remove tree t s).0))
  unfolding ShardTree.remove
  remove-IsDisjoint t s d = elim (Option-cases (find tree t s.start)) [
    | inl e ↦ rw (e, ShardTree.remove) d
    | inr (r, e) ↦ elim (Bool-cases (r.id == s.id)) [
      | inl same ↦
          rw (e, same, ShardTree.remove)
            (rw (tree.items-delete t r.start)
              (keep-IsDisjoint (λ y. not (bytes_eq r.start y.start)) (tree.items t) d))
      | inr other ↦ rw (e, other, ShardTree.remove) d
    ]
  ]

  call-IsDisjoint :
      (c : TreeCall) (t : T)
      → HasRange c
      → IsDisjoint (tree.items t)
      → IsDisjoint (tree.items (call c t))
  unfolding call
  call-IsDisjoint (update s) t r d = update-IsDisjoint tree t s r d
  call-IsDisjoint (remove s) t r d = remove-IsDisjoint t s d

  run-IsDisjoint :
      (cs : List TreeCall) (t : T)
      → All HasRange cs
      → IsDisjoint (tree.items t)
      → IsDisjoint (tree.items (run cs t))
  unfolding run
  run-IsDisjoint [] t r d = d
  run-IsDisjoint (c ∷ cs) t r d = run-IsDisjoint cs (call c t) r.1 (call-IsDisjoint c t r.0 d)

  -- Whatever shards are put into a new tree and removed from it, each with a start below its end or
  -- without an end, the shards of the tree are in order and no two of them overlap.
  pub new-run-IsDisjoint :
      (cs : List TreeCall) → All HasRange cs → IsDisjoint (tree.items (run cs tree.new))
  new-run-IsDisjoint cs r = run-IsDisjoint cs tree.new r (rw tree.items-new tt)
