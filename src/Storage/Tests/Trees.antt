-- ===== src/Storage/Tests/Trees.antt =====
-- A tree of three shards, and an update that overlaps two of them.
use matrixcube.Prelude.{ℕ, ◌≡◌, refl, none, some, List, [], ◌∷◌}
use matrixcube.Prelude.Bytes.{Bytes, bytes_eq, bytes_lt}
use matrixcube.Meta.{Shard}
use matrixcube.Storage.ShardTree.{insert, contains, find, update}
use matrixcube.Storage.ShardTree.Search.{IsDisjoint, find_lem}
use matrixcube.Storage.ShardTree.Laws.{items-update, find-update}
use matrixcube.Storage.ShardTree.Sorted.{shard_list, TreeCall, run, new-run-IsDisjoint}
use matrixcube.Storage.Tests.{key, shard}

abbrev range : ℕ → Bytes → Bytes → Shard
range id start end = record shard { id = id; start = start; end = end }

abbrev three : List Shard
three = range 1 (key 2) (key 4) ∷ range 2 (key 4) (key 6) ∷ range 3 (key 8) [] ∷ []

abbrev wide : Shard
wide = range 4 (key 3) (key 5)

three-IsDisjoint : IsDisjoint (shard_list.items three)
unfolding bytes_lt shard_list
three-IsDisjoint = (refl, (refl, (refl, tt)), (refl, (refl, tt), (refl, tt, tt)))

new-run-IsDisjoint_example : IsDisjoint (
    shard_list.items (
      run shard_list
        (TreeCall.update (range 1 (key 2) []) ∷ TreeCall.remove wide ∷ [])
        shard_list.new))
unfolding bytes_lt
new-run-IsDisjoint_example =
    new-run-IsDisjoint shard_list (TreeCall.update (range 1 (key 2) []) ∷ TreeCall.remove wide ∷ [])
      (refl, (tt, tt))

items-update_example :
    shard_list.items (update shard_list three wide) ≡ wide ∷ range 3 (key 8) [] ∷ []
unfolding bytes_lt shard_list insert bytes_eq
items-update_example = items-update shard_list three wide three-IsDisjoint

find-update_example : find shard_list (update shard_list three wide) (key 2) ≡ none
unfolding bytes_lt contains shard_list
find-update_example = find-update shard_list three wide (key 2) refl three-IsDisjoint

find_lem_example : find shard_list three (key 5) ≡ some (range 2 (key 4) (key 6))
unfolding bytes_lt shard_list contains
find_lem_example = find_lem shard_list three (key 5) three-IsDisjoint
