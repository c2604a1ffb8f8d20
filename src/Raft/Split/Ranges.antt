-- ===== src/Raft/Split/Ranges.antt =====
-- The ranges of the shards after a split.
use mathlib.Core.Path.{ap₂}
use matrixcube.Prelude.{
  ℕ, ◌≡◌, sym, ap, ◌∙◌, Bool, true, false, not, ◌&&◌, ◌||◌, none, some, List, [], ◌∷◌, arith,
  length, count_if, ◌==◌, ◌⊎◌,
}
use matrixcube.Prelude.Bytes.{Bytes, bytes_lt, bytes_lt_trans, bytes_le_lt_trans}
use matrixcube.Meta.{Shard}
use matrixcube.Raft.Shards.{key_in_shard}
use matrixcube.Raft.Delegate.{Delegate, Context, split_done, done}
use matrixcube.Raft.Split.{SplitRequest, last_key, new_shard, new_shards, derive, Hooks, exec_split}
use matrixcube.Raft.Split.Done.{split_done_of, no_hook}
use matrixcube.Raft.Split.Queue.{Increasing, Checked, split_keys_lem}

-- the key lies before the end of a range; an empty end is no bound
abbrev pub before : Bytes → Bytes → Bool
before end key = length end == 0 || bytes_lt key end

abbrev pub within : Bytes → Bytes → Bytes → Bool
within start end key = not (bytes_lt key start) && before end key

-- a key above another one is not empty
not_empty : (a k : Bytes) → bytes_lt a k ≡ true → (length k == 0) ≡ false
unfolding bytes_lt
not_empty [] [] h = cc
not_empty (x ∷ a) [] h = cc
not_empty a (y ∷ k) h = ground arith

before_trans : (a b end : Bytes) → bytes_lt a b ≡ true → before end b ≡ true → before end a ≡ true
before_trans a b end h k = ground (arith, bytes_lt_trans a b end)

-- from an increasing queue whose last key lies before the end, each key lies before the end
head_before :
    (k : Bytes) (ks : List Bytes) (end : Bytes)
    → Increasing k ks
    → before end (last_key k ks) ≡ true
    → before end k ≡ true
head_before k [] end i h = h
head_before k (k' ∷ ks) end i h = before_trans k k' end i.0 (head_before k' ks end i.1 h)

-- a range cut at a key inside it: a key lies in one half exactly when it lies in the range
within_cut :
    (start k end key : Bytes)
    → bytes_lt start k ≡ true
    → before end k ≡ true
    → (within start end key ≡ true) × (within start k key ≡ true) × (within k end key ≡ false)
      ⊎ (within start end key ≡ true) × (within start k key ≡ false) × (within k end key ≡ true)
      ⊎ (within start end key ≡ false) × (within start k key ≡ false) × (within k end key ≡ false)
within_cut start k end key h b = ground (
  arith,
  not_empty start k h,
  bytes_lt_trans key start k,
  bytes_lt_trans key k end,
  bytes_le_lt_trans start k key,
)

abbrev pub one_if : Bool → ℕ
one_if true = 1
one_if false = 0

-- the new shards hold a key of the range behind the first key once, and no other key
count_new_shards :
    (derived : Shard) (end key : Bytes) (peers : ℕ) (reqs : List SplitRequest) (k : Bytes)
    (ks : List Bytes)
    → Checked peers reqs (k ∷ ks)
    → Increasing k ks
    → before end (last_key k ks) ≡ true
    → count_if (key_in_shard key) (new_shards derived end reqs (k ∷ ks)) ≡ one_if (within k end key)
unfolding new_shards new_shard key_in_shard
count_new_shards derived end key peers [] k ks c i b = absurd c
count_new_shards derived end key peers (r ∷ []) k [] c i b = ground arith
count_new_shards derived end key peers (r ∷ r' ∷ rs) k [] c i b = absurd c.2
count_new_shards derived end key peers (r ∷ reqs) k (k' ∷ ks) c i b = ground (
  arith,
  count_new_shards derived end key peers reqs k' ks c.2 i.1 b,
  within_cut k k' end key i.0 (head_before k' ks end i.1 b),
)

last_before :
    (shard : Shard) (key : Bytes) → key_in_shard key shard ≡ true → before shard.end key ≡ true
unfolding key_in_shard
last_before shard key h = ground arith

pieces_count :
    (shard : Shard) (reqs : List SplitRequest) (k : Bytes) (ks : List Bytes) (key : Bytes)
    → Checked (length shard.peers) reqs (k ∷ ks)
    → Increasing shard.start (k ∷ ks)
    → before shard.end (last_key k ks) ≡ true
    → let derived = derive shard (length reqs) k in
      count_if (key_in_shard key) (derived ∷ new_shards derived shard.end reqs (k ∷ ks))
      ≡ one_if (key_in_shard key shard)
unfolding key_in_shard derive
pieces_count shard reqs k ks key c i b =
    let derived = derive shard (length reqs) k in
    let rest = count_new_shards derived shard.end key (length shard.peers) reqs k ks c i.1 b in
    rw rest (
      ground (arith, within_cut shard.start k shard.end key i.0 (head_before k ks shard.end i.1 b)))

-- Where no hook is registered for the group of the shard, a split that succeeds cuts the range of
-- the shard into pieces: the delegate keeps the derived shard, and any key at all lies in exactly
-- one of the derived and the new shards if it lay in the shard before, and in none if it did not.
pub exec_split-partition :
    (hooks : Hooks) (d d' : Delegate) (ctx ctx' : Context) (reqs : List SplitRequest)
    (derived : Shard) (shards : List Shard)
    → hooks.on_split d.shard.group ≡ none
    → exec_split hooks d ctx reqs ≡ done d' ctx' (some (split_done derived shards))
    → (d'.shard ≡ derived)
      × ((key : Bytes)
          → count_if (key_in_shard key) (derived ∷ shards) ≡ one_if (key_in_shard key (d.shard)))
unfolding exec_split derive
exec_split-partition hooks d d' ctx ctx' reqs derived shards n h =
    let (k, ks, q, last, (p, e, x, y, z)) =
      split_done_of hooks d d' ctx ctx' reqs derived shards _ h in
    let (i, c) = split_keys_lem (length d.shard.peers) d.shard.start reqs (k ∷ ks) q in
    let e' = e ∙ no_hook (hooks.on_split d.shard.group) _ _ n in
    let x' = x ∙ ap (λ (t : Shard × List Shard). t.0) e' in
    let y' = y ∙ ap (λ (t : Shard × List Shard). t.1) e' in
    (
      z ∙ sym x,
      λ key.
          ap₂ (λ (a : Shard) (b : List Shard). count_if (key_in_shard key) (a ∷ b)) x' y'
          ∙ pieces_count (d.shard) reqs k ks key c i (last_before (d.shard) (last_key k ks) last),
    )
