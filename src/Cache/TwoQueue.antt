-- ===== src/Cache/TwoQueue.antt =====
-- components/prophet/util/cache/two_queue.go: the 2Q cache over three LRU caches. The ghost list
-- only keeps keys: its values are nil.
pub mod Laws
pub mod Puts
pub mod Calls
pub mod Lookup
use matrixcube.Prelude.{
  ℕ, ◌+◌, ◌/◌, Bool, true, false, not, ◌&&◌, ◌||◌, Option, none, some, List, ◌++◌, ltb, ◌==◌,
  if◌then◌else◌,
}
use matrixcube.Cache.Lru.{
  Item, Lru, new_lru, contains, remove_oldest, get_and_remove_oldest, put, get, peek, remove, len,
}

pub record TwoQueue (V : Type 0) : Type 0 where
  pub size : ℕ
  pub recent_size : ℕ
  pub recent : Lru V
  pub frequent : Lru V
  pub ghost : Lru Unit

module _ {V : Type 0} where
  -- with the default ratios 0.25 and 0.5, and the conversion to int
  unfoldable pub new_two_queue : ℕ → TwoQueue V
  unfolding new_lru
  new_two_queue size = record {
    size = size;
    recent_size = size / 4;
    recent = new_lru size;
    frequent = new_lru size;
    ghost = new_lru (size / 2);
  }

  abbrev pub two_queue_len : TwoQueue V → ℕ
  two_queue_len c = len c.recent + len c.frequent

  -- the key of what was evicted, or 0
  abbrev pub key_or_zero : Option (Item V) → ℕ
  key_or_zero none = 0
  key_or_zero (some x) = x.key

  abbrev pub evict_recent : TwoQueue V → TwoQueue V
  evict_recent c =
      let (rest, oldest) = get_and_remove_oldest c.recent in
      record c { recent = rest; ghost = put c.ghost (key_or_zero oldest) tt }

  unfoldable pub ensure_space : TwoQueue V → Bool → TwoQueue V
  ensure_space c ghost =
      if ltb (two_queue_len c) c.size
      then c
      else if not (len c.recent == 0)
          && (ltb c.recent_size (len c.recent) || (len c.recent == c.recent_size && not ghost))
      then evict_recent c
      else record c { frequent = remove_oldest c.frequent }

  abbrev pub put_ghost : TwoQueue V → ℕ → V → TwoQueue V
  put_ghost c key value = record c {
    ghost = (remove c.ghost key).0;
    frequent = put c.frequent key value;
  }

  unfoldable pub two_queue_put : TwoQueue V → ℕ → V → TwoQueue V
  two_queue_put c key value =
      if contains c.frequent key
      then record c { frequent = put c.frequent key value }
      else if contains c.recent key
      then record c { recent = (remove c.recent key).0; frequent = put c.frequent key value }
      else if contains c.ghost key
      then put_ghost (ensure_space c true) key value
      else (let c' = ensure_space c false in record c' { recent = put c'.recent key value })

  abbrev pub promote : TwoQueue V → ℕ → Option V → TwoQueue V × Option V
  promote c key none = (c, none)
  promote c key (some v) =
      (record c { recent = (remove c.recent key).0; frequent = put c.frequent key v }, some v)

  abbrev pub got : TwoQueue V → ℕ → Lru V × Option V → TwoQueue V × Option V
  got c key (frequent, some v) = (record c { frequent = frequent }, some v)
  got c key (frequent, none) = promote c key (peek c.recent key)

  unfoldable pub two_queue_get : TwoQueue V → ℕ → TwoQueue V × Option V
  two_queue_get c key = got c key (get c.frequent key)

  abbrev pub first_value : Option V → Option V → Option V
  first_value (some v) other = some v
  first_value none other = other

  unfoldable pub two_queue_peek : TwoQueue V → ℕ → Option V
  two_queue_peek c key = first_value (peek c.frequent key) (peek c.recent key)

  unfoldable pub two_queue_remove : TwoQueue V → ℕ → TwoQueue V
  two_queue_remove c key =
      if (remove c.frequent key).1
      then record c { frequent = (remove c.frequent key).0 }
      else if (remove c.recent key).1
      then record c { recent = (remove c.recent key).0 }
      else record c { ghost = (remove c.ghost key).0 }

  abbrev pub elems : TwoQueue V → List (Item V)
  elems c = c.recent.ll ++ c.frequent.ll
