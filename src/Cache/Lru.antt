-- ===== src/Cache/Lru.antt =====
-- components/prophet/util/cache/lru.go. The linked list is a list with its front first, and the
-- map from keys to elements is the list of its keys: an element of the linked list is known by the
-- key of its item. The lock of cache.go around each method makes it one step.
pub mod Laws
pub mod Runs
use matrixcube.Prelude.{
  ℕ, Bool, true, false, not, ◌&&◌, Option, none, some, List, [], ◌∷◌, ltb, ◌==◌, length, find_first,
  keep, if◌then◌else◌,
}

pub record Item (V : Type 0) : Type 0 where
  pub key : ℕ
  pub value : V

pub record Lru (V : Type 0) : Type 0 where
  pub max_count : ℕ
  pub ll : List (Item V)
  pub cache : List ℕ

-- the lookup in the map
unfoldable pub member : ℕ → List ℕ → Bool
member key [] = false
member key (k ∷ ks) = if k == key then true else member key ks

module _ {V : Type 0} where
  unfoldable pub new_lru : ℕ → Lru V
  new_lru max_count = record { max_count = max_count; ll = []; cache = [] }

  unfoldable pub contains : Lru V → ℕ → Bool
  contains c key = member key c.cache

  abbrev pub has_key : ℕ → Item V → Bool
  has_key key item = item.key == key

  -- the element of the linked list that the map has for the key
  unfoldable pub element : List (Item V) → ℕ → Option (Item V)
  element ll key = find_first (has_key key) ll

  -- `ll.Remove(ele)`
  unfoldable pub unlink : ℕ → List (Item V) → List (Item V)
  unlink key [] = []
  unlink key (x ∷ xs) = let rest = unlink key xs in if has_key key x then xs else x ∷ rest

  -- `ll.Back()`
  unfoldable pub back : List (Item V) → Option (Item V)
  back [] = none
  back (x ∷ []) = some x
  back (x ∷ y ∷ xs) = back (y ∷ xs)

  unfoldable pub remove_element : Lru V → ℕ → Lru V
  remove_element c key = record c {
    ll = unlink key c.ll;
    cache = keep (λ k. not (k == key)) c.cache;
  }

  abbrev pub remove_back : Lru V → Option (Item V) → Lru V
  remove_back c none = c
  remove_back c (some x) = remove_element c x.key

  unfoldable pub remove_oldest : Lru V → Lru V
  remove_oldest c = remove_back c (back c.ll)

  unfoldable pub get_and_remove_oldest : Lru V → Lru V × Option (Item V)
  get_and_remove_oldest c = (remove_back c (back c.ll), back c.ll)

  -- the end of `Put` for a new key
  abbrev pub shrink : Lru V → Lru V
  shrink c = if not (c.max_count == 0) && ltb c.max_count (length c.ll) then remove_oldest c else c

  unfoldable pub put : Lru V → ℕ → V → Lru V
  put c key value =
      let item : Item V = record { key = key; value = value } in
      if member key c.cache
      then record c { ll = item ∷ unlink key c.ll }
      else shrink (record c { ll = item ∷ c.ll; cache = key ∷ c.cache })

  abbrev pub value_of : Option (Item V) → Option V
  value_of none = none
  value_of (some x) = some x.value

  -- `MoveToFront`
  abbrev pub move_to_front : Lru V → ℕ → Option (Item V) → Lru V
  move_to_front c key none = c
  move_to_front c key (some x) = record c { ll = x ∷ unlink key c.ll }

  unfoldable pub get : Lru V → ℕ → Lru V × Option V
  get c key =
      if member key c.cache
      then (move_to_front c key (element c.ll key), value_of (element c.ll key))
      else (c, none)

  unfoldable pub peek : Lru V → ℕ → Option V
  peek c key = if member key c.cache then value_of (element c.ll key) else none

  unfoldable pub remove : Lru V → ℕ → Lru V × Bool
  remove c key = if member key c.cache then (remove_element c key, true) else (c, false)

  abbrev pub len : Lru V → ℕ
  len c = length c.ll
