-- ===== src/Cache/Lru/Runs.antt =====
-- Sequences of calls of an LRU cache, and what a lookup finds.
use matrixcube.Prelude.{
  ℕ, suc, ◌≤◌, ◌≡◌, refl, sym, ap, ◌∙◌, true, false, not, ◌&&◌, some, Option-cases, List, [], ◌∷◌,
  arith, ltb, ◌==◌, length, Bool-cases, inl, inr, ◌⊎◌,
}
use matrixcube.Cache.Lru.{
  Item, Lru, new_lru, member, element, unlink, back, remove_element, remove_oldest, shrink, put,
  get, peek, remove,
}
use matrixcube.Cache.Lru.Laws.{
  IsLru, linked, new_lru-IsLru, put-IsLru, front-IsLru, remove_element-IsLru, back-linked,
}

-- the methods that may change a cache
pub data Op (V : Type 0) : Type 0 where
  op_put : ℕ → V → Op V
  op_get : ℕ → Op V
  op_remove : ℕ → Op V

module _ {V : Type 0} where
  abbrev pub step : Lru V → Op V → Lru V
  step c (op_put key value) = put c key value
  step c (op_get key) = (get c key).0
  step c (op_remove key) = (remove c key).0

  abbrev pub run : Lru V → List (Op V) → Lru V
  run c [] = c
  run c (o ∷ os) = run (step c o) os

  -- what the linked list has under a key has this key
  pub element_key :
      (ll : List (Item V)) (key : ℕ) (x : Item V) → element ll key ≡ some x → x.key ≡ key
  unfolding element
  element_key [] key x h = cc
  element_key (y ∷ ll) key x h = elim (Bool-cases (y.key == key)) [
    | inl same ↦ ground arith
    | inr other ↦ element_key ll key x (rw other at h)
  ]

  pub get-IsLru : (c : Lru V) (key : ℕ) → IsLru c → IsLru (get c key).0
  unfolding get
  get-IsLru c key i = elim (Bool-cases (member key c.cache)) [
    | inl there ↦ elim (Option-cases (element c.ll key)) [
      | inl lost ↦ rw (there, lost) i
      | inr (x, e) ↦ rw (there, e) (moved x (element_key c.ll key x e) there)
    ]
    | inr new ↦ rw new i
  ]
    where
      moved :
          (x : Item V)
          → x.key ≡ key
          → member key c.cache ≡ true
          → IsLru (record c { ll = x ∷ unlink key c.ll })
      moved x e h = rw (← e) (front-IsLru c x i (rw e h))

  pub remove-IsLru : (c : Lru V) (key : ℕ) → IsLru c → IsLru (remove c key).0
  unfolding remove
  remove-IsLru c key i = elim (Bool-cases (member key c.cache)) [
    | inl there ↦ rw there (remove_element-IsLru c key i)
    | inr new ↦ rw new i
  ]

  step-IsLru : (c : Lru V) (o : Op V) → IsLru c → IsLru (step c o)
  step-IsLru c (op_put key value) i = put-IsLru c key value i
  step-IsLru c (op_get key) i = get-IsLru c key i
  step-IsLru c (op_remove key) i = remove-IsLru c key i

  run-IsLru : (c : Lru V) (os : List (Op V)) → IsLru c → IsLru (run c os)
  run-IsLru c [] i = i
  run-IsLru c (o ∷ os) i = run-IsLru (step c o) os (step-IsLru c o i)

  -- Whatever is put into a new LRU cache, looked up and removed: its map has exactly the keys of
  -- its linked list, no key stands there twice, and it never has more elements than its limit, if
  -- that is not 0.
  pub new_lru-run-IsLru : (n : ℕ) (os : List (Op V)) → IsLru (run (new_lru n) os)
  new_lru-run-IsLru n os = run-IsLru (new_lru n) os (new_lru-IsLru n)

  -- `Put` leaves its item in front
  put-front :
      (c : Lru V) (key : ℕ) (value : V)
      → IsLru c
      → (rest : List (Item V)) × ((put c key value).ll ≡ record { key = key; value = value } ∷ rest)
  unfolding put remove_oldest remove_element back unlink
  put-front c key value i = elim (Bool-cases (member key c.cache)) [
    | inl there ↦ (unlink key c.ll, rw there refl)
    | inr new ↦ let (rest, e) = fresh c.ll (sym (i.synced key) ∙ new) i.bounded in (rest, rw new e)
  ]
    where
      shrunk : List (Item V) → Lru V
      shrunk ll =
          shrink (record c { ll = record { key = key; value = value } ∷ ll; cache = key ∷ c.cache })

      apart :
          (k : ℕ) (ll : List (Item V))
          → linked key ll ≡ false
          → linked k ll ≡ true
          → (key == k) ≡ false
      apart k ll h l = elim (Bool-cases (key == k)) [
        | inl same ↦ let e : key ≡ k = ground arith in cc (ap (λ (j : ℕ). linked j ll) e)
        | inr other ↦ other
      ]

      fresh :
          (ll : List (Item V))
          → linked key ll ≡ false
          → (c.max_count ≡ 0) ⊎ (length ll ≤ c.max_count)
          → (rest : List (Item V)) × ((shrunk ll).ll ≡ record { key = key; value = value } ∷ rest)
      fresh [] h b = ([], ground arith)
      fresh (x ∷ ll) h b =
          let (y, e, l) = back-linked x ll in
          elim (Bool-cases (not (c.max_count == 0) && ltb c.max_count (suc (suc (length ll))))) [
            | inl over ↦
                let other : (key == y.key) ≡ false = apart y.key (x ∷ ll) h l in
                (unlink y.key (x ∷ ll), rw (over, back, e, unlink, other) refl)
            | inr fits ↦ (x ∷ ll, rw fits refl)
          ]

  -- After `Put` a lookup of the key finds the value, whether the key is new or not.
  pub peek-put :
      (c : Lru V) (key : ℕ) (value : V) → IsLru c → peek (put c key value) key ≡ some value
  unfolding peek element
  peek-put c key value i =
      let (rest, e) = put-front c key value i in
      let there : member key (put c key value).cache ≡ true =
        (put-IsLru c key value i).synced key ∙ rw e (ground arith) in
      rw (there, e) (ground arith)
