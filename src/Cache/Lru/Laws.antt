-- ===== src/Cache/Lru/Laws.antt =====
-- The invariant of the LRU cache, and that each method keeps it.
use mathlib.Core.Path.{subst}
use matrixcube.Prelude.{
  Option-cases, ℕ, suc, ◌≤◌, ◌≡◌, ◌≢◌, refl, sym, ap, ◌∙◌, Bool, true, false, not, ◌&&◌, some, List,
  [], ◌∷◌, arith, All, ltb, ◌==◌, length, keep, Bool-cases, inl, inr, ◌⊎◌, if◌then◌else◌,
}
use matrixcube.Cache.Lru.{
  Item, Lru, new_lru, member, unlink, back, remove_element, remove_oldest, shrink, put,
}

member-keep :
    (key k : ℕ) (ks : List ℕ)
    → member k (keep (λ j. not (j == key)) ks) ≡ not (k == key) && member k ks
unfolding member
member-keep key k [] = ground arith
member-keep key k (j ∷ ks) = ground (arith, member-keep key k ks)

module _ {V : Type 0} where
  abbrev pub HasDistinctKeys : List (Item V) → Type 0
  HasDistinctKeys [] = Unit
  HasDistinctKeys (x ∷ xs) = All (λ (y : Item V). y.key ≢ x.key) xs × HasDistinctKeys xs

  abbrev pub linked : ℕ → List (Item V) → Bool
  linked key [] = false
  linked key (x ∷ xs) = if x.key == key then true else linked key xs

  -- The map has exactly the keys of the linked list, which are different ones, and a limit that is
  -- not 0 is kept.
  pub record IsLru (c : Lru V) : Type 0 where
    pub distinct : HasDistinctKeys c.ll
    pub synced : (k : ℕ) → member k c.cache ≡ linked k c.ll
    pub bounded : (c.max_count ≡ 0) ⊎ (length c.ll ≤ c.max_count)

  pub unlinked-All :
      (key k : ℕ) (xs : List (Item V))
      → All (λ (y : Item V). y.key ≢ k) xs
      → All (λ (y : Item V). y.key ≢ k) (unlink key xs)
  unfolding unlink
  unlinked-All key k [] h = tt
  unlinked-All key k (x ∷ xs) h = elim (Bool-cases (x.key == key)) [
    | inl same ↦ rw (same, unlink) h.1
    | inr other ↦ rw (other, unlink) (h.0, unlinked-All key k xs h.1)
  ]

  pub HasDistinctKeys-unlink :
      (key : ℕ) (xs : List (Item V)) → HasDistinctKeys xs → HasDistinctKeys (unlink key xs)
  unfolding unlink
  HasDistinctKeys-unlink key [] h = tt
  HasDistinctKeys-unlink key (x ∷ xs) h = elim (Bool-cases (x.key == key)) [
    | inl same ↦ rw (same, unlink) h.1
    | inr other ↦
        rw (other, unlink) (unlinked-All key x.key xs h.0, HasDistinctKeys-unlink key xs h.1)
  ]

  absent : (k : ℕ) (xs : List (Item V)) → All (λ (y : Item V). y.key ≢ k) xs → linked k xs ≡ false
  absent k [] h = refl
  absent k (x ∷ xs) h = ground (arith, absent k xs h.1)

  unlinked-absent :
      (key : ℕ) (xs : List (Item V))
      → HasDistinctKeys xs
      → All (λ (y : Item V). y.key ≢ key) (unlink key xs)
  unfolding unlink
  unlinked-absent key [] h = tt
  unlinked-absent key (x ∷ xs) h = elim (Bool-cases (x.key == key)) [
    | inl same ↦
        rw (same, unlink) (subst (λ k. All (λ (y : Item V). y.key ≢ k) xs) (ground arith) h.0)
    | inr other ↦ rw (other, unlink) (ground arith, unlinked-absent key xs h.1)
  ]

  pub linked-unlink :
      (key k : ℕ) (xs : List (Item V))
      → HasDistinctKeys xs
      → linked k (unlink key xs) ≡ not (k == key) && linked k xs
  unfolding unlink
  linked-unlink key k [] h = ground arith
  linked-unlink key k (x ∷ xs) h = ground (arith, linked-unlink key k xs h.1, absent x.key xs h.0)

  pub length-unlink :
      (key : ℕ) (xs : List (Item V))
      → linked key xs ≡ true
      → suc (length (unlink key xs)) ≡ length xs
  unfolding unlink
  length-unlink key [] h = cc
  length-unlink key (x ∷ xs) h = ground (arith, length-unlink key xs)

  pub length-unlink-le : (key : ℕ) (xs : List (Item V)) → length (unlink key xs) ≤ length xs
  unfolding unlink
  length-unlink-le key [] = omega arith
  length-unlink-le key (x ∷ xs) = ground (arith, length-unlink-le key xs)

  -- the last element of a list with a head
  pub back-linked :
      (x : Item V) (xs : List (Item V))
      → (y : Item V) × (back (x ∷ xs) ≡ some y) × (linked y.key (x ∷ xs) ≡ true)
  unfolding back
  back-linked x [] = (x, refl, ground arith)
  back-linked x (z ∷ xs) = let (y, e, l) = back-linked z xs in (y, e, ground arith)

  pub remove_element-IsLru : (c : Lru V) (key : ℕ) → IsLru c → IsLru (remove_element c key)
  unfolding remove_element
  remove_element-IsLru c key i = record {
    distinct = HasDistinctKeys-unlink key c.ll i.distinct;
    synced = λ k.
        ground (arith, member-keep key k c.cache, linked-unlink key k c.ll i.distinct, i.synced k);
    bounded = ground (arith, i.bounded, length-unlink-le key c.ll);
  }

  pub remove_oldest-IsLru : (c : Lru V) → IsLru c → IsLru (remove_oldest c)
  unfolding remove_oldest
  remove_oldest-IsLru c i = elim (Option-cases (back c.ll)) [
    | inl empty ↦ rw empty i
    | inr (x, e) ↦ rw e (remove_element-IsLru c x.key i)
  ]

  -- an element in front of a list without its key
  pub front-IsLru :
      (c : Lru V) (item : Item V)
      → IsLru c
      → member item.key c.cache ≡ true
      → IsLru (record c { ll = item ∷ unlink item.key c.ll })
  front-IsLru c item i h =
      let l : linked item.key c.ll ≡ true = sym (i.synced item.key) ∙ h in
      record {
        distinct = (
          unlinked-absent item.key c.ll i.distinct,
          HasDistinctKeys-unlink item.key c.ll i.distinct,
        );
        synced = λ k.
            ground (arith, linked-unlink item.key k c.ll i.distinct, i.synced k, i.synced item.key);
        bounded = ground (arith, i.bounded, length-unlink item.key c.ll l);
      }

  -- with one element too many, the oldest goes
  shrink-IsLru :
      (c : Lru V) (x : Item V) (xs : List (Item V))
      → c.ll ≡ x ∷ xs
      → HasDistinctKeys c.ll
      → ((k : ℕ) → member k c.cache ≡ linked k c.ll)
      → (c.max_count ≡ 0) ⊎ (length xs ≤ c.max_count)
      → IsLru (shrink c)
  unfolding remove_oldest remove_element
  shrink-IsLru c x xs e d s b =
      elim (Bool-cases (not (c.max_count == 0) && ltb c.max_count (length c.ll))) [
        | inl over ↦
            let (y, f, l) = back-linked x xs in
            let f' : back c.ll ≡ some y = ap (λ (l : List (Item V)). back l) e ∙ f in
            let l' : linked y.key c.ll ≡ true = ap (λ (l : List (Item V)). linked y.key l) e ∙ l in
            rw (over, f')
              (record {
                distinct = HasDistinctKeys-unlink y.key c.ll d;
                synced = λ k.
                    ground (arith, member-keep y.key k c.cache, linked-unlink y.key k c.ll d, s k);
                bounded = inr (
                    omega (
                      arith,
                      length-unlink y.key c.ll l',
                      ap (λ (l : List (Item V)). length l) e,
                      limited c.max_count (length xs) b (ground arith),
                    ));
              })
        | inr fits ↦ rw fits (record { distinct = d; synced = s; bounded = ground (arith) })
      ]
    where
      limited : (m n : ℕ) → (m ≡ 0) ⊎ (n ≤ m) → m ≢ 0 → n ≤ m
      limited m n (inl z) h = absurd (h z)
      limited m n (inr k) h = k

  absent_All :
      (k : ℕ) (xs : List (Item V)) → linked k xs ≡ false → All (λ (y : Item V). y.key ≢ k) xs
  absent_All k [] h = tt
  absent_All k (x ∷ xs) h = (ground arith, absent_All k xs (ground arith))

  -- A new cache satisfies the invariant, and `Put`, `Get` and `Remove` keep it: the map and the
  -- linked list agree, no key is there twice, and no more elements than the limit are kept.
  pub put-IsLru : (c : Lru V) (key : ℕ) (value : V) → IsLru c → IsLru (put c key value)
  unfolding put member
  put-IsLru c key value i = elim (Bool-cases (member key c.cache)) [
    | inl there ↦ rw there (front-IsLru c (record { key = key; value = value }) i there)
    | inr new ↦ rw new (
        shrink-IsLru
          (record c { ll = record { key = key; value = value } ∷ c.ll; cache = key ∷ c.cache })
          (record { key = key; value = value }) c.ll refl
          (absent_All key c.ll (sym (i.synced key) ∙ new), i.distinct)
          (λ k. ground (arith, i.synced k)) i.bounded)
  ]

  pub new_lru-IsLru : (n : ℕ) → IsLru (new_lru {V = V} n)
  unfolding new_lru member
  new_lru-IsLru n = record { distinct = tt; synced = λ k. refl; bounded = inr (omega arith) }
