-- ===== src/Cache/TwoQueue/Laws.antt =====
-- The invariant of the 2Q cache.
use matrixcube.Prelude.{
  ℕ, suc, ◌≤◌, ◌<◌, ◌≡◌, ◌≢◌, refl, ap, ◌∙◌, Bool, true, false, not, ◌&&◌, ◌||◌, Option, none, some,
  List, [], ◌∷◌, arith, ltb, ◌==◌, length, Bool-cases, inl, inr,
}
use matrixcube.Cache.Lru.{
  Item, Lru, member, unlink, back, remove_element, remove_back, remove_oldest,
  get_and_remove_oldest, put, len,
}
use matrixcube.Cache.Lru.Laws.{
  IsLru, linked, linked-unlink, length-unlink, back-linked, put-IsLru, remove_oldest-IsLru,
}
use matrixcube.Cache.TwoQueue.{TwoQueue, two_queue_len, ensure_space, evict_recent}

module _ {V : Type 0} where
  remove_back-max_count :
      (c : Lru V) (o : Option (Item V)) → (remove_back c o).max_count ≡ c.max_count
  unfolding remove_element
  remove_back-max_count c none = refl
  remove_back-max_count c (some x) = refl

  pub put-max_count : (c : Lru V) (k : ℕ) (v : V) → (put c k v).max_count ≡ c.max_count
  unfolding put remove_oldest
  put-max_count c k v = elim (Bool-cases (member k c.cache)) [
    | inl there ↦ rw there refl
    | inr new ↦ elim (Bool-cases (not (c.max_count == 0) && ltb c.max_count (suc (length c.ll)))) [
      | inl over ↦ rw (new, over) (remove_back-max_count _ _)
      | inr fits ↦ rw (new, fits) refl
    ]
  ]

  -- a key that is there is put in front; a new key too, if there is room
  pub put_there :
      (c : Lru V) (k : ℕ) (v : V)
      → member k c.cache ≡ true
      → (put c k v).ll ≡ record { key = k; value = v } ∷ unlink k c.ll
  unfolding put
  put_there c k v h = rw h refl

  pub put_new :
      (c : Lru V) (k : ℕ) (v : V)
      → member k c.cache ≡ false
      → length c.ll < c.max_count
      → (put c k v).ll ≡ record { key = k; value = v } ∷ c.ll
  unfolding put
  put_new c k v h room =
      let fits : (not (c.max_count == 0) && ltb c.max_count (suc (length c.ll))) ≡ false =
        ground arith in
      rw (h, fits) refl

  -- the oldest element of a list that is not empty
  oldest :
      (c : Lru V) (ll : List (Item V))
      → c.ll ≡ ll
      → length ll ≢ 0
      → (k : ℕ) × ((remove_oldest c).ll ≡ unlink k c.ll) × (linked k c.ll ≡ true)
  unfolding remove_oldest remove_element
  oldest c [] e h = absurd (h refl)
  oldest c (x ∷ ll) e h =
      let (y, b, l) = back-linked x ll in
      let b' : back c.ll ≡ some y = ap (λ (l : List (Item V)). back l) e ∙ b in
      (y.key, rw b' refl, ap (λ (l : List (Item V)). linked y.key l) e ∙ l)

  remove_oldest-max_count : (c : Lru V) → (remove_oldest c).max_count ≡ c.max_count
  unfolding remove_oldest
  remove_oldest-max_count c = remove_back-max_count c (back c.ll)

  -- The three caches are well formed; no key is both recent and frequent; and both together keep
  -- the size, which is also the limit of either.
  pub record IsTwoQueue (c : TwoQueue V) : Type 0 where
    pub recent_ok : IsLru c.recent
    pub frequent_ok : IsLru c.frequent
    pub ghost_ok : IsLru c.ghost
    pub recent_max : c.recent.max_count ≡ c.size
    pub frequent_max : c.frequent.max_count ≡ c.size
    pub target : c.recent_size < c.size
    pub disjoint : (k : ℕ) → (linked k c.recent.ll && linked k c.frequent.ll) ≡ false
    pub bounded : two_queue_len c ≤ c.size

  -- behind `ensureSpace`: there is room for one, and there are no new keys
  pub record IsRoomy (c c' : TwoQueue V) : Type 0 where
    pub ok : IsTwoQueue c'
    pub same_size : c'.size ≡ c.size
    pub room : two_queue_len c' < c'.size
    pub recent_sub : (k : ℕ) → linked k c.recent.ll ≡ false → linked k c'.recent.ll ≡ false
    pub frequent_sub : (k : ℕ) → linked k c.frequent.ll ≡ false → linked k c'.frequent.ll ≡ false

  evicted : (c : TwoQueue V) → IsTwoQueue c → len c.recent ≢ 0 → IsRoomy c (evict_recent c)
  unfolding get_and_remove_oldest remove_oldest
  evicted c i h =
      let (k, e, l) = oldest c.recent c.recent.ll refl h in
      let n = length-unlink k c.recent.ll l in
      let u = λ (j : ℕ). linked-unlink k j c.recent.ll i.recent_ok.distinct in
      record {
        ok = record {
          recent_ok = remove_oldest-IsLru c.recent i.recent_ok;
          frequent_ok = i.frequent_ok;
          ghost_ok = put-IsLru c.ghost _ tt i.ghost_ok;
          recent_max = remove_oldest-max_count c.recent ∙ i.recent_max;
          frequent_max = i.frequent_max;
          target = i.target;
          disjoint = λ j. rw e (ground (arith, u j, i.disjoint j));
          bounded = rw e (omega (arith, n, i.bounded));
        };
        same_size = refl;
        room = rw e (omega (arith, n, i.bounded));
        recent_sub = λ j p. rw e (ground (arith, u j));
        frequent_sub = λ j p. p;
      }

  dropped :
      (c : TwoQueue V)
      → IsTwoQueue c
      → len c.frequent ≢ 0
      → IsRoomy c (record c { frequent = remove_oldest c.frequent })
  dropped c i h =
      let (k, e, l) = oldest c.frequent c.frequent.ll refl h in
      let n = length-unlink k c.frequent.ll l in
      let u = λ (j : ℕ). linked-unlink k j c.frequent.ll i.frequent_ok.distinct in
      record {
        ok = record {
          recent_ok = i.recent_ok;
          frequent_ok = remove_oldest-IsLru c.frequent i.frequent_ok;
          ghost_ok = i.ghost_ok;
          recent_max = i.recent_max;
          frequent_max = remove_oldest-max_count c.frequent ∙ i.frequent_max;
          target = i.target;
          disjoint = λ j. rw e (ground (arith, u j, i.disjoint j));
          bounded = rw e (omega (arith, n, i.bounded));
        };
        same_size = refl;
        room = rw e (omega (arith, n, i.bounded));
        recent_sub = λ j p. p;
        frequent_sub = λ j p. rw e (ground (arith, u j));
      }

  pub ensure_space-IsRoomy :
      (c : TwoQueue V) (g : Bool) → IsTwoQueue c → IsRoomy c (ensure_space c g)
  unfolding ensure_space
  ensure_space-IsRoomy c g i =
      let test =
        not (len c.recent == 0)
        && (ltb c.recent_size (len c.recent) || (len c.recent == c.recent_size && not g)) in
      elim (Bool-cases (ltb (two_queue_len c) c.size)) [
        | inl roomy ↦ rw roomy (record {
          ok = i;
          same_size = refl;
          room = ground arith;
          recent_sub = λ j p. p;
          frequent_sub = λ j p. p;
        })
        | inr full ↦ elim (Bool-cases test) [
          | inl large ↦ rw (full, large) (evicted c i (ground arith))
          | inr small ↦ rw (full, small) (dropped c i (ground (arith, i.target)))
        ]
      ]
