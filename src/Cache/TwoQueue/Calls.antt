-- ===== src/Cache/TwoQueue/Calls.antt =====
-- Sequences of calls of a 2Q cache.
use mathlib.Core.Path.{ap₂}
use matrixcube.Prelude.{
  ℕ, ◌/◌, ◌≡◌, ◌≢◌, refl, true, Option, none, some, Option-cases, List, [], ◌∷◌, arith, Bool-cases,
  inl, inr,
}
use matrixcube.Cache.Lru.{
  Lru, new_lru, member, element, unlink, remove_element, put, get, peek, remove,
}
use matrixcube.Cache.Lru.Laws.{linked-unlink, length-unlink-le, new_lru-IsLru, remove_element-IsLru}
use matrixcube.Cache.Lru.Runs.{Op, op_put, op_get, op_remove, element_key}
use matrixcube.Cache.TwoQueue.{
  TwoQueue, new_two_queue, two_queue_put, two_queue_get, two_queue_remove, got, promote,
}
use matrixcube.Cache.TwoQueue.Laws.{IsTwoQueue}
use matrixcube.Cache.TwoQueue.Puts.{
  frequent_again, promoted, without_ghost, recent_gone, put-IsTwoQueue,
}

module _ {V : Type 0} where
  -- a lookup that finds a value moves its element as putting the value again would
  get-put :
      (c : Lru V) (k : ℕ) (v : V)
      → (get c k).1 ≡ some v
      → ((get c k).0 ≡ put c k v) × (member k c.cache ≡ true)
  unfolding get put
  get-put c k v h = elim (Bool-cases (member k c.cache)) [
    | inl there ↦ elim (Option-cases (element c.ll k)) [
      | inl lost ↦ absurd (ground arith)
      | inr (x, e) ↦
          let y : x.value ≡ v = ground arith in
          let z = element_key c.ll k x e in
          (
            rw (there, e)
                (ap₂
                  (λ (a : ℕ) (b : V). record c {
                    ll = record { key = a; value = b } ∷ unlink k c.ll;
                  })
                  z y),
            there,
          )
    ]
    | inr new ↦ absurd (ground arith)
  ]

  peeked : (c : Lru V) (k : ℕ) (v : V) → peek c k ≡ some v → member k c.cache ≡ true
  unfolding peek
  peeked c k v h = elim (Bool-cases (member k c.cache)) [
    | inl there ↦ there
    | inr new ↦ absurd (ground arith)
  ]

  promote-IsTwoQueue :
      (c : TwoQueue V) (k : ℕ) (o : Option V)
      → peek c.recent k ≡ o
      → IsTwoQueue c
      → IsTwoQueue (promote c k o).0
  promote-IsTwoQueue c k none e i = i
  promote-IsTwoQueue c k (some v) e i = promoted c k v i (peeked c.recent k v e)

  got-IsTwoQueue :
      (c : TwoQueue V) (k : ℕ) (f : Lru V) (o : Option V)
      → (get c.frequent k).0 ≡ f
      → (get c.frequent k).1 ≡ o
      → IsTwoQueue c
      → IsTwoQueue (got c k (f, o)).0
  got-IsTwoQueue c k f none e h i = promote-IsTwoQueue c k (peek c.recent k) refl i
  got-IsTwoQueue c k f (some v) e h i =
      let (p, there) = get-put c.frequent k v h in rw (← e, p) (frequent_again c k v i there)

  pub get-IsTwoQueue : (c : TwoQueue V) (k : ℕ) → IsTwoQueue c → IsTwoQueue (two_queue_get c k).0
  unfolding two_queue_get
  get-IsTwoQueue c k i = got-IsTwoQueue c k (get c.frequent k).0 (get c.frequent k).1 refl refl i

  frequent_gone :
      (c : TwoQueue V) (k : ℕ)
      → IsTwoQueue c
      → IsTwoQueue (record c { frequent = remove_element c.frequent k })
  unfolding remove_element
  frequent_gone c k i =
      let u = λ (j : ℕ). linked-unlink k j c.frequent.ll i.frequent_ok.distinct in
      record {
        recent_ok = i.recent_ok;
        frequent_ok = remove_element-IsLru c.frequent k i.frequent_ok;
        ghost_ok = i.ghost_ok;
        recent_max = i.recent_max;
        frequent_max = i.frequent_max;
        target = i.target;
        disjoint = λ j. ground (arith, u j, i.disjoint j);
        bounded = omega (arith, length-unlink-le k c.frequent.ll, i.bounded);
      }

  pub remove-IsTwoQueue :
      (c : TwoQueue V) (k : ℕ) → IsTwoQueue c → IsTwoQueue (two_queue_remove c k)
  unfolding two_queue_remove remove
  remove-IsTwoQueue c k i = elim (Bool-cases (member k c.frequent.cache)) [
    | inl often ↦ rw often (frequent_gone c k i)
    | inr infrequent ↦ elim (Bool-cases (member k c.recent.cache)) [
      | inl seen ↦
          let (j, room, r, f) = recent_gone c k i seen in rw (infrequent, seen) (rw seen at j)
      | inr unseen ↦ rw (infrequent, unseen) (without_ghost c k i)
    ]
  ]

  abbrev pub two_queue_step : TwoQueue V → Op V → TwoQueue V
  two_queue_step c (op_put k v) = two_queue_put c k v
  two_queue_step c (op_get k) = (two_queue_get c k).0
  two_queue_step c (op_remove k) = two_queue_remove c k

  abbrev pub two_queue_run : TwoQueue V → List (Op V) → TwoQueue V
  two_queue_run c [] = c
  two_queue_run c (o ∷ os) = two_queue_run (two_queue_step c o) os

  step-IsTwoQueue : (c : TwoQueue V) (o : Op V) → IsTwoQueue c → IsTwoQueue (two_queue_step c o)
  step-IsTwoQueue c (op_put k v) i = put-IsTwoQueue c k v i
  step-IsTwoQueue c (op_get k) i = get-IsTwoQueue c k i
  step-IsTwoQueue c (op_remove k) i = remove-IsTwoQueue c k i

  run-IsTwoQueue :
      (c : TwoQueue V) (os : List (Op V)) → IsTwoQueue c → IsTwoQueue (two_queue_run c os)
  run-IsTwoQueue c [] i = i
  run-IsTwoQueue c (o ∷ os) i = run-IsTwoQueue (two_queue_step c o) os (step-IsTwoQueue c o i)

  -- Whatever is put into a new 2Q cache of a size that is not 0, looked up and removed: its three
  -- lists agree with their maps, no key is both recent and frequent, and it never has more elements
  -- than its size.
  pub new_two_queue-run-IsTwoQueue :
      (n : ℕ) (os : List (Op V)) → n ≢ 0 → IsTwoQueue (two_queue_run (new_two_queue n) os)
  unfolding new_two_queue new_lru
  new_two_queue-run-IsTwoQueue n os h = run-IsTwoQueue (new_two_queue n) os (record {
    recent_ok = new_lru-IsLru n;
    frequent_ok = new_lru-IsLru n;
    ghost_ok = new_lru-IsLru (n / 2);
    recent_max = refl;
    frequent_max = refl;
    target = omega arith;
    disjoint = λ k. refl;
    bounded = omega arith;
  })
