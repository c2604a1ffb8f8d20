-- ===== src/Cache/TwoQueue/Puts.antt =====
-- `Put` of the 2Q cache keeps its invariant.
use matrixcube.Prelude.{ℕ, ◌<◌, ◌≡◌, sym, ◌∙◌, true, false, arith, ◌==◌, Bool-cases, inl, inr}
use matrixcube.Cache.Lru.{member, contains, remove_element, put, remove}
use matrixcube.Cache.Lru.Laws.{
  linked, linked-unlink, length-unlink, put-IsLru, remove_element-IsLru,
}
use matrixcube.Cache.Lru.Runs.{remove-IsLru}
use matrixcube.Cache.TwoQueue.{TwoQueue, two_queue_len, ensure_space, two_queue_put}
use matrixcube.Cache.TwoQueue.Laws.{
  IsTwoQueue, ensure_space-IsRoomy, put_there, put_new, put-max_count,
}

module _ {V : Type 0} where
  -- a new key goes to the frequent list, where there is room
  frequent_new :
      (c : TwoQueue V) (k : ℕ) (v : V)
      → IsTwoQueue c
      → two_queue_len c < c.size
      → linked k c.recent.ll ≡ false
      → linked k c.frequent.ll ≡ false
      → IsTwoQueue (record c { frequent = put c.frequent k v })
  frequent_new c k v i room r f =
      let e =
        put_new c.frequent k v (i.frequent_ok.synced k ∙ f) (omega (arith, i.frequent_max, room)) in
      record {
        recent_ok = i.recent_ok;
        frequent_ok = put-IsLru c.frequent k v i.frequent_ok;
        ghost_ok = i.ghost_ok;
        recent_max = i.recent_max;
        frequent_max = put-max_count c.frequent k v ∙ i.frequent_max;
        target = i.target;
        disjoint = λ j. rw e (elim (Bool-cases (k == j)) [
          | inl same ↦ let s : k ≡ j = ground arith in rw (← s) (ground (arith, r))
          | inr other ↦ rw other (i.disjoint j)
        ]);
        bounded = rw e (omega (arith, room));
      }

  recent_new :
      (c : TwoQueue V) (k : ℕ) (v : V)
      → IsTwoQueue c
      → two_queue_len c < c.size
      → linked k c.recent.ll ≡ false
      → linked k c.frequent.ll ≡ false
      → IsTwoQueue (record c { recent = put c.recent k v })
  recent_new c k v i room r f =
      let e = put_new c.recent k v (i.recent_ok.synced k ∙ r) (omega (arith, i.recent_max, room)) in
      record {
        recent_ok = put-IsLru c.recent k v i.recent_ok;
        frequent_ok = i.frequent_ok;
        ghost_ok = i.ghost_ok;
        recent_max = put-max_count c.recent k v ∙ i.recent_max;
        frequent_max = i.frequent_max;
        target = i.target;
        disjoint = λ j. rw e (elim (Bool-cases (k == j)) [
          | inl same ↦ let s : k ≡ j = ground arith in rw (← s) (ground (arith, f))
          | inr other ↦ rw other (i.disjoint j)
        ]);
        bounded = rw e (omega (arith, room));
      }

  pub frequent_again :
      (c : TwoQueue V) (k : ℕ) (v : V)
      → IsTwoQueue c
      → member k c.frequent.cache ≡ true
      → IsTwoQueue (record c { frequent = put c.frequent k v })
  frequent_again c k v i h =
      let e = put_there c.frequent k v h in
      let l : linked k c.frequent.ll ≡ true = sym (i.frequent_ok.synced k) ∙ h in
      let n = length-unlink k c.frequent.ll l in
      let u = λ (j : ℕ). linked-unlink k j c.frequent.ll i.frequent_ok.distinct in
      record {
        recent_ok = i.recent_ok;
        frequent_ok = put-IsLru c.frequent k v i.frequent_ok;
        ghost_ok = i.ghost_ok;
        recent_max = i.recent_max;
        frequent_max = put-max_count c.frequent k v ∙ i.frequent_max;
        target = i.target;
        disjoint = λ j. rw e (ground (arith, u j, i.disjoint j, i.disjoint k));
        bounded = rw e (omega (arith, n, i.bounded));
      }

  -- a recent key leaves its list, and there is room then
  pub recent_gone :
      (c : TwoQueue V) (k : ℕ)
      → IsTwoQueue c
      → member k c.recent.cache ≡ true
      → let c' = record c { recent = (remove c.recent k).0 } in
        IsTwoQueue c'
        × (two_queue_len c' < c.size)
        × (linked k c'.recent.ll ≡ false)
        × (linked k c'.frequent.ll ≡ false)
  unfolding remove remove_element
  recent_gone c k i h =
      let l : linked k c.recent.ll ≡ true = sym (i.recent_ok.synced k) ∙ h in
      let n = length-unlink k c.recent.ll l in
      let u = λ (j : ℕ). linked-unlink k j c.recent.ll i.recent_ok.distinct in
      rw h (
        record {
          recent_ok = remove_element-IsLru c.recent k i.recent_ok;
          frequent_ok = i.frequent_ok;
          ghost_ok = i.ghost_ok;
          recent_max = i.recent_max;
          frequent_max = i.frequent_max;
          target = i.target;
          disjoint = λ j. ground (arith, u j, i.disjoint j);
          bounded = omega (arith, n, i.bounded);
        },
        omega (arith, n, i.bounded),
        ground (arith, u k),
        ground (arith, i.disjoint k),
      )

  pub promoted :
      (c : TwoQueue V) (k : ℕ) (v : V)
      → IsTwoQueue c
      → member k c.recent.cache ≡ true
      → IsTwoQueue (record c { recent = (remove c.recent k).0; frequent = put c.frequent k v })
  promoted c k v i h =
      let (j, room, r, f) = recent_gone c k i h in
      frequent_new (record c { recent = (remove c.recent k).0 }) k v j room r f

  pub without_ghost :
      (c : TwoQueue V) (k : ℕ)
      → IsTwoQueue c
      → IsTwoQueue (record c { ghost = (remove c.ghost k).0 })
  without_ghost c k i = record {
    recent_ok = i.recent_ok;
    frequent_ok = i.frequent_ok;
    ghost_ok = remove-IsLru c.ghost k i.ghost_ok;
    recent_max = i.recent_max;
    frequent_max = i.frequent_max;
    target = i.target;
    disjoint = i.disjoint;
    bounded = i.bounded;
  }

  pub put-IsTwoQueue :
      (c : TwoQueue V) (k : ℕ) (v : V) → IsTwoQueue c → IsTwoQueue (two_queue_put c k v)
  unfolding two_queue_put contains
  put-IsTwoQueue c k v i = elim (Bool-cases (member k c.frequent.cache)) [
    | inl again ↦ rw again (frequent_again c k v i again)
    | inr infrequent ↦ elim (Bool-cases (member k c.recent.cache)) [
      | inl seen ↦ rw (infrequent, seen) (promoted c k v i seen)
      | inr unseen ↦
          let f = sym (i.frequent_ok.synced k) ∙ infrequent in
          let r = sym (i.recent_ok.synced k) ∙ unseen in
          elim (Bool-cases (member k c.ghost.cache)) [
            | inl known ↦
                let p = ensure_space-IsRoomy c true i in
                rw (infrequent, unseen, known)
                  (without_ghost
                    (record (ensure_space c true) {
                      frequent = put (ensure_space c true).frequent k v;
                    })
                    k
                    (frequent_new (ensure_space c true) k v p.ok p.room (p.recent_sub k r)
                      (p.frequent_sub k f)))
            | inr unknown ↦
                let p = ensure_space-IsRoomy c false i in
                rw (infrequent, unseen, unknown)
                  (recent_new (ensure_space c false) k v p.ok p.room (p.recent_sub k r)
                    (p.frequent_sub k f))
          ]
    ]
  ]
