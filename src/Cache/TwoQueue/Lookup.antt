-- ===== src/Cache/TwoQueue/Lookup.antt =====
-- What a lookup in a 2Q cache finds.
use matrixcube.Prelude.{ℕ, ◌≡◌, refl, sym, ◌∙◌, true, false, none, some, Bool-cases, inl, inr}
use matrixcube.Cache.Lru.{Lru, member, contains, put, peek, remove}
use matrixcube.Cache.Lru.Laws.{IsLru, linked}
use matrixcube.Cache.Lru.Runs.{peek-put}
use matrixcube.Cache.TwoQueue.{TwoQueue, ensure_space, first_value, two_queue_put, two_queue_peek}
use matrixcube.Cache.TwoQueue.Laws.{IsTwoQueue, ensure_space-IsRoomy}

module _ {V : Type 0} where
  not_peeked : (c : Lru V) (k : ℕ) → IsLru c → linked k c.ll ≡ false → peek c k ≡ none
  unfolding peek
  not_peeked c k i h = rw (i.synced k ∙ h) refl

  in_frequent :
      (f r : Lru V) (k : ℕ) (v : V) → IsLru f → first_value (peek (put f k v) k) (peek r k) ≡ some v
  in_frequent f r k v i = rw (peek-put f k v i) refl

  -- After `Put` a lookup of the key finds the value, wherever the key was before: in the frequent
  -- list, the recent list, the ghost list, or nowhere.
  pub two_queue_peek-two_queue_put :
      (c : TwoQueue V) (k : ℕ) (v : V)
      → IsTwoQueue c
      → two_queue_peek (two_queue_put c k v) k ≡ some v
  unfolding two_queue_peek two_queue_put contains
  two_queue_peek-two_queue_put c k v i = elim (Bool-cases (member k c.frequent.cache)) [
    | inl again ↦ rw again (in_frequent c.frequent c.recent k v i.frequent_ok)
    | inr infrequent ↦ elim (Bool-cases (member k c.recent.cache)) [
      | inl seen ↦
          rw (infrequent, seen) (in_frequent c.frequent (remove c.recent k).0 k v i.frequent_ok)
      | inr unseen ↦ elim (Bool-cases (member k c.ghost.cache)) [
        | inl known ↦
            let p = ensure_space-IsRoomy c true i in
            rw (infrequent, unseen, known)
              (in_frequent (ensure_space c true).frequent (ensure_space c true).recent k v
                p.ok.frequent_ok)
        | inr unknown ↦
            let p = ensure_space-IsRoomy c false i in
            let f = p.frequent_sub k (sym (i.frequent_ok.synced k) ∙ infrequent) in
            rw (infrequent, unseen, unknown)
              (rw
                (
                  not_peeked (ensure_space c false).frequent k p.ok.frequent_ok f,
                  peek-put (ensure_space c false).recent k v p.ok.recent_ok,
                )
                refl)
      ]
    ]
  ]
