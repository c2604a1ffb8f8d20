-- ===== src/Raft/Split/Queue.antt =====
-- The keys that the first loop of `doExecSplit` accepts.
use mathlib.Core.Path.{subst}
use matrixcube.Prelude.{ℕ, ◌≡◌, refl, true, Option, none, some, List, [], ◌∷◌, arith, length}
use matrixcube.Prelude.Bytes.{Bytes, bytes_lt}
use matrixcube.Storage.Keys.{decode_data_key}
use matrixcube.Raft.Split.{
  SplitRequest, Keys, keys, bad, panics, push_front, check_request, split_keys,
}

-- strictly increasing, from above a key on
abbrev pub Increasing : Bytes → List Bytes → Type 0
Increasing prev [] = Unit
Increasing prev (k ∷ ks) = (bytes_lt prev k ≡ true) × Increasing k ks

-- what each round has checked
abbrev pub Checked : ℕ → List SplitRequest → List Bytes → Type 0
Checked peers [] [] = Unit
Checked peers (r ∷ rs) (k ∷ ks) =
    (decode_data_key r.split_key ≡ some k) × (length r.new_peer_ids ≡ peers) × Checked peers rs ks
Checked peers _ _ = ⊥

pushed :
    (k : Bytes) (r : Keys) (ks : List Bytes)
    → push_front k r ≡ keys ks
    → (ks' : List Bytes) × (r ≡ keys ks') × (ks ≡ k ∷ ks')
pushed k (keys ks') ks h = (ks', refl, ground arith)
pushed k (bad e) ks h = cc
pushed k panics ks h = cc

checked_request :
    (peers : ℕ) (prev : Bytes) (req : SplitRequest) (o : Option Bytes) (next : Bytes → Keys)
    (ks : List Bytes)
    → check_request peers prev req o next ≡ keys ks
    → (k : Bytes) × (ks' : List Bytes) × (o ≡ some k)
      × (bytes_lt prev k ≡ true)
      × (length req.new_peer_ids ≡ peers)
      × (next k ≡ keys ks')
      × (ks ≡ k ∷ ks')
checked_request peers prev req none next ks h = cc
checked_request peers prev req (some k) next ks h =
    let p : push_front k (next k) ≡ keys ks = ground arith in
    let (ks', a, b) = pushed k (next k) ks p in (k, ks', refl, ground arith, ground arith, a, b)

pub split_keys_lem :
    (peers : ℕ) (prev : Bytes) (reqs : List SplitRequest) (ks : List Bytes)
    → split_keys peers prev reqs ≡ keys ks
    → Increasing prev ks × Checked peers reqs ks
unfolding split_keys
split_keys_lem peers prev [] ks h =
    let e : [] ≡ ks = ground arith in subst (λ x. Increasing prev x × Checked peers [] x) e (tt, tt)
split_keys_lem peers prev (req ∷ rest) ks h =
    let next = λ (key : Bytes). split_keys peers key rest in
    let c : check_request peers prev req (decode_data_key req.split_key) next ≡ keys ks =
      ground arith in
    let (k, ks', o, lt, n, t, e) =
      checked_request peers prev req (decode_data_key req.split_key) next ks c in
    let (i, j) = split_keys_lem peers k rest ks' t in rw e ((lt, i), (o, n, j))
