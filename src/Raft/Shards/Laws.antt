-- ===== src/Raft/Shards/Laws.antt =====
-- Peers found, set and removed by store.
use matrixcube.Prelude.{
  leb, ◌∙◌, ℕ, ◌≡◌, ◌≢◌, refl, Bool, true, false, not, ◌&&◌, ◌||◌, none, some, List, [], ◌∷◌, ◌++◌,
  arith, All, keep, ◌==◌, if◌then◌else◌, Bool-cases, inl, inr,
}
use matrixcube.Meta.{Peer, PeerRole, ResourceEpoch, Shard}
use matrixcube.Meta.Laws.{HasDistinctContainers}
use matrixcube.Raft.Shards.{
  is_epoch_stale, in_store, find_peer, set_role, remove_peer, has_peer, removed_peers,
  transfer_leader, batch_split, change_peer, change_peer_v2, compact_log, other_admin, Header,
  header_fresh, check_epoch,
}

pub find_peer-set_role :
    (ps : List Peer) (c : ℕ) (q : Peer) (r : PeerRole)
    → find_peer ps c ≡ some q
    → find_peer (set_role ps c r) c ≡ some (record q { role = r })
unfolding find_peer set_role
find_peer-set_role [] c q r h = cc
find_peer-set_role (p ∷ ps) c q r h = ground (arith, find_peer-set_role ps c q r)

absent_append :
    (c : ℕ) (ps : List Peer) (q : Peer)
    → All (λ (p : Peer). p.container_id ≢ c) ps
    → q.container_id ≢ c
    → All (λ (p : Peer). p.container_id ≢ c) (ps ++ q ∷ [])
absent_append c [] q h k = (k, tt)
absent_append c (p ∷ ps) q h k = (h.0, absent_append c ps q h.1 k)

-- a peer in a store that had none keeps the stores distinct
pub HasDistinctContainers-append :
    (ps : List Peer) (q : Peer)
    → HasDistinctContainers ps
    → find_peer ps q.container_id ≡ none
    → HasDistinctContainers (ps ++ q ∷ [])
unfolding find_peer
HasDistinctContainers-append [] q h k = (tt, tt)
HasDistinctContainers-append (p ∷ ps) q h k = (
  absent_append p.container_id ps q h.0 (ground arith),
  HasDistinctContainers-append ps q h.1 (ground arith),
)

pub find_peer-append :
    (ps : List Peer) (q : Peer)
    → find_peer ps q.container_id ≡ none
    → find_peer (ps ++ q ∷ []) q.container_id ≡ some q
unfolding find_peer
find_peer-append [] q h = ground arith
find_peer-append (p ∷ ps) q h = ground (arith, find_peer-append ps q)

absent_set_role :
    (c d : ℕ) (r : PeerRole) (ps : List Peer)
    → All (λ (p : Peer). p.container_id ≢ c) ps
    → All (λ (p : Peer). p.container_id ≢ c) (set_role ps d r)
unfolding set_role
absent_set_role c d r [] h = tt
absent_set_role c d r (p ∷ ps) h = ground (arith, absent_set_role c d r ps)

pub HasDistinctContainers-set_role :
    (ps : List Peer) (c : ℕ) (r : PeerRole)
    → HasDistinctContainers ps
    → HasDistinctContainers (set_role ps c r)
unfolding set_role
HasDistinctContainers-set_role [] c r h = tt
HasDistinctContainers-set_role (p ∷ ps) c r h = elim (Bool-cases (in_store c p)) [
  | inl here ↦ rw here h
  | inr there ↦
      rw there
        (absent_set_role p.container_id c r ps h.0, HasDistinctContainers-set_role ps c r h.1)
]

absent_keep :
    (c d : ℕ) (ps : List Peer)
    → All (λ (p : Peer). p.container_id ≢ c) ps
    → All (λ (p : Peer). p.container_id ≢ c) (keep (λ p. not (in_store d p)) ps)
absent_keep c d [] h = tt
absent_keep c d (p ∷ ps) h = elim (Bool-cases (in_store d p)) [
  | inl gone ↦ rw gone (absent_keep c d ps h.1)
  | inr kept ↦ rw kept (h.0, absent_keep c d ps h.1)
]

pub HasDistinctContainers-remove_peer :
    (ps : List Peer) (c : ℕ) → HasDistinctContainers ps → HasDistinctContainers (remove_peer ps c).1
unfolding remove_peer
HasDistinctContainers-remove_peer [] c h = tt
HasDistinctContainers-remove_peer (p ∷ ps) c h = elim (Bool-cases (in_store c p)) [
  | inl gone ↦ rw gone (HasDistinctContainers-remove_peer ps c h.1)
  | inr kept ↦
      rw kept (absent_keep p.container_id c ps h.0, HasDistinctContainers-remove_peer ps c h.1)
]

-- The store of `removePeer` is empty afterwards, and the other stores keep their peers.
pub find_peer-remove_peer :
    (ps : List Peer) (c d : ℕ)
    → find_peer (remove_peer ps c).1 d ≡ (if d == c then none else find_peer ps d)
unfolding find_peer remove_peer
find_peer-remove_peer [] c d = ground arith
find_peer-remove_peer (p ∷ ps) c d = ground (arith, find_peer-remove_peer ps c d)

fresh_lem :
    (cv v : Bool) (epoch : ResourceEpoch) (h : Header)
    → (if not cv && not v then true else header_fresh cv v epoch h)
      ≡ (not cv || leb epoch.conf_ver h.epoch.conf_ver)
        && (not v || (h.ignore_epoch_check || leb epoch.version h.epoch.version))
fresh_lem cv v epoch h = ground arith

-- `checkEpoch`, command by command. A write and a split pass with a header whose version is not
-- older than that of the shard, or that asks to ignore it; a `ChangePeer` with one whose configuration
-- version is not older; a transfer of the leader with both. These fail without a header. All others,
-- and `ChangePeerV2` with them, always pass.
pub check_epoch_lem :
    (shard : Shard) (h : Header) (n : ℕ)
    → let conf_ver = leb shard.epoch.conf_ver h.epoch.conf_ver in
      let version = h.ignore_epoch_check || leb shard.epoch.version h.epoch.version in
      (check_epoch shard none (some h) ≡ version)
      × (check_epoch shard (some batch_split) (some h) ≡ version)
      × (check_epoch shard (some change_peer) (some h) ≡ conf_ver)
      × (check_epoch shard (some transfer_leader) (some h) ≡ conf_ver && version)
      × (check_epoch shard (some change_peer_v2) (some h) ≡ true)
      × (check_epoch shard (some compact_log) (some h) ≡ true)
      × (check_epoch shard (some (other_admin n)) (some h) ≡ true)
      × (check_epoch shard none none ≡ false)
      × (check_epoch shard (some batch_split) none ≡ false)
      × (check_epoch shard (some change_peer) none ≡ false)
      × (check_epoch shard (some transfer_leader) none ≡ false)
      × (check_epoch shard (some change_peer_v2) none ≡ true)
      × (check_epoch shard (some compact_log) none ≡ true)
      × (check_epoch shard (some (other_admin n)) none ≡ true)
unfolding check_epoch
check_epoch_lem shard h n = (
  fresh_lem false true shard.epoch h,
  fresh_lem false true shard.epoch h,
  fresh_lem true false shard.epoch h ∙ ground arith,
  fresh_lem true true shard.epoch h,
  refl,
  refl,
  refl,
  refl,
  refl,
  refl,
  refl,
  refl,
  refl,
  refl,
)

-- For a transfer of the leader that does not ignore the epoch, `checkEpoch` is the negation of
-- `isEpochStale` on the epoch of the request.
pub check_epoch-is_epoch_stale :
    (shard : Shard) (h : Header)
    → h.ignore_epoch_check ≡ false
    → check_epoch shard (some transfer_leader) (some h) ≡ not (is_epoch_stale h.epoch shard.epoch)
unfolding check_epoch is_epoch_stale
check_epoch-is_epoch_stale shard h e = ground arith

pub contains : ℕ → List ℕ → Bool
contains a [] = false
contains a (x ∷ xs) = if x == a then true else contains a xs

-- `removedPeers` reports the id of an old peer exactly when no new peer has it.
pub contains-removed_peers :
    (new old : List Peer) (id : ℕ)
    → contains id (removed_peers new old) ≡ has_peer old id && not (has_peer new id)
unfolding contains removed_peers has_peer
contains-removed_peers new [] id = refl
contains-removed_peers new (o ∷ rest) id = ground (arith, contains-removed_peers new rest id)

-- some peer is in the store
abbrev pub holds : List Peer → ℕ → Bool
holds [] c = false
holds (p ∷ ps) c = if in_store c p then true else holds ps c

pub holds-set_role :
    (ps : List Peer) (c d : ℕ) (r : PeerRole) → holds (set_role ps c r) d ≡ holds ps d
unfolding set_role
holds-set_role [] c d r = refl
holds-set_role (p ∷ ps) c d r = ground (arith, holds-set_role ps c d r)

pub find_peer-none : (ps : List Peer) (c : ℕ) → holds ps c ≡ false → find_peer ps c ≡ none
unfolding find_peer
find_peer-none [] c h = refl
find_peer-none (p ∷ ps) c h = ground (arith, find_peer-none ps c)

pub find_peer-some :
    (ps : List Peer) (c : ℕ) → holds ps c ≡ true → (q : Peer) × (find_peer ps c ≡ some q)
unfolding find_peer
find_peer-some [] c h = cc
find_peer-some (p ∷ ps) c h = elim (Bool-cases (in_store c p)) [
  | inl here ↦ (p, rw here)
  | inr there ↦ rw there (find_peer-some ps c (ground arith))
]

pub find_peer-holds : (ps : List Peer) (c : ℕ) → find_peer ps c ≡ none → holds ps c ≡ false
unfolding find_peer
find_peer-holds [] c h = refl
find_peer-holds (p ∷ ps) c h = ground (arith, find_peer-holds ps c)

pub holds-append :
    (ps : List Peer) (q : Peer) (c : ℕ) → holds (ps ++ q ∷ []) c ≡ holds ps c || in_store c q
holds-append [] q c = ground arith
holds-append (p ∷ ps) q c = ground (arith, holds-append ps q c)

pub holds-remove_peer :
    (ps : List Peer) (c d : ℕ) → holds (remove_peer ps c).1 d ≡ not (d == c) && holds ps d
unfolding remove_peer
holds-remove_peer [] c d = ground arith
holds-remove_peer (p ∷ ps) c d = ground (arith, holds-remove_peer ps c d)
