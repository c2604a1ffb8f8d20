-- ===== src/Operator/Resource.antt =====
-- components/prophet/core/resource.go: the cached view of a resource, as far as operators read
-- it. A lookup that the source answers by `(peer, ok)` is an `Option`; where the source goes on
-- with the peer whatever `ok` is, the model reads it through `peer_or_zero`.
pub mod Laws
use matrixcube.Prelude.{ℕ, Bool, ◌&&◌, not, Option, none, some, List, [], ◌==◌, find_first, keep}
use matrixcube.Prelude.Bytes.{Bytes}
use matrixcube.Meta.{Peer, zero_peer, is_learner}

-- `start_key` and `end_key` are `Meta.Range()`, `peers` is `Meta.Peers()`
pub record CachedResource : Type 0 where
  pub start_key : Bytes
  pub end_key : Bytes
  pub peers : List Peer
  pub learners : List Peer
  pub voters : List Peer
  pub pending_peers : List Peer
  pub leader : Option Peer
  pub approximate_size : ℕ

unfoldable pub classify_voter_and_learner : CachedResource → CachedResource
classify_voter_and_learner res = record res {
  learners = keep is_learner res.peers;
  voters = keep (λ p. not (is_learner p)) res.peers;
}

unfoldable pub new_cached_resource :
    Bytes → Bytes → List Peer → Option Peer → List Peer → ℕ → CachedResource
unfolding classify_voter_and_learner
new_cached_resource start_key end_key peers leader pending size =
    classify_voter_and_learner (record {
      start_key = start_key;
      end_key = end_key;
      peers = peers;
      learners = [];
      voters = [];
      pending_peers = pending;
      leader = leader;
      approximate_size = size;
    })

abbrev pub peer_or_zero : Option Peer → Peer
peer_or_zero none = zero_peer
peer_or_zero (some p) = p

-- the generated getters answer 0 for a nil peer
abbrev pub leader_id : CachedResource → ℕ
leader_id res = (peer_or_zero res.leader).id

abbrev pub leader_container_id : CachedResource → ℕ
leader_container_id res = (peer_or_zero res.leader).container_id

abbrev pub at_container : ℕ → Peer → Bool
at_container container_id peer = peer.container_id == container_id

abbrev pub get_peer : CachedResource → ℕ → Option Peer
get_peer r peer_id = find_first (λ p. p.id == peer_id) r.peers

abbrev pub get_pending_voter : CachedResource → ℕ → Option Peer
get_pending_voter r peer_id =
    find_first (λ p. p.id == peer_id && not (is_learner p)) r.pending_peers

abbrev pub get_pending_learner : CachedResource → ℕ → Option Peer
get_pending_learner r peer_id = find_first (λ p. p.id == peer_id && is_learner p) r.pending_peers

abbrev pub get_container_peer : CachedResource → ℕ → Option Peer
get_container_peer r container_id = find_first (at_container container_id) r.peers

abbrev pub get_container_voter : CachedResource → ℕ → Option Peer
get_container_voter r container_id = find_first (at_container container_id) r.voters

abbrev pub get_container_learner : CachedResource → ℕ → Option Peer
get_container_learner r container_id = find_first (at_container container_id) r.learners
