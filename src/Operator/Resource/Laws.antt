-- ===== src/Operator/Resource/Laws.antt =====
-- Lookups by container in a well-formed resource.
use matrixcube.Prelude.{
  ℕ, ◌≡◌, ◌≢◌, refl, Bool, not, Option, none, some, List, [], ◌∷◌, arith, All, find_first, keep,
  if◌then◌else◌,
}
use matrixcube.Meta.{Peer, is_learner}
use matrixcube.Meta.Laws.{HasDistinctContainers}
use matrixcube.Operator.Resource.{
  CachedResource, classify_voter_and_learner, at_container, get_container_peer, get_container_voter,
  get_container_learner,
}

pub record IsClassified (r : CachedResource) : Type 0 where
  pub by_role_learners : r.learners ≡ keep is_learner r.peers
  pub by_role_voters : r.voters ≡ keep (λ p. not (is_learner p)) r.peers
  pub distinct : HasDistinctContainers r.peers

pub classify-IsClassified :
    (r : CachedResource)
    → HasDistinctContainers r.peers
    → IsClassified (classify_voter_and_learner r)
unfolding classify_voter_and_learner
classify-IsClassified r h = record { by_role_learners = refl; by_role_voters = refl; distinct = h }

find_absent :
    (f : Peer → Bool) (c : ℕ) (ps : List Peer)
    → All (λ (q : Peer). q.container_id ≢ c) ps
    → find_first (at_container c) (keep f ps) ≡ none
find_absent f c [] h = refl
find_absent f c (p ∷ ps) h = ground (arith, find_absent f c ps)

-- the peer of a container, if it passes the test
abbrev pub filtered : (Peer → Bool) → Option Peer → Option Peer
filtered f none = none
filtered f (some p) = if f p then some p else none

find_first-keep :
    (f : Peer → Bool) (c : ℕ) (ps : List Peer)
    → HasDistinctContainers ps
    → find_first (at_container c) (keep f ps) ≡ filtered f (find_first (at_container c) ps)
find_first-keep f c [] h = refl
find_first-keep f c (p ∷ ps) h =
    ground (arith, find_absent f p.container_id ps h.0, find_first-keep f c ps h.1)

-- In a classified resource the voter and the learner of a container are its only peer, by role.
pub get_container_voter_lem :
    (r : CachedResource) (c : ℕ)
    → IsClassified r
    → get_container_voter r c ≡ filtered (λ p. not (is_learner p)) (get_container_peer r c)
get_container_voter_lem r c i =
    rw i.by_role_voters (find_first-keep (λ p. not (is_learner p)) c r.peers i.distinct)

pub get_container_learner_lem :
    (r : CachedResource) (c : ℕ)
    → IsClassified r
    → get_container_learner r c ≡ filtered is_learner (get_container_peer r c)
get_container_learner_lem r c i =
    rw i.by_role_learners (find_first-keep is_learner c r.peers i.distinct)
