-- ===== src/Operator/Builder/Requests.antt =====
-- The requests on a builder of components/prophet/schedule/operator/builder.go, one after the other.
use matrixcube.Prelude.{
  ℕ, suc, ◌+◌, ltb, map, ◌≡◌, refl, Bool, true, false, not, List, [], ◌∷◌, ◌==◌, if◌then◌else◌,
  Bool-cases, Option-cases, inl, inr,
}
use matrixcube.Meta.{Peer, ResourceEpoch, is_learner, in_joint, voter, learner}
use matrixcube.Operator.Resource.{CachedResource}
use matrixcube.Operator.Builder.Peers.{
  PeersMap, lookup, has, set, copy, IsMap, set-IsMap, delete-IsMap, set_all-IsMap,
}
use matrixcube.Operator.Builder.{
  Builder, unless_failed, Cluster, RuleRole, rule_voter, rule_leader, rule_follower, rule_learner,
  with_role, mismatched, scan_roles, unless_new_error, collect_origin, new_builder, add_peer,
  remove_peer, promote_learner, demote_voter, set_leader, set_peers, set_expected_roles,
  enable_light_weight, enable_force_target_leader,
}

-- a call of one of the requests, with its arguments
pub data Request : Type 0 where
  adds : Peer → Request
  removes : ℕ → Request
  promotes : ℕ → Request
  demotes : ℕ → Request
  leads : ℕ → Request
  sets : List (ℕ × Peer) → Request
  expects : List (ℕ × RuleRole) → Request
  is_light : Request
  is_forced : Request

unfoldable pub request : Builder → Request → Builder
request b (adds p) = add_peer b p
request b (removes id) = remove_peer b id
request b (promotes id) = promote_learner b id
request b (demotes id) = demote_voter b id
request b (leads id) = set_leader b id
request b (sets entries) = set_peers b entries
request b (expects roles) = set_expected_roles b roles
request b is_light = enable_light_weight b
request b is_forced = enable_force_target_leader b

unfoldable pub requests : Builder → List Request → Builder
requests b [] = b
requests b (r ∷ rs) = requests (request b r) rs

-- Each container has one target peer, and the origin peers and the steps are those of `o`.
abbrev pub IsOpen : Builder → Builder → Type 0
IsOpen o b =
    ((b.origin_peers ≡ o.origin_peers) × (b.steps ≡ o.steps))
    × (b.allow_demote ≡ o.allow_demote)
    × (b.use_joint ≡ o.use_joint)
    × IsMap b.target_peers

module _ (o : Builder) where
  if-IsOpen : (c : Bool) (x y : Builder) → IsOpen o x → IsOpen o y → IsOpen o (if c then x else y)
  if-IsOpen true x y i j = i
  if-IsOpen false x y i j = j

  unless_failed-IsOpen :
      (b next : Builder) → IsOpen o b → IsOpen o next → IsOpen o (unless_failed b next)
  unless_failed-IsOpen b next i j = elim (Option-cases b.err) [
    | inl e ↦ rw e j
    | inr (x, e) ↦ rw e i
  ]

  -- the roles change the target leader and the error only
  scan_roles-IsOpen :
      (roles : List (ℕ × RuleRole)) (leaders voters : ℕ) (b : Builder)
      → IsOpen o b
      → IsOpen o (scan_roles roles leaders voters b)
  unfolding scan_roles
  scan_roles-IsOpen [] l v b i = if-IsOpen (l + v == 0) _ b i i
  scan_roles-IsOpen ((id, rule_leader) ∷ rest) l v b i =
      if-IsOpen (ltb 0 l) _ _ i (scan_roles-IsOpen rest (suc l) v _ i)
  scan_roles-IsOpen ((id, rule_voter) ∷ rest) l v b i = scan_roles-IsOpen rest l _ b i
  scan_roles-IsOpen ((id, rule_follower) ∷ rest) l v b i =
      scan_roles-IsOpen rest l v _ (if-IsOpen (b.target_leader == id) _ _ i i)
  scan_roles-IsOpen ((id, rule_learner) ∷ rest) l v b i =
      scan_roles-IsOpen rest l v _ (if-IsOpen (b.target_leader == id) _ _ i i)

  unless_new_error-IsOpen :
      (b : Builder) (roles : List (ℕ × RuleRole)) → IsOpen o b → IsOpen o (unless_new_error b roles)
  unless_new_error-IsOpen b roles i = elim (Option-cases b.err) [
    | inl e ↦ rw e i
    | inr (x, e) ↦ rw e i
  ]

  promote_learner-IsOpen : (b : Builder) (id : ℕ) → IsOpen o b → IsOpen o (promote_learner b id)
  unfolding promote_learner
  promote_learner-IsOpen b id i =
      unless_failed-IsOpen b _ i (elim (Option-cases (lookup b.target_peers id)) [
        | inl e ↦ rw e i
        | inr (p, e) ↦ rw e (
            if-IsOpen (not (is_learner p)) _ _ i (
              if-IsOpen (has b.unhealthy_peers id) _ _ i
                (i.0, i.1, i.2, set-IsMap b.target_peers (with_role p voter) i.3)))
      ])

  demote_voter-IsOpen : (b : Builder) (id : ℕ) → IsOpen o b → IsOpen o (demote_voter b id)
  unfolding demote_voter
  demote_voter-IsOpen b id i =
      unless_failed-IsOpen b _ i (elim (Option-cases (lookup b.target_peers id)) [
        | inl e ↦ rw e i
        | inr (p, e) ↦ rw e (
            if-IsOpen (is_learner p) _ _ i
              (i.0, i.1, i.2, set-IsMap b.target_peers (with_role p learner) i.3))
      ])

  set_leader-IsOpen : (b : Builder) (id : ℕ) → IsOpen o b → IsOpen o (set_leader b id)
  unfolding set_leader
  set_leader-IsOpen b id i =
      unless_failed-IsOpen b _ i (elim (Option-cases (lookup b.target_peers id)) [
        | inl e ↦ rw e i
        | inr (p, e) ↦
            rw e (if-IsOpen (is_learner p) _ _ i (if-IsOpen (has b.unhealthy_peers id) _ _ i i))
      ])

  request-IsOpen : (b : Builder) (r : Request) → IsOpen o b → IsOpen o (request b r)
  unfolding request add_peer remove_peer set_peers set_expected_roles enable_light_weight
      enable_force_target_leader
  request-IsOpen b (adds p) i = unless_failed-IsOpen b _ i (
      if-IsOpen (p.container_id == 0) _ _ i (
        if-IsOpen (in_joint p) _ _ i (
          if-IsOpen (has b.target_peers p.container_id) _ _ i
            (i.0, i.1, i.2, set-IsMap b.target_peers p i.3))))
  request-IsOpen b (removes id) i = unless_failed-IsOpen b _ i (
      if-IsOpen (not (has b.target_peers id)) _ _ i (
        if-IsOpen (b.target_leader == id) _ _ i
          (i.0, i.1, i.2, delete-IsMap b.target_peers id i.3)))
  request-IsOpen b (promotes id) i = promote_learner-IsOpen b id i
  request-IsOpen b (demotes id) i = demote_voter-IsOpen b id i
  request-IsOpen b (leads id) i = set_leader-IsOpen b id i
  request-IsOpen b (sets entries) i = unless_failed-IsOpen b _ i (
      if-IsOpen (mismatched entries) _ _ i
        (i.0, i.1, i.2, set_all-IsMap [] (map (λ (e : ℕ × Peer). e.1) entries) tt))
  request-IsOpen b (expects roles) i =
      unless_failed-IsOpen b _ i (unless_new_error-IsOpen _ roles (scan_roles-IsOpen roles 0 0 b i))
  request-IsOpen b is_light i = i
  request-IsOpen b is_forced i = i

  requests-IsOpen : (b : Builder) (rs : List Request) → IsOpen o b → IsOpen o (requests b rs)
  unfolding requests
  requests-IsOpen b [] i = i
  requests-IsOpen b (r ∷ rs) i = requests-IsOpen (request b r) rs (request-IsOpen b r i)

collect_origin-IsMap : (ps : List Peer) (m : PeersMap) → IsMap m → IsMap (collect_origin ps m).0
unfolding collect_origin
collect_origin-IsMap [] m i = i
collect_origin-IsMap (p ∷ ps) m i = elim (Bool-cases (p.container_id == 0)) [
  | inl e ↦ rw (e, collect_origin) i
  | inr e ↦ rw (e, collect_origin) (collect_origin-IsMap ps (set m p) (set-IsMap m p i))
]

-- whatever is asked of a new builder, each container has one origin and one target peer, demotion is
-- allowed where the cluster has joint consensus, and there is no step
pub requests-new_builder-IsMap :
    (c : Cluster) (id : ℕ) (epoch : ResourceEpoch) (res : CachedResource) (down : List Peer)
    (skip : Bool) (rs : List Request)
    → IsMap (requests (new_builder c id epoch res down skip) rs).origin_peers
      × IsMap (requests (new_builder c id epoch res down skip) rs).target_peers
      × ((requests (new_builder c id epoch res down skip) rs).allow_demote
          ≡ c.joint_consensus_enabled)
      × ((requests (new_builder c id epoch res down skip) rs).steps ≡ [])
unfolding new_builder copy
requests-new_builder-IsMap c id epoch res down skip rs =
    let b = new_builder c id epoch res down skip in
    let m = collect_origin-IsMap res.peers [] tt in
    let i = requests-IsOpen b b rs ((refl, refl), refl, refl, set_all-IsMap [] b.origin_peers tt) in
    (rw i.0.0 m, i.3, i.1, i.0.1)
