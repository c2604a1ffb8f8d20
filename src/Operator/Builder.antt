-- ===== src/Operator/Builder.antt =====
-- components/prophet/schedule/operator/builder.go: the builder of operators, its state, and the
-- requests on it. The interface of the cluster is a record of what the builder asks it; the filter
-- of container states and the label constraints of the placement rules are asked there too. The
-- texts of a builder and of its errors are left out.
pub mod Peers
pub mod Requests
pub mod Prepare
pub mod Pending
pub mod Exec
pub mod JointPlan
pub mod Outcome
pub mod Leader
pub mod Added
pub mod Result
pub mod Changed
pub mod Built
pub mod StepPlan
pub mod PlainPlan
pub mod Plans
pub mod Rounds
pub mod Finals
pub mod Targets
pub mod Builds
pub mod Play
pub mod Ready
pub mod JointSteps
pub mod Start
pub mod PlainPlay
pub mod JointPlay
use matrixcube.Prelude.{
  ℕ, suc, ◌+◌, Bool, true, false, not, ◌&&◌, ◌||◌, Option, none, some, List, [], ◌∷◌, ltb, ◌==◌,
  if◌then◌else◌, length, map,
}
use matrixcube.Prelude.Bytes.{Bytes}
use matrixcube.Meta.{
  Peer, PeerRole, voter, learner, ResourceEpoch, is_learner, role_is_learner, role_is_demoting,
  is_in_joint_state, in_joint,
}
use matrixcube.Operator.Resource.{CachedResource}
use matrixcube.Operator.OpStep.{OpStep}
use matrixcube.Operator.Builder.Peers.{PeersMap, lookup, has, set, delete, set_all, copy}

-- placement.PeerRoleType
pub data RuleRole : Type 0 where
  rule_voter rule_leader rule_follower rule_learner : RuleRole

-- a placement rule: its role, and the containers whose labels match its constraints
pub record Rule : Type 0 where
  pub role : RuleRole
  pub matches : ℕ → Bool

-- a container: `IsUp`, and whether the filter of its state admits it as the target of a leader
pub record Container : Type 0 where
  pub is_up : Bool
  pub admits_leader : Bool
  -- `GetLabelValue`
  pub label_value : Bytes → Bytes

pub record Cluster : Type 0 where
  pub get_container : ℕ → Option Container
  pub joint_consensus_enabled : Bool
  pub use_joint_consensus : Bool
  pub placement_rules_enabled : Bool
  pub location_labels : List Bytes
  -- the rules of `FitResource`
  pub fit_rules : List Rule
  -- the ids that `AllocID` gives one after the other; at the end it fails
  pub ids : List ℕ

pub data BuilderError : Type 0 where
  nil_peer no_leader no_rule joint_resource joint_peer has_peer not_found : BuilderError
  is_target_leader not_a_learner unhealthy already_learner not_a_voter : BuilderError
  mismatched_peers multiple_leaders no_voter_role no_voter no_id : BuilderError
  leader_not_allowed no_valid_leader empty_plan no_step : BuilderError

pub record Builder : Type 0 where
  pub cluster : Cluster
  pub res_id : ℕ
  pub res_epoch : ResourceEpoch
  pub rules : List Rule
  pub expected_roles : List (ℕ × RuleRole)
  pub origin_peers : PeersMap
  pub unhealthy_peers : PeersMap
  pub origin_leader : ℕ
  pub target_peers : PeersMap
  -- 0 is no container
  pub target_leader : ℕ
  pub err : Option BuilderError
  pub allow_demote : Bool
  pub use_joint : Bool
  pub light_weight : Bool
  pub force_target_leader : Bool
  pub current_peers : PeersMap
  pub current_leader : ℕ
  pub to_add : PeersMap
  pub to_remove : PeersMap
  pub to_promote : PeersMap
  pub to_demote : PeersMap
  pub steps : List OpStep
  pub peer_add_step : List (ℕ × ℕ)

abbrev pub fail : Builder → BuilderError → Builder
fail b e = record b { err = some e }

-- what every request does first
abbrev pub unless_failed : Builder → Builder → Builder
unless_failed b next = elim (b.err) [ none ↦ next | some e ↦ b ]

-- the loop over the peers of the resource
unfoldable pub collect_origin : List Peer → PeersMap → PeersMap × Option BuilderError
collect_origin [] m = (m, none)
collect_origin (p ∷ ps) m =
    let rest = collect_origin ps (set m p) in
    if p.container_id == 0 then (m, some nil_peer) else rest

abbrev pub or_error : Option BuilderError → Option BuilderError → Option BuilderError
or_error none e = e
or_error (some d) e = some d

abbrev pub no_error : Option BuilderError → Bool
no_error none = true
no_error (some e) = false

abbrev pub when : Bool → BuilderError → Option BuilderError
when true e = some e
when false e = none

-- the leader of the resource, which must be one of its peers
unfoldable pub leader_error : CachedResource → PeersMap → Option BuilderError → Option BuilderError
leader_error res origin err = elim (res.leader) [
  | none ↦ some no_leader
  | some l ↦ or_error err (when (not (has origin l.container_id)) no_leader)
]

abbrev pub leader_container : CachedResource → ℕ
leader_container res = elim (res.leader) [ none ↦ 0 | some l ↦ l.container_id ]

-- `skip_joint_check` is the option `SkipOriginJointStateCheck`; `down` are the down peers
unfoldable pub new_builder :
    Cluster → ℕ → ResourceEpoch → CachedResource → List Peer → Bool → Builder
new_builder c res_id res_epoch res down skip_joint_check =
    let origin = collect_origin res.peers [] in
    let err1 = leader_error res origin.0 origin.1 in
    let ruled = no_error err1 && c.placement_rules_enabled in
    let rules = if ruled then c.fit_rules else [] in
    let err2 = or_error err1 (when (ruled && length rules == 0) no_rule) in
    let err3 =
      or_error err2 (when (not skip_joint_check && is_in_joint_state res.peers) joint_resource) in
    record {
      cluster = c;
      res_id = res_id;
      res_epoch = res_epoch;
      rules = rules;
      expected_roles = [];
      origin_peers = origin.0;
      unhealthy_peers = set_all (set_all [] res.pending_peers) down;
      origin_leader = leader_container res;
      target_peers = copy origin.0;
      target_leader = 0;
      err = err3;
      allow_demote = c.joint_consensus_enabled;
      use_joint = c.joint_consensus_enabled && c.use_joint_consensus;
      light_weight = false;
      force_target_leader = false;
      current_peers = [];
      current_leader = 0;
      to_add = [];
      to_remove = [];
      to_promote = [];
      to_demote = [];
      steps = [];
      peer_add_step = [];
    }

unfoldable pub add_peer : Builder → Peer → Builder
add_peer b peer = unless_failed b (
    if peer.container_id == 0
    then fail b nil_peer
    else if in_joint peer
    then fail b joint_peer
    else if has b.target_peers peer.container_id
    then fail b has_peer
    else record b { target_peers = set b.target_peers peer })

unfoldable pub remove_peer : Builder → ℕ → Builder
remove_peer b id = unless_failed b (
    if not (has b.target_peers id)
    then fail b not_found
    else if b.target_leader == id
    then fail b is_target_leader
    else record b { target_peers = delete b.target_peers id })

abbrev pub with_role : Peer → PeerRole → Peer
with_role p r = record { id = p.id; container_id = p.container_id; role = r }

unfoldable pub promote_learner : Builder → ℕ → Builder
promote_learner b id = unless_failed b (elim (lookup b.target_peers id) [
  | none ↦ fail b not_found
  | some peer ↦
      if not (is_learner peer)
      then fail b not_a_learner
      else if has b.unhealthy_peers id
      then fail b unhealthy
      else record b { target_peers = set b.target_peers (with_role peer voter) }
])

unfoldable pub demote_voter : Builder → ℕ → Builder
demote_voter b id = unless_failed b (elim (lookup b.target_peers id) [
  | none ↦ fail b not_found
  | some peer ↦
      if is_learner peer
      then fail b already_learner
      else record b { target_peers = set b.target_peers (with_role peer learner) }
])

unfoldable pub set_leader : Builder → ℕ → Builder
set_leader b id = unless_failed b (elim (lookup b.target_peers id) [
  | none ↦ fail b not_found
  | some peer ↦
      if is_learner peer
      then fail b not_a_voter
      else if has b.unhealthy_peers id
      then fail b unhealthy
      else record b { target_leader = id }
])

-- a map of peers by containers, as the list of its entries
unfoldable pub mismatched : List (ℕ × Peer) → Bool
mismatched [] = false
mismatched ((key, peer) ∷ rest) =
    if key == 0 || not (peer.container_id == key) || in_joint peer then true else mismatched rest

abbrev pub peers_of : List (ℕ × Peer) → PeersMap
peers_of entries = set_all [] (map (λ (e : ℕ × Peer). e.1) entries)

unfoldable pub set_peers : Builder → List (ℕ × Peer) → Builder
set_peers b entries = unless_failed b (
    if mismatched entries then fail b mismatched_peers else record b {
      target_leader = if has (peers_of entries) b.target_leader then b.target_leader else 0;
      target_peers = peers_of entries;
    })

-- the loop over the roles, with the numbers of leaders and of voters so far
unfoldable pub scan_roles : List (ℕ × RuleRole) → ℕ → ℕ → Builder → Builder
scan_roles [] leaders voters b = if leaders + voters == 0 then fail b no_voter_role else b
scan_roles ((id, rule_leader) ∷ rest) leaders voters b =
    let next = scan_roles rest (suc leaders) voters (record b { target_leader = id }) in
    if ltb 0 leaders then fail b multiple_leaders else next
scan_roles ((id, rule_voter) ∷ rest) leaders voters b = scan_roles rest leaders (suc voters) b
scan_roles ((id, rule_follower) ∷ rest) leaders voters b =
    scan_roles rest leaders voters
      (if b.target_leader == id then record b { target_leader = 0 } else b)
scan_roles ((id, rule_learner) ∷ rest) leaders voters b =
    scan_roles rest leaders voters
      (if b.target_leader == id then record b { target_leader = 0 } else b)

abbrev pub unless_new_error : Builder → List (ℕ × RuleRole) → Builder
unless_new_error b roles = elim (b.err) [ none ↦ record b { expected_roles = roles } | some e ↦ b ]

unfoldable pub set_expected_roles : Builder → List (ℕ × RuleRole) → Builder
set_expected_roles b roles = unless_failed b (unless_new_error (scan_roles roles 0 0 b) roles)

unfoldable pub enable_light_weight : Builder → Builder
enable_light_weight b = record b { light_weight = true }

unfoldable pub enable_force_target_leader : Builder → Builder
enable_force_target_leader b = record b { force_target_leader = true }
