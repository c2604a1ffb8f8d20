-- ===== src/Operator/Builder/Exec.antt =====
-- components/prophet/schedule/operator/builder.go: the `exec` functions, which append steps and keep
-- the peers that there are after them, and the choice of a target leader.
use matrixcube.Prelude.{
  ℕ, Bool, true, false, not, ◌&&◌, Option, none, some, List, [], ◌∷◌, ◌++◌, ltb, ◌==◌,
  if◌then◌else◌, length, map,
}
use matrixcube.Meta.{Peer, is_learner}
use matrixcube.Operator.Step.{PromoteLearner, DemoteVoter}
use matrixcube.Operator.OpStep.{
  OpStep, transfer_leader, add_learner, add_light_learner, promote_learner, demote_follower,
  remove_peer, change_peer_v2_enter, change_peer_v2_leave,
}
use matrixcube.Operator.Builder.Peers.{PeersMap, has, set, delete, set_all}
use matrixcube.Operator.Builder.{Builder, Container, RuleRole, rule_leader, rule_follower}
use matrixcube.Operator.Builder.Prepare.{allow_leader}

unfoldable pub exec_transfer_leader : Builder → ℕ → Builder
exec_transfer_leader b id = record b {
  steps = b.steps ++ (transfer_leader b.current_leader id ∷ []);
  current_leader = id;
}

unfoldable pub exec_promote_learner : Builder → Peer → Builder
exec_promote_learner b p = record b {
  steps = b.steps ++ (promote_learner p.container_id p.id ∷ []);
  current_peers = set b.current_peers p;
  to_promote = delete b.to_promote p.container_id;
}

unfoldable pub exec_demote_follower : Builder → Peer → Builder
exec_demote_follower b p = record b {
  steps = b.steps ++ (demote_follower p.container_id p.id ∷ []);
  current_peers = set b.current_peers p;
  to_demote = delete b.to_demote p.container_id;
}

-- the steps that add a peer: as a learner, which is then promoted
abbrev pub add_steps : Bool → Peer → List OpStep
add_steps light p =
    (if light then add_light_learner p.container_id p.id else add_learner p.container_id p.id)
    ∷ (if is_learner p then [] else promote_learner p.container_id p.id ∷ [])

unfoldable pub exec_add_peer : Builder → Peer → Builder
exec_add_peer b p =
    let steps = b.steps ++ add_steps b.light_weight p in
    record b {
      steps = steps;
      current_peers = set b.current_peers p;
      peer_add_step = (p.container_id, length steps) ∷ b.peer_add_step;
      to_add = delete b.to_add p.container_id;
    }

unfoldable pub exec_remove_peer : Builder → Peer → Builder
exec_remove_peer b p = record b {
  steps = b.steps ++ (remove_peer p.container_id p.id ∷ []);
  current_peers = delete b.current_peers p.container_id;
  to_remove = delete b.to_remove p.container_id;
}

abbrev pub promotes_of : PeersMap → List PromoteLearner
promotes_of ps = map (λ (p : Peer). record { to_container = p.container_id; peer_id = p.id }) ps

abbrev pub demotes_of : PeersMap → List DemoteVoter
demotes_of ps = map (λ (p : Peer). record { to_container = p.container_id; peer_id = p.id }) ps

-- the peers that are promoted and demoted
abbrev pub change_peers : Builder → Builder
change_peers b = record b {
  current_peers = set_all (set_all b.current_peers b.to_promote) b.to_demote;
  to_promote = [];
  to_demote = [];
}

unfoldable pub exec_change_peer_v2 : Builder → Bool → Bool → Builder
exec_change_peer_v2 b need_enter need_transfer_leader =
    let promotes = promotes_of b.to_promote in
    let demotes = demotes_of b.to_demote in
    let c = change_peers b in
    let e =
      if need_enter
      then record c { steps = c.steps ++ (change_peer_v2_enter promotes demotes ∷ []) }
      else c in
    let t =
      if need_transfer_leader && not (e.origin_leader == e.target_leader)
      then exec_transfer_leader e e.target_leader
      else e in
    record t { steps = t.steps ++ (change_peer_v2_leave promotes demotes ∷ []) }

abbrev pub is_leader_role : RuleRole → Bool
is_leader_role rule_leader = true
is_leader_role _ = false

abbrev pub is_follower_role : RuleRole → Bool
is_follower_role rule_follower = true
is_follower_role _ = false

-- the test of the expected role of a container, false without one
unfoldable pub expected : (RuleRole → Bool) → List (ℕ × RuleRole) → ℕ → Bool
expected test [] id = false
expected test ((k, role) ∷ rest) id = if k == id then test role else expected test rest id

-- `b.peerAddStep[id]`, which is 0 for a container without one
unfoldable pub add_step : List (ℕ × ℕ) → ℕ → ℕ
add_step [] id = 0
add_step ((k, n) ∷ rest) id = if k == id then n else add_step rest id

abbrev pub bool_to_int : Bool → ℕ
bool_to_int true = 1
bool_to_int false = 0

abbrev pub is_up : Option Container → Bool
is_up none = false
is_up (some c) = c.is_up

abbrev pub both : (ℕ → Bool) → ℕ → ℕ → ℕ × ℕ
both f best next = (bool_to_int (f best), bool_to_int (f next))

-- The scores of the best leader so far and of the next one. The last function is negative in the
-- code, so its scores are exchanged here.
abbrev pub leader_scores : Builder → ℕ → ℕ → List (ℕ × ℕ)
leader_scores b best next =
    both (expected is_leader_role b.expected_roles) best next
    ∷ both (λ id. is_up (b.cluster.get_container id)) best next
    ∷ both (λ id. id == b.current_leader) best next
    ∷ both (λ id. not (has b.to_promote id)) best next
    ∷ (add_step b.peer_add_step next, add_step b.peer_add_step best)
    ∷ []

-- The first function that tells the two apart decides.
unfoldable pub is_better : List (ℕ × ℕ) → Bool
is_better [] = false
is_better ((best, next) ∷ rest) =
    if ltb best next then true else if ltb next best then false else is_better rest

unfoldable pub choose_leader : Builder → List Peer → ℕ → ℕ
choose_leader b [] best = best
choose_leader b (p ∷ ps) best =
    let id = p.container_id in
    choose_leader b ps (
      if not (allow_leader b p b.force_target_leader)
      then best
      else if expected is_follower_role b.expected_roles id
      then best
      else if best == 0
      then id
      else if is_better (leader_scores b best id)
      then id
      else best)

unfoldable pub set_target_leader_if_not_exist : Builder → Builder
set_target_leader_if_not_exist b =
    if not (b.target_leader == 0)
    then b
    else record b { target_leader = choose_leader b b.target_peers 0 }
