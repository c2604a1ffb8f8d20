-- ===== src/Operator/Builder/Prepare.antt =====
-- components/prophet/schedule/operator/builder.go: `prepareBuild`, which compares the origin peers
-- with the target peers. Its text for people is left out.
use matrixcube.Prelude.{
  ℕ, ◌+◌, Bool, true, false, not, ◌&&◌, ◌||◌, Option, none, some, List, [], ◌∷◌, leb, ◌==◌,
  if◌then◌else◌, length, count_if,
}
use matrixcube.Meta.{Peer, role_is_demoting, is_learner}
use matrixcube.Operator.Builder.Peers.{lookup, set, copy}
use matrixcube.Operator.Builder.{
  Builder, BuilderError, Rule, RuleRole, rule_voter, rule_leader, Container, no_voter, no_id,
  leader_not_allowed,
}

abbrev pub may_lead : RuleRole → Bool
may_lead rule_leader = true
may_lead rule_voter = true
may_lead _ = false

unfoldable pub any_rule : List Rule → ℕ → Bool
any_rule [] id = false
any_rule (r ∷ rest) id = if may_lead r.role && r.matches id then true else any_rule rest id

-- the part of `allowLeader` that asks for the container
abbrev pub admitted : Builder → ℕ → Bool → Option Container → Bool
admitted b id ignore_limit none = false
admitted b id ignore_limit (some c) =
    if ignore_limit
    then true
    else if not c.admits_leader
    then false
    else if length b.rules == 0
    then true
    else any_rule b.rules id

unfoldable pub allow_leader : Builder → Peer → Bool → Bool
allow_leader b peer ignore_limit =
    if is_learner peer || role_is_demoting peer.role
    then false
    else if peer.container_id == b.current_leader
    then true
    else admitted b peer.container_id ignore_limit (b.cluster.get_container peer.container_id)

-- the target peer with the id of the origin peer
abbrev pub same_id : Peer → Peer → Peer
same_id o n =
    if not (o.id == n.id)
    then record { id = o.id; container_id = o.container_id; role = n.role }
    else n

abbrev pub diff_kept : Builder → Peer → Peer → Builder
diff_kept b o n =
    if is_learner o
    then (if not (is_learner n) then record b { to_promote = set b.to_promote n } else b)
    else if is_learner n
    then (if b.allow_demote
        then record b { to_demote = set b.to_demote n }
        else record b { to_remove = set b.to_remove o })
    else b

-- one round of the loop over the origin peers
unfoldable pub diff_origin : Builder → Peer → Builder
diff_origin b o = elim (lookup b.target_peers o.container_id) [
  | none ↦ record b { to_remove = set b.to_remove o }
  | some n ↦ diff_kept b o (same_id o n)
]

unfoldable pub diff_origins : Builder → List Peer → Builder
diff_origins b [] = b
diff_origins b (o ∷ os) = diff_origins (diff_origin b o) os

-- a target peer that is to be added
abbrev pub is_new : Builder → Peer → Bool
is_new b n = elim (lookup b.origin_peers n.container_id) [
  | none ↦ true
  | some o ↦ not b.allow_demote && not (is_learner o) && is_learner n
]

-- `AllocID`, with the ids that are left
abbrev pub alloc : Peer → List ℕ → Option (Peer × List ℕ)
alloc n [] = none
alloc n (id ∷ rest) = some (record { id = id; container_id = n.container_id; role = n.role }, rest)

abbrev pub next_id : Peer → List ℕ → Option (Peer × List ℕ)
next_id n ids = if n.id == 0 then alloc n ids else some (n, ids)

abbrev pub add_new : Builder → Option (Peer × List ℕ) → Option Builder
add_new b none = none
add_new b (some (n, ids)) =
    some (record b { cluster = record b.cluster { ids = ids }; to_add = set b.to_add n })

-- one round of the loop over the target peers, which fails with `AllocID`
unfoldable pub diff_target : Builder → Peer → Option Builder
diff_target b n = if is_new b n then add_new b (next_id n b.cluster.ids) else some b

abbrev pub then_build : Option Builder → (Builder → Option Builder) → Option Builder
then_build none next = none
then_build (some b) next = next b

unfoldable pub diff_targets : Builder → List Peer → Option Builder
diff_targets b [] = some b
diff_targets b (n ∷ ns) = then_build (diff_target b n) (λ c. diff_targets c ns)

-- a target leader that is not among the target peers, or a learner, is cancelled
abbrev pub cancelled : Builder → Option Peer → Builder
cancelled b none = record b { target_leader = 0 }
cancelled b (some p) = if is_learner p then record b { target_leader = 0 } else b

abbrev pub cancel_leader : Builder → Builder
cancel_leader b = cancelled b (lookup b.target_peers b.target_leader)

abbrev pub start_current : Builder → Builder
start_current b = record b { current_peers = copy b.origin_peers; current_leader = b.origin_leader }

abbrev pub target_allowed : Builder → Bool
target_allowed b = elim (lookup b.target_peers b.target_leader) [
  | none ↦ true
  | some p ↦ b.target_leader == 0 || allow_leader b p b.force_target_leader
]

unfoldable pub pending_count : Builder → ℕ
pending_count b = length b.to_add + length b.to_remove + length b.to_promote + length b.to_demote

abbrev pub end_prepare : Builder → Builder
end_prepare b = record b {
  use_joint = if leb (pending_count b) 1 then false else b.use_joint;
  peer_add_step = [];
}

abbrev pub fresh : Builder → Builder
fresh b = record b { to_add = []; to_remove = []; to_promote = []; to_demote = [] }

abbrev pub is_voter_peer : Peer → Bool
is_voter_peer p = not (is_learner p)

abbrev pub after_diff : Builder → Builder × Option BuilderError
after_diff b =
    let c = start_current (cancel_leader b) in
    if target_allowed c then (end_prepare c, none) else (c, some leader_not_allowed)

abbrev pub or_no_id : Builder → Option Builder → Builder × Option BuilderError
or_no_id b none = (b, some no_id)
or_no_id b (some d) = after_diff d

unfoldable pub prepare_build : Builder → Builder × Option BuilderError
prepare_build b =
    let f = fresh b in
    let d = diff_origins f f.origin_peers in
    if count_if is_voter_peer b.target_peers == 0
    then (f, some no_voter)
    else or_no_id d (diff_targets d d.target_peers)
