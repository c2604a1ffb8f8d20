-- ===== src/Operator/Builder/JointSteps.antt =====
-- What the steps of `buildStepsWithJointConsensus` of
-- components/prophet/schedule/operator/builder.go do, when they are planned by `prepareBuild`.
use matrixcube.Prelude.{ℕ, ◌≡◌, sym, ap, ◌∙◌, Bool, true, false, Option, none, some, List, []}
use matrixcube.Meta.{Peer, ResourceEpoch, is_learner}
use matrixcube.Operator.OpStep.{OpStep}
use matrixcube.Operator.Resource.{CachedResource}
use matrixcube.Operator.Builder.Peers.{lookup, IsMap}
use matrixcube.Operator.Builder.{Builder, Cluster, new_builder}
use matrixcube.Operator.Builder.Requests.{Request, requests, requests-new_builder-IsMap}
use matrixcube.Operator.Builder.Prepare.{prepare_build}
use matrixcube.Operator.Builder.JointPlan.{build_joint, or_kind}
use matrixcube.Operator.Builder.Pending.{lookup-put_each, put_each-IsMap}
use matrixcube.Operator.Builder.Added.{kind_of}
use matrixcube.Operator.Builder.Outcome.{
  as_learner, only_voter, voter_as_learner, demote_all-IsStep,
}
use matrixcube.Operator.Builder.Changed.{
  as_learner-KeepsContainer, only_voter-KeepsContainer, voter_as_learner-KeepsContainer,
}
use matrixcube.Operator.Builder.Result.{IsPrepared, prepare_build-IsPrepared}
use matrixcube.Operator.Builder.Built.{
  added, led, demoted, changed_to, end_of_plan, led_maps, led_or_failed, build_joint_lem, LeadsTo,
}
use matrixcube.Operator.Builder.Play.{role_for, role_at, play, play_leader, Tracks}
use matrixcube.Operator.Builder.JointPlay.{
  CanChange, add_all-Tracks, demote_all-Tracks, remove_all-Tracks, set_leader-Tracks,
  change_and_transfer-Tracks,
}
use matrixcube.Operator.Builder.Ready.{CanAdd, CanJoin, planned_lem, prepared-ArePlanned}
use matrixcube.Operator.Builder.Start.{prepare_build-Starts}

-- Played on the peer that the origin has at a container, the steps make what the target has there.
abbrev pub StepsLead : Builder → ℕ → List OpStep → Type 0
StepsLead b c steps = play c steps (role_at b.origin_peers c) ≡ role_at b.target_peers c

-- The leader after the steps is a container whose target peer is a voter.
abbrev pub StepsElect : Builder → List OpStep → Type 0
StepsElect b steps =
    (q : Peer) × (lookup b.target_peers (play_leader steps b.origin_leader) ≡ some q)
    × (is_learner q ≡ false)

-- a prepared builder that has no step yet notes the peers and the leader of the origin
pub no_steps-Tracks :
    (b p : Builder) (c : ℕ)
    → IsPrepared b p
    → p.steps ≡ []
    → p.current_leader ≡ b.origin_leader
    → Tracks c (role_at b.origin_peers c) b.origin_leader p
unfolding play play_leader
no_steps-Tracks b p c i z y = rw z (ap (λ o. role_for (kind_of o)) (sym (i.current c)), sym y)

free_for : (add cur : Option Peer) (q : Peer) → CanAdd add cur → add ≡ some q → cur ≡ none
free_for none cur q h e = cc
free_for (some p) cur q h e = h

module _ (b p : Builder) (kind c : ℕ) (i : IsPrepared b p) (m : IsMap b.target_peers) where
  can_join :
      CanJoin
        (lookup p.to_remove c)
        (lookup p.to_demote c)
        (lookup p.to_add c)
        (lookup p.to_promote c)
        (lookup p.current_peers c)
      → CanChange
          (lookup (demoted b p kind).to_promote c)
          (lookup (demoted b p kind).to_demote c)
          (lookup (demoted b p kind).current_peers c)
  can_join h =
      let l = led_maps b p kind i m in
      let d = demote_all-IsStep (led b p kind) (led b p kind).to_remove in
      rw
        (
          d.0,
          d.1,
          d.2,
          l.0,
          l.1,
          l.2,
          l.3,
          lookup-put_each only_voter p.to_promote p.to_add c only_voter-KeepsContainer i.add_map,
          lookup-put_each voter_as_learner p.to_demote p.to_remove c voter_as_learner-KeepsContainer
              i.remove_map,
          lookup-put_each as_learner p.current_peers p.to_add c as_learner-KeepsContainer i.add_map,
        )
        h

  maps_of : IsMap (demoted b p kind).to_promote × IsMap (demoted b p kind).to_demote
  maps_of =
      let l = led_maps b p kind i m in
      let d = demote_all-IsStep (led b p kind) (led b p kind).to_remove in
      rw (d.1, d.2, l.1, l.2, l.3)
        (
          put_each-IsMap only_voter p.to_promote p.to_add i.promote_map,
          put_each-IsMap voter_as_learner p.to_demote p.to_remove i.demote_map,
        )

  end_of_plan-Tracks :
      b.allow_demote ≡ true
      → p.steps ≡ []
      → p.current_leader ≡ b.origin_leader
      → Tracks c (role_at b.origin_peers c) b.origin_leader (end_of_plan b p kind)
  end_of_plan-Tracks a z y =
      let r = role_at b.origin_peers c in
      let n = b.origin_leader in
      let h =
        planned_lem b.target_peers (lookup b.origin_peers c) (lookup b.target_peers c)
          (lookup p.to_remove c) (lookup p.to_demote c) (lookup p.to_add c) (lookup p.to_promote c)
          (lookup p.current_peers c) (prepared-ArePlanned b p c i a) in
      let t1 =
        add_all-Tracks c r n p p.to_add i.add_map
          (λ q f. free_for (lookup p.to_add c) (lookup p.current_peers c) q h.0 f)
          (no_steps-Tracks b p c i z y) in
      let t2 = set_leader-Tracks c r n (added b p kind) t1 in
      let t3 = demote_all-Tracks c r n (led b p kind) (led b p kind).to_remove t2 in
      let t4 =
        change_and_transfer-Tracks c r n (demoted b p kind) (or_kind p.to_add kind) maps_of.0
          maps_of.1 (can_join h.2) t3 in
      remove_all-Tracks c r n (changed_to b p kind) (changed_to b p kind).to_remove t4

-- where demotion is allowed, the steps of the plan of a prepared builder lead to the target peers
pub build_joint_steps :
    (b p : Builder) (kind c : ℕ)
    → IsPrepared b p
    → IsMap b.target_peers
    → b.allow_demote ≡ true
    → p.steps ≡ []
    → p.current_leader ≡ b.origin_leader
    → (build_joint p kind).1.1 ≡ none
    → StepsLead b c (build_joint p kind).0.steps × StepsElect b (build_joint p kind).0.steps
build_joint_steps b p kind c i m a z y f =
    let g = led_or_failed p kind f in
    let x : LeadsTo b.target_peers c (end_of_plan b p kind) =
      rw g.1 at (build_joint_lem b p kind c i m a f) in
    let t = end_of_plan-Tracks b p kind c i m a z y in rw g.1 (t.0 ∙ ap role_for x.0, rw t.1 x.1)

-- On a cluster with joint consensus, the plan of joint consensus of a new builder, after any requests,
-- prepared and planned without an error, has steps that lead from the origin peers to the target
-- peers: played one after the other on the peer that a container has in the origin, they end with a
-- voter just where the target has a peer that is no learner, with a learner just where it has one,
-- with no peer just where it has none, and with no container in a joint state. Played on the origin
-- leader, they end with a container whose target peer is a voter. A peer is promoted or demoted by a
-- step only where there is a learner or a voter. A joint role in the origin counts as a
-- voter.
pub build_joint-requests :
    (cl : Cluster) (id : ℕ) (epoch : ResourceEpoch) (res : CachedResource) (down : List Peer)
    (skip : Bool) (rs : List Request) (kind c : ℕ)
    → cl.joint_consensus_enabled ≡ true
    → (prepare_build (requests (new_builder cl id epoch res down skip) rs)).1 ≡ none
    → (build_joint (prepare_build (requests (new_builder cl id epoch res down skip) rs)).0 kind).1.1
      ≡ none
    → StepsLead
        (requests (new_builder cl id epoch res down skip) rs)
        c
        (build_joint
          (prepare_build (requests (new_builder cl id epoch res down skip) rs)).0
          kind).0.steps
      × StepsElect
          (requests (new_builder cl id epoch res down skip) rs)
          (build_joint
            (prepare_build (requests (new_builder cl id epoch res down skip) rs)).0
            kind).0.steps
build_joint-requests cl id epoch res down skip rs kind c a e f =
    let m = requests-new_builder-IsMap cl id epoch res down skip rs in
    let b = requests (new_builder cl id epoch res down skip) rs in
    let s = prepare_build-Starts b e in
    build_joint_steps b (prepare_build b).0 kind c (prepare_build-IsPrepared b m.0 m.1 e) m.1
      (m.2 ∙ a) (s.0 ∙ m.3) s.1 f
