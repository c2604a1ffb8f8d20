-- ===== src/Operator/Builder/Builds.antt =====
-- `Build` of components/prophet/schedule/operator/builder.go, in full.
use matrixcube.Prelude.{
  ℕ, ◌≡◌, refl, sym, ap, ◌∙◌, ◌⊎◌, if◌then◌else◌, Bool, true, false, Option, none, some, List, [],
  inl, inr,
}
use matrixcube.Meta.{Peer, ResourceEpoch}
use matrixcube.Operator.Resource.{CachedResource}
use matrixcube.Operator.Builder.Peers.{IsMap}
use matrixcube.Operator.Builder.{Builder, BuilderError, Cluster, new_builder}
use matrixcube.Operator.Builder.Requests.{Request, requests, requests-new_builder-IsMap}
use matrixcube.Operator.Builder.Prepare.{prepare_build}
use matrixcube.Operator.Builder.JointPlan.{build_joint}
use matrixcube.Operator.Builder.Result.{IsPrepared, prepare_build-IsPrepared}
use matrixcube.Operator.Builder.JointSteps.{StepsLead, build_joint_steps}
use matrixcube.Operator.Builder.Play.{role_at, play}
use matrixcube.Operator.Builder.Start.{prepare_build-Starts}
use matrixcube.Operator.Builder.PlainPlan.{
  State, joint_built, after_prepare, unless_error, build_plain, build,
}
use matrixcube.Operator.Builder.Targets.{state_or, build_plain_steps}

abbrev error_of : Option (State × Option BuilderError) → Option BuilderError
error_of none = none
error_of (some (t, e)) = e

either_way : {A : Type 0} (u : Bool) (x y r : A) → (if u then x else y) ≡ r → (x ≡ r) ⊎ (y ≡ r)
either_way true x y r e = inl e
either_way false x y r e = inr e

unless_error_lem :
    (o : Option BuilderError) (s t : State) (next : Option (State × Option BuilderError))
    → unless_error o s next ≡ some (t, none)
    → next ≡ some (t, none)
unless_error_lem none s t next g = g
unless_error_lem (some e) s t next g = cc

-- the two ways to build the steps of a prepared builder
prepared_steps :
    (b p : Builder) (o : Option BuilderError) (kind c : ℕ) (s : State)
    → (o ≡ none → IsPrepared b p × (p.steps ≡ b.steps) × (p.current_leader ≡ b.origin_leader))
    → IsMap b.target_peers
    → b.steps ≡ []
    → b.allow_demote ≡ true
    → after_prepare (p, o) kind ≡ some (s, none)
    → StepsLead b c s.0.steps
prepared_steps b p (some e) kind c s i m z a g = cc
prepared_steps b p none kind c s i m z a g =
    let (x, y, w) = i refl in
    elim (either_way p.use_joint (some (joint_built (build_joint p kind))) (build_plain p kind)
      (some (s, none)) g) [
        | inl j ↦
            let same : (build_joint p kind).0 ≡ s.0 = ap (λ o. (state_or s o).0) j in
            ap (λ (d : Builder). play c d.steps (role_at b.origin_peers c)) (sym same)
            ∙ (build_joint_steps b p kind c x m a (y ∙ z) w (ap error_of j)).0
        | inr j ↦ build_plain_steps b p kind c s x a (y ∙ z) w j
      ]

-- On a cluster with joint consensus, whatever is asked of a new builder, a `Build` without an error,
-- with or without a joint state, has steps that lead from the origin peers to the target peers:
-- played one after the other on the peer that a container has in the origin, they end with a voter
-- just where the target has a peer that is no learner, with a learner just where it has one, with no
-- peer just where it has none, and with no container in a joint state. A peer is promoted or demoted
-- by a step only where there is a learner or a voter. A joint role in the origin counts as a
-- voter.
pub build-requests :
    (cl : Cluster) (id : ℕ) (epoch : ResourceEpoch) (res : CachedResource) (down : List Peer)
    (skip : Bool) (rs : List Request) (kind c : ℕ) (s : State)
    → cl.joint_consensus_enabled ≡ true
    → build (requests (new_builder cl id epoch res down skip) rs) kind ≡ some (s, none)
    → StepsLead (requests (new_builder cl id epoch res down skip) rs) c s.0.steps
unfolding build
build-requests cl id epoch res down skip rs kind c s a g =
    let b = requests (new_builder cl id epoch res down skip) rs in
    let m = requests-new_builder-IsMap cl id epoch res down skip rs in
    prepared_steps b (prepare_build b).0 (prepare_build b).1 kind c s
      (λ e. let x = prepare_build-Starts b e in (prepare_build-IsPrepared b m.0 m.1 e, x.0, x.1))
      m.1 m.3 (m.2 ∙ a)
      (unless_error_lem b.err (b, kind) s (after_prepare (prepare_build b) kind) g)
