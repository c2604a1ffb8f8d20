-- ===== src/Operator/Builder/Built.antt =====
-- What the steps of `buildStepsWithJointConsensus` of
-- components/prophet/schedule/operator/builder.go leave of the peers, when they are planned by
-- `prepareBuild`.
use mathlib.Core.Path.{subst}
use matrixcube.Prelude.{
  ℕ, ◌≡◌, refl, sym, ap, ◌∙◌, true, false, not, Option, none, some, List, [], ◌∷◌, ◌==◌, Bool-cases,
  Option-cases, inl, inr, arith,
}
use matrixcube.Meta.{Peer, is_learner}
use matrixcube.Operator.Builder.Peers.{PeersMap, lookup, is_there, set_all, IsMap, lookup-container}
use matrixcube.Operator.Builder.{Builder}
use matrixcube.Operator.Builder.Prepare.{is_new}
use matrixcube.Operator.Builder.Exec.{exec_remove_peer, set_target_leader_if_not_exist}
use matrixcube.Operator.Builder.JointPlan.{
  add_all, demote_all, remove_all, change_and_transfer, build_joint, or_kind,
}
use matrixcube.Operator.Builder.Pending.{
  at_most, put_each, to_remove_of, to_promote_of, to_demote_of, removed_for, promoted_for,
  demoted_for,
}
use matrixcube.Operator.Builder.Added.{kind_of, added_kind, new_in}
use matrixcube.Operator.Builder.Outcome.{
  as_learner, only_voter, voter_as_learner, add_all-IsStep, demote_all-IsStep, lookup-remove_all,
  change_and_transfer_lem,
}
use matrixcube.Operator.Builder.Leader.{IsVoterOf, set_leader-IsStep}
use matrixcube.Operator.Builder.Result.{IsPrepared}
use matrixcube.Operator.Builder.Changed.{lookup-changed, kind_left}

-- the peers of a map are in the map at their containers
pub at_container_lem :
    (f : Peer → Option Peer → Option Peer) (t m : PeersMap) (c : ℕ)
    → at_most (λ p. f p (lookup t p.container_id)) (lookup m c)
      ≡ at_most (λ p. f p (lookup t c)) (lookup m c)
at_container_lem f t m c = elim (Option-cases (lookup m c)) [
  | inl e ↦ rw e refl
  | inr (p, e) ↦ rw e (ap (λ x. f p (lookup t x)) (lookup-container m c p e))
]

remove_all_kept :
    (b : Builder) (ps : List Peer)
    → ((remove_all b ps).current_leader ≡ b.current_leader)
      × ((remove_all b ps).target_leader ≡ b.target_leader)
unfolding remove_all exec_remove_peer
remove_all_kept b [] = (refl, refl)
remove_all_kept b (p ∷ ps) = remove_all_kept (exec_remove_peer b p) ps

is_new_lem :
    (b : Builder) (n : Peer) (o : Option Peer)
    → lookup b.origin_peers n.container_id ≡ o
    → b.allow_demote ≡ true
    → is_new b n ≡ not (is_there o)
is_new_lem b n none h a = rw (is_new, h) refl
is_new_lem b n (some o) h a = rw (is_new, h, a) refl

pub new_in_demoting :
    (b : Builder) (n : Option Peer) (c : ℕ)
    → b.allow_demote ≡ true
    → lookup b.target_peers c ≡ n
    → added_kind (new_in b n) n ≡ added_kind (not (is_there (lookup b.origin_peers c))) n
new_in_demoting b none c a e = refl
new_in_demoting b (some n) c a e =
    ap (λ x. added_kind x (some n))
      (is_new_lem b n (lookup b.origin_peers n.container_id) refl a
        ∙ ap (λ k. not (is_there (lookup b.origin_peers k)))
            (lookup-container b.target_peers c n e))

voter_there :
    (m : PeersMap) (id : ℕ)
    → IsVoterOf m id
    → id == 0 ≡ false
    → (q : Peer) × (lookup m id ≡ some q) × (is_learner q ≡ false)
voter_there m id (inl e) n = absurd (ground arith)
voter_there m id (inr v) n = v

-- the steps of the plan, which are given names here
module _ (b p : Builder) (kind : ℕ) where
  abbrev pub added : Builder
  added = add_all p p.to_add

  abbrev pub led : Builder
  led = set_target_leader_if_not_exist added

  abbrev pub demoted : Builder
  demoted = demote_all led led.to_remove

  abbrev pub changed_to : Builder
  changed_to = (change_and_transfer demoted (or_kind p.to_add kind)).0

  abbrev pub end_of_plan : Builder
  end_of_plan = remove_all changed_to changed_to.to_remove

  module _ (i : IsPrepared b p) (m : IsMap b.target_peers) where
    target_of_added : added.target_peers ≡ b.target_peers
    target_of_added = (add_all-IsStep p p.to_add).4 ∙ i.target

    led_step :
        IsVoterOf b.target_peers led.target_leader
        × ((led.current_peers ≡ added.current_peers)
            × (led.to_promote ≡ added.to_promote)
            × (led.to_demote ≡ added.to_demote)
            × (led.to_remove ≡ added.to_remove)
            × (led.origin_leader ≡ added.origin_leader)
            × (led.current_leader ≡ added.current_leader))
    led_step =
        let voter =
          subst (λ x. IsVoterOf b.target_peers x) (sym (add_all-IsStep p p.to_add).7)
            i.target_leader in
        let s =
          set_leader-IsStep added
            (subst (λ t. IsVoterOf t added.target_leader) (sym target_of_added) voter)
            (subst IsMap (sym target_of_added) m) in
        (
          subst (λ t. IsVoterOf t led.target_leader) target_of_added s.6,
          (s.0, s.1, s.2, s.3, s.4, s.5),
        )

    pub led_maps :
        (led.current_peers ≡ put_each as_learner p.current_peers p.to_add)
        × (led.to_promote ≡ put_each only_voter p.to_promote p.to_add)
        × (led.to_demote ≡ p.to_demote)
        × (led.to_remove ≡ p.to_remove)
        × (led.current_leader ≡ led.origin_leader)
    led_maps =
        let a = add_all-IsStep p p.to_add in
        let (v, s) = led_step in
        (s.0 ∙ a.0, s.1 ∙ a.1, s.2 ∙ a.2, s.3 ∙ a.3, s.5 ∙ (a.6 ∙ (i.leader ∙ (sym a.5 ∙ sym s.4))))

    -- the maps and the leaders before the peers are removed
    changed_maps :
        (changed_to.current_peers
          ≡ set_all
              (set_all
                (put_each as_learner p.current_peers p.to_add)
                (put_each only_voter p.to_promote p.to_add))
              (put_each voter_as_learner p.to_demote p.to_remove))
        × (changed_to.to_remove ≡ p.to_remove)
        × (changed_to.current_leader ≡ changed_to.target_leader)
        × (changed_to.target_leader ≡ led.target_leader)
    changed_maps =
        let l = led_maps in
        let d = demote_all-IsStep led led.to_remove in
        let c = change_and_transfer_lem demoted (or_kind p.to_add kind) (d.6 ∙ (l.4 ∙ sym d.5)) in
        (
          c.0 ∙ rw (d.0, d.1, d.2, l.0, l.1, l.2, l.3) refl,
          c.1 ∙ (d.3 ∙ l.3),
          c.3 ∙ sym c.2,
          c.2 ∙ d.7,
        )

    end_leader : end_of_plan.current_leader ≡ led.target_leader
    end_leader =
        let r = remove_all_kept changed_to changed_to.to_remove in
        r.0 ∙ (changed_maps.2 ∙ changed_maps.3)

    -- the kind of each container
    end_kind :
        (c : ℕ)
        → b.allow_demote ≡ true
        → kind_of (lookup end_of_plan.current_peers c) ≡ kind_of (lookup b.target_peers c)
    end_kind c a =
        let e = changed_maps in
        let o = lookup b.origin_peers c in
        let n = lookup b.target_peers c in
        ap kind_of (
          lookup-remove_all changed_to changed_to.to_remove c
          ∙ rw
              (
                e.0,
                e.1,
                lookup-changed p.current_peers p.to_add p.to_promote p.to_demote p.to_remove c
                    i.add_map i.promote_map i.demote_map i.remove_map,
              )
              refl)
        ∙ kind_left b.target_peers o n (lookup p.to_remove c) (lookup p.to_demote c)
            (lookup p.to_add c) (lookup p.to_promote c) (lookup p.current_peers c)
            (i.removed c
              ∙ (ap (λ x. at_most (to_remove_of x b.target_peers) o) a
                  ∙ at_container_lem (removed_for true b.target_peers) b.target_peers b.origin_peers
                      c))
            (i.demoted c
              ∙ (ap (λ x. at_most (to_demote_of x b.target_peers) o) a
                  ∙ at_container_lem (demoted_for true b.target_peers) b.target_peers b.origin_peers
                      c))
            (i.promoted c
              ∙ (ap (λ x. at_most (to_promote_of x b.target_peers) o) a
                  ∙ at_container_lem (promoted_for true b.target_peers) b.target_peers
                      b.origin_peers c))
            (i.added c ∙ new_in_demoting b n c a refl) (i.current c)

-- a container has the kind of peer that the target asks for, and the leader is a voter of the target
abbrev pub LeadsTo : PeersMap → ℕ → Builder → Type 0
LeadsTo target c r =
    (kind_of (lookup r.current_peers c) ≡ kind_of (lookup target c))
    × ((q : Peer) × (lookup target r.current_leader ≡ some q) × (is_learner q ≡ false))

pub led_or_failed :
    (p : Builder) (kind : ℕ)
    → (build_joint p kind).1.1 ≡ none
    → (led p p kind).target_leader == 0 ≡ false × ((build_joint p kind).0 ≡ end_of_plan p p kind)
unfolding build_joint
led_or_failed p kind e = elim (Bool-cases ((led p p kind).target_leader == 0)) [
  | inl z ↦ absurd (cc (rw (z, build_joint) at e))
  | inr n ↦ (n, rw (n, build_joint) refl)
]

-- where demotion is allowed, the plan of a prepared builder leads to the target peers
pub build_joint_lem :
    (b p : Builder) (kind c : ℕ)
    → IsPrepared b p
    → IsMap b.target_peers
    → b.allow_demote ≡ true
    → (build_joint p kind).1.1 ≡ none
    → LeadsTo b.target_peers c (build_joint p kind).0
build_joint_lem b p kind c s j a f =
    let (n, g) = led_or_failed p kind f in
    rw g (
      end_kind b p kind s j c a,
      rw (end_leader b p kind s j)
          (voter_there b.target_peers (led b p kind).target_leader (led_step b p kind s j).0 n),
    )
