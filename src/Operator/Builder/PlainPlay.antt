-- ===== src/Operator/Builder/PlainPlay.antt =====
-- The steps of the rounds of `buildStepsWithoutJointConsensus` in
-- components/prophet/schedule/operator/builder.go, and the peer and the leader that the builder notes.
use mathlib.Core.Path.{subst}
use matrixcube.Prelude.{
  ℕ, zero, suc, ◌≡◌, ◌&&◌, ◌∙◌, true, false, not, Option, none, some, ◌==◌, Bool-cases, inl, inr,
  arith, ==→eq, Bool, if◌then◌else◌,
}
use matrixcube.Meta.{Peer, PeerRole, is_learner}
use matrixcube.Operator.Builder.Peers.{PeersMap, lookup, has, lookup-set, lookup-delete}
use matrixcube.Operator.Builder.{Builder}
use matrixcube.Operator.Builder.Added.{kind_of}
use matrixcube.Operator.Builder.Exec.{
  exec_transfer_leader, exec_promote_learner, exec_demote_follower, exec_add_peer, exec_remove_peer,
  set_target_leader_if_not_exist,
}
use matrixcube.Operator.Builder.Prepare.{pending_count}
use matrixcube.Operator.Builder.StepPlan.{StepPlan, is_empty, peer_plan}
use matrixcube.Operator.Builder.Plans.{IsIn, IsReady, IsSound, peer_plan-IsSound}
use matrixcube.Operator.Builder.Rounds.{
  transfer-AreLeft, add-AreLeft, promote-AreLeft, demote-AreLeft, exec_plan-IsReady,
}
use matrixcube.Operator.Builder.Finals.{
  IsSingle, Single, add-Keeps, promote-Keeps, demote-Keeps, remove-Keeps, same-IsIn,
}
use matrixcube.Operator.Builder.PlainPlan.{
  State, transfer_to, add_planned, promote_planned, demote_planned, remove_planned, exec_plan,
  Rounds, ended, stuck, out_of_fuel, rounds, last_transfer,
}
use matrixcube.Operator.Builder.Play.{
  Tracks, exec_transfer_leader-Tracks, exec_add_peer-Tracks, exec_remove_peer-Tracks,
  exec_promote_learner-Tracks, exec_demote_follower-Tracks,
}
use matrixcube.Operator.Builder.JointPlay.{CanChange, set_leader-Tracks}
use matrixcube.Operator.Builder.Ready.{CanAdd}

-- what is left for a container after a peer of it is changed
after_add :
    (rem dem pro : Option Peer) (p : Peer)
    → IsSingle rem dem pro (some p)
    → CanChange pro dem (some p)
after_add rem none none p h = tt
after_add rem none (some q) p h = absurd (omega (arith, h))
after_add rem (some q) pro p h = absurd (omega (arith, h))

after_promote :
    (rem dem add : Option Peer) (p : Peer)
    → IsSingle rem dem (some p) add
    → CanAdd add (some p) × CanChange none dem (some p)
after_promote rem none none p h = (tt, tt)
after_promote rem (some q) add p h = absurd (omega (arith, h))
after_promote rem none (some q) p h = absurd (omega (arith, h))

after_demote :
    (rem pro add : Option Peer) (p : Peer)
    → IsSingle rem (some p) pro add
    → CanAdd add (some p) × CanChange pro none (some p)
after_demote rem none none p h = (tt, tt)
after_demote rem (some q) add p h = absurd (omega (arith, h))
after_demote rem none (some q) p h = absurd (omega (arith, h))

after_remove :
    (dem pro add : Option Peer) (p : Peer)
    → IsSingle (some p) dem pro add
    → CanAdd add none × CanChange pro dem none
after_remove none none none p h = (tt, tt)
after_remove (some q) pro add p h = absurd (omega (arith, h))
after_remove none (some q) add p h = absurd (omega (arith, h))
after_remove none none (some q) p h = absurd (omega (arith, h))

promotable :
    (dem cur : Option Peer) (p : Peer)
    → CanChange (some p) dem cur
    → (is_learner p ≡ false) × (kind_of cur ≡ some true)
promotable none cur p h = h
promotable (some d) cur p h = absurd h

demotable :
    (pro cur : Option Peer) (p : Peer)
    → CanChange pro (some p) cur
    → (is_learner p ≡ true) × (kind_of cur ≡ some false)
demotable none cur p h = h
demotable (some d) cur p h = absurd h

module _ (c : ℕ) (r : Option PeerRole) (l : ℕ) where
  -- The container has one thing to be done at most, which can be done, and the steps so far lead to
  -- the peer and the leader that the builder notes.
  abbrev pub IsLive : Builder → Type 0
  IsLive b =
      Single b c
      × (CanAdd (lookup b.to_add c) (lookup b.current_peers c)
          × CanChange (lookup b.to_promote c) (lookup b.to_demote c) (lookup b.current_peers c))
      × Tracks c r l b

  transfer_to-IsLive : (id : ℕ) (s : State) → IsLive s.0 → IsLive (transfer_to id s).0
  unfolding transfer_to exec_transfer_leader
  transfer_to-IsLive id (b, kind) (h, k, t) =
      elim (Bool-cases (not (id == 0) && not (id == b.current_leader))) [
        | inl e ↦ rw (e, transfer_to) (h, k, exec_transfer_leader-Tracks c r l b id t)
        | inr e ↦ rw (e, transfer_to) (h, k, t)
      ]

  there_at :
      (m : PeersMap) (p : Peer) → IsIn m (some p) → p.container_id == c ≡ true → lookup m c ≡ some p
  there_at m p i e = subst (λ k. lookup m k ≡ some p) (==→eq p.container_id c e) i

  add_planned-IsLive :
      (o : Option Peer) (s : State) → IsIn s.0.to_add o → IsLive s.0 → IsLive (add_planned o s).0
  unfolding exec_add_peer
  add_planned-IsLive none s i x = x
  add_planned-IsLive (some p) s i (h, k, t) = (
    (add-Keeps (some p) s c i h).1,
    rw (lookup-delete s.0.to_add p.container_id c, lookup-set s.0.current_peers p c)
        (elim (Bool-cases (p.container_id == c)) [
          | inl e ↦ rw e (
            tt,
            after_add (lookup s.0.to_remove c) (lookup s.0.to_demote c) (lookup s.0.to_promote c) p
                (rw (there_at s.0.to_add p i e) at h),
          )
          | inr e ↦ rw e k
        ]),
    exec_add_peer-Tracks c r l s.0 p (λ e. rw (there_at s.0.to_add p i e) at k.0) t,
  )

  promote_planned-IsLive :
      (o : Option Peer) (s : State)
      → IsIn s.0.to_promote o
      → IsLive s.0
      → IsLive (promote_planned o s).0
  unfolding exec_promote_learner
  promote_planned-IsLive none s i x = x
  promote_planned-IsLive (some p) s i (h, k, t) = (
    (promote-Keeps (some p) s c i h).1,
    rw (lookup-delete s.0.to_promote p.container_id c, lookup-set s.0.current_peers p c)
        (elim (Bool-cases (p.container_id == c)) [
          | inl e ↦ rw e (
              after_promote (lookup s.0.to_remove c) (lookup s.0.to_demote c) (lookup s.0.to_add c)
                p (rw (there_at s.0.to_promote p i e) at h))
          | inr e ↦ rw e k
        ]),
    exec_promote_learner-Tracks c r l s.0 p
        (λ e.
          promotable (lookup s.0.to_demote c) (lookup s.0.current_peers c) p
            (rw (there_at s.0.to_promote p i e) at k.1))
        t,
  )

  demote_planned-IsLive :
      (o : Option Peer) (s : State)
      → IsIn s.0.to_demote o
      → IsLive s.0
      → IsLive (demote_planned o s).0
  unfolding exec_demote_follower
  demote_planned-IsLive none s i x = x
  demote_planned-IsLive (some p) s i (h, k, t) = (
    (demote-Keeps (some p) s c i h).1,
    rw (lookup-delete s.0.to_demote p.container_id c, lookup-set s.0.current_peers p c)
        (elim (Bool-cases (p.container_id == c)) [
          | inl e ↦ rw e (
              after_demote (lookup s.0.to_remove c) (lookup s.0.to_promote c) (lookup s.0.to_add c)
                p (rw (there_at s.0.to_demote p i e) at h))
          | inr e ↦ rw e k
        ]),
    exec_demote_follower-Tracks c r l s.0 p
        (λ e.
          demotable (lookup s.0.to_promote c) (lookup s.0.current_peers c) p
            (rw (there_at s.0.to_demote p i e) at k.1))
        t,
  )

  remove_planned-IsLive :
      (o : Option Peer) (s : State)
      → IsIn s.0.to_remove o
      → IsLive s.0
      → IsLive (remove_planned o s).0
  unfolding exec_remove_peer
  remove_planned-IsLive none s i x = x
  remove_planned-IsLive (some p) s i (h, k, t) = (
    (remove-Keeps (some p) s c i h).1,
    rw (lookup-delete s.0.current_peers p.container_id c) (elim (Bool-cases (p.container_id == c)) [
      | inl e ↦ rw e (
          after_remove (lookup s.0.to_demote c) (lookup s.0.to_promote c) (lookup s.0.to_add c) p
            (rw (there_at s.0.to_remove p i e) at h))
      | inr e ↦ rw e k
    ]),
    exec_remove_peer-Tracks c r l s.0 p t,
  )

  exec_plan-IsLive :
      (p : StepPlan) (s : State) → IsSound s.0 p → IsLive s.0 → IsLive (exec_plan p s).0
  unfolding exec_plan
  exec_plan-IsLive p s i x =
      let s1 = transfer_to p.leader_before_add s in
      let s2 = add_planned p.add s1 in
      let s3 = promote_planned p.promote s2 in
      let s4 = transfer_to p.leader_before_remove s3 in
      let s5 = demote_planned p.demote s4 in
      let a = transfer-AreLeft p.leader_before_add s in
      let b = add-AreLeft p.add s1 in
      let d = promote-AreLeft p.promote s2 in
      let e = transfer-AreLeft p.leader_before_remove s3 in
      let f = demote-AreLeft p.demote s4 in
      let x1 = transfer_to-IsLive p.leader_before_add s x in
      let x2 = add_planned-IsLive p.add s1 (same-IsIn _ _ p.add a.0 i.0) x1 in
      let x3 = promote_planned-IsLive p.promote s2 (same-IsIn _ _ p.promote (b.2 ∙ a.2) i.2) x2 in
      let x4 = transfer_to-IsLive p.leader_before_remove s3 x3 in
      let x5 =
        demote_planned-IsLive p.demote s4 (same-IsIn _ _ p.demote (e.3 ∙ (d.3 ∙ (b.3 ∙ a.3))) i.3)
          x4 in
      remove_planned-IsLive p.remove s5
        (same-IsIn _ _ p.remove (f.1 ∙ (e.1 ∙ (d.1 ∙ (b.1 ∙ a.1)))) i.1) x5

  abbrev pub EndsTracked : Rounds → Type 0
  EndsTracked (ended s) = Tracks c r l s.0
  EndsTracked (stuck s) = Unit
  EndsTracked out_of_fuel = Unit

  pub rounds-EndsTracked :
      (fuel : ℕ) (s : State) → IsReady s.0 → IsLive s.0 → EndsTracked (rounds fuel s)
  unfolding rounds
  rounds-EndsTracked zero s i x = elim (Bool-cases (pending_count s.0 == 0)) [
    | inl z ↦ rw (z, rounds) x.2
    | inr z ↦ rw (z, rounds) tt
  ]
  rounds-EndsTracked (suc fuel) s i x = elim (Bool-cases (pending_count s.0 == 0)) [
    | inl z ↦ rw (z, rounds) x.2
    | inr n ↦ elim (Bool-cases (is_empty (peer_plan s.0))) [
      | inl z ↦ rw (n, z, rounds) tt
      | inr m ↦
          rw (n, m, rounds)
            (rounds-EndsTracked fuel (exec_plan (peer_plan s.0) s)
              (exec_plan-IsReady (peer_plan s.0) s i)
              (exec_plan-IsLive (peer_plan s.0) s (peer_plan-IsSound s.0 i) x))
    ]
  ]

  either-Tracks :
      (b : Bool) (x y : State)
      → Tracks c r l x.0
      → Tracks c r l y.0
      → Tracks c r l (if b then x else y).0
  either-Tracks true x y h k = h
  either-Tracks false x y h k = k

  pub last_transfer-Tracks : (s : State) → Tracks c r l s.0 → Tracks c r l (last_transfer s).0
  unfolding last_transfer
  last_transfer-Tracks (b, kind) t =
      let d = set_target_leader_if_not_exist b in
      let u = set_leader-Tracks c r l b t in
      either-Tracks
        (has d.current_peers d.target_leader
          && not (d.target_leader == 0)
          && not (d.current_leader == d.target_leader))
        _ (d, kind) (exec_transfer_leader-Tracks c r l d d.target_leader u) u
