-- ===== src/Operator/Builder/Outcome.antt =====
-- What `buildStepsWithJointConsensus` leads to.
use matrixcube.Prelude.{
  ℕ, ◌≡◌, refl, sym, ap, ◌∙◌, Bool, true, false, not, ◌&&◌, ◌||◌, Option, none, some, List, [], ◌∷◌,
  ◌==◌, if◌then◌else◌, Bool-cases, inl, inr, arith,
}
use matrixcube.Meta.{Peer, learner, is_learner}
use matrixcube.Operator.Builder.Peers.{PeersMap, lookup, has, set, set_all, lookup-delete, IsMap}
use matrixcube.Operator.Builder.{Builder, with_role}
use matrixcube.Operator.Builder.Exec.{
  exec_transfer_leader, exec_add_peer, exec_remove_peer, exec_change_peer_v2,
}
use matrixcube.Operator.Builder.JointPlan.{
  add_as_learner, add_all, demote_removed, demote_all, remove_all, change_and_transfer, is_voter_in,
  moves_leader,
}
use matrixcube.Operator.Builder.Pending.{
  put_when, put_each, or_lookup, at_most, lookup-put_each, chosen,
}

-- what the first loop sets: the peer as a learner, and the voters to be promoted
abbrev pub as_learner : Peer → Option Peer
as_learner p = some (if not (is_learner p) then with_role p learner else p)

abbrev pub only_voter : Peer → Option Peer
only_voter p = if not (is_learner p) then some p else none

-- what the second loop sets
abbrev pub voter_as_learner : Peer → Option Peer
voter_as_learner p = if not (is_learner p) then some (with_role p learner) else none

-- what a loop of the plan does to the maps
abbrev pub IsStep : Builder → Builder → (current promote demote : PeersMap) → Type 0
IsStep b d current promote demote =
    (d.current_peers ≡ current)
    × (d.to_promote ≡ promote)
    × (d.to_demote ≡ demote)
    × (d.to_remove ≡ b.to_remove)
    × (d.target_peers ≡ b.target_peers)
    × (d.origin_leader ≡ b.origin_leader)
    × (d.current_leader ≡ b.current_leader)
    × (d.target_leader ≡ b.target_leader)

pub add_as_learner-IsStep :
    (b : Builder) (p : Peer)
    → IsStep b
        (add_as_learner b p)
        (put_when b.current_peers (as_learner p))
        (put_when b.to_promote (only_voter p))
        b.to_demote
unfolding add_as_learner exec_add_peer
add_as_learner-IsStep b p = elim (Bool-cases (is_learner p)) [
  | inl e ↦ rw (e, add_as_learner) (refl, refl, refl, refl, refl, refl, refl, refl)
  | inr e ↦ rw (e, add_as_learner) (refl, refl, refl, refl, refl, refl, refl, refl)
]

pub add_all-IsStep :
    (b : Builder) (ps : List Peer)
    → IsStep b
        (add_all b ps)
        (put_each as_learner b.current_peers ps)
        (put_each only_voter b.to_promote ps)
        b.to_demote
unfolding add_all put_each add_as_learner
add_all-IsStep b [] = (refl, refl, refl, refl, refl, refl, refl, refl)
add_all-IsStep b (p ∷ ps) =
    let d = add_as_learner-IsStep b p in
    rw (d.0, d.1, d.2, d.3, d.4, d.5, d.6, d.7) at (add_all-IsStep (add_as_learner b p) ps)

demote_removed-IsStep :
    (b : Builder) (p : Peer)
    → IsStep b
        (demote_removed b p)
        b.current_peers
        b.to_promote
        (put_when b.to_demote (voter_as_learner p))
unfolding demote_removed
demote_removed-IsStep b p = elim (Bool-cases (is_learner p)) [
  | inl e ↦ rw (e, demote_removed) (refl, refl, refl, refl, refl, refl, refl, refl)
  | inr e ↦ rw (e, demote_removed) (refl, refl, refl, refl, refl, refl, refl, refl)
]

pub demote_all-IsStep :
    (b : Builder) (ps : List Peer)
    → IsStep b
        (demote_all b ps)
        b.current_peers
        b.to_promote
        (put_each voter_as_learner b.to_demote ps)
unfolding demote_all put_each demote_removed
demote_all-IsStep b [] = (refl, refl, refl, refl, refl, refl, refl, refl)
demote_all-IsStep b (p ∷ ps) =
    let d = demote_removed-IsStep b p in
    rw (d.0, d.1, d.2, d.3, d.4, d.5, d.6, d.7) at (demote_all-IsStep (demote_removed b p) ps)

removed_before :
    (x y : Bool) (o : Option Peer)
    → (if x then none else if y then none else o) ≡ (if y || x then none else o)
removed_before x true o = ground arith
removed_before x false o = refl

has-cons : (p : Peer) (ps : PeersMap) (c : ℕ) → has (p ∷ ps) c ≡ (p.container_id == c || has ps c)
has-cons p ps c = ground arith

pub lookup-remove_all :
    (b : Builder) (ps : List Peer) (c : ℕ)
    → lookup (remove_all b ps).current_peers c
      ≡ (if has ps c then none else lookup b.current_peers c)
unfolding remove_all exec_remove_peer
lookup-remove_all b [] c = refl
lookup-remove_all b (p ∷ ps) c =
    lookup-remove_all (exec_remove_peer b p) ps c
    ∙ (rw (lookup-delete b.current_peers p.container_id c)
          (removed_before (has ps c) (p.container_id == c) (lookup b.current_peers c))
        ∙ ap (λ x. if x then none else lookup b.current_peers c) (sym (has-cons p ps c)))

set_all-put_each : (m : PeersMap) (ps : List Peer) → set_all m ps ≡ put_each (λ p. some p) m ps
unfolding set_all put_each
set_all-put_each m [] = refl
set_all-put_each m (p ∷ ps) = set_all-put_each (set m p) ps

at_most-some : (o : Option Peer) → at_most (λ p. some p) o ≡ o
at_most-some none = refl
at_most-some (some p) = refl

pub lookup-set_all :
    (m ps : PeersMap) (c : ℕ)
    → IsMap ps
    → lookup (set_all m ps) c ≡ or_lookup (lookup ps c) (lookup m c)
lookup-set_all m ps c i =
    ap (λ (l : PeersMap). lookup l c) (set_all-put_each m ps)
    ∙ (lookup-put_each (λ p. some p) m ps c
          (λ p q e. ap (λ (r : Peer). r.container_id) (sym (chosen true p q e))) i
        ∙ ap (λ o. or_lookup o (lookup m c)) (at_most-some (lookup ps c)))

-- `execChangePeerV2` in full
exec_change_peer_v2-IsStep :
    (b : Builder) (enter transfer : Bool)
    → ((exec_change_peer_v2 b enter transfer).current_peers
        ≡ set_all (set_all b.current_peers b.to_promote) b.to_demote)
      × ((exec_change_peer_v2 b enter transfer).to_remove ≡ b.to_remove)
      × ((exec_change_peer_v2 b enter transfer).target_leader ≡ b.target_leader)
      × ((exec_change_peer_v2 b enter transfer).current_leader ≡ (
          if transfer && not (b.origin_leader == b.target_leader)
          then b.target_leader
          else b.current_leader))
      × ((exec_change_peer_v2 b enter transfer).origin_leader ≡ b.origin_leader)
unfolding exec_change_peer_v2 exec_transfer_leader
exec_change_peer_v2-IsStep b true true = elim (Bool-cases (b.origin_leader == b.target_leader)) [
  | inl e ↦ rw (e, exec_change_peer_v2) (refl, refl, refl, refl, refl)
  | inr e ↦ rw (e, exec_change_peer_v2) (refl, refl, refl, refl, refl)
]
exec_change_peer_v2-IsStep b true false = (refl, refl, refl, refl, refl)
exec_change_peer_v2-IsStep b false true = elim (Bool-cases (b.origin_leader == b.target_leader)) [
  | inl e ↦ rw (e, exec_change_peer_v2) (refl, refl, refl, refl, refl)
  | inr e ↦ rw (e, exec_change_peer_v2) (refl, refl, refl, refl, refl)
]
exec_change_peer_v2-IsStep b false false = (refl, refl, refl, refl, refl)

same_leader : (m n : ℕ) → not (m == n) ≡ false → m ≡ n
same_leader m n e = ground arith

moved_leader : (m n c : ℕ) → c ≡ m → (if true && not (m == n) then n else c) ≡ n
moved_leader m n c h = ground arith

-- Each of the three orders changes the peers, and leaves the target leader as the leader.
pub change_and_transfer_lem :
    (b : Builder) (kind : ℕ)
    → b.current_leader ≡ b.origin_leader
    → ((change_and_transfer b kind).0.current_peers
        ≡ set_all (set_all b.current_peers b.to_promote) b.to_demote)
      × ((change_and_transfer b kind).0.to_remove ≡ b.to_remove)
      × ((change_and_transfer b kind).0.target_leader ≡ b.target_leader)
      × ((change_and_transfer b kind).0.current_leader ≡ b.target_leader)
unfolding change_and_transfer exec_transfer_leader
change_and_transfer_lem b kind h = elim (Bool-cases (is_voter_in b.origin_peers b.target_leader)) [
  | inl v ↦ elim (Bool-cases (moves_leader b)) [
    | inl m ↦
        let x = exec_change_peer_v2-IsStep (exec_transfer_leader b b.target_leader) true false in
        rw (v, m, change_and_transfer) (x.0, x.1, x.2, x.3)
    | inr m ↦
        let x = exec_change_peer_v2-IsStep b true false in
        rw (v, m, change_and_transfer)
          (x.0, x.1, x.2, x.3 ∙ (h ∙ same_leader b.origin_leader b.target_leader m))
  ]
  | inr v ↦ elim (Bool-cases (b.origin_leader == 0 || is_voter_in b.target_peers b.origin_leader)) [
    | inl o ↦
        let x = exec_change_peer_v2-IsStep b true false in
        rw (v, o, change_and_transfer)
          (elim (Bool-cases (moves_leader (exec_change_peer_v2 b true false))) [
            | inl m ↦ rw m (x.0, x.1, x.2, x.2)
            | inr m ↦ rw m (
              x.0,
              x.1,
              x.2,
              x.3
                  ∙ (h
                      ∙ (sym x.4
                          ∙ (same_leader (exec_change_peer_v2 b true false).origin_leader
                                (exec_change_peer_v2 b true false).target_leader m
                              ∙ x.2))),
            )
          ])
    | inr o ↦
        let x = exec_change_peer_v2-IsStep b true true in
        rw (v, o, change_and_transfer)
          (x.0, x.1, x.2, x.3 ∙ moved_leader b.origin_leader b.target_leader b.current_leader h)
  ]
]
