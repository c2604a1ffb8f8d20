-- ===== src/Operator/Builder/Changed.antt =====
-- The change of peers in `buildStepsWithJointConsensus` of
-- components/prophet/schedule/operator/builder.go, container by container.
use matrixcube.Prelude.{
  ℕ, ◌≡◌, refl, sym, ap, ◌∙◌, true, not, Option, none, some, if◌then◌else◌, Bool-cases, inl, inr,
}
use matrixcube.Meta.{Peer, learner, is_learner}
use matrixcube.Operator.Builder.Peers.{PeersMap, lookup, is_there, set_all, IsMap}
use matrixcube.Operator.Builder.{with_role}
use matrixcube.Operator.Builder.Pending.{
  at_most, or_lookup, put_each, KeepsContainer, lookup-put_each, put_each-IsMap, removed_for,
  promoted_for, demoted_for, chosen, learner-same_id,
}
use matrixcube.Operator.Builder.Added.{kind_of, added_kind}
use matrixcube.Operator.Builder.Outcome.{as_learner, only_voter, voter_as_learner, lookup-set_all}

pub as_learner-KeepsContainer : KeepsContainer as_learner
as_learner-KeepsContainer p q e = elim (Bool-cases (is_learner p)) [
  | inl l ↦ ap (λ (r : Peer). r.container_id) (sym (chosen true p q (rw l at e)))
  | inr l ↦
      ap (λ (r : Peer). r.container_id) (sym (chosen true (with_role p learner) q (rw l at e)))
]

pub only_voter-KeepsContainer : KeepsContainer only_voter
only_voter-KeepsContainer p q e =
    ap (λ (r : Peer). r.container_id) (sym (chosen (not (is_learner p)) p q e))

pub voter_as_learner-KeepsContainer : KeepsContainer voter_as_learner
voter_as_learner-KeepsContainer p q e =
    ap (λ (r : Peer). r.container_id) (sym (chosen (not (is_learner p)) (with_role p learner) q e))

-- The peer of a container after the change of peers.
abbrev pub changed : (rem dem add pro cur : Option Peer) → Option Peer
changed rem dem add pro cur =
    or_lookup (or_lookup (at_most voter_as_learner rem) dem)
      (or_lookup (or_lookup (at_most only_voter add) pro) (or_lookup (at_most as_learner add) cur))

pub lookup-changed :
    (cur adds pro dem rems : PeersMap) (c : ℕ)
    → IsMap adds
    → IsMap pro
    → IsMap dem
    → IsMap rems
    → lookup
        (set_all
          (set_all (put_each as_learner cur adds) (put_each only_voter pro adds))
          (put_each voter_as_learner dem rems))
        c
      ≡ changed (lookup rems c) (lookup dem c) (lookup adds c) (lookup pro c) (lookup cur c)
lookup-changed cur adds pro dem rems c i j k l =
    lookup-set_all _ _ c (put_each-IsMap voter_as_learner dem rems k)
    ∙ rw
        (
          lookup-put_each voter_as_learner dem rems c voter_as_learner-KeepsContainer l,
          lookup-set_all (put_each as_learner cur adds) (put_each only_voter pro adds) c
              (put_each-IsMap only_voter pro adds j),
          lookup-put_each only_voter pro adds c only_voter-KeepsContainer i,
          lookup-put_each as_learner cur adds c as_learner-KeepsContainer i,
        )
        refl

-- the peer of a container that is not removed
abbrev pub left : (rem dem add pro cur : Option Peer) → Option Peer
left rem dem add pro cur = if is_there rem then none else changed rem dem add pro cur

-- Planned by the origin and the target peer, the kind that is left is that of the target peer.
pub kind_left :
    (t : PeersMap) (o n rem dem add pro cur : Option Peer)
    → rem ≡ at_most (λ p. removed_for true t p n) o
    → dem ≡ at_most (λ p. demoted_for true t p n) o
    → pro ≡ at_most (λ p. promoted_for true t p n) o
    → kind_of add ≡ added_kind (not (is_there o)) n
    → cur ≡ o
    → kind_of (left rem dem add pro cur) ≡ kind_of n
kind_left t none none rem dem none pro cur r d p a u = rw (r, d, p, u) refl
kind_left t none none rem dem (some x) pro cur r d p a u = cc
kind_left t none (some n) rem dem none pro cur r d p a u = cc
kind_left t none (some n) rem dem (some x) pro cur r d p a u =
    rw (r, d, p) (elim (Bool-cases (is_learner x)) [ inl l ↦ rw l a | inr l ↦ rw l a ])
kind_left t (some o) none rem dem add pro cur r d p a u = rw r refl
kind_left t (some o) (some n) rem dem (some x) pro cur r d p a u = cc
kind_left t (some o) (some n) rem dem none pro cur r d p a u =
    rw (r, d, p, u)
      (elim (Bool-cases (is_learner o)) [
        | inl e ↦ elim (Bool-cases (is_learner n)) [
          | inl f ↦ rw (e, f) (ap (λ x. some x) e)
          | inr f ↦ rw (e, f) (ap (λ x. some x) (learner-same_id o n ∙ f))
        ]
        | inr e ↦ elim (Bool-cases (is_learner n)) [
          | inl f ↦ rw (e, f) (ap (λ x. some x) (learner-same_id o n ∙ f))
          | inr f ↦ rw (e, f) (ap (λ x. some x) e)
        ]
      ])
