-- ===== src/Operator/Builder/Ready.antt =====
-- What a prepared builder of components/prophet/schedule/operator/builder.go has to change, container
-- by container, can be changed.
use matrixcube.Prelude.{ℕ, ◌≡◌, refl, ap, ◌∙◌, true, not, Option, none, some, Bool-cases, inl, inr}
use matrixcube.Meta.{Peer, is_learner}
use matrixcube.Operator.Builder.Peers.{PeersMap, lookup, is_there}
use matrixcube.Operator.Builder.{Builder}
use matrixcube.Operator.Builder.Pending.{
  at_most, or_lookup, removed_for, promoted_for, demoted_for, to_remove_of, to_promote_of,
  to_demote_of, learner-same_id,
}
use matrixcube.Operator.Builder.Added.{kind_of, added_kind}
use matrixcube.Operator.Builder.Outcome.{as_learner, only_voter, voter_as_learner}
use matrixcube.Operator.Builder.Result.{IsPrepared}
use matrixcube.Operator.Builder.Built.{at_container_lem, new_in_demoting}
use matrixcube.Operator.Builder.JointPlay.{CanChange}

-- a peer can be added where there is none
abbrev pub CanAdd : (add cur : Option Peer) → Type 0
CanAdd none cur = Unit
CanAdd (some p) cur = cur ≡ none

-- what is planned for a container, by its origin and its target peer
abbrev pub ArePlanned : (t : PeersMap) (o n rem dem add pro cur : Option Peer) → Type 0
ArePlanned t o n rem dem add pro cur =
    (rem ≡ at_most (λ p. removed_for true t p n) o)
    × (dem ≡ at_most (λ p. demoted_for true t p n) o)
    × (pro ≡ at_most (λ p. promoted_for true t p n) o)
    × (kind_of add ≡ added_kind (not (is_there o)) n)
    × (cur ≡ o)

pub prepared-ArePlanned :
    (b p : Builder) (c : ℕ)
    → IsPrepared b p
    → b.allow_demote ≡ true
    → ArePlanned b.target_peers
        (lookup b.origin_peers c)
        (lookup b.target_peers c)
        (lookup p.to_remove c)
        (lookup p.to_demote c)
        (lookup p.to_add c)
        (lookup p.to_promote c)
        (lookup p.current_peers c)
prepared-ArePlanned b p c i a =
    let o = lookup b.origin_peers c in
    let n = lookup b.target_peers c in
    let t = b.target_peers in
    (
      i.removed c
          ∙ (ap (λ x. at_most (to_remove_of x t) o) a
              ∙ at_container_lem (removed_for true t) t b.origin_peers c),
      i.demoted c
          ∙ (ap (λ x. at_most (to_demote_of x t) o) a
              ∙ at_container_lem (demoted_for true t) t b.origin_peers c),
      i.promoted c
          ∙ (ap (λ x. at_most (to_promote_of x t) o) a
              ∙ at_container_lem (promoted_for true t) t b.origin_peers c),
      i.added c ∙ new_in_demoting b n c a refl,
      i.current c,
    )

-- as the plan of joint consensus finds it after its first two loops
abbrev pub CanJoin : (rem dem add pro cur : Option Peer) → Type 0
CanJoin rem dem add pro cur =
    CanChange (or_lookup (at_most only_voter add) pro)
      (or_lookup (at_most voter_as_learner rem) dem) (or_lookup (at_most as_learner add) cur)

new_voter : (x : Peer) → CanJoin none none (some x) none none
new_voter x = elim (Bool-cases (is_learner x)) [ inl l ↦ rw l tt | inr l ↦ rw l (l, refl) ]

removed_peer : (o : Peer) → CanJoin (some o) none none none (some o)
removed_peer o = elim (Bool-cases (is_learner o)) [
  | inl l ↦ rw l tt
  | inr l ↦ rw l (refl, ap (λ x. some x) l)
]

pub planned_lem :
    (t : PeersMap) (o n rem dem add pro cur : Option Peer)
    → ArePlanned t o n rem dem add pro cur
    → CanAdd add cur × CanChange pro dem cur × CanJoin rem dem add pro cur
planned_lem t none none rem dem none pro cur (r, d, p, a, u) = rw (r, d, p) (tt, tt, tt)
planned_lem t none none rem dem (some x) pro cur (r, d, p, a, u) = cc
planned_lem t none (some n) rem dem none pro cur (r, d, p, a, u) = cc
planned_lem t none (some n) rem dem (some x) pro cur (r, d, p, a, u) =
    rw (r, d, p, u) (refl, tt, new_voter x)
planned_lem t (some o) none rem dem none pro cur (r, d, p, a, u) =
    rw (r, d, p, u) (tt, tt, removed_peer o)
planned_lem t (some o) none rem dem (some x) pro cur (r, d, p, a, u) = cc
planned_lem t (some o) (some n) rem dem (some x) pro cur (r, d, p, a, u) = cc
planned_lem t (some o) (some n) rem dem none pro cur (r, d, p, a, u) =
    let s = learner-same_id o n in
    rw (r, d, p, u)
      (elim (Bool-cases (is_learner o)) [
        | inl e ↦ elim (Bool-cases (is_learner n)) [
          | inl f ↦ rw (e, f) (tt, tt, tt)
          | inr f ↦ rw (e, f) (tt, (s ∙ f, ap (λ x. some x) e), (s ∙ f, ap (λ x. some x) e))
        ]
        | inr e ↦ elim (Bool-cases (is_learner n)) [
          | inl f ↦ rw (e, f) (tt, (s ∙ f, ap (λ x. some x) e), (s ∙ f, ap (λ x. some x) e))
          | inr f ↦ rw (e, f) (tt, tt, tt)
        ]
      ])
