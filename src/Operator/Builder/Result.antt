-- ===== src/Operator/Builder/Result.antt =====
-- `prepareBuild` and `buildStepsWithJointConsensus` of
-- components/prophet/schedule/operator/builder.go together.
use mathlib.Core.Path.{subst}
use matrixcube.Prelude.{
  ℕ, ◌≡◌, refl, sym, ap, ◌∙◌, Bool, Option, none, some, [], ◌==◌, Bool-cases, inl, inr, count_if,
}
use matrixcube.Meta.{Peer, is_learner}
use matrixcube.Operator.Builder.Peers.{PeersMap, lookup, copy, IsMap}
use matrixcube.Operator.Builder.{Builder}
use matrixcube.Operator.Builder.Prepare.{
  prepare_build, fresh, diff_origins, diff_targets, after_diff, or_no_id, cancel_leader, cancelled,
  start_current, target_allowed, end_prepare, is_voter_peer,
}
use matrixcube.Operator.Builder.Pending.{
  at_most, or_lookup, put_each, KeepsContainer, to_remove_of, to_promote_of, to_demote_of,
  lookup-put_each, put_each-IsMap, diff_origins-put_each, remove-KeepsContainer,
  promote-KeepsContainer, demote-KeepsContainer,
}
use matrixcube.Operator.Builder.Added.{
  kind_of, added_kind, new_in, AreAdded, diff_targets-AreAdded, or_kind_of,
}
use matrixcube.Operator.Builder.Outcome.{lookup-set_all}
use matrixcube.Operator.Builder.Leader.{IsVoterOf}

-- What a successful `prepareBuild` plans, by the origin and the target peer of each container.
pub record IsPrepared (b p : Builder) : Type 0 where
  pub removed :
      (c : ℕ)
      → lookup p.to_remove c
        ≡ at_most (to_remove_of b.allow_demote b.target_peers) (lookup b.origin_peers c)
  pub promoted :
      (c : ℕ)
      → lookup p.to_promote c
        ≡ at_most (to_promote_of b.allow_demote b.target_peers) (lookup b.origin_peers c)
  pub demoted :
      (c : ℕ)
      → lookup p.to_demote c
        ≡ at_most (to_demote_of b.allow_demote b.target_peers) (lookup b.origin_peers c)
  pub added :
      (c : ℕ)
      → kind_of (lookup p.to_add c)
        ≡ added_kind (new_in b (lookup b.target_peers c)) (lookup b.target_peers c)
  pub current : (c : ℕ) → lookup p.current_peers c ≡ lookup b.origin_peers c
  pub add_map : IsMap p.to_add
  pub remove_map : IsMap p.to_remove
  pub promote_map : IsMap p.to_promote
  pub demote_map : IsMap p.to_demote
  pub target : p.target_peers ≡ b.target_peers
  pub leader : p.current_leader ≡ p.origin_leader
  pub target_leader : IsVoterOf b.target_peers p.target_leader

cancelled-IsVoter :
    (b : Builder) (o : Option Peer)
    → lookup b.target_peers b.target_leader ≡ o
    → IsVoterOf b.target_peers (cancelled b o).target_leader
cancelled-IsVoter b none e = inl refl
cancelled-IsVoter b (some p) e = elim (Bool-cases (is_learner p)) [
  | inl l ↦ rw l (inl refl)
  | inr l ↦ rw l (inr (p, e, l))
]

-- a cancelled leader changes nothing else
cancelled_kept :
    (b : Builder) (o : Option Peer)
    → ((cancelled b o).to_remove ≡ b.to_remove)
      × ((cancelled b o).to_promote ≡ b.to_promote)
      × ((cancelled b o).to_demote ≡ b.to_demote)
      × ((cancelled b o).to_add ≡ b.to_add)
      × ((cancelled b o).target_peers ≡ b.target_peers)
      × ((cancelled b o).origin_peers ≡ b.origin_peers)
cancelled_kept b none = (refl, refl, refl, refl, refl, refl)
cancelled_kept b (some p) = elim (Bool-cases (is_learner p)) [
  | inl l ↦ rw l (refl, refl, refl, refl, refl, refl)
  | inr l ↦ rw l (refl, refl, refl, refl, refl, refl)
]

or_lookup-none : (o : Option Peer) → or_lookup o none ≡ o
or_lookup-none none = refl
or_lookup-none (some p) = refl

lookup-copy : (m : PeersMap) (c : ℕ) → IsMap m → lookup (copy m) c ≡ lookup m c
unfolding copy
lookup-copy m c i = lookup-set_all [] m c i ∙ or_lookup-none (lookup m c)

or_kind_of-none : (o : Option Bool) → or_kind_of o none ≡ o
or_kind_of-none none = refl
or_kind_of-none (some k) = refl

in_empty :
    (f : Peer → Option Peer) (ps : PeersMap) (c : ℕ)
    → KeepsContainer f
    → IsMap ps
    → lookup (put_each f [] ps) c ≡ at_most f (lookup ps c)
in_empty f ps c k i = lookup-put_each f [] ps c k i ∙ or_lookup-none (at_most f (lookup ps c))

new_in_same :
    (b d : Builder) (o : Option Peer)
    → d.origin_peers ≡ b.origin_peers
    → d.allow_demote ≡ b.allow_demote
    → new_in d o ≡ new_in b o
new_in_same b d none e f = refl
new_in_same b d (some n) e f = rw (e, f) refl

-- what follows the two loops
end_IsPrepared :
    (b t : Builder)
    → IsMap b.origin_peers
    → AreAdded (diff_origins (fresh b) b.origin_peers) t b.target_peers
    → IsPrepared b (end_prepare (start_current (cancel_leader t)))
end_IsPrepared b t i a =
    let l = diff_origins-put_each (fresh b) b.origin_peers in
    let d = diff_origins (fresh b) b.origin_peers in
    let k = cancelled_kept t (lookup t.target_peers t.target_leader) in
    let at = λ (x y : PeersMap) (c : ℕ) (e : x ≡ y). ap (λ (m : PeersMap). lookup m c) e in
    record {
      removed = λ c.
          at _ _ c (k.0 ∙ (a.kept.0 ∙ l.0))
          ∙ in_empty (to_remove_of b.allow_demote b.target_peers) b.origin_peers c
              (remove-KeepsContainer b.allow_demote b.target_peers) i;
      promoted = λ c.
          at _ _ c (k.1 ∙ (a.kept.1 ∙ l.1))
          ∙ in_empty (to_promote_of b.allow_demote b.target_peers) b.origin_peers c
              (promote-KeepsContainer b.allow_demote b.target_peers) i;
      demoted = λ c.
          at _ _ c (k.2 ∙ (a.kept.2 ∙ l.2))
          ∙ in_empty (to_demote_of b.allow_demote b.target_peers) b.origin_peers c
              (demote-KeepsContainer b.allow_demote b.target_peers) i;
      added = λ c.
          ap (λ (m : PeersMap). kind_of (lookup m c)) k.3
          ∙ (a.kinds c
              ∙ (ap
                    (λ (m : PeersMap).
                      or_kind_of
                        (added_kind (new_in d (lookup b.target_peers c)) (lookup b.target_peers c))
                        (kind_of (lookup m c)))
                    l.6
                  ∙ (or_kind_of-none
                        (added_kind (new_in d (lookup b.target_peers c)) (lookup b.target_peers c))
                      ∙ ap (λ x. added_kind x (lookup b.target_peers c))
                          (new_in_same b d (lookup b.target_peers c) l.5 l.4))));
      current = λ c.
          ap (λ (m : PeersMap). lookup (copy m) c) (k.5 ∙ (a.kept.4 ∙ l.5))
          ∙ lookup-copy b.origin_peers c i;
      add_map = rw k.3 a.is_map;
      remove_map =
          rw (k.0 ∙ (a.kept.0 ∙ l.0))
            (put_each-IsMap (to_remove_of b.allow_demote b.target_peers) [] b.origin_peers tt);
      promote_map =
          rw (k.1 ∙ (a.kept.1 ∙ l.1))
            (put_each-IsMap (to_promote_of b.allow_demote b.target_peers) [] b.origin_peers tt);
      demote_map =
          rw (k.2 ∙ (a.kept.2 ∙ l.2))
            (put_each-IsMap (to_demote_of b.allow_demote b.target_peers) [] b.origin_peers tt);
      target = k.4 ∙ (a.kept.3 ∙ l.3);
      leader = refl;
      target_leader =
          subst (λ m. IsVoterOf m (cancel_leader t).target_leader) (a.kept.3 ∙ l.3)
            (cancelled-IsVoter t (lookup t.target_peers t.target_leader) refl);
    }

after_diff_lem :
    (t : Builder)
    → (after_diff t).1 ≡ none
    → (after_diff t).0 ≡ end_prepare (start_current (cancel_leader t))
after_diff_lem t e = elim (Bool-cases (target_allowed (start_current (cancel_leader t)))) [
  | inl y ↦ rw y refl
  | inr n ↦ absurd (cc (rw n at e))
]

pub no_id_lem :
    (d : Builder) (o : Option Builder)
    → (or_no_id d o).1 ≡ none
    → (t : Builder) × (o ≡ some t)
      × ((or_no_id d o).0 ≡ end_prepare (start_current (cancel_leader t)))
no_id_lem d none e = cc
no_id_lem d (some t) e = (t, refl, after_diff_lem t e)

-- A `prepareBuild` that does not fail plans, for each container, what its origin and its target peer
-- ask for: a peer without a target is removed, a learner that becomes a voter promoted, a voter that
-- becomes a learner demoted, or removed and added where demotion is not allowed, and a target peer
-- without an origin is added with its role. The target leader is a voter of the target peers, or none.
pub prepare_build-IsPrepared :
    (b : Builder)
    → IsMap b.origin_peers
    → IsMap b.target_peers
    → (prepare_build b).1 ≡ none
    → IsPrepared b (prepare_build b).0
unfolding prepare_build
prepare_build-IsPrepared b i j e = elim (Bool-cases (count_if is_voter_peer b.target_peers == 0)) [
  | inl z ↦ absurd (cc (rw (z, prepare_build) at e))
  | inr n ↦
      let d = diff_origins (fresh b) b.origin_peers in
      let l = diff_origins-put_each (fresh b) b.origin_peers in
      let (t, f, g) = no_id_lem d (diff_targets d d.target_peers) (rw (n, prepare_build) at e) in
      rw (n, prepare_build)
        (subst (λ p. IsPrepared b p) (sym g)
          (end_IsPrepared b t i (
            diff_targets-AreAdded d t b.target_peers (subst (λ m. diff_targets d m ≡ some t) l.3 f)
              j (subst IsMap (sym l.6) tt))))
]
