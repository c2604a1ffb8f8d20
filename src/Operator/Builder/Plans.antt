-- ===== src/Operator/Builder/Plans.antt =====
-- The plan of one round of `buildStepsWithoutJointConsensus` in
-- components/prophet/schedule/operator/builder.go.
use matrixcube.Prelude.{
  ℕ, ◌≡◌, ◌≢◌, refl, Bool, true, false, not, ◌&&◌, Option, none, some, List, [], ◌∷◌, ◌==◌, All,
  if◌then◌else◌, arith,
}
use matrixcube.Meta.{Peer, is_learner}
use matrixcube.Operator.Builder.Peers.{PeersMap, lookup, IsMap}
use matrixcube.Operator.Builder.{Builder}
use matrixcube.Operator.Builder.Prepare.{allow_leader}
use matrixcube.Operator.Builder.Exec.{is_better}
use matrixcube.Operator.Builder.Leader.{own_lookup}
use matrixcube.Operator.Builder.StepPlan.{
  first_promote, StepPlan, no_plan, is_empty, container_of, compare_plan, plan_scores, each,
  with_own_leader, with_leader, with_first_leader, plan_replace_leaders, plan_of,
  promote_and_demote, add_and_remove, promote_add_remove, demote_remove_add, same_kind, if_learner,
  plan_replace, plan_promote_peer, plan_demote_peer, plan_remove_peer, plan_add_peer, or_plan,
  peer_plan,
}

-- the peer of a plan is one of the map
abbrev pub IsIn : PeersMap → Option Peer → Type 0
IsIn m none = Unit
IsIn m (some p) = lookup m p.container_id ≡ some p

-- another container than that of the peer
abbrev pub Spares : ℕ → Option Peer → Type 0
Spares id none = Unit
Spares id (some p) = id ≢ p.container_id

-- The peers of a plan are to be changed, and the leader before the removal is neither removed nor
-- demoted.
abbrev pub IsSound : Builder → StepPlan → Type 0
IsSound b p =
    IsIn b.to_add p.add
    × IsIn b.to_remove p.remove
    × IsIn b.to_promote p.promote
    × IsIn b.to_demote p.demote
    × Spares p.leader_before_remove p.remove
    × Spares p.leader_before_remove p.demote

abbrev IsPart : Builder → StepPlan → Type 0
IsPart b p =
    IsIn b.to_add p.add
    × IsIn b.to_remove p.remove
    × IsIn b.to_promote p.promote
    × IsIn b.to_demote p.demote

abbrev pub IsReady : Builder → Type 0
IsReady b = IsMap b.to_add × IsMap b.to_remove × IsMap b.to_promote × IsMap b.to_demote

-- a loop keeps what its body keeps, for the peers of a map
each_own :
    (P : StepPlan → Type 0) (m ps : PeersMap) (f : Peer → StepPlan → StepPlan) (s : StepPlan)
    → All (λ (p : Peer). lookup m p.container_id ≡ some p) ps
    → ((p : Peer) (s : StepPlan) → lookup m p.container_id ≡ some p → P s → P (f p s))
    → P s
    → P (each ps f s)
unfolding each
each_own P m [] f s a k h = h
each_own P m (p ∷ ps) f s a k h = each_own P m ps f (f p s) a.1 k (k p s a.0 h)

each_any :
    (P : StepPlan → Type 0) (ps : List Peer) (f : Peer → StepPlan → StepPlan) (s : StepPlan)
    → ((p : Peer) (s : StepPlan) → P s → P (f p s))
    → P s
    → P (each ps f s)
unfolding each
each_any P [] f s k h = h
each_any P (p ∷ ps) f s k h = each_any P ps f (f p s) k (k p s h)

either : (P : StepPlan → Type 0) (c : Bool) (x y : StepPlan) → P x → P y → P (if c then x else y)
either P true x y h k = h
either P false x y h k = k

-- a plan under a test
when_true :
    (P : StepPlan → Type 0) (c : Bool) (x y : StepPlan)
    → (c ≡ true → P x)
    → P y
    → P (if c then x else y)
when_true P true x y h k = h refl
when_true P false x y h k = k

spared : (id : ℕ) (o : Option Peer) → not (id == container_of o) ≡ true → Spares id o
spared id none h = tt
spared id (some p) h = ground arith

module _ (b : Builder) where
  compare-IsSound :
      (best next : StepPlan)
      → IsSound b best
      → IsSound b next
      → IsSound b (compare_plan b best next)
  unfolding compare_plan
  compare-IsSound best next h k =
      either (IsSound b) (is_empty best) next
        (if is_better (plan_scores b best next) then next else best) k
        (either (IsSound b) (is_better (plan_scores b best next)) next best k h)

  led_by :
      (next : StepPlan) (l : Peer) (best : StepPlan)
      → IsPart b next
      → IsSound b best
      → IsSound b (with_leader b next l best)
  led_by next l best i h =
      when_true (IsSound b)
        (not (l.container_id == container_of next.demote)
          && not (l.container_id == container_of next.remove)
          && allow_leader b l false)
        (compare_plan b best (record next { leader_before_remove = l.container_id })) best
        (λ e.
          compare-IsSound best (record next { leader_before_remove = l.container_id }) h
            (
              i.0,
              i.1,
              i.2,
              i.3,
              spared l.container_id next.remove (ground arith),
              spared l.container_id next.demote (ground arith),
            ))
        h

  own_led :
      (next : StepPlan) (o : Option Peer) (best : StepPlan)
      → IsPart b next
      → IsSound b best
      → IsSound b (with_own_leader b next o best)
  own_led next none best i h = h
  own_led next (some l) best i h = led_by next l best i h

  replace_leaders-IsSound :
      (next best : StepPlan)
      → IsPart b next
      → IsSound b best
      → IsSound b (plan_replace_leaders b next best)
  unfolding plan_replace_leaders
  replace_leaders-IsSound next best i h =
      each_any (IsSound b) b.current_peers (with_first_leader b next) best
        (λ l s k.
          let n : StepPlan = record next { leader_before_add = l.container_id } in
          either (IsSound b) (allow_leader b l false) _ s
            (own_led n n.add _ i (
              own_led n n.promote _ i (
                each_any (IsSound b) b.current_peers (with_leader b n) s (λ q t u. led_by n q t i u)
                  k)))
            k)
        h

  or_plan-IsSound : (p q : StepPlan) → IsSound b p → IsSound b q → IsSound b (or_plan p q)
  or_plan-IsSound p q h k = either (IsSound b) (not (is_empty p)) p q h k

  first_promoted :
      (ps : PeersMap)
      → All (λ (p : Peer). lookup b.to_promote p.container_id ≡ some p) ps
      → IsSound b (first_promote ps)
  first_promoted [] a = (tt, tt, tt, tt, tt, tt)
  first_promoted (p ∷ ps) a = (tt, tt, a.0, tt, tt, tt)

  module _ (r : IsReady b) where
    abbrev IsKept : (StepPlan → StepPlan) → Type 0
    IsKept f = (s : StepPlan) → IsSound b s → IsSound b (f s)

    first_loop : IsKept (each b.to_demote (λ d. each b.to_promote (promote_and_demote b d)))
    first_loop s h =
        each_own (IsSound b) b.to_demote b.to_demote _ s (own_lookup b.to_demote r.3)
          (λ d t e k.
            each_own (IsSound b) b.to_promote b.to_promote _ t (own_lookup b.to_promote r.2)
              (λ p u f l.
                replace_leaders-IsSound (plan_of none none (some p) (some d)) u (tt, tt, f, e) l)
              k)
          h

    second_loop : IsKept (each b.to_add (λ a. each b.to_remove (add_and_remove b a)))
    second_loop s h =
        each_own (IsSound b) b.to_add b.to_add _ s (own_lookup b.to_add r.0)
          (λ a t e k.
            each_own (IsSound b) b.to_remove b.to_remove _ t (own_lookup b.to_remove r.1)
              (λ q u f l.
                either (IsSound b) (same_kind q a) _ u
                  (replace_leaders-IsSound (plan_of (some a) (some q) none none) u (e, f, tt, tt) l)
                  l)
              k)
          h

    third_loop : IsKept (
        each b.to_promote λ p.
          each b.to_add
            λ a best. if_learner a best (each b.to_remove (promote_add_remove b p a) best))
    third_loop s h =
        each_own (IsSound b) b.to_promote b.to_promote _ s (own_lookup b.to_promote r.2)
          (λ p t e k.
            each_own (IsSound b) b.to_add b.to_add _ t (own_lookup b.to_add r.0)
              (λ a u f l.
                either (IsSound b) (is_learner a) _ u
                  (each_own (IsSound b) b.to_remove b.to_remove _ u (own_lookup b.to_remove r.1)
                    (λ q v g m.
                      either (IsSound b)
                        (not (is_learner q) && not (a.container_id == q.container_id)) _ v
                        (replace_leaders-IsSound (plan_of (some a) (some q) (some p) none) v
                          (f, g, e, tt) m)
                        m)
                    l)
                  l)
              k)
          h

    fourth_loop : IsKept (
        each b.to_demote λ d.
          each b.to_remove
            λ q best. if_learner q best (each b.to_add (demote_remove_add b d q) best))
    fourth_loop s h =
        each_own (IsSound b) b.to_demote b.to_demote _ s (own_lookup b.to_demote r.3)
          (λ d t e k.
            each_own (IsSound b) b.to_remove b.to_remove _ t (own_lookup b.to_remove r.1)
              (λ q u f l.
                either (IsSound b) (is_learner q) _ u
                  (each_own (IsSound b) b.to_add b.to_add _ u (own_lookup b.to_add r.0)
                    (λ a v g m.
                      either (IsSound b)
                        (not (is_learner a) && not (q.container_id == a.container_id)) _ v
                        (replace_leaders-IsSound (plan_of (some a) (some q) none (some d)) v
                          (g, f, tt, e) m)
                        m)
                    l)
                  l)
              k)
          h

    replace-IsSound : IsSound b (plan_replace b)
    unfolding plan_replace
    replace-IsSound =
        fourth_loop _ (third_loop _ (second_loop _ (first_loop no_plan (tt, tt, tt, tt, tt, tt))))

    promote-IsSound : IsSound b (plan_promote_peer b)
    promote-IsSound = first_promoted b.to_promote (own_lookup b.to_promote r.2)

    remove-IsSound : IsSound b (plan_remove_peer b)
    unfolding plan_remove_peer
    remove-IsSound =
        each_own (IsSound b) b.to_remove b.to_remove _ no_plan (own_lookup b.to_remove r.1)
          (λ q s e k.
            each_any (IsSound b) b.current_peers _ s
              (λ l t u.
                when_true (IsSound b)
                  (allow_leader b l false && not (l.container_id == q.container_id)) _ t
                  (λ f.
                    compare-IsSound t _ u
                      (tt, e, tt, tt, spared l.container_id (some q) (ground arith), tt))
                  u)
              k)
          (tt, tt, tt, tt, tt, tt)

    add-IsSound : IsSound b (plan_add_peer b)
    unfolding plan_add_peer
    add-IsSound =
        each_own (IsSound b) b.to_add b.to_add _ no_plan (own_lookup b.to_add r.0)
          (λ a s e k.
            each_any (IsSound b) b.current_peers _ s
              (λ l t u.
                either (IsSound b) (allow_leader b l false) _ t
                  (compare-IsSound t _ u (e, tt, tt, tt, tt, tt)) u)
              k)
          (tt, tt, tt, tt, tt, tt)

    demote-IsSound : IsSound b (plan_demote_peer b)
    unfolding plan_demote_peer
    demote-IsSound =
        each_own (IsSound b) b.to_demote b.to_demote _ no_plan (own_lookup b.to_demote r.3)
          (λ d s e k.
            each_any (IsSound b) b.current_peers _ s
              (λ l t u.
                when_true (IsSound b)
                  (allow_leader b l false && not (l.container_id == d.container_id)) _ t
                  (λ f.
                    compare-IsSound t _ u
                      (tt, tt, tt, e, tt, spared l.container_id (some d) (ground arith)))
                  u)
              k)
          (tt, tt, tt, tt, tt, tt)

    -- The plan of a round, where each container has one peer in each map.
    pub peer_plan-IsSound : IsSound b (peer_plan b)
    unfolding peer_plan
    peer_plan-IsSound = or_plan-IsSound (plan_replace b) _ replace-IsSound (
        or_plan-IsSound (plan_promote_peer b) _ promote-IsSound (
          or_plan-IsSound (plan_demote_peer b) _ demote-IsSound (
            or_plan-IsSound (plan_remove_peer b) _ remove-IsSound
              (or_plan-IsSound (plan_add_peer b) no_plan add-IsSound (tt, tt, tt, tt, tt, tt)))))
