-- ===== src/Operator/Builder/StepPlan.antt =====
-- components/prophet/schedule/operator/builder.go: the plans of one round without joint consensus,
-- and the choice among them. A loop that keeps the best plan so far is `each`.
use matrixcube.Prelude.{
  ℕ, suc, ◌+◌, Bool, true, false, not, ◌&&◌, ◌||◌, Option, none, some, List, [], ◌∷◌, ltb, ◌==◌,
  if◌then◌else◌, length,
}
use matrixcube.Prelude.Bytes.{Bytes, bytes_eq}
use matrixcube.Meta.{Peer, is_learner}
use matrixcube.Operator.Builder.{Builder, Container}
use matrixcube.Operator.Builder.Prepare.{allow_leader}
use matrixcube.Operator.Builder.Exec.{add_step, bool_to_int, is_up, is_better}

-- no peer is `none`, and no leader is 0
pub record StepPlan : Type 0 where
  pub leader_before_add : ℕ
  pub leader_before_remove : ℕ
  pub add : Option Peer
  pub remove : Option Peer
  pub promote : Option Peer
  pub demote : Option Peer

abbrev pub no_plan : StepPlan
no_plan = record {
  leader_before_add = 0;
  leader_before_remove = 0;
  add = none;
  remove = none;
  promote = none;
  demote = none;
}

abbrev pub is_none : Option Peer → Bool
is_none none = true
is_none (some p) = false

abbrev pub is_empty : StepPlan → Bool
is_empty p = is_none p.promote && is_none p.demote && is_none p.add && is_none p.remove

-- `GetContainerID`, which answers 0 for nil
abbrev pub container_of : Option Peer → ℕ
container_of none = 0
container_of (some p) = p.container_id

-- the number of labels that agree, in their order
unfoldable pub match_labels : Container → Container → List Bytes → ℕ
match_labels x y [] = 0
match_labels x y (l ∷ ls) =
    let rest = match_labels x y ls in
    if bytes_eq (x.label_value l) (y.label_value l) then suc rest else 0

abbrev pub label_match_of : List Bytes → Option Container → Option Container → ℕ
label_match_of labels none y = 0
label_match_of labels (some x) none = 0
label_match_of labels (some x) (some y) = match_labels x y labels

unfoldable pub label_match : Builder → ℕ → ℕ → ℕ
label_match b x y =
    label_match_of b.cluster.location_labels (b.cluster.get_container x) (b.cluster.get_container y)

abbrev pub lower : ℕ → ℕ → ℕ
lower m n = if ltb n m then n else m

abbrev pub nearest : Builder → (add remove promote demote : Option Peer) → ℕ
nearest b (some a) (some r) (some p) d =
    lower (label_match b a.container_id r.container_id)
      (label_match b p.container_id a.container_id)
nearest b (some a) (some r) none (some d) =
    lower (label_match b a.container_id r.container_id)
      (label_match b d.container_id r.container_id)
nearest b (some a) (some r) none none = label_match b a.container_id r.container_id
nearest b none r p d = 0
nearest b (some a) none p d = 0

unfoldable pub prefer_replace_by_nearest : Builder → StepPlan → ℕ
prefer_replace_by_nearest b p = nearest b p.add p.remove p.promote p.demote

unfoldable pub prefer_up_container_as_leader : Builder → StepPlan → ℕ
prefer_up_container_as_leader b p =
    if is_none p.add then 1 else bool_to_int (is_up (b.cluster.get_container p.leader_before_add))

abbrev pub adds_at : Option Peer → ℕ → Bool
adds_at none id = false
adds_at (some a) id = a.container_id == id

-- the score of `planPreferOldPeerAsLeader`, with the opposite sign
unfoldable pub new_peer_cost : Builder → StepPlan → ℕ
new_peer_cost b p =
    add_step b.peer_add_step p.leader_before_add
    + (if adds_at p.add p.leader_before_remove
        then length b.steps + 1
        else add_step b.peer_add_step p.leader_before_remove)

unfoldable pub prefer_less_leader_transfer : Builder → StepPlan → ℕ
prefer_less_leader_transfer b p =
    if p.leader_before_add == 0 || p.leader_before_add == b.current_leader
    then 2 + bool_to_int (p.leader_before_remove == 0 || p.leader_before_remove == b.current_leader)
    else bool_to_int (p.leader_before_remove == 0 || p.leader_before_remove == p.leader_before_add)

unfoldable pub prefer_target_leader : Builder → StepPlan → ℕ
prefer_target_leader b p = bool_to_int (
    b.target_leader == 0
    || not (p.leader_before_remove == 0) && p.leader_before_remove == b.target_leader
    || p.leader_before_remove == 0 && p.leader_before_add == b.target_leader)

abbrev pub adds_voter_at : Option Peer → ℕ → Bool
adds_voter_at none id = false
adds_voter_at (some a) id = not (is_learner a) && a.container_id == id

unfoldable pub prefer_add_or_promote_target_leader : Builder → StepPlan → ℕ
prefer_add_or_promote_target_leader b p =
    if b.target_leader == 0
    then 0
    else bool_to_int (adds_voter_at p.add b.target_leader || adds_at p.promote b.target_leader)

-- The scores of the best plan and of the next one, in the order of `initStepPlanPreferFuncs`; those
-- with the opposite sign are exchanged.
abbrev pub plan_scores : Builder → StepPlan → StepPlan → List (ℕ × ℕ)
plan_scores b best next =
    (prefer_replace_by_nearest b best, prefer_replace_by_nearest b next)
    ∷ (prefer_up_container_as_leader b best, prefer_up_container_as_leader b next)
    ∷ (new_peer_cost b next, new_peer_cost b best)
    ∷ (prefer_add_or_promote_target_leader b best, prefer_add_or_promote_target_leader b next)
    ∷ (prefer_target_leader b best, prefer_target_leader b next)
    ∷ (prefer_less_leader_transfer b best, prefer_less_leader_transfer b next)
    ∷ []

unfoldable pub compare_plan : Builder → StepPlan → StepPlan → StepPlan
compare_plan b best next =
    if is_empty best then next else if is_better (plan_scores b best next) then next else best

-- a loop over peers that keeps the best plan
unfoldable pub each : List Peer → (Peer → StepPlan → StepPlan) → StepPlan → StepPlan
each [] f best = best
each (p ∷ ps) f best = each ps f (f p best)

-- a leader before the removal that is given by the plan itself
abbrev pub with_own_leader : Builder → StepPlan → Option Peer → StepPlan → StepPlan
with_own_leader b next none best = best
with_own_leader b next (some p) best =
    if not (p.container_id == container_of next.demote)
      && not (p.container_id == container_of next.remove)
      && allow_leader b p false
    then compare_plan b best (record next { leader_before_remove = p.container_id })
    else best

-- the inner loop of `planReplaceLeaders`
abbrev pub with_leader : Builder → StepPlan → Peer → StepPlan → StepPlan
with_leader b next l best =
    if not (l.container_id == container_of next.demote)
      && not (l.container_id == container_of next.remove)
      && allow_leader b l false
    then compare_plan b best (record next { leader_before_remove = l.container_id })
    else best

abbrev pub with_first_leader : Builder → StepPlan → Peer → StepPlan → StepPlan
with_first_leader b plan l best =
    let next = record plan { leader_before_add = l.container_id } in
    if allow_leader b l false
    then with_own_leader b next next.add
        (with_own_leader b next next.promote (each b.current_peers (with_leader b next) best))
    else best

unfoldable pub plan_replace_leaders : Builder → StepPlan → StepPlan → StepPlan
plan_replace_leaders b next best = each b.current_peers (with_first_leader b next) best

abbrev pub plan_of : (add remove promote demote : Option Peer) → StepPlan
plan_of a r p d = record {
  leader_before_add = 0;
  leader_before_remove = 0;
  add = a;
  remove = r;
  promote = p;
  demote = d;
}

abbrev pub same_kind : Peer → Peer → Bool
same_kind p q = if is_learner p then is_learner q else not (is_learner q)

-- the four loops of `planReplace`
abbrev pub promote_and_demote : Builder → Peer → Peer → StepPlan → StepPlan
promote_and_demote b d p best = plan_replace_leaders b (plan_of none none (some p) (some d)) best

abbrev pub add_and_remove : Builder → Peer → Peer → StepPlan → StepPlan
add_and_remove b a r best =
    if same_kind r a
    then plan_replace_leaders b (plan_of (some a) (some r) none none) best
    else best

abbrev pub promote_add_remove : Builder → Peer → Peer → Peer → StepPlan → StepPlan
promote_add_remove b p a r best =
    if not (is_learner r) && not (a.container_id == r.container_id)
    then plan_replace_leaders b (plan_of (some a) (some r) (some p) none) best
    else best

abbrev pub demote_remove_add : Builder → Peer → Peer → Peer → StepPlan → StepPlan
demote_remove_add b d r a best =
    if not (is_learner a) && not (r.container_id == a.container_id)
    then plan_replace_leaders b (plan_of (some a) (some r) none (some d)) best
    else best

abbrev pub if_learner : Peer → StepPlan → StepPlan → StepPlan
if_learner p best next = if is_learner p then next else best

unfoldable pub plan_replace : Builder → StepPlan
plan_replace b =
    let best1 = each b.to_demote (λ d. each b.to_promote (promote_and_demote b d)) no_plan in
    let best2 = each b.to_add (λ a. each b.to_remove (add_and_remove b a)) best1 in
    let best3 =
      each b.to_promote
        (λ p.
          each b.to_add
            λ a best. if_learner a best (each b.to_remove (promote_add_remove b p a) best))
        best2 in
    each b.to_demote
      (λ d.
        each b.to_remove λ r best. if_learner r best (each b.to_add (demote_remove_add b d r) best))
      best3

abbrev pub first_promote : List Peer → StepPlan
first_promote [] = no_plan
first_promote (p ∷ ps) = plan_of none none (some p) none

abbrev pub plan_promote_peer : Builder → StepPlan
plan_promote_peer b = first_promote b.to_promote

unfoldable pub plan_demote_peer : Builder → StepPlan
plan_demote_peer b =
    each b.to_demote
      (λ d. each b.current_peers λ l best.
        if allow_leader b l false && not (l.container_id == d.container_id)
        then compare_plan b best
            (record (plan_of none none none (some d)) { leader_before_remove = l.container_id })
        else best)
      no_plan

unfoldable pub plan_remove_peer : Builder → StepPlan
plan_remove_peer b =
    each b.to_remove
      (λ r. each b.current_peers λ l best.
        if allow_leader b l false && not (l.container_id == r.container_id)
        then compare_plan b best
            (record (plan_of none (some r) none none) { leader_before_remove = l.container_id })
        else best)
      no_plan

unfoldable pub plan_add_peer : Builder → StepPlan
plan_add_peer b =
    each b.to_add
      (λ a. each b.current_peers λ l best.
        if allow_leader b l false
        then compare_plan b best
            (record (plan_of (some a) none none none) { leader_before_add = l.container_id })
        else best)
      no_plan

abbrev pub or_plan : StepPlan → StepPlan → StepPlan
or_plan p q = if not (is_empty p) then p else q

unfoldable pub peer_plan : Builder → StepPlan
peer_plan b = or_plan (plan_replace b) (
    or_plan (plan_promote_peer b) (
      or_plan (plan_demote_peer b)
        (or_plan (plan_remove_peer b) (or_plan (plan_add_peer b) no_plan))))
