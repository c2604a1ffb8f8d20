-- ===== src/Operator/Plan/Totals.antt =====
-- The sums over the steps of an operator: configuration versions, influence, histories.
use Prim.Native.Nat.{min}
use matrixcube.Prelude.{
  not, Bool-cases, keep, inl, inr, ℕ, zero, suc, ◌+◌, ◌≤◌, ◌≡◌, refl, not, List, [], ◌∷◌, arith,
  length, length-append, drop, take, ◌==◌, if◌then◌else◌, Bool-cases, inl, inr,
}
use matrixcube.Prelude.Words.{add64}
use matrixcube.Operator.Tracker.{Time}
use matrixcube.Operator.Resource.{CachedResource}
use matrixcube.Operator.Influence.{OpInfluence}
use matrixcube.Operator.OpStep
use matrixcube.Operator.OpStep.{
  OpStep, transfer_leader, add_peer, add_light_peer, add_learner, add_light_learner, remove_peer,
  is_finish, influence,
}
use matrixcube.Operator.OpStep.Laws.{conf_ver_cost, conf_ver_changed-le}
use matrixcube.Operator.Plan.{
  Operator, sum_conf_ver, conf_ver_changed, influence_left, unfinished_influence, influence_all,
  total_influence, Histories, scan_step, scan_steps, pair_moves, history,
}

-- the configuration versions that the steps consume
abbrev pub total_cost : List OpStep → ℕ
total_cost [] = 0
total_cost (s ∷ rest) = conf_ver_cost s + total_cost rest

add64-le : (a b : ℕ) → add64 a b ≤ a + b
unfolding add64
add64-le a b = omega arith

sum_conf_ver-le :
    (steps : List OpStep) (res : CachedResource) (total : ℕ)
    → sum_conf_ver steps res total ≤ total + total_cost steps
unfolding sum_conf_ver
sum_conf_ver-le [] res total = omega arith
sum_conf_ver-le (s ∷ rest) res total = omega (
  arith,
  sum_conf_ver-le rest res (add64 total (OpStep.conf_ver_changed s res)),
  add64-le total (OpStep.conf_ver_changed s res),
  conf_ver_changed-le s res,
)

total_cost-take : (n : ℕ) (steps : List OpStep) → total_cost (take n steps) ≤ total_cost steps
total_cost-take zero steps = omega arith
total_cost-take (suc n) [] = omega arith
total_cost-take (suc n) (s ∷ rest) = omega (arith, total_cost-take n rest)

-- An operator never reports more configuration versions than all its steps consume.
pub conf_ver_changed-le-total_cost :
    (o : Operator) (res : CachedResource) → conf_ver_changed o res ≤ total_cost o.steps
unfolding conf_ver_changed
conf_ver_changed-le-total_cost o res =
    let n = if o.current_step == length o.steps then o.current_step else o.current_step + 1 in
    omega (arith, sum_conf_ver-le (take n o.steps) res 0, total_cost-take n o.steps)

-- the steps of a list that are not finished, in order
abbrev pub unfinished : CachedResource → List OpStep → List OpStep
unfinished res = keep (λ s. not (is_finish s res))

influence_left-unfinished :
    (steps : List OpStep) (m : OpInfluence) (res : CachedResource)
    → influence_left steps m res ≡ influence_all (unfinished res steps) m res
unfolding influence_left influence_all
influence_left-unfinished [] m res = refl
influence_left-unfinished (s ∷ rest) m res = elim (Bool-cases (is_finish s res)) [
  | inl finished ↦ rw finished (influence_left-unfinished rest m res)
  | inr todo ↦ rw todo (influence_left-unfinished rest (influence s m res) res)
]

-- The unfinished influence is the whole influence of an operator that has, of the steps that are
-- left, only those that the resource has not finished.
pub unfinished_influence_lem :
    (o : Operator) (m : OpInfluence) (res : CachedResource)
    → unfinished_influence o m res
      ≡ total_influence (record o { steps = unfinished res (drop o.current_step o.steps) }) m res
unfolding unfinished_influence total_influence
unfinished_influence_lem o m res = influence_left-unfinished (drop o.current_step o.steps) m res

-- what a step adds to the history
abbrev pub transfers_in : OpStep → ℕ
transfers_in (transfer_leader a b) = 1
transfers_in _ = 0

abbrev pub additions_in : OpStep → ℕ
additions_in (add_peer c i) = 1
additions_in (add_light_peer c i) = 1
additions_in (add_learner c i) = 1
additions_in (add_light_learner c i) = 1
additions_in _ = 0

abbrev pub removals_in : OpStep → ℕ
removals_in (remove_peer c i) = 1
removals_in _ = 0

abbrev pub total : (OpStep → ℕ) → List OpStep → ℕ
total f [] = 0
total f (s ∷ rest) = f s + total f rest

scan_step_lem :
    (now : Time) (s : OpStep) (h : Histories)
    → (length (scan_step now s h).transfers ≡ length h.transfers + transfers_in s)
      × (length (scan_step now s h).added ≡ length h.added + additions_in s)
      × (length (scan_step now s h).removed ≡ length h.removed + removals_in s)
unfolding scan_step
scan_step_lem now (transfer_leader a b) h = (length-append h.transfers _, omega arith, omega arith)
scan_step_lem now (add_peer c i) h = (omega arith, length-append h.added _, omega arith)
scan_step_lem now (add_light_peer c i) h = (omega arith, length-append h.added _, omega arith)
scan_step_lem now (add_learner c i) h = (omega arith, length-append h.added _, omega arith)
scan_step_lem now (add_light_learner c i) h = (omega arith, length-append h.added _, omega arith)
scan_step_lem now (remove_peer c i) h = (omega arith, omega arith, length-append h.removed _)
scan_step_lem now _ h = (omega arith, omega arith, omega arith)

scan_steps_lem :
    (now : Time) (steps : List OpStep) (h : Histories)
    → (length (scan_steps now steps h).transfers ≡ length h.transfers + total transfers_in steps)
      × (length (scan_steps now steps h).added ≡ length h.added + total additions_in steps)
      × (length (scan_steps now steps h).removed ≡ length h.removed + total removals_in steps)
unfolding scan_steps
scan_steps_lem now [] h = (omega arith, omega arith, omega arith)
scan_steps_lem now (s ∷ rest) h =
    let (a, b, c) = scan_step_lem now s h in
    let (a', b', c') = scan_steps_lem now rest (scan_step now s h) in
    (omega arith, omega arith, omega arith)

length-pair_moves :
    (now : Time) (added removed : List ℕ)
    → length (pair_moves now added removed) ≡ min (length added) (length removed)
unfolding pair_moves
length-pair_moves now [] removed = omega arith
length-pair_moves now (a ∷ added) [] = omega arith
length-pair_moves now (a ∷ added) (r ∷ removed) = omega (arith, length-pair_moves now added removed)

-- The history has one entry for each transfer of the leader among the steps, and one for each
-- addition that has a removal to go with it: as many as the lesser of the two counts.
pub length-history :
    (o : Operator) (now : Time)
    → length (history o now)
      ≡ total transfers_in o.steps + min (total additions_in o.steps) (total removals_in o.steps)
unfolding history
length-history o now =
    let none_yet : Histories = record { transfers = []; added = []; removed = [] } in
    let h = scan_steps now o.steps none_yet in
    let (a, b, c) = scan_steps_lem now o.steps none_yet in
    omega (
      arith,
      length-append h.transfers (pair_moves now h.added h.removed),
      length-pair_moves now h.added h.removed,
    )
