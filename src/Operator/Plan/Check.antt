-- ===== src/Operator/Plan/Check.antt =====
-- What `Check` does to an operator.
use matrixcube.Prelude.{
  ℕ, suc, ◌≤◌, ◌<◌, ◌≡◌, refl, sym, ap, ◌∙◌, true, false, Option, none, some, List, [], ◌∷◌, arith,
  length, get_elem?, drop, drop-nil, drop-cons, ◌==◌, Bool-cases, inl, inr,
}
use matrixcube.Operator.Status.{trans_at, started, success}
use matrixcube.Operator.Tracker.{Time, OpStatusTracker, to, to_locked, set_time, is_end}
use matrixcube.Operator.Resource.{CachedResource}
use matrixcube.Operator.OpStep.{OpStep, is_finish}
use matrixcube.Operator.Plan.{
  Operator, finish_step, check_from, check_timeout, check, then_check_timeout, op_is_end,
}

-- the steps from `i` to `j` are finished
abbrev pub FinishedBetween : List OpStep → CachedResource → ℕ → ℕ → Type 0
FinishedBetween steps res i j =
    (k : ℕ) (s : OpStep) → i ≤ k → k < j → get_elem? steps k ≡ some s → is_finish s res ≡ true

-- What is returned at the step `j`: this step, which is not finished, or nothing at the end.
abbrev pub AnswerAt : List OpStep → CachedResource → ℕ → Option OpStep → Type 0
AnswerAt steps res j none = length steps ≤ j
AnswerAt steps res j (some s) = (get_elem? steps j ≡ some s) × (is_finish s res ≡ false)

answered_none :
    (steps : List OpStep) (res : CachedResource) (j : ℕ) (a : Option OpStep)
    → AnswerAt steps res j a
    → a ≡ none
    → length steps ≤ j
answered_none steps res j none h e = h
answered_none steps res j (some s) h e = cc

-- what the loop has done to the operator that it started with
pub record Progress (o o' : Operator) (res : CachedResource) (answer : Option OpStep) : Type 0 where
  pub forward : o.current_step ≤ o'.current_step
  pub same_steps : o'.steps ≡ o.steps
  pub finished : FinishedBetween o.steps res o.current_step o'.current_step
  pub answered : AnswerAt o.steps res o'.current_step answer

FinishedBetween-cons :
    (steps : List OpStep) (res : CachedResource) (i c j : ℕ) (s : OpStep)
    → c ≡ i
    → get_elem? steps i ≡ some s
    → is_finish s res ≡ true
    → FinishedBetween steps res (suc i) j
    → FinishedBetween steps res c j
FinishedBetween-cons steps res i c j s same at fin h k s' p q e = elim (Bool-cases (i == k)) [
  | inl now ↦ ground (arith, at)
  | inr later ↦ h k s' (ground arith) q e
]

-- the steps of an operator, and those that are left from its current one
check_from-Progress :
    (res : CachedResource) (clock : ℕ → Time) (rest : List OpStep) (i : ℕ) (o : Operator)
    → o.current_step ≡ i
    → drop i o.steps ≡ rest
    → Progress o (check_from res clock rest i o).0 res (check_from res clock rest i o).1
unfolding check_from finish_step
check_from-Progress res clock [] i o c d = record {
  forward = omega arith;
  same_steps = refl;
  finished = λ k s p q. absurd (omega arith);
  answered = omega (arith, drop-nil i o.steps d);
}
check_from-Progress res clock (s ∷ rest) i o c d =
    let (at, left) = drop-cons i o.steps s rest d in
    elim (Bool-cases (is_finish s res)) [
      | inl fin ↦
          let ih =
            check_from-Progress res clock rest (suc i) (finish_step o i (clock i)) refl left in
          rw fin (record {
            forward = omega (arith, ih.forward);
            same_steps = ih.same_steps;
            finished = FinishedBetween-cons o.steps res i o.current_step _ s c at fin ih.finished;
            answered = ih.answered;
          })
      | inr unfin ↦ rw unfin (record {
        forward = omega arith;
        same_steps = refl;
        finished = λ k s' p q. absurd (omega arith);
        answered = (rw c at, unfin);
      })
    ]

Progress-same :
    (o a b : Operator) (res : CachedResource) (r : Option OpStep)
    → Progress o a res r
    → b.current_step ≡ a.current_step
    → b.steps ≡ a.steps
    → Progress o b res r
Progress-same o a b res r p c s = record {
  forward = rw c p.forward;
  same_steps = s ∙ p.same_steps;
  finished = rw c p.finished;
  answered = rw c p.answered;
}

current_step-check_timeout :
    (o : Operator) (now : Time)
    → ((check_timeout o now).0.current_step ≡ o.current_step)
      × ((check_timeout o now).0.steps ≡ o.steps)
unfolding check_timeout
current_step-check_timeout o now = ground arith

check_open :
    (o : Operator) (res : CachedResource) (clock : ℕ → Time) (now : Time)
    → op_is_end o ≡ false
    → check o res clock now
      ≡ then_check_timeout now (check_from res clock (drop o.current_step o.steps) o.current_step o)
unfolding check
check_open o res clock now h = rw h

-- `Check` on an operator that has not ended: it goes forward over finished steps only, to the
-- first step that is not finished, which it returns, or to the end of the steps, and then it
-- returns nothing. The steps themselves stay as they are.
pub check-Progress :
    (o : Operator) (res : CachedResource) (clock : ℕ → Time) (now : Time)
    → op_is_end o ≡ false
    → Progress o (check o res clock now).0 res (check o res clock now).1
check-Progress o res clock now h =
    let p =
      check_from-Progress res clock (drop o.current_step o.steps) o.current_step o refl refl in
    let (c, s) =
      current_step-check_timeout
        (check_from res clock (drop o.current_step o.steps) o.current_step o).0 now in
    rw (check_open o res clock now h) (Progress-same o _ _ res _ p c s)

status-check_from :
    (res : CachedResource) (clock : ℕ → Time) (rest : List OpStep) (i : ℕ) (o : Operator)
    → (check_from res clock rest i o).0.status ≡ o.status
unfolding check_from finish_step
status-check_from res clock [] i o = refl
status-check_from res clock (s ∷ rest) i o =
    ground (arith, status-check_from res clock rest (suc i) (finish_step o i (clock i)))

to_success :
    (t : OpStatusTracker) (now : Time)
    → t.current ≡ started
    → ((to t success now).0.current ≡ success) × ((to t success now).1 ≡ true)
unfolding to to_locked set_time trans_at
to_success t now h = ground arith

check_timeout-success :
    (o : Operator) (now : Time)
    → length o.steps ≤ o.current_step
    → o.status.current ≡ started
    → (check_timeout o now).0.status.current ≡ success
unfolding check_timeout
check_timeout-success o now full h = ground (arith, to_success o.status now)

started_open : (o : Operator) → o.status.current ≡ started → op_is_end o ≡ false
unfolding is_end
started_open o h = ground arith

-- A started operator whose `Check` returns no step has gone through all its steps, and stands at
-- SUCCESS afterwards.
pub check-success :
    (o : Operator) (res : CachedResource) (clock : ℕ → Time) (now : Time)
    → o.status.current ≡ started
    → (check o res clock now).1 ≡ none
    → ((check o res clock now).0.status.current ≡ success)
      × (length o.steps ≤ (check o res clock now).0.current_step)
check-success o res clock now h e =
    let open_eq = check_open o res clock now (started_open o h) in
    let r = check_from res clock (drop o.current_step o.steps) o.current_step o in
    let p =
      check_from-Progress res clock (drop o.current_step o.steps) o.current_step o refl refl in
    let done : r.1 ≡ none = sym (ap (λ (x : Operator × Option OpStep). x.1) open_eq) ∙ e in
    let full : length o.steps ≤ r.0.current_step =
      answered_none o.steps res r.0.current_step r.1 p.answered done in
    rw open_eq (
      check_timeout-success r.0 now (rw p.same_steps full) (
          ap (λ (t : OpStatusTracker). t.current)
            (status-check_from res clock (drop o.current_step o.steps) o.current_step o)
          ∙ h),
      rw ((current_step-check_timeout r.0 now).0) full,
    )

-- `Check` on an operator at an end status returns nothing and changes nothing.
pub check-end :
    (o : Operator) (res : CachedResource) (clock : ℕ → Time) (now : Time)
    → op_is_end o ≡ true
    → check o res clock now ≡ (o, none)
unfolding check
check-end o res clock now h = rw h
