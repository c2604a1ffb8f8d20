-- ===== src/Operator/Tracker/Laws.antt =====
-- What the transitions of a tracker are.
use matrixcube.Prelude.{
  zero, suc, ◌+◌, ◌↔◌, Bool, ◌≤◌, ◌≡◌, ◌⊎◌, inl, inr, refl, true, false, List, [], ◌∷◌, arith, ltb,
  ◌&&◌, Bool-cases,
}
use matrixcube.Operator.Status.{
  OpStatus, status_count, created, started, success, canceled, replaced, expired, timeout, trans_at,
  is_end_status,
}
use matrixcube.Operator.Tracker.{
  Time, OpStatusTracker, to, set_time, reach_time, to_locked, is_end, check_expired, check_timeout,
}

-- The edges that the comments of status.go draw.
pub data Edge : OpStatus → OpStatus → Type 0 where
  start : Edge created started
  cancel_created : Edge created canceled
  expire : Edge created expired
  succeed : Edge started success
  cancel_started : Edge started canceled
  replace : Edge started replaced
  time_out : Edge started timeout

ruleset edges = (start, cancel_created, expire, succeed, cancel_started, replace, time_out)

pub trans_at-Edge : (s d : OpStatus) → trans_at s d ≡ true → Edge s d
unfolding trans_at
trans_at-Edge zero (suc zero) h = start
trans_at-Edge zero (suc (suc (suc zero))) h = cancel_created
trans_at-Edge zero (suc (suc (suc (suc (suc zero))))) h = expire
trans_at-Edge (suc zero) (suc (suc zero)) h = succeed
trans_at-Edge (suc zero) (suc (suc (suc zero))) h = cancel_started
trans_at-Edge (suc zero) (suc (suc (suc (suc zero)))) h = replace
trans_at-Edge (suc zero) (suc (suc (suc (suc (suc (suc zero)))))) h = time_out
trans_at-Edge zero (suc (suc (suc (suc (suc (suc zero)))))) h = cc
trans_at-Edge s d h = cc

current-set_time :
    (t : OpStatusTracker) (s : OpStatus) (now : Time) → (set_time t s now).current ≡ t.current
unfolding set_time
current-set_time t s now = ground arith

reach_time-set_time :
    (t : OpStatusTracker) (s : OpStatus) (now : Time)
    → t.current ≡ s
    → reach_time (set_time t s now) ≡ now
unfolding reach_time set_time
reach_time-set_time t zero now h = ground arith
reach_time-set_time t (suc zero) now h = ground arith
reach_time-set_time t (suc (suc s)) now h = ground arith

-- `To` either succeeds, along an edge of the diagram, and then the tracker stands at the target
-- with the time of the call; or it fails, and the tracker is as it was.
pub to_lem :
    (t : OpStatusTracker) (dst : OpStatus) (now : Time)
    → ((to t dst now).1 ≡ true)
        × ((to t dst now).0.current ≡ dst)
        × Edge t.current dst
        × (reach_time (to t dst now).0 ≡ now)
      ⊎ ((to t dst now).1 ≡ false) × ((to t dst now).0 ≡ t)
unfolding to
to_lem t dst now = elim (Bool-cases (ltb dst status_count && trans_at t.current dst)) [
  | inl allowed ↦ inl (
      rw (allowed, to_locked)
        (
          refl,
          current-set_time (record t { current = dst }) dst now,
          trans_at-Edge t.current dst (ground arith),
          reach_time-set_time (record t { current = dst }) dst now refl,
        ))
  | inr refused ↦ inr (rw (refused, to_locked) (refl, refl))
]

-- No edge leaves an end status.
edge_starts_before_end : {s d : OpStatus} → Edge s d → is_end_status s ≡ false
unfolding is_end_status
edge_starts_before_end start = refl
edge_starts_before_end cancel_created = refl
edge_starts_before_end expire = refl
edge_starts_before_end succeed = refl
edge_starts_before_end cancel_started = refl
edge_starts_before_end replace = refl
edge_starts_before_end time_out = refl

trans_at_end : (s d : OpStatus) → is_end_status s ≡ true → trans_at s d ≡ false
trans_at_end s d h = elim (Bool-cases (trans_at s d)) [
  | inl e ↦ cc (edge_starts_before_end (trans_at-Edge s d e))
  | inr e ↦ e
]

-- Each method of a tracker that may change it.
pub data Call : Type 0 where
  call_to : OpStatus → Call
  call_check_expired : Time → Call
  call_check_timeout : Time → Call

abbrev pub call : OpStatusTracker → Call → Time → OpStatusTracker × Bool
call t (call_to dst) now = to t dst now
call t (call_check_expired exp) now = check_expired t exp now
call t (call_check_timeout wait) now = check_timeout t wait now

unfoldable pub calls : OpStatusTracker → List (Call × Time) → OpStatusTracker
calls t [] = t
calls t ((c, now) ∷ rest) = calls (call t c now).0 rest

call_at_end : (t : OpStatusTracker) (c : Call) (now : Time) → is_end t ≡ true → (call t c now).0 ≡ t
unfolding is_end to to_locked check_expired check_timeout is_end_status
call_at_end t (call_to dst) now h = ground (arith, trans_at_end t.current dst)
call_at_end t (call_check_expired exp) now h = ground arith
call_at_end t (call_check_timeout wait) now h = ground arith

-- Once the tracker is at an end status, no sequence of calls changes it, its times included.
pub calls-end : (t : OpStatusTracker) (cs : List (Call × Time)) → is_end t ≡ true → calls t cs ≡ t
unfolding calls
calls-end t [] h = refl
calls-end t ((c, now) ∷ rest) h = rw (call_at_end t c now h) (calls-end t rest h)

-- `CheckExpired` returns true exactly when it leaves the tracker expired, and this is the case
-- exactly when it was expired before, or was still created and `exp` has passed since its creation.
pub check_expired_lem :
    (t : OpStatusTracker) (exp now : Time)
    → (((check_expired t exp now).1 ≡ true) ↔ ((check_expired t exp now).0.current ≡ expired))
      × (((check_expired t exp now).1 ≡ true) ↔ (
          (t.current ≡ expired) ⊎ (t.current ≡ created) × (t.reach_times.at_created + exp ≤ now)))
unfolding check_expired to_locked set_time trans_at
check_expired_lem t exp now =
    ((λ h. ground arith, λ h. ground arith), (λ h. ground arith, λ h. ground arith))

-- `CheckTimeout` returns true exactly when it leaves the tracker timed out, and this is the case
-- exactly when it was timed out before, or was started and `wait` has passed since its start.
pub check_timeout_lem :
    (t : OpStatusTracker) (wait now : Time)
    → (((check_timeout t wait now).1 ≡ true) ↔ ((check_timeout t wait now).0.current ≡ timeout))
      × (((check_timeout t wait now).1 ≡ true) ↔ (
          (t.current ≡ timeout) ⊎ (t.current ≡ started) × (t.reach_times.at_started + wait ≤ now)))
unfolding check_timeout to_locked set_time trans_at
check_timeout_lem t wait now =
    ((λ h. ground arith, λ h. ground arith), (λ h. ground arith, λ h. ground arith))
