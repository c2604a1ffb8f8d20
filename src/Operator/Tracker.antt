-- ===== src/Operator/Tracker.antt =====
-- components/prophet/schedule/operator/status_tracker.go. Every method holds the lock from start
-- to end, so a method is one step: it takes the reading of `time.Now()` that it makes, and returns
-- the new tracker with its result. A time is a number of nanoseconds, and the zero time is 0.
pub mod Laws
pub mod Clock
use matrixcube.Prelude.{ℕ, zero, suc, ◌+◌, Bool, true, false, ◌&&◌, ltb, ◌==◌, if◌then◌else◌}
use matrixcube.Operator.Status.{
  OpStatus, created, started, expired, timeout, status_count, first_end_status, trans_at,
  is_end_status,
}

abbrev pub Time : Type 0
Time = ℕ

-- the array of `firstEndStatus + 1` times: one for each status before the end, one for the end
pub record StatusTimes : Type 0 where
  pub at_created : Time
  pub at_started : Time
  pub at_end : Time

-- `reachTimes[i]` and a write to it, for an index in range
abbrev pub time_at : StatusTimes → ℕ → Time
time_at ts zero = ts.at_created
time_at ts (suc zero) = ts.at_started
time_at ts (suc (suc i)) = ts.at_end

abbrev pub set_time_at : StatusTimes → ℕ → Time → StatusTimes
set_time_at ts zero t = record ts { at_created = t }
set_time_at ts (suc zero) t = record ts { at_started = t }
set_time_at ts (suc (suc i)) t = record ts { at_end = t }

pub record OpStatusTracker : Type 0 where
  pub current : OpStatus
  pub reach_times : StatusTimes

unfoldable pub new_tracker : Time → OpStatusTracker
new_tracker now = record {
  current = created;
  reach_times = record { at_created = now; at_started = 0; at_end = 0 };
}

unfoldable pub get_time : OpStatusTracker → OpStatus → Time
get_time trk s =
    if ltb s first_end_status
    then time_at trk.reach_times s
    else if trk.current == s
    then time_at trk.reach_times first_end_status
    else 0

unfoldable pub reach_time : OpStatusTracker → Time
unfolding get_time
reach_time trk = get_time trk trk.current

unfoldable pub reach_time_of : OpStatusTracker → OpStatus → Time
unfolding get_time
reach_time_of trk s = get_time trk s

unfoldable pub set_time : OpStatusTracker → OpStatus → Time → OpStatusTracker
set_time trk st t =
    if ltb st first_end_status
    then record trk { reach_times = set_time_at trk.reach_times st t }
    else record trk { reach_times = set_time_at trk.reach_times first_end_status t }

unfoldable pub to_locked : OpStatusTracker → OpStatus → Time → OpStatusTracker × Bool
unfolding set_time
to_locked trk dst now =
    if ltb dst status_count && trans_at trk.current dst
    then (set_time (record trk { current = dst }) dst now, true)
    else (trk, false)

unfoldable pub to : OpStatusTracker → OpStatus → Time → OpStatusTracker × Bool
unfolding to_locked
to trk dst now = to_locked trk dst now

unfoldable pub is_end : OpStatusTracker → Bool
unfolding is_end_status
is_end trk = is_end_status trk.current

-- `time.Since(t) < exp` is `now < t + exp`: the difference may be negative
unfoldable pub check_expired : OpStatusTracker → Time → Time → OpStatusTracker × Bool
unfolding to_locked
check_expired trk exp now =
    if trk.current == created
    then (if ltb now (time_at trk.reach_times created + exp)
        then (trk, false)
        else ((to_locked trk expired now).0, true))
    else (trk, trk.current == expired)

unfoldable pub check_timeout : OpStatusTracker → Time → Time → OpStatusTracker × Bool
unfolding to_locked
check_timeout trk wait now =
    if trk.current == started
    then (if ltb now (time_at trk.reach_times started + wait)
        then (trk, false)
        else ((to_locked trk timeout now).0, true))
    else (trk, trk.current == timeout)
