-- ===== src/Operator/Tracker/Clock.antt =====
-- The times that a tracker remembers, under a clock that never goes back.
use matrixcube.Prelude.{◌≤◌, ◌<◌, ◌≡◌, List, [], ◌∷◌, arith}
use matrixcube.Operator.Status.{created, started, success, status_count}
use matrixcube.Operator.Tracker.{Time, OpStatusTracker, new_tracker}
use matrixcube.Operator.Tracker.Laws.{Call}

-- Seen at a time `now` that is not before any call.
pub record IsTimed (t : OpStatusTracker) (now : Time) : Type 0 where
  pub known : t.current < status_count
  pub created_past : t.reach_times.at_created ≤ now
  pub started_past : t.reach_times.at_started ≤ now
  pub end_past : t.reach_times.at_end ≤ now
  pub not_started :
      t.current ≡ created → (t.reach_times.at_started ≡ 0) × (t.reach_times.at_end ≡ 0)
  pub not_ended : t.current ≡ started → t.reach_times.at_end ≡ 0
  pub started_after : t.current ≡ started → t.reach_times.at_created ≤ t.reach_times.at_started
  pub ended_after :
      success ≤ t.current
      → (t.reach_times.at_created ≤ t.reach_times.at_end)
        × (t.reach_times.at_started ≤ t.reach_times.at_end)

pub IsTimed-new_tracker : (now : Time) → IsTimed (new_tracker now) now
unfolding new_tracker
IsTimed-new_tracker now = omega arith

-- the calls read a clock that starts at `now` and never goes back
abbrev pub IsForward : Time → List (Call × Time) → Type 0
IsForward now [] = Unit
IsForward now ((c, t) ∷ rest) = (now ≤ t) × IsForward t rest

abbrev pub last_time : Time → List (Call × Time) → Time
last_time now [] = now
last_time now ((c, t) ∷ rest) = last_time t rest
