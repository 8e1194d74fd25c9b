-- ===== src/Controllers/Guard.antt =====
-- JointTrajectoryControllerClient of controllers.py: one trajectory goal at a time, and the
-- heartbeat of the guard on the robot. Each section under `_guard_lock` is one step here, so the
-- steps may interleave with the timer and with other tasks.
pub mod Interleavings
pub mod Results
use physical_ai_runtime.Common.{
  Bool, List, Option, Result, [], canceled_error, cancelled_error, controller_error, eqb, err,
  false, if◌then◌else◌, is_some, none, ok, some, timeout_error, true, ℕ, ◌||◌, ◌∷◌,
}
use physical_ai_runtime.World.{GoalHandle, GoalStatus, aborted, canceled, other_status, succeeded}

-- The fields behind `_guard_lock`. `beats` are the published heartbeats, newest first; without a
-- heartbeat endpoint there is no publisher.
pub record Guard : Type 0 where
  pub goal_pending : Bool
  pub goal_handle : Option ℕ
  pub guard_active : Bool
  pub has_publisher : Bool
  pub beats : List Bool

abbrev pub new_guard : Bool → Guard
new_guard has_publisher = record {
  goal_pending = false;
  goal_handle = none;
  guard_active = false;
  has_publisher = has_publisher;
  beats = [];
}

unfoldable pub beat : Bool → Guard → Guard
beat b g = if g.has_publisher then record g { beats = b ∷ g.beats } else g

abbrev pub is_handle : ℕ → Option ℕ → Bool
is_handle h none = false
is_handle h (some k) = eqb k h

-- The sections of `send`, in order.
unfoldable pub reserve : Guard → Result Guard
reserve g =
    if g.goal_pending || is_some g.goal_handle
    then err controller_error
    else ok (record g { goal_pending = true })

unfoldable pub unreserve : Guard → Guard
unreserve g = record g { goal_pending = false }

unfoldable pub arm : Guard → Guard
unfolding beat
arm g = beat true (record g { guard_active = true })

unfoldable pub dispatch_failed : Guard → Guard
dispatch_failed g = record g { goal_pending = false; guard_active = false }

unfoldable pub goal_rejected : Guard → Guard
unfolding beat
goal_rejected g = beat false (record g { goal_pending = false; guard_active = false })

unfoldable pub goal_accepted : ℕ → Guard → Guard
goal_accepted h g = record g { goal_pending = false; goal_handle = some h }

unfoldable pub mark_terminal : ℕ → Guard → Guard
unfolding beat
mark_terminal h g =
    if is_handle h g.goal_handle
    then beat false (record g { goal_handle = none; guard_active = false })
    else g

unfoldable pub abandon : ℕ → Guard → Guard
abandon h g = if is_handle h g.goal_handle then record g { guard_active = false } else g

-- `_publish_guard_heartbeat`, which a timer calls
unfoldable pub heartbeat : Guard → Guard
unfolding beat
heartbeat g = if g.guard_active then beat true g else g

-- `send`, with nothing in between: how the wait for the server ended, and how the dispatch did.
unfoldable pub send_goal : Result (Unit {0}) → Result GoalHandle → Guard → Result ℕ × Guard
unfolding reserve unreserve arm dispatch_failed goal_rejected goal_accepted
send_goal server dispatch g = elim (reserve g) [
  | err e ↦ (err e, g)
  | ok r ↦ elim server [
    | err e ↦ (err e, unreserve r)
    | ok u ↦ elim dispatch [
      | err e ↦ (err e, dispatch_failed (arm r))
      | ok h ↦
          if h.accepted
          then (ok h.id, goal_accepted h.id (arm r))
          else (err controller_error, goal_rejected (arm r))
    ]
  ]
]

abbrev pub goal_result : GoalStatus → Result (Unit {0})
goal_result succeeded = ok tt
goal_result canceled = err canceled_error
goal_result aborted = err controller_error
goal_result (other_status n) = err controller_error

-- `wait_for_result`, once its future is done or its wait has ended. A status is terminal, whatever
-- it says; an error status abandons the goal first. A timeout leaves everything as it was.
unfoldable pub wait_for_result : ℕ → Result GoalStatus → Guard → Result (Unit {0}) × Guard
unfolding mark_terminal abandon
wait_for_result h (ok st) g = elim (goal_result st) [
  | ok u ↦ (ok tt, mark_terminal h g)
  | err e ↦ (err e, mark_terminal h (abandon h g))
]
wait_for_result h (err timeout_error) g = (err timeout_error, g)
wait_for_result h (err e) g = (err e, abandon h g)

-- `cancel`, by how the response to the cancel request came. A cancellation of the task itself is
-- no `Exception`, and is not caught.
abbrev cancel_tracked : ℕ → Result (Unit {0}) → Guard → Result (Unit {0}) × Guard
cancel_tracked h (ok u) g = (ok tt, mark_terminal h g)
cancel_tracked h (err cancelled_error) g = (err cancelled_error, g)
cancel_tracked h (err e) g = (err e, abandon h g)

unfoldable pub cancel_goal : Result (Unit {0}) → Guard → Result (Unit {0}) × Guard
unfolding mark_terminal abandon
cancel_goal response g = elim g.goal_handle [
  | none ↦ (ok tt, g)
  | some h ↦ cancel_tracked h response g
]
