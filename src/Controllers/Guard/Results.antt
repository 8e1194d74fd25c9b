-- ===== src/Controllers/Guard/Results.antt =====
-- The tasks of controllers.py that wait for a goal or cancel it.
use physical_ai_runtime.Common.{
  Result, arith, err, false, none, ok, refl, some, timeout_error, true, ℕ, ◌∷◌, ◌≡◌,
}
use physical_ai_runtime.World.{GoalStatus, succeeded}
use physical_ai_runtime.Controllers.Guard.{
  Guard, abandon, beat, cancel_goal, heartbeat, mark_terminal, wait_for_result,
}

-- A client that has let go of its goal: nothing is tracked, the guard is off, and the robot was
-- told so by a last heartbeat `false`.
pub record IsDisarmed (g g' : Guard) : Type 0 where
  pub untracked : g'.goal_handle ≡ none
  pub off : g'.guard_active ≡ false
  pub told : g.has_publisher ≡ true → g'.beats ≡ false ∷ g.beats

-- A client that is silent: it still tracks its goal, and sends no heartbeat any more.
pub record IsSilent (g g' : Guard) : Type 0 where
  pub tracked : g'.goal_handle ≡ g.goal_handle
  pub off : g'.guard_active ≡ false
  pub untold : g'.beats ≡ g.beats
  pub unheard : (heartbeat g').beats ≡ g.beats

mark_terminal-IsDisarmed :
    (h : ℕ) (g : Guard) → g.goal_handle ≡ some h → IsDisarmed g (mark_terminal h g)
unfolding mark_terminal beat
mark_terminal-IsDisarmed h g e = ground arith

abandon-IsSilent : (h : ℕ) (g : Guard) → g.goal_handle ≡ some h → IsSilent g (abandon h g)
unfolding abandon heartbeat beat
abandon-IsSilent h g e = ground arith

-- What a wait for the tracked goal does, by how it ended.
abbrev pub WaitEffect : Guard → Result GoalStatus → Guard → Type 0
WaitEffect g (ok st) g' = IsDisarmed g g'
WaitEffect g (err timeout_error) g' = g' ≡ g
WaitEffect g (err e) g' = IsSilent g g'

-- Waiting for the tracked goal: a terminal status, good or bad, disarms the guard and tells the
-- robot; a timeout changes nothing, so the guard is kept alive; any other error falls silent, with
-- the goal still tracked, so that the robot's own timeout stops it.
pub wait_for_result-effect :
    (h : ℕ) (outcome : Result GoalStatus) (g : Guard)
    → g.goal_handle ≡ some h
    → WaitEffect g outcome (wait_for_result h outcome g).1
unfolding wait_for_result beat heartbeat
wait_for_result-effect h (ok succeeded) g e = ground arith
wait_for_result-effect h (ok _) g e = ground arith
wait_for_result-effect h (err timeout_error) g e = refl
wait_for_result-effect h (err _) g e = ground arith

-- Whatever a cancel does, a goal whose cancel was answered is disarmed, and one whose cancel raised
-- an exception is silent; without a goal nothing happens.
pub cancel_goal-effect :
    (g : Guard)
    → ((h : ℕ) → g.goal_handle ≡ some h → IsDisarmed g (cancel_goal (ok tt) g).1)
      × ((h : ℕ) → g.goal_handle ≡ some h → IsSilent g (cancel_goal (err timeout_error) g).1)
      × ((r : Result (Unit {0})) → g.goal_handle ≡ none → cancel_goal r g ≡ (ok tt, g))
unfolding cancel_goal beat heartbeat
cancel_goal-effect g = ((λ h e. ground arith), (λ h e. ground arith), (λ r e. ground arith))
