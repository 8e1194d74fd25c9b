-- ===== src/Provider/Goals/Waits.antt =====
-- `wait_joint_trajectory` and `cancel_joint_trajectory` of provider.py, and the tracked goals.
use physical_ai_runtime.Common.{
  Error, Result, Result-cases, String, eq_refl, err, err-ne-ok, false, inl, inr, is_past,
  lookup-without, ok, refl, timeout_error, true, ℕ, ℤ, ◌≡◌,
}
use physical_ai_runtime.Waiting.{Future}
use physical_ai_runtime.World.{Environment, GoalStatus, World, wait_future}
use physical_ai_runtime.World.Clock.{Advances, SameButCache}
use physical_ai_runtime.Selection.Claims.{CallEnds, answered, timed_out, wait_future-CallEnds}
use physical_ai_runtime.Provider.{Link}
use physical_ai_runtime.Provider.Actions.{
  cancel_joint_trajectory, forget_goal, status_result, wait_joint_trajectory,
}

-- The wait for a result: an answer forgets the goal that the part tracks, whichever it is; an
-- exception of the future forgets nothing, and neither does the timeout of a future that is still
-- open at the deadline.
pub data GoalWait (part : String) (timeout : ℤ) (future : Future GoalStatus) (s : Link)
    : Result (Unit {0}) × Link → Type 0 where
  goal_answered :
      (w : World) (st : GoalStatus)
      → SameButCache s.world w
      → future.done_at w.now ≡ true
      → future.outcome ≡ ok st
      → GoalWait part timeout future s
          (status_result st, record { commands = forget_goal part s.commands; world = w })
  goal_raised :
      (w : World) (e : Error)
      → SameButCache s.world w
      → future.done_at w.now ≡ true
      → future.outcome ≡ err e
      → GoalWait part timeout future s (err e, record s { world = w })
  goal_late :
      (w : World)
      → SameButCache s.world w
      → future.done_at w.now ≡ false
      → is_past s.world.now timeout w.now ≡ true
      → GoalWait part timeout future s (err timeout_error, record s { world = w })

-- Where the clock advances, a wait for a goal ends and sends nothing: with the answer, and then the
-- goal that the part tracks is forgotten, whichever it is; or with an exception of the future, or
-- with a timeout where the future is open at the deadline, and then no goal is forgotten.
pub wait_joint_trajectory-GoalWait :
    (env : Environment) (part : String) (handle : ℕ) (timeout : ℤ) (s : Link)
    → Advances env
    → GoalWait part timeout
        (env.result_reply handle)
        s
        (wait_joint_trajectory env part handle timeout s)
unfolding wait_joint_trajectory
wait_joint_trajectory-GoalWait env part handle timeout s advances =
    after_wait (wait_future env timeout (env.result_reply handle) s.world)
      (wait_future-CallEnds env timeout (env.result_reply handle) s.world advances)
  where
    after_wait :
        (p : Result GoalStatus × World)
        → CallEnds s.world timeout (env.result_reply handle) p
        → GoalWait part timeout (env.result_reply handle) s (
            let t : Link = record s { world = p.1 } in
            elim p.0 [
              | ok st ↦ (status_result st, record t { commands = forget_goal part t.commands })
              | err e ↦ (err e, t)
            ])
    after_wait p (answered t h d) = elim (Result-cases (env.result_reply handle).outcome) [
      | inl (st, e) ↦ rw e (goal_answered t st h.same d refl)
      | inr (x, e) ↦ rw e (goal_raised t x h.same d refl)
    ]
    after_wait p (timed_out t h d l) = goal_late t h.same d l

-- Where the clock advances, and a wait for any goal of a part has returned, canceling the part
-- sends nothing, whichever goal the part tracked before the wait.
pub cancel_joint_trajectory-after_wait :
    (env : Environment) (part : String) (handle : ℕ) (timeout : ℤ) (s : Link)
    → Advances env
    → (wait_joint_trajectory env part handle timeout s).0 ≡ ok tt
    → let (r, s') =
        cancel_joint_trajectory env part (wait_joint_trajectory env part handle timeout s).1 in
      (r ≡ ok tt) × (s'.world.requests ≡ s.world.requests)
unfolding forget_goal cancel_joint_trajectory
cancel_joint_trajectory-after_wait env part handle timeout s advances h =
    after_GoalWait (wait_joint_trajectory env part handle timeout s)
      (wait_joint_trajectory-GoalWait env part handle timeout s advances) h
  where
    untracked :
        (w : World)
        → cancel_joint_trajectory env part
            (record { commands = forget_goal part s.commands; world = w })
          ≡ (ok tt, record { commands = forget_goal part (forget_goal part s.commands); world = w })
    untracked w =
        rw (lookup-without part part s.commands.goal_handles, eq_refl part, cancel_joint_trajectory)
          refl

    after_GoalWait :
        (p : Result (Unit {0}) × Link)
        → GoalWait part timeout (env.result_reply handle) s p
        → p.0 ≡ ok tt
        → let (r, s') = cancel_joint_trajectory env part p.1 in
          (r ≡ ok tt) × (s'.world.requests ≡ s.world.requests)
    after_GoalWait p (goal_answered w st same d e) h = rw untracked (refl, same.requests)
    after_GoalWait p (goal_raised w e same d i) h = absurd (err-ne-ok h)
    after_GoalWait p (goal_late w same d l) h = absurd (err-ne-ok h)
