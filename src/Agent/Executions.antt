-- ===== src/Agent/Executions.antt =====
-- The handle of an executed plan in agent.py: `done`, `wait` and `cancel`.
use physical_ai_runtime.Common.{
  Bool, Bool-cases, Error, Result, String, ap, arith, canceled_error, cancelled_error,
  controller_error, err, err-injective, err-ne-ok, false, inl, inr, is_past, ok, refl, sym,
  timeout_error, true, true_ne_false, ℕ, ℤ, ◌∙◌, ◌≡◌, ◌⊎◌,
}
use mathlib.Core.Path.{subst}
use physical_ai_runtime.Waiting.{Future}
use physical_ai_runtime.World.Clock.{Advances}
use physical_ai_runtime.Provider.{Link}
use physical_ai_runtime.Provider.Goals.Waits.{
  GoalWait, goal_answered, goal_late, goal_raised, wait_joint_trajectory-GoalWait,
}
use physical_ai_runtime.World.{Environment, GoalStatus, aborted, canceled, other_status, succeeded}
use physical_ai_runtime.Provider.Actions.{status_result}
use physical_ai_runtime.Agent.{
  PlanExecution, Running, cancel_execution, canceled_state, completed, failed, mark_canceled,
  settle, timed_out, wait_execution,
}

-- The goal was canceled, or its future raised the cancellation.
abbrev pub IsCanceled : Future GoalStatus → Type 0
IsCanceled future = (future.outcome ≡ ok canceled) ⊎ (future.outcome ≡ err canceled_error)

-- The goal ended neither with success nor canceled, which is a ControllerClientError; or its future
-- raised `e`.
abbrev pub FailedWith : Future GoalStatus → Error → Type 0
FailedWith future e =
    (((future.outcome ≡ ok aborted) ⊎ ((n : ℕ) × (future.outcome ≡ ok (other_status n))))
      × (e ≡ controller_error))
    ⊎ (future.outcome ≡ err e)

-- The goal is open at a time after the deadline, or its future raised a TimeoutError.
abbrev pub TimedOut : Future GoalStatus → ℕ → ℤ → ℕ → Type 0
TimedOut future start timeout stop =
    ((future.done_at stop ≡ false) × (is_past start timeout stop ≡ true))
    ⊎ ((future.done_at stop ≡ true) × (future.outcome ≡ err timeout_error))

-- How a wait for an execution ends, by what its goal came to. The cancellation of the goal is
-- absorbed exactly if it was requested by this execution; a timeout leaves the execution open. A
-- wait from `start` to `stop` times out where the goal is open at the deadline, or where its future
-- raises a TimeoutError.
pub data Waited (x : PlanExecution) (future : Future GoalStatus) (start : ℕ) (timeout : ℤ)
    (stop : ℕ) : Result Bool × PlanExecution → Type 0 where
  finished :
      future.done_at stop ≡ true
      → future.outcome ≡ ok succeeded
      → Waited x future start timeout stop (ok true, record x { done = true; state = completed })
  absorbed :
      future.done_at stop ≡ true
      → IsCanceled future
      → x.requested ≡ true
      → Waited x future start timeout stop
          (ok false, record x { done = true; canceled = true; state = canceled_state })
  canceled_elsewhere :
      future.done_at stop ≡ true
      → IsCanceled future
      → x.requested ≡ false
      → Waited x future start timeout stop
          (err canceled_error, record x { done = true; canceled = true; state = canceled_state })
  still_running :
      TimedOut future start timeout stop
      → Waited x future start timeout stop (err timeout_error, record x { state = timed_out })
  -- a cancellation of the waiting task itself is no `Exception`
  interrupted :
      future.done_at stop ≡ true
      → future.outcome ≡ err cancelled_error
      → Waited x future start timeout stop (err cancelled_error, x)
  failed_with :
      (e : Error)
      → future.done_at stop ≡ true
      → FailedWith future e
      → ¬ (e ≡ canceled_error)
      → ¬ (e ≡ timeout_error)
      → Waited x future start timeout stop (err e, record x { state = failed })

module _ (x : PlanExecution) (future : Future GoalStatus) (start : ℕ) (timeout : ℤ) where
  settle-canceled :
      (stop : ℕ)
      → future.done_at stop ≡ true
      → IsCanceled future
      → Waited x future start timeout stop (settle (err canceled_error) x)
  unfolding settle
  settle-canceled stop d c = elim (Bool-cases x.requested) [
    | inl h ↦ rw h (absorbed d c refl)
    | inr h ↦ rw h (canceled_elsewhere d c refl)
  ]

  settle-answered :
      (stop : ℕ) (st : GoalStatus)
      → future.done_at stop ≡ true
      → future.outcome ≡ ok st
      → Waited x future start timeout stop (settle (status_result st) x)
  unfolding settle status_result
  settle-answered stop succeeded d h = finished d h
  settle-answered stop canceled d h = settle-canceled stop d (inl h)
  settle-answered stop aborted d h =
      failed_with controller_error d (inl (inl h, refl)) (λ e. cc) (λ e. cc)
  settle-answered stop (other_status n) d h =
      failed_with controller_error d (inl (inr (n, h), refl)) (λ e. cc) (λ e. cc)

  settle-raised :
      (stop : ℕ) (e : Error)
      → future.done_at stop ≡ true
      → future.outcome ≡ err e
      → Waited x future start timeout stop (settle (err e) x)
  unfolding settle
  settle-raised stop timeout_error d h = still_running (inr (d, h))
  settle-raised stop canceled_error d h = settle-canceled stop d (inr h)
  settle-raised stop cancelled_error d h = interrupted d h
  settle-raised stop e d h = failed_with e d (inr h) (λ q. cc) (λ q. cc)

  settle-late :
      (stop : ℕ)
      → future.done_at stop ≡ false
      → is_past start timeout stop ≡ true
      → Waited x future start timeout stop (settle (err timeout_error) x)
  unfolding settle
  settle-late stop d l = still_running (inl (d, l))

  settle-Waited :
      (part : String) (s : Link) (p : Result (Unit {0}) × Link)
      → s.world.now ≡ start
      → GoalWait part timeout future s p
      → Waited x future start timeout p.1.world.now (settle p.0 x)
  settle-Waited part s p e (goal_answered w st same d h) = settle-answered w.now st d h
  settle-Waited part s p e (goal_raised w x same d h) = settle-raised w.now x d h
  settle-Waited part s p e (goal_late w same d l) =
      settle-late w.now d (subst (λ n. is_past n timeout w.now ≡ true) e l)

pub wait_execution-Waited :
    (env : Environment) (timeout : ℤ) (r : Running)
    → Advances env
    → let (answer, r') = wait_execution env timeout r in
      Waited r.execution
        (env.result_reply r.execution.handle)
        r.link.world.now
        timeout
        r'.link.world.now
        (answer, r'.execution)
unfolding wait_execution
wait_execution-Waited env timeout r advances =
    settle-Waited r.execution (env.result_reply r.execution.handle) r.link.world.now timeout
      r.execution.part r.link _ refl
      (wait_joint_trajectory-GoalWait env r.execution.part r.execution.handle timeout r.link
        advances)

requested-not_raised :
    (x : PlanExecution) (future : Future GoalStatus) (start : ℕ) (timeout : ℤ) (stop : ℕ)
    (p : Result Bool × PlanExecution)
    → Waited x future start timeout stop p
    → x.requested ≡ true
    → ¬ (p.0 ≡ err canceled_error)
requested-not_raised x future start timeout stop p (finished d i) h e = err-ne-ok (sym e)
requested-not_raised x future start timeout stop p (absorbed d i q) h e = err-ne-ok (sym e)
requested-not_raised x future start timeout stop p (canceled_elsewhere d i q) h e =
    true_ne_false (sym h ∙ q)
requested-not_raised x future start timeout stop p (still_running i) h e = cc
requested-not_raised x future start timeout stop p (interrupted d i) h e = cc
requested-not_raised x future start timeout stop p (failed_with i d w c t) h e = c (err-injective e)

canceled-execution :
    (env : Environment) (r : Running) {r' : Running}
    → cancel_execution env r ≡ (ok tt, r')
    → r'.execution ≡ mark_canceled r.execution
unfolding cancel_execution
canceled-execution env r h = ground arith

-- Where the clock advances, once an execution was canceled through its handle, a wait for it never
-- raises the cancellation. The execution is then marked as canceled on request.
pub wait_execution-after_cancel :
    (env : Environment) (timeout : ℤ) (r : Running) {r' : Running}
    → Advances env
    → cancel_execution env r ≡ (ok tt, r')
    → (r'.execution ≡ mark_canceled r.execution)
      × ¬ ((wait_execution env timeout r').0 ≡ err canceled_error)
unfolding mark_canceled
wait_execution-after_cancel env timeout r {r' = r'} advances h =
    let e = canceled-execution env r h in
    (
      e,
      requested-not_raised r'.execution (env.result_reply r'.execution.handle) r'.link.world.now
          timeout _ _ (wait_execution-Waited env timeout r' advances) (ap (λ x. x.requested) e),
    )
