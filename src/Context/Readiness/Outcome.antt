-- ===== src/Context/Readiness/Outcome.antt =====
-- `Context.wait_until_ready` of src/interfaces/rmi/rmi/context.py: a call that returns.
use physical_ai_runtime.Common.{
  Dict, List, Option, Result, String, [], false, ok, some, true, ◌||◌, ◌≡◌,
}
use physical_ai_runtime.World.{Environment, World}
use physical_ai_runtime.Authority.{Allocation}
use physical_ai_runtime.World.Clock.{Advances, Since}
use physical_ai_runtime.Robot.{Robot, is_ready}
use physical_ai_runtime.Robot.Readiness.{JointStates, wait_until_ready}
use physical_ai_runtime.Context.Startup.{Startup, prepare_execution}
use physical_ai_runtime.Context.Startup.Recoveries.{Prepared}
use physical_ai_runtime.Context.Readiness.{Application, Demands, startup, startup_in}

-- The robot once its own wait has ended.
abbrev pub waited_robot :
    Environment → JointStates → Demands → Option (Result (List String)) → Robot → Robot
waited_robot env states d diagnostics r =
    (wait_until_ready env states d.timeout d.check_hardware diagnostics r).1

-- What a call that returned has seen to. The Execution Manager is asked for, and the authority is
-- prepared, in the state that the robot's own wait has left.
pub record Started (env : Environment) (states : JointStates) (d : Demands)
    (diagnostics : Option (Result (List String))) (s s' : Application) : Type 0 where
  pub observed : is_ready s'.robot ≡ true
  pub healthy : d.check_hardware ≡ true → diagnostics ≡ some (ok [])
  pub sessions : s'.robot.sessions ≡ s.robot.sessions
  pub since : Since s.robot.world (waited_robot env states d diagnostics s.robot).world
  pub managed :
      d.require_manager || d.prepare ≡ true
      → env.service_up (waited_robot env states d diagnostics s.robot).world.now ≡ true
  pub prepared :
      d.prepare ≡ true
      → (s'.prepared ≡ true)
        × Prepared env d.timeout
            (startup_in s (waited_robot env states d diagnostics s.robot).world)
            (startup s')
  pub unprepared :
      d.prepare ≡ false → s'.robot.world ≡ (waited_robot env states d diagnostics s.robot).world

module _ (env : Environment) (states : JointStates) (advances : Advances env) (d : Demands)
    (diagnostics : Option (Result (List String))) where
  -- The robot after its wait has returned.
  record Waited (r q : Robot) : Type 0 where
    observed : is_ready q ≡ true
    healthy : d.check_hardware ≡ true → diagnostics ≡ some (ok [])
    sessions : q.sessions ≡ r.sessions
    since : Since r.world q.world

  abbrev preparation : Application → Result (Dict Allocation) × Startup
  preparation s = prepare_execution env (some d.timeout) (startup s)
