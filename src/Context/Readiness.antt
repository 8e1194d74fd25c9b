-- ===== src/Context/Readiness.antt =====
-- `Context.wait_until_ready` of src/interfaces/rmi/rmi/context.py, for a call that does not check
-- the cameras: the robot first, then the Execution Manager, then the recovery of authority.
pub mod Outcome
use physical_ai_runtime.Common.{
  Bool, Exec, List, Option, Result, String, err, if◌then◌else◌, ok, some, ℤ, ◌>>=◌, ◌>>◌, ◌||◌,
}
use physical_ai_runtime.World.{Environment, World}
use physical_ai_runtime.Selection.{require_execution_manager}
use physical_ai_runtime.Robot.{Robot}
use physical_ai_runtime.Robot.Readiness.{JointStates, wait_until_ready}
use physical_ai_runtime.Config.Profile.{EmbodimentConfig}
use physical_ai_runtime.Context.Startup.{Startup, prepare_execution}

-- A context with its robot, whose world it shares.
pub record Application : Type 0 where
  pub robot : Robot
  pub config : EmbodimentConfig
  pub timeout : ℤ
  pub prepared : Bool

abbrev pub startup_in : Application → World → Startup
startup_in s w = record { config = s.config; timeout = s.timeout; prepared = s.prepared; world = w }

abbrev pub startup : Application → Startup
startup s = startup_in s s.robot.world

abbrev pub on_robot : {A : Type 0} → Exec Robot A → Exec Application A
on_robot m s = let (r, q) = m s.robot in (r, record s { robot = q })

abbrev pub with_startup : Application → Startup → Application
with_startup s p = record s { robot = record s.robot { world = p.world }; prepared = p.prepared }

abbrev pub done : {A : Type 0} → Result A → Result (Unit {0})
done (ok a) = ok tt
done (err e) = err e

abbrev pub on_world : {A : Type 0} → Exec World A → Exec Application A
on_world m s =
    let (r, w) = m s.robot.world in (r, record s { robot = record s.robot { world = w } })

-- What the call is asked for.
pub record Demands : Type 0 where
  pub timeout : ℤ
  pub check_hardware : Bool
  pub require_manager : Bool
  pub prepare : Bool

abbrev pub manager_step : Environment → Demands → Exec Application (Unit {0})
manager_step env d s =
    if d.require_manager || d.prepare
    then on_world (require_execution_manager env (some d.timeout)) s
    else (ok tt, s)

abbrev pub prepare_step : Environment → Demands → Exec Application (Unit {0})
prepare_step env d s =
    if d.prepare
    then (let (r, p) = prepare_execution env (some d.timeout) (startup s) in
        (done r, with_startup s p))
    else (ok tt, s)

unfoldable pub await_context :
    Environment
    → JointStates
    → Demands
    → Option (Result (List String))
    → Exec Application (Unit {0})
await_context env states d diagnostics = do
  on_robot (wait_until_ready env states d.timeout d.check_hardware diagnostics)
  manager_step env d
  prepare_step env d
