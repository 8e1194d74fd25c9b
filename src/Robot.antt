-- ===== src/Robot.antt =====
-- src/interfaces/rmi/rmi/robot.py: the state of the robot, and the control stack that routes
-- commands to sessions.
pub mod Routing
pub mod Readiness
use physical_ai_runtime.Common.{
  Bool, Dict, Exec, List, Option, Result, String, [], any_of, eqb, err, has_name, if◌then◌else◌,
  is_empty, is_some, leb_ℤ, none, not, ok, or_raise, pos, runtime_error, some, value_error, ℕ, ℤ,
  ◌∷◌,
}
use physical_ai_runtime.Messages.{Action, Value}
use physical_ai_runtime.Authority.{Allocation}
use physical_ai_runtime.World.{Environment, World}
use physical_ai_runtime.Selection.{get_allocations}
use physical_ai_runtime.Provider.{CommandClient}
use physical_ai_runtime.Agent.{Agent, PlanExecution, parts_of}
use physical_ai_runtime.Session.{Scope, Session, new_session}
use physical_ai_runtime.Session.Calls.{act, execute}

-- The latest joint state, and its two times in nanoseconds.
pub record JointState : Type 0 where
  pub joint_names : List String
  pub joint_positions : List ℤ
  pub joint_velocities : List ℤ
  pub joint_efforts : List ℤ

-- The sessions are found by identity. The control stack is in the world.
pub record Robot : Type 0 where
  pub world : World
  pub sessions : ℕ → Session
  pub latest_state : Option JointState
  pub source_time : ℤ
  pub receive_time : ℤ

-- contracts.Observation, as `Robot.state` builds it
pub record Observation : Type 0 where
  pub joints : JointState
  pub source_time : ℤ
  pub receive_time : ℤ
  pub allocations : Dict Allocation

-- `Robot.state` and `get_observation`
unfoldable pub robot_state : Robot → Result Observation
robot_state r = elim r.latest_state [
  | none ↦ err runtime_error
  | some j ↦ ok (record {
    joints = j;
    source_time = r.source_time;
    receive_time = r.receive_time;
    allocations = get_allocations r.world;
  })
]

abbrev pub is_ready : Robot → Bool
is_ready r = is_some r.latest_state

-- A stamp that is not positive is replaced by the time of receipt: the given one, or the clock's.
unfoldable pub update_joint_state : ℤ → Option ℤ → JointState → Robot → Robot
update_joint_state stamp receive_time j r =
    let received : ℤ = elim receive_time [ none ↦ pos r.world.now | some t ↦ t ] in
    record r {
      latest_state = some j;
      source_time = if leb_ℤ stamp (pos 0) then received else stamp;
      receive_time = received;
    }

-- `set(requested_parts) - set(source.parts)` is not empty
abbrev has_unknown : List String → List String → Bool
has_unknown requested known = any_of (λ part. not (has_name part known)) requested

-- Robot.control
unfoldable pub control :
    ℕ → Agent → Option (List String) → Bool → ℤ → Option ℤ → CommandClient → Result Session
control id a parts preempt acquire_timeout period client =
    let requested : List String = elim parts [ none ↦ parts_of a | some ps ↦ ps ] in
    if is_empty requested
    then err value_error
    else if has_unknown requested (parts_of a)
    then err value_error
    else new_session id requested preempt acquire_timeout period client

-- `for session in reversed(self._control_stack)`
unfoldable pub find_session : String → (ℕ → Session) → List ℕ → Option ℕ
find_session part sessions [] = none
find_session part sessions (id ∷ ids) =
    if has_name part (sessions id).parts then some id else find_session part sessions ids

-- `_control_for`: an empty stack and a part that no scope covers both raise a RuntimeError.
unfoldable pub control_for : String → Robot → Result ℕ
control_for part r = or_raise (find_session part r.sessions r.world.stack) runtime_error

abbrev pub scope_of : ℕ → Robot → Scope
scope_of id r = record { session = r.sessions id; world = r.world }

abbrev pub update_session : (ℕ → Session) → ℕ → Session → ℕ → Session
update_session sessions id s j = if eqb id j then s else sessions j

-- A call on one session of the robot.
abbrev pub on_session : {A : Type 0} → ℕ → Exec Scope A → Exec Robot A
on_session id m r =
    let (x, s) = m (scope_of id r) in
    (x, record r { world = s.world; sessions = update_session r.sessions id s.session })

unfoldable pub send_action : (ℕ → Agent) → Action → Option (Dict Allocation) → Exec Robot (Unit {0})
send_action agents action observation r = elim (control_for action.part r) [
  | err e ↦ (err e, r)
  | ok id ↦ on_session id (act (agents id) action observation) r
]

unfoldable pub robot_execute :
    Environment → (ℕ → Agent) → String → Value → Option (Dict Allocation) → Exec Robot PlanExecution
robot_execute env agents part v observation r = elim (control_for part r) [
  | err e ↦ (err e, r)
  | ok id ↦ on_session id (execute env (agents id) part v observation) r
]
