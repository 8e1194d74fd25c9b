-- ===== src/Agent.antt =====
-- src/interfaces/rmi/rmi/agent.py: one action-producing participant, and the handle of a plan that
-- it executes.
pub mod Executions
use physical_ai_runtime.Common.{
  Bool, Dict, Exec, List, Option, Result, String, canceled_error, cancelled_error, err, false,
  if◌then◌else◌, is_empty, keys, lift, lookup, none, not, not_implemented_error, ok, pure, some,
  timeout_error, true, type_error, value_error, ℕ, ℤ, ◌==◌, ◌>>=◌, ◌>>◌,
}
use physical_ai_runtime.Messages.{
  Action, Value, cartesian_trajectory, joint_horizon, joint_trajectory, nothing, plan, pose_horizon,
}
use physical_ai_runtime.World.{Environment}
use physical_ai_runtime.Selection.{RoleSpec}
use physical_ai_runtime.Commands.{check_kind, is_invalid}
use physical_ai_runtime.Provider.{Link, PartFrames, send}
use physical_ai_runtime.Provider.Actions.{
  cancel_joint_trajectory, start_joint_trajectory, wait_joint_trajectory,
}

-- Agent, less its own command client and robot, which the sessions hold. `config` is the part of
-- the profile that `_part_joint_names` reads.
pub record Agent : Type 0 where
  pub name : String
  pub source_role : RoleSpec
  pub source_instance : String
  pub metadata : Dict String
  pub resources : Dict String
  pub frequency : Option ℤ
  pub config : Option (Dict PartFrames)

-- `Agent.parts`
abbrev pub parts_of : Agent → List String
parts_of a = keys a.resources

-- Agent.send: the tests of the agent, then those of the command client.
abbrev is_nothing : Value → Bool
is_nothing nothing = true
is_nothing _ = false

unfoldable pub check_action : Action → Result (Unit {0})
check_action a =
    if a.command == "joint_trajectory"
    then err not_implemented_error
    else if is_nothing a.value
    then ok tt
    else if is_invalid a.value
    then err value_error
    else check_kind a.value a.command

unfoldable pub agent_send : Action → Exec Link (Unit {0})
agent_send a s = elim (check_action a) [
  | err e ↦ (err e, s)
  | ok u ↦ send a.part a.command a.value s
]

-- `plan.points`: whether there are any, or `none` where the value has no list of points.
abbrev has_points : Value → Option Bool
has_points (joint_trajectory m) = some (not (is_empty m.points))
has_points (cartesian_trajectory m) = some (not (is_empty m.points))
has_points (plan p) = some (not (is_empty p.points))
has_points (joint_horizon r) = some (not (is_empty r.points))
has_points (pose_horizon r) = some (not (is_empty r.points))
has_points _ = none

unfoldable pub check_plan : Value → Result (Unit {0})
check_plan v = elim (has_points v) [
  | none ↦ err type_error
  | some pointed ↦
      if is_invalid v then err value_error else if pointed then ok tt else err value_error
]

-- `_part_joint_names`
unfoldable pub part_joint_names : Agent → String → Result (List String)
part_joint_names a part = elim a.config [
  | none ↦ err value_error
  | some parts ↦ elim (lookup part parts) [ none ↦ err value_error | some f ↦ ok f.joint_names ]
]

pub data ExecutionState : Type 0 where
  accepted completed cancel_requested canceled_state failed timed_out : ExecutionState

-- PlanExecution, less its feedback
pub record PlanExecution : Type 0 where
  pub part : String
  pub handle : ℕ
  pub state : ExecutionState
  pub done : Bool
  pub canceled : Bool
  pub requested : Bool

abbrev pub new_execution : String → ℕ → PlanExecution
new_execution part handle = record {
  part = part;
  handle = handle;
  state = accepted;
  done = false;
  canceled = false;
  requested = false;
}

unfoldable pub agent_execute : Environment → Agent → String → Value → Exec Link PlanExecution
agent_execute env a part v = do
  lift (check_plan v)
  names ← lift (part_joint_names a part)
  handle ← start_joint_trajectory env part v names
  pure (new_execution part handle.id)

-- A plan execution with the client that it was started on.
pub record Running : Type 0 where
  pub execution : PlanExecution
  pub link : Link

-- The handlers of `PlanExecution.wait`. The answer is whether there is a result, or `None`.
unfoldable pub settle : Result (Unit {0}) → PlanExecution → Result Bool × PlanExecution
settle (ok u) x = (ok true, record x { done = true; state = completed })
settle (err timeout_error) x = (err timeout_error, record x { state = timed_out })
settle (err canceled_error) x =
    let x' = record x { done = true; canceled = true; state = canceled_state } in
    (if x.requested then ok false else err canceled_error, x')
settle (err cancelled_error) x = (err cancelled_error, x)
settle (err e) x = (err e, record x { state = failed })

unfoldable pub wait_execution : Environment → ℤ → Exec Running Bool
unfolding settle
wait_execution env timeout r =
    let (outcome, link) =
      wait_joint_trajectory env r.execution.part r.execution.handle timeout r.link in
    let (answer, x) = settle outcome r.execution in (answer, record { execution = x; link = link })

unfoldable pub mark_canceled : PlanExecution → PlanExecution
mark_canceled x = record x { canceled = true; requested = true; state = cancel_requested }

unfoldable pub cancel_execution : Environment → Exec Running (Unit {0})
unfolding mark_canceled
cancel_execution env r =
    let (outcome, link) = cancel_joint_trajectory env r.execution.part r.link in
    elim outcome [
      | err e ↦ (err e, record r { link = link })
      | ok u ↦ (ok tt, record { execution = mark_canceled r.execution; link = link })
    ]
