-- ===== src/Provider/Actions.antt =====
-- src/interfaces/rmi/rmi/provider.py: the trajectory goals of a command client, on action servers.
use physical_ai_runtime.Common.{
  Exec, List, Result, String, canceled_error, controller_error, err, has_key, if◌then◌else◌, insert,
  is_past, lift, lookup, none, not, ok, pure, raise_if, some, stuck_error, timeout_error, true,
  without, ℕ, ℤ, ◌>>=◌, ◌>>◌,
}
use physical_ai_runtime.Waiting.{Wait, expired, ready, stuck, wait_loop}
use physical_ai_runtime.Messages.{JointTrajectory, Value}
use physical_ai_runtime.World.{
  Environment, GoalHandle, GoalStatus, World, aborted, cancel_request, canceled, goal_request,
  other_status, pause, rounds, send_request, succeeded, wait_future,
}
use physical_ai_runtime.Commands.{joint_trajectory_from_spec}
use physical_ai_runtime.Provider.{CommandClient, Link, require_binding}

-- `_wait_ready`: poll the action server.
abbrev pub server_result : Wait World → Result (Unit {0}) × World
server_result (ready w) = (ok tt, w)
server_result (expired w) = (err timeout_error, w)
server_result (stuck w) = (err stuck_error, w)

unfoldable pub wait_ready : Environment → ℤ → String → Exec World (Unit {0})
wait_ready env timeout endpoint w = server_result (
    wait_loop (rounds timeout) (λ v. env.server_ready endpoint v.now)
      (λ v. is_past w.now timeout v.now) (pause env) w)

-- An action of the world alone, from within a link.
abbrev pub on_world : {A : Type 0} → Exec World A → Exec Link A
on_world m s = let (r, w) = m s.world in (r, record s { world = w })

abbrev pub on_commands : (CommandClient → CommandClient) → Exec Link (Unit {0})
on_commands f s = (ok tt, record s { commands = f s.commands })

-- The action client of a part, created on its first use.
abbrev pub open_client : String → String → CommandClient → CommandClient
open_client part endpoint c =
    if has_key part c.action_clients
    then c
    else record c { action_clients = insert part endpoint c.action_clients }

abbrev pub client_endpoint : String → String → CommandClient → String
client_endpoint part endpoint c = elim (lookup part c.action_clients) [
  | none ↦ endpoint
  | some e ↦ e
]

-- The goal leaves, and its handle is awaited.
unfoldable pub call_goal :
    Environment → ℤ → String → String → String → JointTrajectory → Exec World GoalHandle
call_goal env timeout lease_id part endpoint m w =
    let w' = send_request (goal_request lease_id part endpoint w.now m) w in
    wait_future env timeout (env.goal_reply w'.requests) w'

unfoldable pub remember_goal : String → ℕ → CommandClient → CommandClient
remember_goal part handle c = record c { goal_handles = insert part handle c.goal_handles }

unfoldable pub forget_goal : String → CommandClient → CommandClient
forget_goal part c = record c { goal_handles = without part c.goal_handles }

-- The end of `start_joint_trajectory`: a goal that the server refused is not tracked.
unfoldable pub keep_handle : String → GoalHandle → Exec Link GoalHandle
keep_handle part handle = do
  raise_if (not handle.accepted) controller_error
  on_commands (remember_goal part handle.id)
  pure handle

-- The server is awaited, the goal leaves, and its handle is kept.
unfoldable pub launch_goal : Environment → String → String → JointTrajectory → Exec Link GoalHandle
launch_goal env part endpoint m s =
    let c = s.commands in
    (do
      on_world (wait_ready env c.timeout endpoint)
      handle ← on_world (call_goal env c.timeout c.lease_id part endpoint m)
      keep_handle part handle)
      s

unfoldable pub start_joint_trajectory :
    Environment → String → Value → List String → Exec Link GoalHandle
start_joint_trajectory env part v joint_names = do
  b ← (λ s. (require_binding s.commands part "joint_trajectory", s))
  m ← lift (joint_trajectory_from_spec v joint_names true)
  on_commands (open_client part b.endpoint)
  (λ s. launch_goal env part (client_endpoint part b.endpoint s.commands) m s)

unfoldable pub status_result : GoalStatus → Result (Unit {0})
status_result succeeded = ok tt
status_result canceled = err canceled_error
status_result aborted = err controller_error
status_result (other_status n) = err controller_error

-- A timeout leaves the goal tracked. A result forgets whichever goal the part has.
unfoldable pub wait_joint_trajectory : Environment → String → ℕ → ℤ → Exec Link (Unit {0})
unfolding status_result forget_goal
wait_joint_trajectory env part handle timeout = do
  s ← on_world (wait_future env timeout (env.result_reply handle))
  on_commands (forget_goal part)
  lift (status_result s)

unfoldable pub call_cancel : Environment → ℤ → ℕ → Exec World (Unit {0})
call_cancel env timeout handle w =
    let w' = send_request (cancel_request handle) w in
    wait_future env timeout (env.cancel_reply w'.requests) w'

unfoldable pub cancel_joint_trajectory : Environment → String → Exec Link (Unit {0})
unfolding forget_goal
cancel_joint_trajectory env part s =
    let s' = record s { commands = forget_goal part s.commands } in
    elim (lookup part s.commands.goal_handles) [
      | none ↦ (ok tt, s')
      | some handle ↦ on_world (call_cancel env s.commands.timeout handle) s'
    ]
