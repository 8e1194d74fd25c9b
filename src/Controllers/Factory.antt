-- ===== src/Controllers/Factory.antt =====
-- The choice of a controller client in controllers.py, and the clients that keep no goal.
use physical_ai_runtime.Common.{
  Dict, List, Option, Option-cases, Result, String, arith, controller_error, eqb, err, has_key,
  if◌then◌else◌, inl, inr, is_empty, is_some, last?, length, lookup, none, not, ok, or_raise, some,
  true, value_error, ℕ, ℤ, ◌&&◌, ◌==◌, ◌||◌, ◌≡◌,
}
use physical_ai_runtime.Messages.{JointPoint, JointTrajectory}
use physical_ai_runtime.World.{GoalHandle}
use physical_ai_runtime.Controllers.Guard.{Guard, new_guard}

-- config.ControllerConfig
pub record ControllerConfig : Type 0 where
  pub name : String
  pub implementation : String
  pub command_interface : String
  pub ros_actions : Dict String
  pub ros_topics : Dict String

-- The five clients, with the endpoints that they were made for.
pub data ControllerClient : Type 0 where
  joint_trajectory_client : String → Guard → ControllerClient
  gripper_client : String → Option ℕ → ControllerClient
  joint_reference_client : String → ControllerClient
  forward_client : String → ControllerClient
  task_space_client : Option String → Option String → ControllerClient

unfoldable pub required_endpoint : Dict String → String → Result String
required_endpoint endpoints key = or_raise (lookup key endpoints) value_error

-- An endpoint that is given and is not the empty text.
abbrev pub configured : Option String → Option String
configured none = none
configured (some e) = if e == "" then none else some e

abbrev made : (String → ControllerClient) → Result String → Result ControllerClient
made f (ok e) = ok (f e)
made f (err d) = err d

unfoldable pub make_task_space : ControllerConfig → Result ControllerClient
make_task_space c =
    let p = configured (lookup "pose_reference" c.ros_topics) in
    let t = configured (lookup "twist_reference" c.ros_topics) in
    if not (is_some p) && not (is_some t) then err value_error else ok (task_space_client p t)

unfoldable pub make_joint_trajectory : ControllerConfig → Result ControllerClient
make_joint_trajectory c =
    made
      (λ e.
        joint_trajectory_client e
          (new_guard (is_some (configured (lookup "trajectory_guard_heartbeat" c.ros_topics)))))
      (required_endpoint c.ros_actions "follow_joint_trajectory")

-- `create` of make_controller_client_factory
unfoldable pub create : String → ControllerConfig → Result ControllerClient
create contract c =
    if has_key "follow_joint_trajectory" c.ros_actions
    then make_joint_trajectory c
    else if has_key "gripper_command" c.ros_actions
    then made (λ e. gripper_client e none) (required_endpoint c.ros_actions "gripper_command")
    else if contract == "joint_space_reference"
    then made joint_reference_client (required_endpoint c.ros_topics "joint_reference")
    else if c.implementation == "forward_command_controller/ForwardCommandController"
    then made forward_client (required_endpoint c.ros_topics "joint_reference")
    else if contract == "task_space_reference"
    then make_task_space c
    else err value_error

-- The endpoints of a client are those that the configuration declares for it.
abbrev pub IsConfigured : ControllerConfig → ControllerClient → Type 0
IsConfigured c (joint_trajectory_client e g) =
    (lookup "follow_joint_trajectory" c.ros_actions ≡ some e)
    × (g ≡ new_guard (is_some (configured (lookup "trajectory_guard_heartbeat" c.ros_topics))))
IsConfigured c (gripper_client e h) = (lookup "gripper_command" c.ros_actions ≡ some e) × (h ≡ none)
IsConfigured c (joint_reference_client e) = lookup "joint_reference" c.ros_topics ≡ some e
IsConfigured c (forward_client e) = lookup "joint_reference" c.ros_topics ≡ some e
IsConfigured c (task_space_client p t) =
    (p ≡ configured (lookup "pose_reference" c.ros_topics))
    × (t ≡ configured (lookup "twist_reference" c.ros_topics))
    × ((is_some p || is_some t) ≡ true)

-- A client that is made has exactly the endpoints that its configuration declares: a trajectory
-- client for every controller with that action, and a task-space client only with a pose or a twist
-- endpoint.
pub create-IsConfigured :
    (contract : String) (c : ControllerConfig) (client : ControllerClient)
    → create contract c ≡ ok client
    → IsConfigured c client
unfolding create make_joint_trajectory make_task_space required_endpoint
create-IsConfigured contract c (joint_trajectory_client e g) h = ground arith
create-IsConfigured contract c (gripper_client e k) h = ground arith
create-IsConfigured contract c (joint_reference_client e) h = ground arith
create-IsConfigured contract c (forward_client e) h = ground arith
create-IsConfigured contract c (task_space_client p t) h = ground arith

-- GripperControllerClient.send: names and positions must be aligned; the handle is kept once the
-- goal is accepted. `dispatch` is how the server and the goal answered.
unfoldable pub gripper_send :
    List String → List ℤ → Result GoalHandle → Option ℕ → Result ℕ × Option ℕ
gripper_send names positions dispatch handle =
    if is_empty names || not (eqb (length names) (length positions))
    then (err value_error, handle)
    else elim dispatch [
      | err e ↦ (err e, handle)
      | ok h ↦ if h.accepted then (ok h.id, some h.id) else (err controller_error, handle)
    ]

-- GripperControllerClient.cancel: the goal is forgotten before the cancel request is answered.
unfoldable pub gripper_cancel :
    Result (Unit {0}) → Option ℕ → Result (Unit {0}) × Option ℕ × Option ℕ
gripper_cancel response none = (ok tt, none, none)
gripper_cancel response (some h) = (response, none, some h)

-- ForwardCommandControllerClient.send: the newest point, complete.
unfoldable pub forward_positions : JointTrajectory → Result (List ℤ)
forward_positions m = if is_empty m.joint_names then err value_error else elim (last? m.points) [
  | none ↦ err value_error
  | some p ↦
      if eqb (length p.positions) (length m.joint_names) then ok p.positions else err value_error
]

-- A forwarded command has a position for every joint, and they are those of the last point.
pub forward_positions-aligned :
    (m : JointTrajectory) {xs : List ℤ}
    → forward_positions m ≡ ok xs
    → (length xs ≡ length m.joint_names)
      × ((p : JointPoint) × (last? m.points ≡ some p) × (p.positions ≡ xs))
unfolding forward_positions
forward_positions-aligned m {xs} h = elim (Option-cases (last? m.points)) [
  | inl no_point ↦ absurd (ground arith)
  | inr (p, e) ↦ (ground arith, (p, e, ground arith))
]

-- TaskSpaceReferenceControllerClient: which of its two publishers a reference leaves on.
unfoldable pub send_pose : Option String → Result String
send_pose endpoint = or_raise endpoint controller_error

unfoldable pub send_twist : Option String → Result String
send_twist endpoint = or_raise endpoint controller_error
