-- ===== src/Examples.antt =====
-- One arm, one policy and an Execution Manager that grants what is asked for: the data on which the
-- examples below run.
pub mod Sessions
pub mod Goals
pub mod Clients
pub mod Profiles
pub mod Records
pub mod Operators
pub mod Replays
pub mod Lifetimes
pub mod Demonstrations
use physical_ai_runtime.Common.{
  Bool, Dict, List, Option, String, [], arith, false, none, ok, pos, refl, some, true,
  true_ne_false, ℕ, ◌+◌, ◌∷◌,
}
use physical_ai_runtime.Waiting.{Future}
use physical_ai_runtime.Messages.{Action, JointPoint, JointTrajectory, joint_trajectory}
use physical_ai_runtime.Authority.{
  Allocation, AuthorityState, EndpointBinding, SourceRole, find_binding, owned, planner, policy,
  teleop, unowned,
}
use physical_ai_runtime.World.{Environment, World, succeeded}
use physical_ai_runtime.World.Clock.{Advances}
use physical_ai_runtime.Selection.{text}
use physical_ai_runtime.Provider.{CommandClient, Link, PartFrames, new_client}
use physical_ai_runtime.Provider.Sending.{IsLinked}
use physical_ai_runtime.Agent.{Agent, accepted}
use physical_ai_runtime.Session.{Scope, Session}
use physical_ai_runtime.Session.Acting.{IsCoherent}
use physical_ai_runtime.Robot.{Robot}

abbrev pub reference_binding : EndpointBinding
reference_binding = record {
  resource = "arm";
  command_contract = "joint_reference";
  endpoint = "/arm/reference";
  is_action = false;
}

abbrev pub trajectory_binding : EndpointBinding
trajectory_binding = record {
  resource = "arm";
  command_contract = "joint_trajectory";
  endpoint = "/arm/follow";
  is_action = true;
}

abbrev pub arm_resources : Dict String
arm_resources = ("arm", "joint_reference") ∷ []

abbrev answered_with : {A : Type 0} → A → Future A
answered_with a = record { done_at = λ t. true; outcome = ok a }

abbrev pub role_number : SourceRole → ℕ
role_number policy = 0
role_number teleop = 1
role_number planner = 2

abbrev pub env : Environment
env = record {
  tick = λ t. t + 1;
  arrivals = λ t. [];
  service_up = λ t. true;
  server_ready = λ e t. true;
  role_code = role_number;
  claim_reply = λ q.
      answered_with
        (some (record { success = true; lease_id = "L1"; endpoints = reference_binding ∷ [] }));
  release_reply = λ q. answered_with (some true);
  goal_reply = λ q. answered_with (record { id = 7; accepted = true });
  result_reply = λ h. answered_with succeeded;
  cancel_reply = λ q. answered_with tt;
}

pub env-Advances : Advances env
env-Advances t = omega arith

abbrev pub allocation_in : AuthorityState → String → Allocation
allocation_in state lease = record {
  authority_state = state;
  lease_id = lease;
  source_role = 0;
  source_instance = "policy";
  command_contract = "joint_reference";
  requested_controller = "";
  observed_controllers = [];
}

abbrev pub world_with : AuthorityState → String → List ℕ → World
world_with state lease stack = record {
  now = 10;
  client = record {
    timeout = pos 100;
    status_timeout = pos 100;
    last_status = some 5;
    allocations = ("arm", allocation_in state lease) ∷ [];
    events = [];
  };
  requests = [];
  outbox = [];
  stack = stack;
}

abbrev pub frames : PartFrames
frames = record { joint_names = "j1" ∷ []; base_frame = some "base"; tcp_frame = some "tool" }

abbrev pub idle_commands : CommandClient
idle_commands = new_client arm_resources (some (("arm", frames) ∷ [])) (pos 100)

abbrev pub bound_commands : CommandClient
bound_commands = record idle_commands {
  lease_id = "L1";
  bindings = reference_binding ∷ trajectory_binding ∷ [];
}

pub idle_commands-IsLinked : IsLinked idle_commands
unfolding find_binding
idle_commands-IsLinked = record { bound = λ part command p h. cc; idle = λ h. refl }

pub bound_commands-IsLinked : IsLinked bound_commands
unfolding find_binding
bound_commands-IsLinked = record { bound = λ part command p h. cc; idle = λ h. refl }

abbrev pub arm_agent : Agent
arm_agent = record {
  name = "policy";
  source_role = text "POLICY";
  source_instance = "policy";
  metadata = [];
  resources = arm_resources;
  frequency = none;
  config = some (("arm", frames) ∷ []);
}

abbrev session_with : CommandClient → Option String → Bool → Session
session_with commands lease entered = record {
  id = 1;
  parts = "arm" ∷ [];
  preempt = false;
  acquire_timeout = pos 3;
  period = some (pos 10);
  lease_id = lease;
  diagnostics = record {
    sent = 0;
    inactive_drops = 0;
    stale_observation_drops = 0;
    displaced_exits = 0;
  };
  entered = entered;
  commands = commands;
  next_deadline = none;
}

-- A session that has not been entered, and one that owns the arm.
abbrev pub fresh_scope : Scope
fresh_scope = record {
  session = session_with idle_commands none false;
  world = world_with unowned "" [];
}

abbrev pub running_scope : Scope
running_scope = record {
  session = session_with bound_commands (some "L1") true;
  world = world_with owned "L1" (1 ∷ []);
}

pub fresh_scope-IsCoherent : IsCoherent fresh_scope.session
fresh_scope-IsCoherent = record {
  linked = idle_commands-IsLinked;
  leased = λ h. absurd (true_ne_false h);
  unbound = λ h. refl;
}

pub running_scope-IsCoherent : IsCoherent running_scope.session
running_scope-IsCoherent = record {
  linked = bound_commands-IsLinked;
  leased = λ h. refl;
  unbound = λ h. absurd (true_ne_false h);
}

abbrev pub one_second : JointPoint
one_second = record {
  positions = pos 1 ∷ [];
  velocities = [];
  accelerations = [];
  time_from_start = record { sec = pos 1; nanosec = 0 };
}

abbrev pub arm_motion : JointTrajectory
arm_motion = record { stamp = 0; joint_names = "j1" ∷ []; points = one_second ∷ [] }

abbrev pub move : Action
move = record { part = "arm"; command = "joint_reference"; value = joint_trajectory arm_motion }

abbrev pub arm_link : Link
arm_link = record { commands = bound_commands; world = world_with owned "L1" [] }

abbrev pub arm_robot : Robot
arm_robot = record {
  world = world_with owned "L1" (1 ∷ []);
  sessions = λ id. running_scope.session;
  latest_state = none;
  source_time = pos 0;
  receive_time = pos 0;
}
