-- ===== src/Examples/Profiles.antt =====
-- Examples of the profile and of the context of an application.
use physical_ai_runtime.World.{pause, send_request, wait_future}
use physical_ai_runtime.Common.{
  List, String, [], false, none, ok, pos, refl, some, true, ℕ, ◌∷◌, ◌≡◌,
}
use physical_ai_runtime.Authority.{
  bind_endpoints, fault, find_binding, has_binding_key, is_state, put_binding, unowned,
}
use physical_ai_runtime.Waiting.{wait_loop}
use physical_ai_runtime.Selection.{
  accept_claim, await_cleared, call_claim, call_release, claim, clear_fault, clear_targets,
  fault_targets, get_allocations, is_complete, is_faulted, is_pending, is_stale, parse_role,
  release, require_execution_manager,
}
use physical_ai_runtime.Config.{
  Fields, Json, PartConfig, as_controller, as_endpoints, as_joint_names, as_mapping,
  as_optional_string, as_part, as_string, field, fields_of, item, mapping, no_fields, no_items,
  sequence, text_value,
}
use physical_ai_runtime.Config.Loops.{All}
use physical_ai_runtime.Config.Parts.{IsName}
use physical_ai_runtime.Config.Agents.{
  as_agent, as_agents, as_frequency, as_resource, is_available, offers,
}
use physical_ai_runtime.Config.Profile.{
  EmbodimentConfig, Loader, as_cameras, as_groups, as_parts, bind_contract, bind_routing, from_dict,
  get_part_joints, with_parts,
}
use physical_ai_runtime.Config.Valid.{IsProfile, from_dict-IsProfile}
use physical_ai_runtime.Config.Joints.{get_part_joints-ends}
use physical_ai_runtime.Context.{Context, command_contracts}
use physical_ai_runtime.Context.Readiness.{Application, Demands}
use physical_ai_runtime.Robot.Readiness.{JointStates}
use physical_ai_runtime.Context.Startup.{
  Startup, await_snapshot, clear_faulted, faulted_contracts, prepare_execution, recover, startup_of,
}
use physical_ai_runtime.Context.Startup.Recoveries.{Prepared, prepare_execution-Prepared}
use physical_ai_runtime.Examples.{arm_robot, env, world_with}

abbrev plain_loader : Loader
plain_loader = record {
  upper = λ s. s;
  str_of = λ v. "";
  int_of = λ v. ok (pos 30);
  load_groups = λ v. ok v;
  resolve_contract = λ v. ok "";
}

abbrev controller_fields : Fields
controller_fields = field "name" (text_value "jrc") (
    field "implementation" (text_value "joint_reference") (
      field "command_interface" (text_value "position") (
        field "ros_topics"
          (mapping (field "joint_reference" (text_value "/arm/reference") no_fields)) no_fields)))

abbrev part_fields : Fields
part_fields = field "type" (text_value "arm") (
    field "controller_manager" (text_value "/controller_manager") (
      field "default_controller" (text_value "joint_reference") (
        field "joint_names" (sequence (item (text_value "j1") no_items)) (
          field "controllers"
            (mapping (field "joint_reference" (mapping controller_fields) no_fields)) no_fields))))

abbrev agent_fields : Fields
agent_fields =
    field "source_role" (text_value "POLICY")
      (field "resources" (mapping (field "arm" (text_value "joint_reference") no_fields)) no_fields)

abbrev arm_profile : Json
arm_profile = mapping (
    field "metadata" (mapping (field "name" (text_value "one_arm") no_fields)) (
      field "groups" (mapping (field "arm" (mapping part_fields) no_fields))
        (field "agents" (mapping (field "policy" (mapping agent_fields) no_fields)) no_fields)))

abbrev pub arm_part : PartConfig
arm_part = record {
  name = "arm";
  part_type = "arm";
  joint_names = "j1" ∷ [];
  controller_manager = "/controller_manager";
  controllers =
      (
        "joint_reference",
        record {
          name = "jrc";
          implementation = "joint_reference";
          command_interface = "position";
          ros_actions = [];
          ros_topics = ("joint_reference", "/arm/reference") ∷ [];
        },
      )
      ∷ [];
  default_controller = "joint_reference";
  parent = none;
  base_frame = none;
  flange_frame = none;
  tcp_frame = none;
}

abbrev arm_config : EmbodimentConfig
arm_config = record {
  name = "one_arm";
  parts = ("arm", arm_part) ∷ [];
  groups = [];
  metadata = ("name", text_value "one_arm") ∷ [];
  host_roles = [];
  cameras = [];
  agents =
      (
        "policy",
        record {
          name = "policy";
          source_role = "POLICY";
          resources = ("arm", "joint_reference") ∷ [];
          frequency = none;
        },
      )
      ∷ [];
  recording = [];
  features = [];
  calibration = [];
  streams = [];
  raw_data = fields_of (
      field "metadata" (mapping (field "name" (text_value "one_arm") no_fields)) (
        field "groups" (mapping (field "arm" (mapping part_fields) no_fields))
          (field "agents" (mapping (field "policy" (mapping agent_fields) no_fields)) no_fields)));
}

arm_profile-read : from_dict plain_loader arm_profile ≡ ok arm_config
unfolding from_dict as_mapping bind_routing bind_contract as_string as_parts as_part as_controller
    as_endpoints as_joint_names as_optional_string with_parts as_groups as_agents as_agent
    as_resource offers as_frequency is_available as_cameras
arm_profile-read = refl

from_dict-IsProfile_example : IsProfile arm_config
from_dict-IsProfile_example = from_dict-IsProfile plain_loader arm_profile arm_profile-read

get_part_joints-ends_example :
    (js : List String) × (get_part_joints 2 arm_config "arm" ≡ some js) × All IsName js
get_part_joints-ends_example = get_part_joints-ends plain_loader arm_profile arm_profile-read "arm"

abbrev arm_context : Context ℕ
arm_context = record {
  config = arm_config;
  timeout = pos 5;
  robot = 0;
  prepared = false;
  agents = [];
  cameras = [];
  sensors = [];
}

-- The arm is in FAULT.
abbrev arm_startup : Startup
arm_startup = startup_of arm_context (record (world_with fault "" []) {
  client = record (world_with fault "" []).client { timeout = pos 2 };
})

prepare_execution-Prepared_example :
    let s' = (prepare_execution env none arm_startup).1 in
    (s'.prepared ≡ true)
    × Prepared env (pos 5) arm_startup s'
    × (prepare_execution env none s' ≡ (ok (get_allocations s'.world), s'))
unfolding prepare_execution recover require_execution_manager await_snapshot wait_loop
    get_allocations clear_faulted faulted_contracts command_contracts is_faulted clear_fault
    fault_targets clear_targets claim parse_role call_claim wait_future accept_claim is_complete
    bind_endpoints put_binding has_binding_key release call_release send_request find_binding
    is_state await_cleared is_pending is_stale pause
prepare_execution-Prepared_example = prepare_execution-Prepared env none arm_startup refl

-- A robot that has a joint state, and hardware that is well.
abbrev arm_application : Application
arm_application = record {
  robot = record arm_robot {
    world = world_with unowned "" [];
    latest_state = some (record {
      joint_names = [];
      joint_positions = [];
      joint_velocities = [];
      joint_efforts = [];
    });
  };
  config = arm_context.config;
  timeout = pos 5;
  prepared = false;
}

abbrev full_demands : Demands
full_demands = record {
  timeout = pos 5;
  check_hardware = true;
  require_manager = true;
  prepare = true;
}

abbrev silent : JointStates
silent = λ t. []
