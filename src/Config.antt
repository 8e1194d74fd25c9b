-- ===== src/Config.antt =====
-- src/interfaces/rmi/rmi/config.py: the values of a profile and the checks on them. The profile is
-- built in Profile.antt. A key is a text, and a number with a fraction counts in 10^-9.
pub mod Agents
pub mod Profile
pub mod Loops
pub mod Parts
pub mod Valid
pub mod Joints
use physical_ai_runtime.Common.Try.{refuse_if, traverse, ◌>>=◌, ◌>>◌}
use physical_ai_runtime.Common.{
  Bool, Dict, List, Option, Result, String, [], err, has_key, if◌then◌else◌, is_empty, lookup, none,
  not, ok, some, type_error, value_error, ℤ, ◌&&◌, ◌==◌, ◌∷◌,
}
use physical_ai_runtime.Controllers.Factory.{ControllerConfig}

-- What `yaml.safe_load` gives.
mutual
  pub data Json : Type 0 where
    null : Json
    boolean : Bool → Json
    integer : ℤ → Json
    decimal : ℤ → Json
    text_value : String → Json
    sequence : Items → Json
    mapping : Fields → Json

  pub data Items : Type 0 where
    no_items : Items
    item : Json → Items → Items

  pub data Fields : Type 0 where
    no_fields : Fields
    field : String → Json → Fields → Fields

abbrev pub items_of : Items → List Json
items_of no_items = []
items_of (item v vs) = v ∷ items_of vs

abbrev pub fields_of : Fields → Dict Json
fields_of no_fields = []
fields_of (field k v vs) = (k, v) ∷ fields_of vs

-- `d.get(k)`
abbrev pub get : String → Dict Json → Json
get k d = elim (lookup k d) [ none ↦ null | some v ↦ v ]

-- `d.get(k, {})`
abbrev pub get_or_empty : String → Dict Json → Json
get_or_empty k d = elim (lookup k d) [ none ↦ mapping no_fields | some v ↦ v ]

-- `_mapping`
unfoldable pub as_mapping : Json → Result (Dict Json)
as_mapping (mapping fs) = ok (fields_of fs)
as_mapping _ = err type_error

-- `_string`
unfoldable pub as_string : Json → Result String
as_string (text_value s) = if s == "" then err type_error else ok s
as_string _ = err type_error

-- `_optional_string`
unfoldable pub as_optional_string : Json → Result (Option String)
as_optional_string null = ok none
as_optional_string v = as_string v >>= λ s. ok (some s)

abbrev as_endpoint : String × Json → Result (String × String)
as_endpoint (k, v) = do name ← as_string (text_value k); endpoint ← as_string v; ok (k, endpoint)

-- `_endpoints`
unfoldable pub as_endpoints : Json → Result (Dict String)
as_endpoints v = as_mapping v >>= traverse as_endpoint

-- PartConfig
pub record PartConfig : Type 0 where
  pub name : String
  pub part_type : String
  pub joint_names : List String
  pub controller_manager : String
  pub controllers : Dict ControllerConfig
  pub default_controller : String
  pub parent : Option String
  pub base_frame : Option String
  pub flange_frame : Option String
  pub tcp_frame : Option String

-- A loop over the items of a dictionary that builds one with the same keys.
abbrev pub traverse_dict : {A B : Type 0} → (String → A → Result B) → Dict A → Result (Dict B)
traverse_dict f = traverse (λ (k, a). f k a >>= λ b. ok (k, b))

unfoldable pub as_controller : String → Json → Result ControllerConfig
as_controller contract v = do
  d ← as_mapping v
  actions ← as_endpoints (get_or_empty "ros_actions" d)
  topics ← as_endpoints (get_or_empty "ros_topics" d)
  refuse_if (is_empty actions && is_empty topics) value_error
  name ← as_string (get "name" d)
  implementation ← as_string (get "implementation" d)
  command_interface ← as_string (get "command_interface" d)
  ok (record {
    name = name;
    implementation = implementation;
    command_interface = command_interface;
    ros_actions = actions;
    ros_topics = topics;
  })

-- A joint name is a text that is not empty.
abbrev as_joint : Json → Result String
as_joint v = as_string v

unfoldable pub as_joint_names : Json → Result (List String)
as_joint_names (sequence vs) = traverse as_joint (items_of vs)
as_joint_names _ = err type_error

unfoldable pub as_part : String → Json → Result PartConfig
as_part part_name v = do
  d ← as_mapping v
  raw ← as_mapping (get "controllers" d)
  refuse_if (is_empty raw) value_error
  controllers ← traverse_dict as_controller raw
  default ← as_string (get "default_controller" d)
  refuse_if (not (has_key default controllers)) value_error
  joint_names ← as_joint_names (get "joint_names" d)
  part_type ← as_string (get "type" d)
  manager ← as_string (get "controller_manager" d)
  parent ← as_optional_string (get "parent_group" d)
  base_frame ← as_optional_string (get "base_frame" d)
  flange_frame ← as_optional_string (get "flange_frame" d)
  tcp_frame ← as_optional_string (get "tcp_frame" d)
  ok (record {
    name = part_name;
    part_type = part_type;
    joint_names = joint_names;
    controller_manager = manager;
    controllers = controllers;
    default_controller = default;
    parent = parent;
    base_frame = base_frame;
    flange_frame = flange_frame;
    tcp_frame = tcp_frame;
  })
